-- ===== src/Ssd.antt =====
-- The class `ssd` of ostep-homework-master/file-ssd/ssd.py: a flash device of blocks of pages with three
-- translation layers (direct, logging, ideal), trim and a garbage collector.
--
-- A dictionary over 0..n-1 is a function, and a key that is missing is a KeyError at the counter of
-- its block. A -1 in the maps and in `current_page` is `none`. Data is a character code; ' ' is 32.
-- `live_count` is never written and is left out, and so are the times of the operations, which
-- only `stats` reads, and the flags that say what is printed.
pub mod Device
pub mod Collector
pub mod Blocks
pub mod Sound
pub mod Erase
pub mod Cursor
pub mod Writes
pub mod Client
pub mod Live
pub mod Moves
pub mod Cleaning
pub mod Collect
mod Tests
use life.Prelude.{
  ℕ, zero, suc, ◌+◌, ◌-◌, ◌*◌, ◌/◌, ◌%◌, Bool, true, false, ◌&&◌, not, Option, none, some, List, [],
  ◌∷◌, ◌++◌, ltb, leb, ◌==◌, if◌then◌else◌, length, Result, ok, raise, ◌>>=◌, assertion_error,
  key_error,
}
use life.Ssd.Device.{
  Ssd, SsdType, direct, logging, ideal, PageState, invalid, erased, valid, is_valid, is_erased,
  update, physical_erase, physical_program, physical_read,
}

-- What `read`, `write` and `trim` return.
pub data Answer : Type 0 where
  success device_full illegal uninitialized : Answer
  contains : ℕ → Answer

-- The numbers from `a` on.
abbrev pub range : ℕ → ℕ → List ℕ
range a zero = []
range a (suc n) = a ∷ range (a + 1) n

-- The loop of `write_direct` that reads the valid pages of the block.
unfoldable pub save_pages : ℕ → ℕ → Ssd → Result (Ssd × List (ℕ × ℕ))
save_pages page zero s = ok (s, [])
save_pages page (suc n) s =
    let skip = save_pages (page + 1) n s in
    if is_valid (s.state page)
    then (do
      (s', old) ← physical_read page s
      (s'', rest) ← save_pages (page + 1) n s'
      ok (s'', (page, old) ∷ rest))
    else skip

-- The loop that programs them again, but for the one that is written.
unfoldable pub restore_pages : ℕ → List (ℕ × ℕ) → Ssd → Result Ssd
restore_pages address [] s = ok s
restore_pages address ((page, old) ∷ rest) s =
    let skip = restore_pages address rest s in
    if page == address
    then skip
    else (do s' ← physical_program page old s; restore_pages address rest s')

-- The last lines of `write_direct` and `write_ideal`.
unfoldable pub map_to_self : ℕ → Ssd → Ssd
map_to_self address s = record s {
  forward_map = update s.forward_map address (some address);
  reverse_map = update s.reverse_map address (some address);
}

unfoldable pub write_direct : ℕ → ℕ → Ssd → Result (Ssd × Answer)
write_direct address value s = do
  let block = address / s.pages_per_block
  (s1, old_list) ← save_pages (block * s.pages_per_block) s.pages_per_block s
  s2 ← physical_erase block s1
  s3 ← restore_pages address old_list s2
  s4 ← physical_program address value s3
  ok (map_to_self address s4, success)

unfoldable pub write_ideal : ℕ → ℕ → Ssd → Result (Ssd × Answer)
write_ideal address value s = do
  s' ← physical_program address value s
  ok (map_to_self address s', success)

-- The assignments of `is_block_free` to a block that it takes.
abbrev pub take_block : ℕ → Ssd → Ssd
take_block block s = record s {
  current_block = block;
  current_page = some (block * s.pages_per_block);
  gc_used_blocks = update s.gc_used_blocks block 1;
}

unfoldable pub is_block_free : ℕ → Ssd → Result (Ssd × Bool)
is_block_free block s = elim (s.state (block * s.pages_per_block)) [
  | invalid ↦ do s' ← physical_erase block s; ok (take_block block s', true)
  | erased ↦ ok (take_block block s, true)
  | valid ↦ ok (s, false)
]

-- A loop of `get_cursor` over `n` blocks from `block` on.
unfoldable pub find_block : ℕ → ℕ → Ssd → Result (Ssd × Bool)
find_block block zero s = ok (s, false)
find_block block (suc n) s = do
  (s', free) ← is_block_free block s
  let later = find_block (block + 1) n s'
  if free then ok (s', true) else later

-- `get_cursor`: whether there is a page to write to.
unfoldable pub get_cursor : Ssd → Result (Ssd × Bool)
get_cursor s = elim s.current_page [
  | some page ↦ ok (s, true)
  | none ↦ do
    (s', found) ← find_block s.current_block (s.num_blocks - s.current_block) s
    if found then ok (s', true) else find_block 0 s.current_block s'
]

unfoldable pub update_cursor : ℕ → Ssd → Ssd
update_cursor page s = record s {
  current_page = if (page + 1) % s.pages_per_block == 0 then none else some (page + 1);
}

-- `write_logging` from the assert on. With no current page the lookup of its state fails.
unfoldable pub append : ℕ → ℕ → Ssd → Result (Ssd × Answer)
append address value s = elim s.current_page [
  | none ↦ raise key_error
  | some page ↦
      if is_erased (s.state page)
      then (do
        s' ← physical_program page value s
        ok (
          update_cursor page (record s' {
            forward_map = update s'.forward_map address (some page);
            reverse_map = update s'.reverse_map page (some address);
          }),
          success,
        ))
      else raise assertion_error
]

unfoldable pub write_logging : ℕ → ℕ → Ssd → Result (Ssd × Answer)
write_logging address value s = do
  (s', found) ← get_cursor s
  if found
      then append address value s'
      else ok (record s' { logical_write_fail_sum = s'.logical_write_fail_sum + 1 }, device_full)

unfoldable pub trim : ℕ → Ssd → Ssd × Answer
trim address s =
    let t : Ssd = record s { logical_trim_sum = s.logical_trim_sum + 1 } in
    let failed : Ssd = record t { logical_trim_fail_sum = s.logical_trim_fail_sum + 1 } in
    if leb s.num_logical_pages address then (failed, illegal) else elim (s.forward_map address) [
      | none ↦ (failed, uninitialized)
      | some page ↦ (record t { forward_map = update s.forward_map address none }, success)
    ]

unfoldable pub read : ℕ → Ssd → Result (Ssd × Answer)
read address s =
    let t : Ssd = record s { logical_read_sum = s.logical_read_sum + 1 } in
    let failed : Ssd = record t { logical_read_fail_sum = s.logical_read_fail_sum + 1 } in
    if leb s.num_logical_pages address then ok (failed, illegal) else elim (s.forward_map address) [
      | none ↦ ok (failed, uninitialized)
      | some page ↦ do (u, value) ← physical_read page t; ok (u, contains value)
    ]

unfoldable pub write : ℕ → ℕ → Ssd → Result (Ssd × Answer)
write address value s =
    let t : Ssd = record s { logical_write_sum = s.logical_write_sum + 1 } in
    if leb s.num_logical_pages address
    then ok (record t { logical_write_fail_sum = s.logical_write_fail_sum + 1 }, illegal)
    else elim s.ssd_type [
      | direct ↦ write_direct address value t
      | ideal ↦ write_ideal address value t
      | logging ↦ write_logging address value t
    ]
