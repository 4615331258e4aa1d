-- ===== src/Ssd/Collector.antt =====
-- `garbage_collect` and `upkeep` of ssd.py.
use life.Prelude.{
  ℕ, zero, suc, ◌+◌, ◌-◌, ◌*◌, Bool, true, false, Option, none, some, List, [], ◌∷◌, ◌++◌, leb,
  ◌==◌, if◌then◌else◌, length, Result, ok, ◌>>=◌,
}
use life.Ssd.Device.{Ssd, is_erased, physical_erase, physical_read}
use life.Ssd.{Answer, illegal, range, write}

-- `logical_page != -1 and self.forward_map[logical_page] == page`
unfoldable pub is_live : Ssd → ℕ → Bool
is_live s page = elim (s.reverse_map page) [
  | none ↦ false
  | some address ↦ elim (s.forward_map address) [ none ↦ false | some p ↦ p == page ]
]

-- The pages of the list that are live.
unfoldable pub live_pages : Ssd → List ℕ → List ℕ
live_pages s [] = []
live_pages s (page ∷ pages) =
    let rest = live_pages s pages in if is_live s page then page ∷ rest else rest

-- `self.write(self.reverse_map[page], data)`; the address -1 is illegal.
unfoldable pub rewrite_page : Option ℕ → ℕ → Ssd → Result (Ssd × Answer)
rewrite_page none value s = ok (
  record s {
    logical_write_sum = s.logical_write_sum + 1;
    logical_write_fail_sum = s.logical_write_fail_sum + 1;
  },
  illegal,
)
rewrite_page (some address) value s = write address value s

-- The loop that copies the live pages; the answer of `write` is not looked at.
unfoldable pub move_pages : List ℕ → Ssd → Result Ssd
move_pages [] s = ok s
move_pages (page ∷ pages) s = do
  (s', value) ← physical_read page s
  (s'', answer) ← rewrite_page (s'.reverse_map page) value s'
  move_pages pages s''

-- `blocks_in_use`, over `n` blocks from `block` on.
unfoldable pub used_from : (ℕ → ℕ) → ℕ → ℕ → ℕ
used_from used block zero = 0
used_from used block (suc n) = used block + used_from used (block + 1) n

unfoldable pub blocks_in_use : Ssd → ℕ
blocks_in_use s = used_from s.gc_used_blocks 0 s.num_blocks

-- The pages of a block.
abbrev pub pages_of : Ssd → ℕ → List ℕ
pages_of s block = range (block * s.pages_per_block) s.pages_per_block

-- What the loop does to a block that it cleans.
unfoldable pub clean : ℕ → Ssd → Result Ssd
clean block s = do s' ← move_pages (live_pages s (pages_of s block)) s; physical_erase block s'

-- The three tests that make the loop go on to the next block.
unfoldable pub is_skipped : ℕ → Ssd → Bool
is_skipped block s =
    if block == s.current_block
    then true
    else if is_erased (s.state (block * s.pages_per_block))
    then true
    else length (live_pages s (pages_of s block)) == s.pages_per_block

-- The loop over the blocks, with its early return.
unfoldable pub collect : List ℕ → Ssd → Result Ssd
collect [] s = ok s
collect (block ∷ blocks) s =
    let skip = collect blocks s in
    if is_skipped block s
    then skip
    else (clean block s >>= λ s'.
        let go_on = collect blocks s' in
        if leb (blocks_in_use s') s'.gc_low_water_mark
        then ok (record s' { gc_current_block = block; gc_count = s'.gc_count + 1 })
        else go_on)

unfoldable pub garbage_collect : Ssd → Result Ssd
garbage_collect s =
    collect
      (range s.gc_current_block (s.num_blocks - s.gc_current_block) ++ range 0 s.gc_current_block) s

unfoldable pub upkeep : Ssd → Result Ssd
upkeep s = if leb s.gc_high_water_mark (blocks_in_use s) then garbage_collect s else ok s
