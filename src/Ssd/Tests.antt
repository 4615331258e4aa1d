-- ===== src/Ssd/Tests.antt =====
-- Runs of ssd.py at concrete devices, and the theorems applied there.
use life.Prelude.{
  ℕ, ◌+◌, ◌≤◌, ◌<◌, ◌≡◌, ◌≢◌, refl, none, some, List, [], ◌∷◌, ◌++◌, ◌⊎◌, leb, ◌==◌, if◌then◌else◌,
  Result, ok, raise, ◌>>=◌, arith,
}
use life.Ssd.Device
use life.Ssd.Device.{
  Ssd, SsdType, direct, logging, ideal, init, wiped, programmed, physical_erase, physical_program,
  physical_read,
}
use life.Ssd.{
  Answer, success, device_full, illegal, uninitialized, contains, save_pages, restore_pages,
  map_to_self, write_direct, write_ideal, is_block_free, find_block, get_cursor, update_cursor,
  append, write_logging, trim, read, write,
}
use life.Ssd.Collector.{
  is_live, live_pages, rewrite_page, move_pages, used_from, blocks_in_use, clean, is_skipped,
  collect, garbage_collect, upkeep,
}
use life.Ssd.Sound.{IsFull, view, IsSound}
use life.Ssd.Client.{init-IsSound, answer_of, read-view, write-view, trim-view}
use life.Ssd.Cleaning.{Tidy, WriteFailed}
use life.Ssd.Collect.{turn, upkeep_view}

program : Unit {0}
unfolding Device.init Device.fill wiped programmed physical_erase physical_program physical_read
    save_pages restore_pages map_to_self write_direct write_ideal is_block_free find_block
    get_cursor update_cursor append write_logging trim read write is_live live_pages rewrite_page
    move_pages used_from blocks_in_use clean is_skipped collect garbage_collect upkeep
program = tt

-- the device that an operation leaves
abbrev after : Result (Ssd × Answer) → Ssd → Ssd
after (ok r) s = r.0
after (raise e) s = s

after-IsSound :
    (nb ppb a value : ℕ) (s : Ssd)
    → IsSound nb ppb s
    → a < s.num_logical_pages
    → IsSound nb ppb (after (write a value s) s)
after-IsSound nb ppb a value s h lt = let (r, e, k, c) = write-view nb ppb a value s h lt in rw e k

-- Three blocks of two pages, four logical pages.
abbrev new : Ssd
new = init logging 4 3 2 2 1

abbrev one : Ssd
one = after (write 0 65 new) new

abbrev two : Ssd
two = after (write 1 66 one) one

abbrev three : Ssd
three = after (write 0 67 two) two

new-IsSound : IsSound 3 2 new
new-IsSound = init-IsSound 4 3 2 2 1 (omega arith)

one-IsSound : IsSound 3 2 one
one-IsSound = after-IsSound 3 2 0 65 new new-IsSound (unfold program in omega arith)

two-IsSound : IsSound 3 2 two
two-IsSound = after-IsSound 3 2 1 66 one one-IsSound (unfold program in omega arith)

three-IsSound : IsSound 3 2 three
three-IsSound = after-IsSound 3 2 0 67 two two-IsSound (unfold program in omega arith)

abbrev answers : List ℕ → Ssd → List (Result Answer)
answers [] s = []
answers (a ∷ l) s = (read a s >>= λ r. ok r.1) ∷ answers l s

-- What reads answer, and the blocks in use, the erases, the turns of the collector and the failed
-- writes.
abbrev report : List ℕ → Ssd → List (Result Answer) × List ℕ
report l s = (
  answers l s,
  blocks_in_use s ∷ s.physical_erase_sum ∷ s.gc_count ∷ s.logical_write_fail_sum ∷ [],
)

-- The first copy of page 0 is stale, and the collector moves page 1 and erases block 0.
collects :
    (answers (0 ∷ 1 ∷ 2 ∷ 7 ∷ []) three
      ≡ ok (contains 67) ∷ ok (contains 66) ∷ ok uninitialized ∷ ok illegal ∷ [])
    × ((upkeep three >>= λ t. ok (report (0 ∷ 1 ∷ []) t))
        ≡ ok (ok (contains 67) ∷ ok (contains 66) ∷ [], 1 ∷ 3 ∷ 1 ∷ 0 ∷ []))
unfolding program
collects = (refl, refl)

-- With two blocks, both full, the copy of page 1 fails, its block is erased all the same, and a read
-- of page 1 returns a space.
loses :
    (do
      let s = init logging 4 2 2 2 1
      (s1, _) ← write 0 65 s
      (s2, _) ← write 1 66 s1
      (s3, _) ← write 2 67 s2
      (s4, _) ← write 0 68 s3
      t ← upkeep s4
      ok (answers (1 ∷ []) s4 ++ answers (1 ∷ []) t))
    ≡ ok (ok (contains 66) ∷ ok (contains 32) ∷ [])
unfolding program
loses = refl

-- The direct layer erases the block and programs the others again.
rewrites :
    (do
      let s = init direct 4 2 2 2 1
      s' ← physical_erase 0 s
      (s1, _) ← write 0 65 s'
      (s2, _) ← write 1 66 s1
      (s3, _) ← write 0 67 s2
      ok (report (0 ∷ 1 ∷ 2 ∷ []) s3))
    ≡ ok (ok (contains 67) ∷ ok (contains 66) ∷ ok uninitialized ∷ [], 0 ∷ 4 ∷ 0 ∷ 0 ∷ [])
unfolding program
rewrites = refl

write-view_example :
    (r : Ssd × Answer) × (write 1 66 one ≡ ok r)
    × IsSound 3 2 r.0
    × ((r.1 ≡ success)
          × (r.0.logical_write_fail_sum ≡ one.logical_write_fail_sum)
          × ((b : ℕ) → view r.0 b ≡ (if b == 1 then some 66 else view one b))
        ⊎ (r.1 ≡ device_full)
          × (r.0.logical_write_fail_sum ≡ one.logical_write_fail_sum + 1)
          × IsFull 3 2 one
          × ((b : ℕ) → view r.0 b ≡ view one b))
write-view_example = write-view 3 2 1 66 one one-IsSound (unfold program in omega arith)

read-view_example :
    (r : Ssd × Answer) × (read 0 three ≡ ok r)
    × IsSound 3 2 r.0
    × (r.0 ≡ record three {
      logical_read_sum = r.0.logical_read_sum;
      logical_read_fail_sum = r.0.logical_read_fail_sum;
      physical_read_sum = r.0.physical_read_sum;
      physical_read_count = r.0.physical_read_count;
    })
    × ((b : ℕ) → view r.0 b ≡ view three b)
    × (r.1 ≡ (if leb three.num_logical_pages 0 then illegal else answer_of (view three 0)))
read-view_example = read-view 3 2 0 three three-IsSound

trim-view_example :
    IsSound 3 2 (trim 1 two).0
    × (((trim 1 two).1 ≡ success)
          × (1 < two.num_logical_pages)
          × (view two 1 ≢ none)
          × ((b : ℕ) → view (trim 1 two).0 b ≡ (if b == 1 then none else view two b))
        ⊎ ((trim 1 two).1 ≢ success)
          × ((two.num_logical_pages ≤ 1) ⊎ (view two 1 ≡ none))
          × ((b : ℕ) → view (trim 1 two).0 b ≡ view two b))
trim-view_example = trim-view 3 2 1 two two-IsSound

upkeep_view_example :
    ((t : Ssd) × (upkeep three ≡ ok t) × Tidy 3 2 three t) ⊎ WriteFailed 3 2 (turn three) three
upkeep_view_example = upkeep_view 3 2 three three-IsSound (unfold program in omega arith)
