-- ===== src/Malloc/Tests.antt =====
-- Runs of malloc.py's operations at concrete inputs, and the theorems applied there.
use life.Prelude.{
  ℕ, ◌+◌, ◌%◌, ◌≤◌, ◌<◌, ◌≡◌, ◌≢◌, ◌↔◌, ◌⊎◌, refl, Bool, true, false, Option, none, some, List, [],
  ◌∷◌, get_elem?, lookup, length, arith, ok, raise, key_error, assertion_error,
}
use life.Malloc.{
  first, best, addr_sort, Heap, Candidate, init, add_to_map, aligned, better, scan, take_block,
  needed, malloc, insert_sorted, sorted, put_back, merge, coalesced, free,
}
use life.Malloc.Cover.{holds, cover}
use life.Malloc.Search.{Fits, Prefers}
use life.Malloc.Partition.{IsPartition}
use life.Malloc.Safety.{init-IsPartition, malloc-IsPartition, free-IsPartition, free_twice}
use life.Malloc.Grants.{malloc_grants, malloc_refuses, malloc_chooses, free-malloc}
use life.Malloc.Align.{aligned_least}
use life.Malloc.Driver.{Op, alloc, release, Sim, note, step, run, start_of}
use life.Malloc.Driver.Runs.{IsReady, IsReady-init, run-IsReady, release_raises}
use life.Malloc.Driver.Whole.{run_to_one_block}

program : Unit {0}
unfolding init add_to_map aligned better scan take_block needed malloc insert_sorted sorted put_back
    merge coalesced free note step run
program = tt

-- the default heap, with ADDRSORT and coalescing
abbrev new_heap : Heap
new_heap = record {
  size = 100;
  header_size = 0;
  freelist = (1000, 100) ∷ [];
  sizemap = [];
  policy = best;
  return_policy = addr_sort;
  coalesce = true;
  align = some 4;
}

abbrev one_used : Heap
one_used = record new_heap { freelist = (1008, 92) ∷ []; sizemap = (1000, 8) ∷ [] }

new : init 100 1000 0 best addr_sort true (some 4) ≡ ok new_heap
unfolding program
new = refl

unaligned : init 100 1000 0 best addr_sort true (some 0) ≡ raise assertion_error
unfolding program
unaligned = refl

first_malloc : malloc new_heap 5 ≡ ok (one_used, some 1000, 1)
unfolding program
first_malloc = refl

too_large : malloc new_heap 101 ≡ ok (new_heap, none, 1)
unfolding program
too_large = refl

free_first : free one_used 1000 ≡ ok (new_heap, true)
unfolding program
free_first = refl

-- A request of no bytes leaves the free list as it is and enters its address: the next request gets
-- the same address, and the assert of `addToMap` fails.
zero_size :
    run (alloc 0 ∷ alloc 5 ∷ []) (start_of (record new_heap { policy = first }))
    ≡ raise assertion_error
unfolding program
zero_size = refl

-- The first allocation fails, the second is number 1, and `-0` looks up `p[0]`.
free_of_failed : run (alloc 200 ∷ alloc 1 ∷ release 0 ∷ []) (start_of new_heap) ≡ raise key_error
unfolding program
free_of_failed = refl

new-IsPartition : IsPartition 1000 new_heap
new-IsPartition = init-IsPartition 100 1000 0 best addr_sort true (some 4) (omega arith) new

one_used-IsPartition : IsPartition 1000 one_used
one_used-IsPartition = record {
  exact = λ a. ground arith;
  free_positive = omega arith;
  used_positive = omega arith;
  distinct = (refl, tt);
}

init-IsPartition_example : IsPartition 1000 new_heap
init-IsPartition_example =
    init-IsPartition 100 1000 0 best addr_sort true (some 4) (omega arith) new

malloc-IsPartition_example :
    (r : Heap × Option ℕ × ℕ) × (malloc new_heap 5 ≡ ok r) × IsPartition 1000 r.0
malloc-IsPartition_example = malloc-IsPartition 1000 new_heap 5 new-IsPartition (omega arith)

free-IsPartition_example :
    (r : Heap × Bool) × (free one_used 1000 ≡ ok r)
    × IsPartition 1000 r.0
    × ((r.1 ≡ true) ↔ (lookup 1000 one_used.sizemap ≢ none))
free-IsPartition_example = free-IsPartition 1000 one_used 1000 one_used-IsPartition

free_twice_example : free new_heap 1000 ≡ ok (new_heap, false)
free_twice_example = free_twice 1000 one_used 1000 one_used-IsPartition free_first

malloc_grants_example :
    (lookup 1000 one_used.sizemap ≡ some (aligned new_heap.align 5 + new_heap.header_size))
    × ((x : ℕ)
        → cover x new_heap.freelist
          ≡ cover x one_used.freelist
            + holds x (1000, aligned new_heap.align 5 + new_heap.header_size))
    × ((b : ℕ) → b ≢ 1000 → lookup b one_used.sizemap ≡ lookup b new_heap.sizemap)
malloc_grants_example =
    malloc_grants 1000 new_heap 5 1000 1 one_used new-IsPartition (omega arith) first_malloc

malloc_refuses_example :
    ((count : ℕ) × (malloc new_heap 101 ≡ ok (new_heap, none, count)))
    ↔ ((j a m : ℕ) → get_elem? new_heap.freelist j ≡ some (a, m) → m < needed new_heap 101)
malloc_refuses_example = malloc_refuses 1000 new_heap 101 new-IsPartition (omega arith)

malloc_chooses_example :
    (c : Candidate) × (c.addr ≡ 1000)
    × Fits new_heap.freelist (needed new_heap 5) c
    × ((j b m : ℕ)
        → get_elem? new_heap.freelist j ≡ some (b, m)
        → needed new_heap 5 ≤ m
        → Prefers best c j m)
malloc_chooses_example =
    malloc_chooses 1000 new_heap 5 1000 1 one_used new-IsPartition (omega arith) first_malloc

free-malloc_example :
    (h : Heap) × (free one_used 1000 ≡ ok (h, true))
    × (h.sizemap ≡ new_heap.sizemap)
    × ((x : ℕ) → cover x h.freelist ≡ cover x new_heap.freelist)
free-malloc_example =
    free-malloc 1000 new_heap 5 1000 1 one_used new-IsPartition (omega arith) first_malloc

aligned_least_example :
    (aligned (some 4) 5 % 4 ≡ 0) × (5 ≤ aligned (some 4) 5) × (aligned (some 4) 5 < 5 + 4)
aligned_least_example = aligned_least 4 5 (omega arith)

abbrev ops : List Op
ops = alloc 5 ∷ alloc 7 ∷ alloc 90 ∷ release 0 ∷ release 1 ∷ []

abbrev finished : Sim
finished = record { heap = new_heap; c = 3; p = (1, 1008) ∷ (0, 1000) ∷ [] }

run-ops : run ops (start_of new_heap) ≡ ok finished
unfolding program
run-ops = refl

run-IsReady_example :
    ((s : Sim) × (run ops (start_of new_heap) ≡ ok s) × IsReady 1000 s)
    ⊎ (run ops (start_of new_heap) ≡ raise key_error)
run-IsReady_example =
    run-IsReady 1000 ops (start_of new_heap) (omega arith)
      (IsReady-init 1000 new_heap new-IsPartition)

release_raises_example :
    ((step (release 0) (start_of new_heap) ≡ raise key_error)
      ↔ ((0 < length (start_of new_heap).p) × (lookup 0 (start_of new_heap).p ≡ none)))
    × (length (start_of new_heap).p ≡ (start_of new_heap).c
        → step (release 0) (start_of new_heap) ≢ raise key_error)
release_raises_example =
    release_raises 1000 0 (start_of new_heap) (IsReady-init 1000 new_heap new-IsPartition)

run_to_one_block_example : finished.heap.freelist ≡ (1000, 100) ∷ []
run_to_one_block_example =
    run_to_one_block 100 1000 0 best (some 4) ops new_heap finished (omega arith) new (omega arith)
      run-ops refl
