-- ===== src/Malloc/Driver.antt =====
-- The main program of malloc.py with a list of operations (`-A +10,-0,...`): the counter `c`, the
-- dictionary `p` from the number of an allocation to its address, and the heap.
--
-- The option string is taken as parsed: `alloc n` for `+n`, `release i` for `-i`. Any other operand
-- calls `abort`, a name that does not exist.
pub mod Runs
pub mod Whole
use life.Prelude.{
  ℕ, ◌+◌, Bool, true, Option, none, some, List, [], ◌∷◌, leb, if◌then◌else◌, length, lookup, insert,
  Result, ok, raise, ◌>>=◌, key_error, name_error,
}
use life.Malloc.{Heap, malloc, free}

pub data Op : Type 0 where
  alloc release : ℕ → Op
  badly_specified : Op

pub record Sim : Type 0 where
  pub heap : Heap
  pub c : ℕ
  pub p : List (ℕ × ℕ)

-- `p[c] = ptr`, unless the allocation failed.
unfoldable pub note : Option ℕ → ℕ → List (ℕ × ℕ) → List (ℕ × ℕ)
note none c p = p
note (some ptr) c p = insert c ptr p

-- One round of the loop over the operations. A `release` of an index not below `len(p)` is
-- skipped; otherwise `p[index]` must be there.
unfoldable pub step : Op → Sim → Result Sim
step (alloc size) s = malloc s.heap size >>= λ (h, ptr, count).
    ok (record { heap = h; c = s.c + 1; p = note ptr s.c s.p })
step (release index) s = if leb (length s.p) index then ok s else elim (lookup index s.p) [
  | none ↦ raise key_error
  | some addr ↦ free s.heap addr >>= λ (h, rc). ok (record s { heap = h })
]
step badly_specified s = raise name_error

unfoldable pub run : List Op → Sim → Result Sim
unfolding step
run [] s = ok s
run (op ∷ ops) s = step op s >>= run ops

abbrev pub start_of : Heap → Sim
start_of h = record { heap = h; c = 0; p = [] }
