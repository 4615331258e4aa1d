-- ===== src/Paging/Optimal.antt =====
-- OPT takes out a page that is used last of all, or not at all.
use life.Prelude.{ℕ, ◌+◌, ◌≤◌, ◌≡◌, some, ◌⊎◌, List, get_elem?}
use life.Paging.{when_referenced}
use life.Paging.Removal.{occurs}

module _ (index : ℕ) (future : List ℕ) where
  abbrev when : ℕ → ℕ
  when x = when_referenced x index future

  -- What the loop has found in the pages from the `i`-th on: the latest time, of the page at `k`.
  record Furthest (i : ℕ) (l : List ℕ) (j m k w : ℕ) : Type 0 where
    above : m ≤ w
    latest : (x : ℕ) → 1 ≤ occurs x l → when x ≤ w
    here :
        (k ≡ j) × (w ≡ m)
        ⊎ ((r : ℕ) × (x : ℕ) × (k ≡ i + r) × (get_elem? l r ≡ some x) × (when x ≡ w))
