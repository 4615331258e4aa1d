-- ===== src/Paging/Tests.antt =====
-- Runs of the page cache at concrete accesses, and the theorems applied there.
use life.Prelude.{
  ℕ, ◌+◌, ◌≡◌, refl, inl, List, [], ◌∷◌, if◌then◌else◌, length, Result, ok, raise, ◌>>=◌,
  index_error, arith,
}
use life.Paging.{
  Policy, fifo, lru, opt, clock, Cache, empty, is_in, remove, pop, when_referenced, later_of,
  sooner_of, choose, pop_chosen, total, clock_victim, evict, touch, load, mark, access, run,
}
use life.Paging.Removal.{occurs}
use life.Paging.Victims.{IsCache, IsDraw}
use life.Paging.Safety.{access-IsCache, run-IsCache}
use life.Paging.Recency.{recency, IsRecent, run-IsRecent}

program : Unit {0}
unfolding is_in remove pop when_referenced later_of sooner_of choose pop_chosen total clock_victim
    evict touch load mark access run
program = tt

-- Every draw is the first page.
abbrev first : ℕ → ℕ → ℕ
first k n = 0

first-IsDraw : IsDraw first
first-IsDraw k n lt = omega arith

abbrev pages : List ℕ
pages = 8 ∷ 7 ∷ 4 ∷ 2 ∷ 5 ∷ 4 ∷ 7 ∷ 3 ∷ 4 ∷ 5 ∷ []

abbrev ends : Policy → ℕ → List ℕ → Result (List ℕ)
ends policy size l = run first policy size 2 0 l empty >>= λ c. ok (c.hits ∷ c.miss ∷ c.memory)

runs :
    (ends fifo 3 pages ≡ ok (1 ∷ 9 ∷ 3 ∷ 4 ∷ 5 ∷ []))
    × (ends lru 3 pages ≡ ok (2 ∷ 8 ∷ 3 ∷ 4 ∷ 5 ∷ []))
    × (ends opt 3 pages ≡ ok (4 ∷ 6 ∷ 4 ∷ 5 ∷ 3 ∷ []))
    × (ends fifo 0 pages ≡ raise index_error)
unfolding program
runs = (refl, refl, refl, refl)

clock_run : ends clock 2 (1 ∷ 1 ∷ 2 ∷ 3 ∷ []) ≡ ok (1 ∷ 3 ∷ 2 ∷ 3 ∷ [])
unfolding program
clock_run = refl

empty-IsCache : IsCache 2 empty
empty-IsCache = record {
  distinct = λ x. omega arith;
  counted = refl;
  bounded = omega arith;
  marked = λ x o. absurd (omega arith);
}

-- A full cache of two pages.
abbrev full : Cache
full = record {
  memory = 1 ∷ 2 ∷ [];
  count = 2;
  hits = 0;
  miss = 2;
  ref = (1, 1) ∷ (2, 1) ∷ [];
  drawn = 0;
}

full-IsCache : IsCache 2 full
full-IsCache = record {
  distinct = λ x. ground arith;
  counted = refl;
  bounded = omega arith;
  marked = λ x o q. ground arith;
}

access-IsCache_example :
    (c' : Cache) × (access first clock 2 2 3 3 [] full ≡ ok c')
    × IsCache 2 c'
    × (occurs 3 c'.memory ≡ 1)
    × (c'.hits ≡ full.hits + (if is_in 3 full.memory then 1 else 0))
    × (c'.miss ≡ full.miss + (if is_in 3 full.memory then 0 else 1))
access-IsCache_example =
    access-IsCache first clock 2 2 3 3 [] full first-IsDraw (omega arith) full-IsCache

run-IsCache_example :
    (c' : Cache) × (run first clock 2 2 0 pages empty ≡ ok c')
    × IsCache 2 c'
    × (c'.hits + c'.miss ≡ empty.hits + empty.miss + length pages)
run-IsCache_example =
    run-IsCache first clock 2 2 0 pages empty first-IsDraw (omega arith) empty-IsCache

run-IsRecent_example :
    (c' : Cache) × (run first lru 2 2 0 pages empty ≡ ok c')
    × IsRecent 2 (recency [] pages) c'.memory
run-IsRecent_example =
    run-IsRecent first 2 2 0 pages empty [] first-IsDraw (omega arith) empty-IsCache
      (λ x. omega arith) ([], refl, inl refl)
