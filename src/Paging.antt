-- ===== src/Paging.antt =====
-- The page cache of ostep-homework-master/vm-beyondphys-policy/paging-policy.py.
--
-- A page is a natural number and the dictionary `ref` an association list. The k-th draw of
-- `int(random.random() * count)` is `draw k count`, for a function `draw` that is given. The loop of
-- CLOCK gets the sum of the reference bits and one more as fuel.
pub mod Removal
pub mod Victims
pub mod Safety
pub mod Optimal
pub mod Recency
mod Tests
use life.Prelude.{
  ℕ, zero, suc, ◌+◌, ◌-◌, ◌≤◌, ◌<◌, ◌≡◌, Bool, true, false, Option, none, some, List, [], ◌∷◌, ◌++◌,
  ltb, leb, ◌==◌, if◌then◌else◌, length, get_elem?, lookup, insert, delete, Result, ok, raise,
  ◌>>=◌, index_error, key_error, assertion_error, timeout,
}

pub data Policy : Type 0 where
  fifo lru mru opt unopt rand clock : Policy

pub record Cache : Type 0 where
  pub memory : List ℕ
  pub count : ℕ
  pub hits : ℕ
  pub miss : ℕ
  pub ref : List (ℕ × ℕ)
  pub drawn : ℕ

abbrev pub empty : Cache
empty = record { memory = []; count = 0; hits = 0; miss = 0; ref = []; drawn = 0 }

-- `page in memory`
unfoldable pub is_in : ℕ → List ℕ → Bool
is_in page [] = false
is_in page (x ∷ l) = if x == page then true else is_in page l

-- `memory.remove(page)`, of a page that is there.
unfoldable pub remove : ℕ → List ℕ → List ℕ
remove page [] = []
remove page (x ∷ l) = if x == page then l else x ∷ remove page l

-- `memory.pop(i)`
unfoldable pub pop : ℕ → List ℕ → Result (ℕ × List ℕ)
pop i [] = raise index_error
pop zero (x ∷ l) = ok (x, l)
pop (suc i) (x ∷ l) = do (victim, l') ← pop i l; ok (victim, x ∷ l')

-- `whenReferenced`: the first index of the page in the accesses that are left, which start at
-- `index`, or the number of all accesses.
unfoldable pub when_referenced : ℕ → ℕ → List ℕ → ℕ
when_referenced page index [] = index
when_referenced page index (a ∷ future) =
    if page == a then index else when_referenced page (index + 1) future

-- The two tests of the loops, of the page at `i`. Before the first page any time is accepted: `maxReplace`
-- is then -1, and `minReplace` is above the number of accesses.
unfoldable pub later_of : ℕ → ℕ → Option (ℕ × ℕ) → Option (ℕ × ℕ)
later_of i when none = some (i, when)
later_of i when (some (j, max)) = if leb max when then some (i, when) else some (j, max)

unfoldable pub sooner_of : ℕ → ℕ → Option (ℕ × ℕ) → Option (ℕ × ℕ)
sooner_of i when none = some (i, when)
sooner_of i when (some (j, min)) = if ltb when min then some (i, when) else some (j, min)

-- The loop over `pageIndex`, with `replaceIdx` and the time of its page.
unfoldable pub choose :
    (ℕ → ℕ → Option (ℕ × ℕ) → Option (ℕ × ℕ))
    → ℕ
    → List ℕ
    → ℕ
    → List ℕ
    → Option (ℕ × ℕ)
    → Option (ℕ × ℕ)
choose better index future i [] best = best
choose better index future i (page ∷ l) best =
    choose better index future (i + 1) l (better i (when_referenced page index future) best)

-- `memory.pop(replaceIdx)`
unfoldable pub pop_chosen : Option (ℕ × ℕ) → List ℕ → Result (ℕ × List ℕ)
pop_chosen none l = pop (length l - 1) l
pop_chosen (some (i, when)) l = pop i l

-- The reference bits of the pages of a list.
unfoldable pub total : List ℕ → List (ℕ × ℕ) → ℕ
total [] ref = 0
total (page ∷ l) ref = (elim (lookup page ref) [ none ↦ 0 | some bits ↦ bits ]) + total l ref

-- What a hit does to the memory.
unfoldable pub touch : Policy → ℕ → List ℕ → List ℕ
touch lru n l = remove n l ++ n ∷ []
touch mru n l = remove n l ++ n ∷ []
touch fifo n l = l
touch opt n l = l
touch unopt n l = l
touch rand n l = l
touch clock n l = l

-- The update of the reference bits after an access.
unfoldable pub mark : ℕ → ℕ → List (ℕ × ℕ) → List (ℕ × ℕ)
mark clockbits n ref = elim (lookup n ref) [
  | none ↦ insert n 1 ref
  | some bits ↦ insert n (if ltb clockbits (bits + 1) then clockbits else bits + 1) ref
]

module _ (draw : ℕ → ℕ → ℕ) where
  -- The loop of CLOCK, and the `del` after it.
  unfoldable pub clock_victim : ℕ → Cache → Result (ℕ × Cache)
  clock_victim zero c = raise timeout
  clock_victim (suc fuel) c = elim (get_elem? c.memory (draw c.drawn c.count)) [
    | none ↦ raise index_error
    | some page ↦ elim (lookup page c.ref) [
      | none ↦ raise key_error
      | some bits ↦
          let later =
            clock_victim fuel
              (record c { ref = insert page (bits - 1) c.ref; drawn = c.drawn + 1 }) in
          if leb 1 bits
          then later
          else ok (
            page,
            record c {
              memory = remove page c.memory;
              ref = delete page c.ref;
              drawn = c.drawn + 1;
            },
          )
    ]
  ]

  -- The choice of a victim, which is taken out of the memory; the accesses that are left start at
  -- `index`.
  unfoldable pub evict : Policy → ℕ → List ℕ → Cache → Result (ℕ × Cache)
  evict fifo index future c = do (v, l) ← pop 0 c.memory; ok (v, record c { memory = l })
  evict lru index future c = do (v, l) ← pop 0 c.memory; ok (v, record c { memory = l })
  evict mru index future c = do (v, l) ← pop (c.count - 1) c.memory; ok (v, record c { memory = l })
  evict rand index future c = do
    (v, l) ← pop (draw c.drawn c.count) c.memory
    ok (v, record c { memory = l; drawn = c.drawn + 1 })
  evict clock index future c = clock_victim (total c.memory c.ref + 1) c
  evict opt index future c = do
    (v, l) ← pop_chosen (choose later_of index future 0 c.memory none) c.memory
    ok (v, record c { memory = l })
  evict unopt index future c = do
    (v, l) ← pop_chosen (choose sooner_of index future 0 c.memory none) c.memory
    ok (v, record c { memory = l })

  -- What a miss does, with the assert that the victim is gone.
  unfoldable pub load : Policy → ℕ → ℕ → ℕ → List ℕ → Cache → Result Cache
  load policy cachesize n index future c =
      if c.count == cachesize
      then (do
        (victim, c') ← evict policy index future c
        let l : List ℕ = c'.memory ++ n ∷ []
        if is_in victim l then raise assertion_error else ok (record c' { memory = l }))
      else ok (record c { memory = c.memory ++ n ∷ []; count = c.count + 1 })

  -- The body of the loop over the accesses.
  unfoldable pub access : Policy → ℕ → ℕ → ℕ → ℕ → List ℕ → Cache → Result Cache
  access policy cachesize clockbits n index future c =
      if is_in n c.memory
      then ok (record c {
        memory = touch policy n c.memory;
        hits = c.hits + 1;
        ref = mark clockbits n c.ref;
      })
      else (do
        c' ← load policy cachesize n index future (record c { miss = c.miss + 1 })
        ok (record c' { ref = mark clockbits n c'.ref }))

  unfoldable pub run : Policy → ℕ → ℕ → ℕ → List ℕ → Cache → Result Cache
  run policy cachesize clockbits index [] c = ok c
  run policy cachesize clockbits index (n ∷ future) c = do
    c' ← access policy cachesize clockbits n (index + 1) future c
    run policy cachesize clockbits (index + 1) future c'
