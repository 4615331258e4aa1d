-- ===== src/Paging/Safety.antt =====
-- An access keeps the cache as it should be, whatever the policy.
use life.Prelude.{
  ℕ, ◌+◌, ◌≤◌, ◌<◌, ◌≡◌, ◌≢◌, refl, sym, ◌∙◌, true, false, none, some, Option-cases, Bool-cases,
  inl, inr, List, [], ◌∷◌, ◌++◌, ltb, ◌==◌, if◌then◌else◌, length, length-append, lookup,
  lookup-insert, ok, arith,
}
use life.Paging.{
  Policy, fifo, lru, mru, opt, unopt, rand, clock, Cache, is_in, remove, touch, mark, load, access,
  run,
}
use life.Paging.Removal.{occurs, IsDistinct, is_in-occurs, occurs-append, remove-Taken}
use life.Paging.Victims.{IsCache, Evicted, IsDraw, evict-Evicted}

-- A page behind the others.
abbrev behind : ℕ → List ℕ → List ℕ
behind n l = l ++ n ∷ []

occurs-behind :
    (x n : ℕ) (l : List ℕ) → occurs x (behind n l) ≡ occurs x l + (if n == x then 1 else 0)
occurs-behind x n l = ground (arith, occurs-append x l (n ∷ []))

length-behind : (n : ℕ) (l : List ℕ) → length (behind n l) ≡ length l + 1
length-behind n l = length-append l (n ∷ [])

mark-keeps :
    (clockbits n x : ℕ) (ref : List (ℕ × ℕ))
    → ((n == x) ≡ false → lookup x ref ≢ none)
    → lookup x (mark clockbits n ref) ≢ none
unfolding mark
mark-keeps clockbits n x ref k = elim (Option-cases (lookup n ref)) [
  | inl e ↦ rw (mark, e, lookup-insert n x 1 ref) (kept 1)
  | inr (bits, e) ↦
      let b : ℕ = if ltb clockbits (bits + 1) then clockbits else bits + 1 in
      rw (mark, e, lookup-insert n x b ref) (kept b)
]
  where
    kept : (b : ℕ) → (if n == x then some b else lookup x ref) ≢ none
    kept b = elim (Bool-cases (n == x)) [ inl s ↦ rw s (λ q. cc) | inr s ↦ rw s (k s) ]

-- What an access leaves before the bits of the page are marked.
record Held (size n : ℕ) (c c' : Cache) : Type 0 where
  distinct : IsDistinct c'.memory
  counted : length c'.memory ≡ c'.count
  bounded : c'.count ≤ size
  marked : (x : ℕ) → (n == x) ≡ false → 1 ≤ occurs x c'.memory → lookup x c'.ref ≢ none
  has : occurs n c'.memory ≡ 1
  same_hits : c'.hits ≡ c.hits
  same_miss : c'.miss ≡ c.miss

marked-IsCache :
    (size clockbits n : ℕ) (c c' : Cache)
    → Held size n c c'
    → IsCache size (record c' { ref = mark clockbits n c'.ref })
marked-IsCache size clockbits n c c' h = record {
  distinct = h.distinct;
  counted = h.counted;
  bounded = h.bounded;
  marked = λ x o. mark-keeps clockbits n x c'.ref (λ s. h.marked x s o);
}

module _ (draw : ℕ → ℕ → ℕ) (d : IsDraw draw) (policy : Policy) (size : ℕ) (pos : 0 < size)
    (n index : ℕ) (future : List ℕ) (c : Cache) (h : IsCache size c) where
  -- a page is loaded behind a memory without it
  behind-Held :
      (l : List ℕ) (c' : Cache)
      → c'.memory ≡ behind n l
      → IsDistinct l
      → occurs n l ≡ 0
      → length l + 1 ≡ c'.count
      → c'.count ≤ size
      → ((x : ℕ) → 1 ≤ occurs x l → lookup x c'.ref ≢ none)
      → c'.hits ≡ c.hits
      → c'.miss ≡ c.miss
      → Held size n c c'
  behind-Held l c' e dis away len bound m hits miss = record {
    distinct = λ x. rw e (ground (arith, occurs-behind x n l, dis x, away));
    counted = rw e (length-behind n l ∙ len);
    bounded = bound;
    marked = λ x s o.
        m x
          (let o' : 1 ≤ occurs x (behind n l) = rw (← e) o in ground (arith, occurs-behind x n l));
    has = rw e (ground (arith, occurs-behind n n l, away));
    same_hits = hits;
    same_miss = miss;
  }

  load-Held :
      is_in n c.memory ≡ false
      → (c' : Cache) × (load draw policy size n index future c ≡ ok c') × Held size n c c'
  unfolding load
  load-Held out = elim (Bool-cases (c.count == size)) [
    | inr e ↦
        let c' : Cache = record c { memory = c.memory ++ n ∷ []; count = c.count + 1 } in
        (
          c',
          rw e,
          behind-Held c.memory c' refl h.distinct away (omega (arith, h.counted))
              (ground (arith, h.bounded)) h.marked refl refl,
        )
    | inl e ↦
        let (v, u, f, k) = evict-Evicted draw policy size index future c d h (ground arith) in
        let c' : Cache = record u { memory = u.memory ++ n ∷ [] } in
        let gone : is_in v (u.memory ++ n ∷ []) ≡ false =
          is_in-occurs v (behind n u.memory) ∙ gone_count v u k in
        (
          c',
          rw (e, f, gone),
          behind-Held u.memory c' refl (λ x. omega (arith, k.taken.counts x, h.distinct x))
              (omega (arith, k.taken.counts n, away))
              (omega (arith, k.taken.shorter, h.counted, k.same_count))
              (omega (arith, k.same_count, h.bounded)) k.marked k.same_hits k.same_miss,
        )
  ]
    where
      away : occurs n c.memory ≡ 0
      away =
          let e : ltb 0 (occurs n c.memory) ≡ false = sym (is_in-occurs n c.memory) ∙ out in
          ground arith

      gone_count :
          (v : ℕ) (u : Cache) → Evicted c v u → ltb 0 (occurs v (behind n u.memory)) ≡ false
      gone_count v u k =
          let a : occurs v c.memory ≡ occurs v u.memory + 1 = ground (arith, k.taken.counts v) in
          elim (Bool-cases (n == v)) [
            | inl s ↦
                let t : n ≡ v = ground arith in
                absurd (let z : occurs v c.memory ≡ 0 = rw (← t) away in omega arith)
            | inr s ↦ ground (arith, occurs-behind v n u.memory, h.distinct v)
          ]

  touch-Held :
      is_in n c.memory ≡ true → Held size n c (record c { memory = touch policy n c.memory })
  unfolding touch
  touch-Held into = touched policy
    where
      there : occurs n c.memory ≡ 1
      there =
          let e : ltb 0 (occurs n c.memory) ≡ true = sym (is_in-occurs n c.memory) ∙ into in
          ground (arith, h.distinct n)

      same : Held size n c c
      same = record {
        distinct = h.distinct;
        counted = h.counted;
        bounded = h.bounded;
        marked = λ x s o. h.marked x o;
        has = there;
        same_hits = refl;
        same_miss = refl;
      }

      moved : Held size n c (record c { memory = remove n c.memory ++ n ∷ [] })
      moved =
          let t = remove-Taken n c.memory (omega (arith, there)) in
          behind-Held (remove n c.memory) (record c { memory = behind n (remove n c.memory) }) refl
            (λ x. omega (arith, t.counts x, h.distinct x)) (ground (arith, t.counts n, there))
            (omega (arith, t.shorter, h.counted)) h.bounded
            (λ x o. h.marked x (omega (arith, t.counts x))) refl refl

      touched : (p : Policy) → Held size n c (record c { memory = touch p n c.memory })
      touched fifo = same
      touched lru = moved
      touched mru = moved
      touched opt = same
      touched unopt = same
      touched rand = same
      touched clock = same

-- An access to a page, under every policy and whatever is drawn, with a cache of at least one page:
-- it raises nothing, the loop of CLOCK ends, the memory then holds that page once and every page at
-- most once, `count` is its length and at most the size, and a hit is counted where the page was in
-- the memory, a miss elsewhere.
pub access-IsCache :
    (draw : ℕ → ℕ → ℕ) (policy : Policy) (size clockbits n index : ℕ) (future : List ℕ) (c : Cache)
    → IsDraw draw
    → 0 < size
    → IsCache size c
    → (c' : Cache) × (access draw policy size clockbits n index future c ≡ ok c')
      × IsCache size c'
      × (occurs n c'.memory ≡ 1)
      × (c'.hits ≡ c.hits + (if is_in n c.memory then 1 else 0))
      × (c'.miss ≡ c.miss + (if is_in n c.memory then 0 else 1))
unfolding access
access-IsCache draw policy size clockbits n index future c d pos h =
    elim (Bool-cases (is_in n c.memory)) [
      | inl e ↦
          let u : Cache = record c { memory = touch policy n c.memory } in
          let k = touch-Held draw d policy size pos n index future c h e in
          let m = marked-IsCache size clockbits n c u k in
          (
            record u { hits = c.hits + 1; ref = mark clockbits n c.ref },
            rw e,
            record {
              distinct = m.distinct;
              counted = m.counted;
              bounded = m.bounded;
              marked = m.marked;
            },
            k.has,
            rw e,
            rw e (omega arith),
          )
      | inr e ↦
          let c1 : Cache = record c { miss = c.miss + 1 } in
          let h1 : IsCache size c1 = record {
            distinct = h.distinct;
            counted = h.counted;
            bounded = h.bounded;
            marked = h.marked;
          } in
          let (u, f, k) = load-Held draw d policy size pos n index future c1 h1 e in
          (
            record u { ref = mark clockbits n u.ref },
            rw (e, f),
            marked-IsCache size clockbits n c1 u k,
            k.has,
            rw e (omega (arith, k.same_hits)),
            rw e k.same_miss,
          )
    ]

-- A whole run under every policy, with a cache of at least one page, raises nothing, and each access
-- is counted as a hit or as a miss; no page is in the memory twice, and no more pages than the size.
pub run-IsCache :
    (draw : ℕ → ℕ → ℕ) (policy : Policy) (size clockbits index : ℕ) (pages : List ℕ) (c : Cache)
    → IsDraw draw
    → 0 < size
    → IsCache size c
    → (c' : Cache) × (run draw policy size clockbits index pages c ≡ ok c')
      × IsCache size c'
      × (c'.hits + c'.miss ≡ c.hits + c.miss + length pages)
unfolding run
run-IsCache draw policy size clockbits index [] c d pos h = (c, refl, h, omega arith)
run-IsCache draw policy size clockbits index (n ∷ pages) c d pos h =
    let (u, e, k, o, hit, mis) =
      access-IsCache draw policy size clockbits n (index + 1) pages c d pos h in
    let (t, f, m, s) = run-IsCache draw policy size clockbits (index + 1) pages u d pos k in
    (t, rw e f, m, omega (arith, s, counted u.hits u.miss hit mis))
  where
    counted :
        (hits miss : ℕ)
        → hits ≡ c.hits + (if is_in n c.memory then 1 else 0)
        → miss ≡ c.miss + (if is_in n c.memory then 0 else 1)
        → hits + miss ≡ c.hits + c.miss + 1
    counted hits miss x y = ground arith
