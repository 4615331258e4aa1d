-- ===== src/Paging/Victims.antt =====
-- Every policy finds a victim in a memory that is not empty, and takes out that page only.
use life.Prelude.{
  ℕ, zero, suc, ◌+◌, ◌-◌, ◌≤◌, ◌<◌, ◌≡◌, ◌≢◌, refl, ap, ◌∙◌, true, false, Option, none, some,
  Option-cases, Bool-cases, ◌⊎◌, inl, inr, List, [], ◌∷◌, ltb, leb, ◌==◌, length, get_elem?, lookup,
  insert, delete, lookup-insert, lookup-delete, ok, arith,
}
use life.Paging.{
  Policy, fifo, lru, mru, opt, unopt, rand, clock, Cache, remove, pop, when_referenced, later_of,
  sooner_of, choose, pop_chosen, total, clock_victim, evict,
}
use life.Paging.Removal.{
  occurs, IsDistinct, Taken, pop-Taken, remove-Taken, get_elem?-occurs, total-insert,
}

-- The memory has each page once, `count` pages in all and no more than the size of the cache, and
-- they have reference bits.
pub record IsCache (size : ℕ) (c : Cache) : Type 0 where
  pub distinct : IsDistinct c.memory
  pub counted : length c.memory ≡ c.count
  pub bounded : c.count ≤ size
  pub marked : (x : ℕ) → 1 ≤ occurs x c.memory → lookup x c.ref ≢ none

pub record Evicted (c : Cache) (victim : ℕ) (c' : Cache) : Type 0 where
  pub taken : Taken victim c.memory c'.memory
  pub same_count : c'.count ≡ c.count
  pub same_hits : c'.hits ≡ c.hits
  pub same_miss : c'.miss ≡ c.miss
  pub marked : (x : ℕ) → 1 ≤ occurs x c'.memory → lookup x c'.ref ≢ none

-- Which page a draw gives is open, but it is one of the memory.
abbrev pub IsDraw : (ℕ → ℕ → ℕ) → Type 0
IsDraw draw = (k n : ℕ) → 0 < n → draw k n < n

-- one turn of the loop of CLOCK, at a page with bits left or with none
module _ (draw : ℕ → ℕ → ℕ) (size : ℕ) (c : Cache) (h : IsCache size c) (page bits : ℕ)
    (drawn : get_elem? c.memory (draw c.drawn c.count) ≡ some page) (o : 1 ≤ occurs page c.memory)
    (f : lookup page c.ref ≡ some bits) where
  abbrev lowered : Cache
  lowered = record c { ref = insert page (bits - 1) c.ref; drawn = c.drawn + 1 }

  abbrev removed : Cache
  removed = record c { memory = remove page c.memory; ref = delete page c.ref; drawn = c.drawn + 1 }

  clock_lowers :
      (fuel : ℕ) → 1 ≤ bits → clock_victim draw (suc fuel) c ≡ clock_victim draw fuel lowered
  unfolding clock_victim
  clock_lowers fuel le = let e : leb 1 bits ≡ true = ground arith in rw (clock_victim, drawn, f, e)

  clock_takes : (fuel : ℕ) → bits ≡ 0 → clock_victim draw (suc fuel) c ≡ ok (page, removed)
  unfolding clock_victim
  clock_takes fuel z = let e : leb 1 bits ≡ false = ground arith in rw (clock_victim, drawn, f, e)

  lowered-IsCache : IsCache size lowered
  lowered-IsCache = record {
    distinct = h.distinct;
    counted = h.counted;
    bounded = h.bounded;
    marked = λ x i.
        rw (lookup-insert page x (bits - 1) c.ref)
          (elim (Bool-cases (page == x)) [ inl s ↦ rw s (λ q. cc) | inr s ↦ rw s (h.marked x i) ]);
  }

  removed-Evicted : Evicted c page removed
  removed-Evicted = record {
    taken = t;
    same_count = refl;
    same_hits = refl;
    same_miss = refl;
    marked = λ x i.
        let k = h.marked x (omega (arith, t.counts x)) in
        let ne : (page == x) ≡ false = elim (Bool-cases (page == x)) [
          | inl s ↦
              let n : occurs x c.memory ≡ occurs x removed.memory + 1 =
                ground (arith, t.counts x) in
              absurd (omega (arith, h.distinct x))
          | inr s ↦ s
        ] in
        rw (lookup-delete page x c.ref, ne) k;
  }
    where
      t : Taken page c.memory (remove page c.memory)
      t = remove-Taken page c.memory o

clock-Evicted :
    (draw : ℕ → ℕ → ℕ) (size fuel : ℕ) (c : Cache)
    → IsDraw draw
    → IsCache size c
    → 0 < c.count
    → total c.memory c.ref < fuel
    → (v : ℕ) × (c' : Cache) × (clock_victim draw fuel c ≡ ok (v, c')) × Evicted c v c'
clock-Evicted draw size zero c d h pos lt = absurd (omega arith)
clock-Evicted draw size (suc fuel) c d h pos lt =
    let (page, e, o) =
      get_elem?-occurs (draw c.drawn c.count) c.memory
        (omega (arith, d c.drawn c.count pos, h.counted)) in
    elim (Option-cases (lookup page c.ref)) [
      | inl f ↦ absurd (h.marked page o f)
      | inr (bits, f) ↦ elim (Bool-cases (leb 1 bits)) [
        | inr z ↦ (
          page,
          removed draw size c h page bits e o f,
          clock_takes draw size c h page bits e o f fuel (ground arith),
          removed-Evicted draw size c h page bits e o f,
        )
        | inl z ↦
            let le : 1 ≤ bits = ground arith in
            let g : lookup page c.ref ≡ some (bits - 1 + 1) = f ∙ ap some (omega arith) in
            let (v, c', k, r) =
              clock-Evicted draw size fuel (lowered draw size c h page bits e o f) d
                (lowered-IsCache draw size c h page bits e o f) pos
                (omega (arith, total-insert page (bits - 1) c.memory c.ref g)) in
            (
              v,
              c',
              clock_lowers draw size c h page bits e o f fuel le ∙ k,
              record {
                taken = r.taken;
                same_count = r.same_count;
                same_hits = r.same_hits;
                same_miss = r.same_miss;
                marked = r.marked;
              },
            )
      ]
    ]

-- The loop of OPT and UNOPT ends with an index below the number of pages.
module _ (better : ℕ → ℕ → Option (ℕ × ℕ) → Option (ℕ × ℕ))
    (first : (i w : ℕ) → better i w none ≡ some (i, w))
    (either : (i w j m : ℕ)
      → (better i w (some (j, m)) ≡ some (i, w)) ⊎ (better i w (some (j, m)) ≡ some (j, m))) where
  choose-some :
      (index : ℕ) (future : List ℕ) (i : ℕ) (l : List ℕ) (j m : ℕ)
      → j < i
      → (k : ℕ) × (w : ℕ) × (choose better index future i l (some (j, m)) ≡ some (k, w))
        × (k < i + length l)
  unfolding choose
  choose-some index future i [] j m lt = (j, m, refl, omega arith)
  choose-some index future i (x ∷ l) j m lt = elim (either i (when_referenced x index future) j m) [
    | inl e ↦
        let (k, w, f, g) =
          choose-some index future (i + 1) l i (when_referenced x index future) (omega arith) in
        (k, w, rw e f, omega (arith, g))
    | inr e ↦
        let (k, w, f, g) = choose-some index future (i + 1) l j m (omega arith) in
        (k, w, rw e f, omega (arith, g))
  ]

  choose-below :
      (index : ℕ) (future l : List ℕ)
      → 0 < length l
      → (k : ℕ) × (w : ℕ) × (choose better index future 0 l none ≡ some (k, w)) × (k < length l)
  unfolding choose
  choose-below index future [] lt = absurd (omega arith)
  choose-below index future (x ∷ l) lt =
      let (k, w, f, g) =
        choose-some index future 1 l 0 (when_referenced x index future) (omega arith) in
      (k, w, rw (first 0 (when_referenced x index future)) f, omega (arith, g))

later_either :
    (i w j m : ℕ)
    → (later_of i w (some (j, m)) ≡ some (i, w)) ⊎ (later_of i w (some (j, m)) ≡ some (j, m))
unfolding later_of
later_either i w j m = elim (Bool-cases (leb m w)) [ inl e ↦ inl (rw e) | inr e ↦ inr (rw e) ]

sooner_either :
    (i w j m : ℕ)
    → (sooner_of i w (some (j, m)) ≡ some (i, w)) ⊎ (sooner_of i w (some (j, m)) ≡ some (j, m))
unfolding sooner_of
sooner_either i w j m = elim (Bool-cases (ltb w m)) [ inl e ↦ inl (rw e) | inr e ↦ inr (rw e) ]

-- popping a page that is there
pub popped-Evicted :
    (size i n : ℕ) (c : Cache)
    → IsCache size c
    → i < c.count
    → (v : ℕ) × (l : List ℕ) × (pop i c.memory ≡ ok (v, l))
      × Evicted c v (record c { memory = l; drawn = n })
popped-Evicted size i n c h lt =
    let (v, l, e, t) = pop-Taken i c.memory (omega (arith, h.counted)) in
    (
      v,
      l,
      e,
      record {
        taken = t;
        same_count = refl;
        same_hits = refl;
        same_miss = refl;
        marked = λ x o. h.marked x (omega (arith, t.counts x));
      },
    )

pub evict-Evicted :
    (draw : ℕ → ℕ → ℕ) (policy : Policy) (size index : ℕ) (future : List ℕ) (c : Cache)
    → IsDraw draw
    → IsCache size c
    → 0 < c.count
    → (v : ℕ) × (c' : Cache) × (evict draw policy index future c ≡ ok (v, c')) × Evicted c v c'
unfolding evict pop_chosen later_of sooner_of
evict-Evicted draw fifo size index future c d h pos =
    let (v, l, e, t) = popped-Evicted size 0 c.drawn c h pos in
    (v, record c { memory = l }, rw e, t)
evict-Evicted draw lru size index future c d h pos =
    let (v, l, e, t) = popped-Evicted size 0 c.drawn c h pos in
    (v, record c { memory = l }, rw e, t)
evict-Evicted draw mru size index future c d h pos =
    let (v, l, e, t) = popped-Evicted size (c.count - 1) c.drawn c h (omega arith) in
    (v, record c { memory = l }, rw e, t)
evict-Evicted draw rand size index future c d h pos =
    let (v, l, e, t) =
      popped-Evicted size (draw c.drawn c.count) (c.drawn + 1) c h (d c.drawn c.count pos) in
    (v, record c { memory = l; drawn = c.drawn + 1 }, rw e, t)
evict-Evicted draw clock size index future c d h pos =
    clock-Evicted draw size (total c.memory c.ref + 1) c d h pos (omega arith)
evict-Evicted draw opt size index future c d h pos =
    let (k, w, f, g) =
      choose-below later_of (λ i w. refl) later_either index future c.memory
        (omega (arith, h.counted)) in
    let (v, l, e, t) = popped-Evicted size k c.drawn c h (omega (arith, h.counted)) in
    (v, record c { memory = l }, rw (f, e), t)
evict-Evicted draw unopt size index future c d h pos =
    let (k, w, f, g) =
      choose-below sooner_of (λ i w. refl) sooner_either index future c.memory
        (omega (arith, h.counted)) in
    let (v, l, e, t) = popped-Evicted size k c.drawn c h (omega (arith, h.counted)) in
    (v, record c { memory = l }, rw (f, e), t)
