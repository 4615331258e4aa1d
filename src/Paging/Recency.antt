-- ===== src/Paging/Recency.antt =====
-- LRU: the memory is the pages used last.
use life.Prelude.{
  ℕ, ◌+◌, ◌≤◌, ◌<◌, ◌≡◌, refl, sym, ap, ◌∙◌, true, false, Bool-cases, ◌⊎◌, inl, inr, List, [], ◌∷◌,
  ◌++◌, leb, ◌==◌, length, length-append, append_assoc, Result, ok, raise, arith, assertion_error,
}
use life.Paging.{lru, Cache, is_in, remove, pop, touch, evict, load, access, run}
use life.Paging.Removal.{occurs, IsDistinct, is_in-occurs, occurs-append, remove-Taken}
use life.Paging.Victims.{IsCache, IsDraw}
use life.Paging.Safety.{access-IsCache}

-- The pages of the accesses after those of `l`, each once, in the order of their last use.
unfoldable pub recency : List ℕ → List ℕ → List ℕ
recency l [] = l
recency l (n ∷ pages) = recency (remove n l ++ n ∷ []) pages

-- The list ends with the memory, and has more only when the memory is full.
abbrev pub IsRecent : ℕ → List ℕ → List ℕ → Type 0
IsRecent size l memory =
    (old : List ℕ) × (l ≡ old ++ memory) × ((old ≡ []) ⊎ (length memory ≡ size))

remove_absent : (n : ℕ) (l : List ℕ) → occurs n l ≡ 0 → remove n l ≡ l
unfolding remove
remove_absent n [] e = refl
remove_absent n (y ∷ l) e = elim (Bool-cases (y == n)) [
  | inl s ↦ absurd (ground arith)
  | inr s ↦ rw (s, remove_absent n l (ground arith))
]

remove_right : (n : ℕ) (l m : List ℕ) → occurs n l ≡ 0 → remove n (l ++ m) ≡ l ++ remove n m
unfolding remove
remove_right n [] m e = refl
remove_right n (y ∷ l) m e = elim (Bool-cases (y == n)) [
  | inl s ↦ absurd (ground arith)
  | inr s ↦ rw (s, remove_right n l m (ground arith))
]

remove_left : (n : ℕ) (l m : List ℕ) → 1 ≤ occurs n l → remove n (l ++ m) ≡ remove n l ++ m
unfolding remove
remove_left n [] m e = absurd (omega arith)
remove_left n (y ∷ l) m e = elim (Bool-cases (y == n)) [
  | inl s ↦ rw s
  | inr s ↦ rw (s, remove_left n l m (ground arith))
]

moved-IsDistinct : (n : ℕ) (l : List ℕ) → IsDistinct l → IsDistinct (remove n l ++ n ∷ [])
moved-IsDistinct n l h x = elim (Bool-cases (leb 1 (occurs n l))) [
  | inl e ↦
      let t = remove-Taken n l (ground arith) in
      ground (arith, occurs-append x (remove n l) (n ∷ []), t.counts x, h x)
  | inr e ↦
      let z : occurs n l ≡ 0 = ground arith in
      rw (remove_absent n l z) (elim (Bool-cases (n == x)) [
        | inl s ↦
            let t : n ≡ x = ground arith in
            let z' : occurs x l ≡ 0 = rw (← t) z in ground (arith, occurs-append x l (n ∷ []))
        | inr s ↦ ground (arith, occurs-append x l (n ∷ []), h x)
      ])
]

abbrev memory_of : Result Cache → List ℕ
memory_of (ok c) = c.memory
memory_of (raise e) = []

module _ (draw : ℕ → ℕ → ℕ) (size clockbits n index : ℕ) (future : List ℕ) (c c' : Cache)
    (e : access draw lru size clockbits n index future c ≡ ok c') where
  lru_hit : is_in n c.memory ≡ true → c'.memory ≡ remove n c.memory ++ n ∷ []
  unfolding access touch
  lru_hit i = ap memory_of (sym e) ∙ rw i

  lru_room : is_in n c.memory ≡ false → (c.count == size) ≡ false → c'.memory ≡ c.memory ++ n ∷ []
  unfolding access load
  lru_room i f = ap memory_of (sym e) ∙ rw (i, f)

  lru_full :
      (x : ℕ) (l : List ℕ)
      → is_in n c.memory ≡ false
      → (c.count == size) ≡ true
      → c.memory ≡ x ∷ l
      → c'.memory ≡ l ++ n ∷ []
  unfolding access load evict pop
  lru_full x l i f m = elim (Bool-cases (is_in x (l ++ n ∷ []))) [
    | inl g ↦
        let r : access draw lru size clockbits n index future c ≡ raise assertion_error =
          rw (i, f, m, g) in
        absurd (cc)
    | inr g ↦ ap memory_of (sym e) ∙ rw (i, f, m, g)
  ]

shift_behind : (o l : List ℕ) (x n : ℕ) → (o ++ x ∷ l) ++ n ∷ [] ≡ (o ++ x ∷ []) ++ (l ++ n ∷ [])
shift_behind [] l x n = refl
shift_behind (y ∷ o) l x n = ap (λ (m : List ℕ). y ∷ m) (shift_behind o l x n)

some_page : (l : List ℕ) → 0 < length l → (x : ℕ) × (m : List ℕ) × (l ≡ x ∷ m)
some_page [] lt = absurd (omega arith)
some_page (x ∷ m) lt = (x, m, refl)

is_in-true : (n : ℕ) (l : List ℕ) → is_in n l ≡ true → 1 ≤ occurs n l
is_in-true n l i = let e = sym (is_in-occurs n l) ∙ i in ground arith

is_in-false : (n : ℕ) (l : List ℕ) → is_in n l ≡ false → occurs n l ≡ 0
is_in-false n l i = let e = sym (is_in-occurs n l) ∙ i in ground arith

module _ (draw : ℕ → ℕ → ℕ) (size clockbits n index : ℕ) (future : List ℕ) (c c' : Cache)
    (e : access draw lru size clockbits n index future c ≡ ok c') (pos : 0 < size)
    (h : IsCache size c) (s : List ℕ) (d : IsDistinct s) (old : List ℕ)
    (q : s ≡ old ++ c.memory) where
  hit-IsRecent :
      is_in n c.memory ≡ true
      → (old ≡ []) ⊎ (length c.memory ≡ size)
      → IsRecent size (remove n s ++ n ∷ []) c'.memory
  hit-IsRecent i f =
      let m = lru_hit draw size clockbits n index future c c' e i in
      let t = remove-Taken n c.memory (is_in-true n c.memory i) in
      let a : occurs n s ≡ occurs n old + occurs n c.memory = rw q (occurs-append n old c.memory) in
      let z : occurs n old ≡ 0 = omega (arith, d n, is_in-true n c.memory i) in
      (
        old,
        rw (q, m, remove_right n old c.memory z) (append_assoc old (remove n c.memory) (n ∷ [])),
        elim f [
          | inl x ↦ inl x
          | inr x ↦
              inr (rw m (length-append (remove n c.memory) (n ∷ []) ∙ omega (arith, t.shorter)))
        ],
      )

  room-IsRecent :
      is_in n c.memory ≡ false
      → (c.count == size) ≡ false
      → (old ≡ []) ⊎ (length c.memory ≡ size)
      → IsRecent size (remove n s ++ n ∷ []) c'.memory
  room-IsRecent i f (inr x) = absurd (ground (arith, h.counted))
  room-IsRecent i f (inl x) =
      let m = lru_room draw size clockbits n index future c c' e i f in
      ([], rw (q, x, m, remove_absent n c.memory (is_in-false n c.memory i)), inl refl)

  full-IsRecent :
      (x : ℕ) (l : List ℕ)
      → c.memory ≡ x ∷ l
      → is_in n c.memory ≡ false
      → (c.count == size) ≡ true
      → IsRecent size (remove n s ++ n ∷ []) c'.memory
  full-IsRecent x l p i f =
      let m = lru_full draw size clockbits n index future c c' e x l i f p in
      let k : length (x ∷ l) ≡ size = ap length (sym p) ∙ ground (arith, h.counted) in
      let len : length c'.memory ≡ size = rw m (length-append l (n ∷ []) ∙ omega (arith, k)) in
      elim (Bool-cases (leb 1 (occurs n old))) [
        | inl g ↦ (
          remove n old ++ x ∷ [],
          rw (q, m, remove_left n old c.memory (ground arith), p)
              (shift_behind (remove n old) l x n),
          inr len,
        )
        | inr g ↦
            let z : occurs n (old ++ c.memory) ≡ 0 =
              occurs-append n old c.memory ∙ ground (arith, is_in-false n c.memory i) in
            (
              old ++ x ∷ [],
              rw (q, m, remove_absent n (old ++ c.memory) z, p) (shift_behind old l x n),
              inr len,
            )
      ]

access-IsRecent :
    (draw : ℕ → ℕ → ℕ) (size clockbits n index : ℕ) (future : List ℕ) (c c' : Cache) (s : List ℕ)
    → access draw lru size clockbits n index future c ≡ ok c'
    → 0 < size
    → IsCache size c
    → IsDistinct s
    → IsRecent size s c.memory
    → IsRecent size (remove n s ++ n ∷ []) c'.memory
access-IsRecent draw size clockbits n index future c c' s e pos h d (old, q, f) =
    elim (Bool-cases (is_in n c.memory)) [
      | inl i ↦ hit-IsRecent draw size clockbits n index future c c' e pos h s d old q i f
      | inr i ↦ elim (Bool-cases (c.count == size)) [
        | inl g ↦
            let (x, l, p) = some_page c.memory (ground (arith, h.counted)) in
            full-IsRecent draw size clockbits n index future c c' e pos h s d old q x l p i g
        | inr g ↦ room-IsRecent draw size clockbits n index future c c' e pos h s d old q i g f
      ]
    ]

-- A run of LRU with a cache of at least one page, from a cache whose memory is the pages used last:
-- it raises nothing, and the memory is again the pages used last. They are the end of the list of all
-- pages in the order of their last use, and all of that list unless the memory is full.
pub run-IsRecent :
    (draw : ℕ → ℕ → ℕ) (size clockbits index : ℕ) (pages : List ℕ) (c : Cache) (s : List ℕ)
    → IsDraw draw
    → 0 < size
    → IsCache size c
    → IsDistinct s
    → IsRecent size s c.memory
    → (c' : Cache) × (run draw lru size clockbits index pages c ≡ ok c')
      × IsRecent size (recency s pages) c'.memory
unfolding run recency
run-IsRecent draw size clockbits index [] c s d pos h u r = (c, refl, r)
run-IsRecent draw size clockbits index (n ∷ pages) c s d pos h u r =
    let (v, e, k, o, hit, mis) =
      access-IsCache draw lru size clockbits n (index + 1) pages c d pos h in
    let r' = access-IsRecent draw size clockbits n (index + 1) pages c v s e pos h u r in
    let (t, f, m) =
      run-IsRecent draw size clockbits (index + 1) pages v (remove n s ++ n ∷ []) d pos k
        (moved-IsDistinct n s u) r' in
    (t, rw e f, m)
