-- ===== src/Ssd/Live.antt =====
-- The live pages of a block in `garbage_collect`.
use life.Prelude.{
  ℕ, zero, suc, ◌+◌, ◌≤◌, ◌<◌, ◌≡◌, Bool, true, false, some, Option-cases, Bool-cases, ◌⊎◌, inl,
  inr, List, [], ◌∷◌, All, ◌==◌, if◌then◌else◌, arith,
}
use life.Ssd.Device.{Ssd}
use life.Ssd.{range}
use life.Ssd.Collector.{is_live, live_pages}
use life.Ssd.Sound.{IsSound}

-- The page is one of the list.
abbrev pub IsOneOf : ℕ → List ℕ → Type 0
IsOneOf p [] = ⊥
IsOneOf p (q ∷ l) = (p ≡ q) ⊎ IsOneOf p l

pub range-IsOneOf : (p a n : ℕ) → a ≤ p → p < a + n → IsOneOf p (range a n)
range-IsOneOf p a zero lo hi = absurd (omega arith)
range-IsOneOf p a (suc n) lo hi = elim (Bool-cases (p == a)) [
  | inl e ↦ inl (ground arith)
  | inr e ↦ inr (range-IsOneOf p (a + 1) n (ground arith) (omega arith))
]

-- A mapped page of the list is among the live ones.
pub live_pages-IsOneOf :
    (nb ppb : ℕ) (s : Ssd) (l : List ℕ) (a p : ℕ)
    → IsSound nb ppb s
    → s.forward_map a ≡ some p
    → IsOneOf p l
    → IsOneOf p (live_pages s l)
unfolding live_pages is_live
live_pages-IsOneOf nb ppb s [] a p h e m = m
live_pages-IsOneOf nb ppb s (q ∷ l) a p h e (inl m) =
    let (x, y, z) = h.mapped a p e in
    let z' : s.reverse_map q ≡ some a = rw m at z in inl_if (is_live s q) (ground arith)
  where
    inl_if : (b : Bool) → b ≡ true → IsOneOf p (if b then q ∷ live_pages s l else live_pages s l)
    inl_if true t = inl m
    inl_if false t = absurd (cc)
live_pages-IsOneOf nb ppb s (q ∷ l) a p h e (inr m) =
    inr_if (is_live s q) (live_pages-IsOneOf nb ppb s l a p h e m)
  where
    inr_if :
        (b : Bool)
        → IsOneOf p (live_pages s l)
        → IsOneOf p (if b then q ∷ live_pages s l else live_pages s l)
    inr_if true t = inr t
    inr_if false t = t

-- Every page of the list is mapped.
abbrev pub AllMapped : Ssd → List ℕ → Type 0
AllMapped s = All (λ p. (a : ℕ) × (s.forward_map a ≡ some p))

pub is_live-mapped : (s : Ssd) (q : ℕ) → is_live s q ≡ true → (a : ℕ) × (s.forward_map a ≡ some q)
unfolding is_live
is_live-mapped s q e = elim (Option-cases (s.reverse_map q)) [
  | inl f ↦ absurd (ground arith)
  | inr (a, f) ↦ elim (Option-cases (s.forward_map a)) [
    | inl g ↦ absurd (ground arith)
    | inr (p, g) ↦ (a, ground arith)
  ]
]

-- The list goes up, from `lo` on.
abbrev pub IsAscending : ℕ → List ℕ → Type 0
IsAscending lo [] = Unit
IsAscending lo (q ∷ l) = (lo ≤ q) × IsAscending (q + 1) l

IsAscending-le : (lo hi : ℕ) (l : List ℕ) → hi ≤ lo → IsAscending lo l → IsAscending hi l
IsAscending-le lo hi [] le p = tt
IsAscending-le lo hi (q ∷ l) le p = (omega arith, p.1)

pub live_pages-lem :
    (s : Ssd) (lo n : ℕ)
    → AllMapped s (live_pages s (range lo n)) × IsAscending lo (live_pages s (range lo n))
unfolding live_pages
live_pages-lem s lo zero = (tt, tt)
live_pages-lem s lo (suc n) =
    let (m, o) = live_pages-lem s (lo + 1) n in
    elim (Bool-cases (is_live s lo)) [
      | inl e ↦ rw e ((is_live-mapped s lo e, m), (omega arith, o))
      | inr e ↦
          rw e (m, IsAscending-le (lo + 1) lo (live_pages s (range (lo + 1) n)) (omega arith) o)
    ]
