-- ===== src/Paging/Removal.antt =====
-- What `remove`, `pop` and the loop of CLOCK take out of the memory.
use life.Prelude.{
  ℕ, zero, suc, ◌+◌, ◌≤◌, ◌<◌, ◌≡◌, refl, some, Bool-cases, inl, inr, List, [], ◌∷◌, ◌++◌, ltb,
  ◌==◌, if◌then◌else◌, length, get_elem?, lookup, insert, lookup-insert, ok, arith,
}
use life.Paging.{is_in, remove, pop, total}

-- How often a page is in a list.
abbrev pub occurs : ℕ → List ℕ → ℕ
occurs x [] = 0
occurs x (y ∷ l) = (if y == x then 1 else 0) + occurs x l

-- The list has each of its pages once.
abbrev pub IsDistinct : List ℕ → Type 0
IsDistinct l = (x : ℕ) → occurs x l ≤ 1

-- One occurrence of the page is taken out.
pub record Taken (victim : ℕ) (l l' : List ℕ) : Type 0 where
  pub shorter : length l ≡ length l' + 1
  pub counts : (x : ℕ) → occurs x l ≡ occurs x l' + (if victim == x then 1 else 0)

pub is_in-occurs : (x : ℕ) (l : List ℕ) → is_in x l ≡ ltb 0 (occurs x l)
unfolding is_in
is_in-occurs x [] = ground arith
is_in-occurs x (y ∷ l) = ground (arith, is_in-occurs x l)

pub occurs-append : (x : ℕ) (l m : List ℕ) → occurs x (l ++ m) ≡ occurs x l + occurs x m
occurs-append x [] m = omega arith
occurs-append x (y ∷ l) m = ground (arith, occurs-append x l m)

Taken-cons : (v y : ℕ) (l m : List ℕ) → Taken v l m → Taken v (y ∷ l) (y ∷ m)
Taken-cons v y l m t = record {
  shorter = omega (arith, t.shorter);
  counts = λ x. ground (arith, t.counts x);
}

pub pop-Taken :
    (i : ℕ) (l : List ℕ)
    → i < length l
    → (v : ℕ) × (m : List ℕ) × (pop i l ≡ ok (v, m)) × Taken v l m
unfolding pop
pop-Taken i [] lt = absurd (omega arith)
pop-Taken zero (y ∷ l) lt =
    (y, l, refl, record { shorter = omega arith; counts = λ x. ground arith })
pop-Taken (suc i) (y ∷ l) lt =
    let (v, m, e, t) = pop-Taken i l (omega arith) in (v, y ∷ m, rw e, Taken-cons v y l m t)

pub remove-Taken : (v : ℕ) (l : List ℕ) → 1 ≤ occurs v l → Taken v l (remove v l)
unfolding remove
remove-Taken v [] le = absurd (omega arith)
remove-Taken v (y ∷ l) le = elim (Bool-cases (y == v)) [
  | inl e ↦ rw e (record { shorter = omega arith; counts = λ x. ground arith })
  | inr e ↦ rw e (Taken-cons v y l (remove v l) (remove-Taken v l (ground arith)))
]

pub get_elem?-occurs :
    (i : ℕ) (l : List ℕ) → i < length l → (x : ℕ) × (get_elem? l i ≡ some x) × (1 ≤ occurs x l)
get_elem?-occurs i [] lt = absurd (omega arith)
get_elem?-occurs zero (y ∷ l) lt = (y, refl, ground arith)
get_elem?-occurs (suc i) (y ∷ l) lt =
    let (x, e, o) = get_elem?-occurs i l (omega arith) in (x, e, omega (arith, o))

-- A bit less for a page takes one from the total at each of its occurrences.
pub total-insert :
    (page bits : ℕ) (l : List ℕ) (ref : List (ℕ × ℕ))
    → lookup page ref ≡ some (bits + 1)
    → total l (insert page bits ref) + occurs page l ≡ total l ref
unfolding total
total-insert page bits [] ref e = refl
total-insert page bits (y ∷ l) ref e =
    let h : lookup y (insert page bits ref) ≡ (if page == y then some bits else lookup y ref) =
      lookup-insert page y bits ref in
    elim (Bool-cases (page == y)) [
      | inl t ↦
          let s : page ≡ y = ground arith in
          let e' : lookup y ref ≡ some (bits + 1) = rw (← s) e in
          ground (arith, h, e', total-insert page bits l ref e)
      | inr t ↦ ground (arith, h, total-insert page bits l ref e)
    ]
