-- ===== src/Malloc/Cover.antt =====
-- How often an address lies in the blocks of a list: what the list operations of malloc.py do to
-- that number, and to the sizes being positive.
use life.Prelude.{
  ℕ, zero, suc, ◌+◌, ◌<◌, ◌≤◌, ◌≡◌, refl, Bool, ◌&&◌, some, List, [], ◌∷◌, ◌++◌, ltb, leb, ◌==◌,
  if◌then◌else◌, get_elem?, set, remove_at, lookup, All, Bool-cases, inl, inr, arith, ok,
}
use life.Malloc.{
  Block, ListOrder, insert_back, insert_front, addr_sort, size_sort_up, size_sort_down,
  insert_sorted, sorted, by_addr, by_size_up, by_size_down, put_back, merge, coalesced,
}

-- 1 if the address lies in the block, else 0.
abbrev pub holds : ℕ → Block → ℕ
holds a (start, n) = if leb start a && ltb a (start + n) then 1 else 0

-- The number of blocks of the list in which the address lies.
abbrev pub cover : ℕ → List Block → ℕ
cover a [] = 0
cover a (b ∷ l) = holds a b + cover a l

abbrev pub IsPositive : Block → Type 0
IsPositive b = 0 < b.1

pub cover-append : (a : ℕ) (xs ys : List Block) → cover a (xs ++ ys) ≡ cover a xs + cover a ys
cover-append a [] ys = omega arith
cover-append a (x ∷ xs) ys = omega (arith, cover-append a xs ys)

cover-insert_sorted :
    (a : ℕ) (before : Block → Block → Bool) (x : Block) (l : List Block)
    → cover a (insert_sorted before x l) ≡ holds a x + cover a l
unfolding insert_sorted
cover-insert_sorted a before x [] = refl
cover-insert_sorted a before x (y ∷ l) = elim (Bool-cases (before x y)) [
  | inl e ↦ rw e
  | inr e ↦ rw e (omega (arith, cover-insert_sorted a before x l))
]

cover-sorted :
    (a : ℕ) (before : Block → Block → Bool) (l : List Block) → cover a (sorted before l) ≡ cover a l
unfolding sorted
cover-sorted a before [] = refl
cover-sorted a before (x ∷ l) =
    omega (arith, cover-insert_sorted a before x (sorted before l), cover-sorted a before l)

pub cover-put_back :
    (a : ℕ) (o : ListOrder) (b : Block) (l : List Block)
    → cover a (put_back o b l) ≡ holds a b + cover a l
unfolding put_back
cover-put_back a insert_back b l = omega (arith, cover-append a l (b ∷ []))
cover-put_back a insert_front b l = refl
cover-put_back a addr_sort b l =
    omega (arith, cover-sorted a by_addr (l ++ b ∷ []), cover-append a l (b ∷ []))
cover-put_back a size_sort_up b l =
    omega (arith, cover-sorted a by_size_up (l ++ b ∷ []), cover-append a l (b ∷ []))
cover-put_back a size_sort_down b l =
    omega (arith, cover-sorted a by_size_down (l ++ b ∷ []), cover-append a l (b ∷ []))

-- two blocks that touch hold what the joined block holds
holds_join : (a s n m : ℕ) → holds a (s, n) + holds a (s + n, m) ≡ holds a (s, n + m)
holds_join a s n m = ground arith

cover-merge :
    (a : ℕ) (curr : Block) (newlist l : List Block)
    → cover a (merge curr newlist l) ≡ cover a newlist + holds a curr + cover a l
unfolding merge
cover-merge a curr newlist [] = omega (arith, cover-append a newlist (curr ∷ []))
cover-merge a (s, n) newlist ((t, m) ∷ l) = elim (Bool-cases (t == s + n)) [
  | inl e ↦
      let p : t ≡ s + n = ground arith in
      rw e (rw p (omega (arith, cover-merge a (s, n + m) newlist l, holds_join a s n m)))
  | inr e ↦ rw e (
      omega (
        arith,
        cover-merge a (t, m) (newlist ++ (s, n) ∷ []) l,
        cover-append a newlist ((s, n) ∷ []),
      ))
]

pub cover-coalesced : (a : ℕ) (l l' : List Block) → coalesced l ≡ ok l' → cover a l' ≡ cover a l
unfolding coalesced
cover-coalesced a [] l' h = cc
cover-coalesced a (b ∷ l) l' h = ground (arith, cover-merge a b [] l)

module _ (a : ℕ) where
  pub cover-set :
      (l : List Block) (i : ℕ) (b c : Block)
      → get_elem? l i ≡ some b
      → cover a (set l i c) + holds a b ≡ cover a l + holds a c
  cover-set [] i b c h = cc
  cover-set (x ∷ l) zero b c h = ground arith
  cover-set (x ∷ l) (suc i) b c h = omega (arith, cover-set l i b c h)

  pub cover-remove_at :
      (l : List Block) (i : ℕ) (b : Block)
      → get_elem? l i ≡ some b
      → cover a (remove_at l i) + holds a b ≡ cover a l
  cover-remove_at [] i b h = cc
  cover-remove_at (x ∷ l) zero b h = ground arith
  cover-remove_at (x ∷ l) (suc i) b h = omega (arith, cover-remove_at l i b h)

  pub cover_elem :
      (l : List Block) (i : ℕ) (b : Block) → get_elem? l i ≡ some b → holds a b ≤ cover a l
  cover_elem l i b h = omega (arith, cover-remove_at l i b h)

-- A block at its own key holds its first address.
pub cover_of_lookup :
    (k : ℕ) (d : List Block) {n : ℕ} → All IsPositive d → lookup k d ≡ some n → 0 < cover k d
cover_of_lookup k [] p h = cc
cover_of_lookup k ((j, m) ∷ d) (q, p) h = elim (Bool-cases (j == k)) [
  | inl e ↦ ground arith
  | inr e ↦ omega (arith, cover_of_lookup k d p (rw e at h))
]
