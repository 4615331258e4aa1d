-- ===== src/Malloc/Positive.antt =====
-- The list operations of malloc.py keep a property that every block has.
use life.Prelude.{
  ℕ, zero, suc, ◌+◌, ◌≡◌, Bool, some, List, [], ◌∷◌, ◌++◌, ◌==◌, set, remove_at, lookup, delete,
  All, Bool-cases, inl, inr, arith, ok,
}
use life.Malloc.{
  Block, ListOrder, insert_back, insert_front, addr_sort, size_sort_up, size_sort_down,
  insert_sorted, sorted, by_addr, by_size_up, by_size_down, put_back, merge, coalesced,
}
use life.Malloc.Cover.{IsPositive}

module _ (P : Block → Type 0) where
  pub All-append : (xs ys : List Block) → All P xs → All P ys → All P (xs ++ ys)
  All-append [] ys p q = q
  All-append (x ∷ xs) ys p q = (p.0, All-append xs ys p.1 q)

  pub All-set : (l : List Block) (i : ℕ) (b : Block) → All P l → P b → All P (set l i b)
  All-set [] i b p q = tt
  All-set (x ∷ l) zero b p q = (q, p.1)
  All-set (x ∷ l) (suc i) b p q = (p.0, All-set l i b p.1 q)

  pub All-remove_at : (l : List Block) (i : ℕ) → All P l → All P (remove_at l i)
  All-remove_at [] i p = tt
  All-remove_at (x ∷ l) zero p = p.1
  All-remove_at (x ∷ l) (suc i) p = (p.0, All-remove_at l i p.1)

  pub All-delete : (k : ℕ) (d : List Block) → All P d → All P (delete k d)
  All-delete k [] p = tt
  All-delete k ((j, m) ∷ d) p = elim (Bool-cases (j == k)) [
    | inl e ↦ rw e (All-delete k d p.1)
    | inr e ↦ rw e (p.0, All-delete k d p.1)
  ]

  pub All-lookup : (k : ℕ) (d : List Block) {n : ℕ} → All P d → lookup k d ≡ some n → P (k, n)
  All-lookup k [] p h = cc
  All-lookup k ((j, m) ∷ d) {n} p h = elim (Bool-cases (j == k)) [
    | inl e ↦ let q : ◌≡◌ {A = Block} (j, m) (k, n) = ground arith in rw q at p.0
    | inr e ↦ All-lookup k d p.1 (rw e at h)
  ]

  All-insert_sorted :
      (before : Block → Block → Bool) (x : Block) (l : List Block)
      → P x
      → All P l
      → All P (insert_sorted before x l)
  unfolding insert_sorted
  All-insert_sorted before x [] p q = (p, tt)
  All-insert_sorted before x (y ∷ l) p q = elim (Bool-cases (before x y)) [
    | inl e ↦ rw e (p, q)
    | inr e ↦ rw e (q.0, All-insert_sorted before x l p q.1)
  ]

  All-sorted : (before : Block → Block → Bool) (l : List Block) → All P l → All P (sorted before l)
  unfolding sorted
  All-sorted before [] p = tt
  All-sorted before (x ∷ l) p =
      All-insert_sorted before x (sorted before l) p.0 (All-sorted before l p.1)

  pub All-put_back :
      (o : ListOrder) (b : Block) (l : List Block) → P b → All P l → All P (put_back o b l)
  unfolding put_back
  All-put_back insert_back b l p q = All-append l (b ∷ []) q (p, tt)
  All-put_back insert_front b l p q = (p, q)
  All-put_back addr_sort b l p q =
      All-sorted by_addr (l ++ b ∷ []) (All-append l (b ∷ []) q (p, tt))
  All-put_back size_sort_up b l p q =
      All-sorted by_size_up (l ++ b ∷ []) (All-append l (b ∷ []) q (p, tt))
  All-put_back size_sort_down b l p q =
      All-sorted by_size_down (l ++ b ∷ []) (All-append l (b ∷ []) q (p, tt))

merge-IsPositive :
    (curr : Block) (newlist l : List Block)
    → IsPositive curr
    → All IsPositive newlist
    → All IsPositive l
    → All IsPositive (merge curr newlist l)
unfolding merge
merge-IsPositive curr newlist [] p q r = All-append IsPositive newlist (curr ∷ []) q (p, tt)
merge-IsPositive (s, n) newlist ((t, m) ∷ l) p q r = elim (Bool-cases (t == s + n)) [
  | inl e ↦ rw e (merge-IsPositive (s, n + m) newlist l (omega arith) q r.1)
  | inr e ↦ rw e (
      merge-IsPositive (t, m) (newlist ++ (s, n) ∷ []) l r.0
        (All-append IsPositive newlist ((s, n) ∷ []) q (p, tt)) r.1)
]

pub coalesced-IsPositive :
    (l l' : List Block) → coalesced l ≡ ok l' → All IsPositive l → All IsPositive l'
unfolding coalesced
coalesced-IsPositive [] l' h p = cc
coalesced-IsPositive (b ∷ l) l' h p =
    let e : merge b [] l ≡ l' = cc in rw e at (merge-IsPositive b [] l p.0 tt p.1)
