-- ===== src/Malloc/Ordered.antt =====
-- Under ADDRSORT with coalescing the free list is sorted by address with a gap between any two
-- blocks; a heap with nothing allocated is then one block again.
use life.Prelude.{
  ℕ, zero, suc, ◌+◌, ◌-◌, ◌≤◌, ◌<◌, ◌≡◌, some, List, [], ◌++◌, ◌∷◌, ◌==◌, get_elem?, set, remove_at,
  All, Bool-cases, inl, inr, arith, ok, ap,
}
use life.Malloc.{Block, addr_sort, Heap, put_back, merge, coalesced, insert_sorted, sorted, by_addr}
use life.Malloc.Cover.{holds, cover, IsPositive}
use life.Malloc.Partition.{IsPartition}

-- Every block ends before the next one starts, with a gap.
abbrev pub IsGapped : List Block → Type 0
IsGapped [] = Unit
IsGapped ((s, n) ∷ []) = Unit
IsGapped ((s, n) ∷ (t, m) ∷ l) = (s + n < t) × IsGapped ((t, m) ∷ l)

-- The blocks stand in the order of their addresses.
abbrev IsAscending : List Block → Type 0
IsAscending [] = Unit
IsAscending ((s, n) ∷ []) = Unit
IsAscending ((s, n) ∷ (t, m) ∷ l) = (s ≤ t) × IsAscending ((t, m) ∷ l)

-- Every block ends before the next one starts, or where it starts.
abbrev IsApart : List Block → Type 0
IsApart [] = Unit
IsApart ((s, n) ∷ []) = Unit
IsApart ((s, n) ∷ (t, m) ∷ l) = (s + n ≤ t) × IsApart ((t, m) ∷ l)

insert_sorted-IsAscending :
    (b : Block) (l : List Block) → IsAscending l → IsAscending (insert_sorted by_addr b l)
unfolding insert_sorted
insert_sorted-IsAscending (s, n) [] p = tt
insert_sorted-IsAscending (s, n) ((t, m) ∷ []) p = ground arith
insert_sorted-IsAscending (s, n) ((t, m) ∷ (u, k) ∷ l) p =
    ground (arith, insert_sorted-IsAscending (s, n) ((u, k) ∷ l) p.1)

sorted-IsAscending : (l : List Block) → IsAscending (sorted by_addr l)
unfolding sorted
sorted-IsAscending [] = tt
sorted-IsAscending (b ∷ l) = insert_sorted-IsAscending b (sorted by_addr l) (sorted-IsAscending l)

-- sorted blocks of which no two hold the same address are apart
IsAscending-IsApart :
    (l : List Block) → IsAscending l → All IsPositive l → ((a : ℕ) → cover a l ≤ 1) → IsApart l
IsAscending-IsApart [] p q r = tt
IsAscending-IsApart ((s, n) ∷ []) p q r = tt
IsAscending-IsApart ((s, n) ∷ (t, m) ∷ l) p q r =
    (ground (arith, r t), IsAscending-IsApart ((t, m) ∷ l) p.1 q.1 (λ a. omega (arith, r a)))

-- a gapped list followed by a block that starts after it ends
abbrev EndsBefore : List Block → ℕ → Type 0
EndsBefore [] a = Unit
EndsBefore ((s, n) ∷ []) a = s + n < a
EndsBefore ((s, n) ∷ (t, m) ∷ l) a = EndsBefore ((t, m) ∷ l) a

IsGapped-append :
    (l : List Block) (s n : ℕ) → IsGapped l → EndsBefore l s → IsGapped (l ++ (s, n) ∷ [])
IsGapped-append [] s n p q = tt
IsGapped-append ((t, m) ∷ []) s n p q = (q, tt)
IsGapped-append ((t, m) ∷ (u, k) ∷ l) s n p q = (p.0, IsGapped-append ((u, k) ∷ l) s n p.1 q)

EndsBefore-append : (l : List Block) (s n a : ℕ) → s + n < a → EndsBefore (l ++ (s, n) ∷ []) a
EndsBefore-append [] s n a p = p
EndsBefore-append ((t, m) ∷ []) s n a p = p
EndsBefore-append ((t, m) ∷ (u, k) ∷ l) s n a p = EndsBefore-append ((u, k) ∷ l) s n a p

merge-IsGapped :
    (s n : ℕ) (newlist l : List Block)
    → IsGapped newlist
    → EndsBefore newlist s
    → IsApart ((s, n) ∷ l)
    → IsGapped (merge (s, n) newlist l)
unfolding merge
merge-IsGapped s n newlist [] p q r = IsGapped-append newlist s n p q
merge-IsGapped s n newlist ((t, m) ∷ l) p q r = elim (Bool-cases (t == s + n)) [
  | inl e ↦ rw e (merge-IsGapped s (n + m) newlist l p q (joined l r.1 (ground arith)))
  | inr e ↦ rw e (
      merge-IsGapped t m (newlist ++ (s, n) ∷ []) l (IsGapped-append newlist s n p q)
        (EndsBefore-append newlist s n t (ground arith)) r.1)
]
  where
    joined : (l : List Block) → IsApart ((t, m) ∷ l) → t ≡ s + n → IsApart ((s, n + m) ∷ l)
    joined [] r e = tt
    joined ((u, k) ∷ l) r e = (omega arith, r.1)

-- What `free` makes of the list under ADDRSORT with coalescing.
pub coalesced-IsGapped :
    (b : Block) (l l' : List Block)
    → All IsPositive (put_back addr_sort b l)
    → ((a : ℕ) → cover a (put_back addr_sort b l) ≤ 1)
    → coalesced (put_back addr_sort b l) ≡ ok l'
    → IsGapped l'
coalesced-IsGapped b l l' p q e =
    whole (put_back addr_sort b l)
      (IsAscending-IsApart (put_back addr_sort b l)
        (unfold put_back in sorted-IsAscending (l ++ b ∷ [])) p q)
      e
  where
    whole : (k : List Block) → IsApart k → coalesced k ≡ ok l' → IsGapped l'
    whole [] r e = unfold coalesced in cc
    whole ((s, n) ∷ k) r e =
        unfold coalesced in
        (let f : merge (s, n) [] k ≡ l' = cc in rw f at (merge-IsGapped s n [] k tt tt r))

pub set-IsGapped :
    (l : List Block) (i s n k : ℕ)
    → IsGapped l
    → get_elem? l i ≡ some (s, n)
    → k < n
    → IsGapped (set l i (s + k, n - k))
set-IsGapped [] i s n k p e lt = tt
set-IsGapped ((t, m) ∷ []) zero s n k p e lt = tt
set-IsGapped ((t, m) ∷ []) (suc i) s n k p e lt = tt
set-IsGapped ((t, m) ∷ (u, j) ∷ l) zero s n k p e lt = ground arith
set-IsGapped ((t, m) ∷ (u, j) ∷ l) (suc zero) s n k p e lt =
    (ground arith, set-IsGapped ((u, j) ∷ l) zero s n k p.1 e lt)
set-IsGapped ((t, m) ∷ (u, j) ∷ l) (suc (suc i)) s n k p e lt =
    (p.0, set-IsGapped ((u, j) ∷ l) (suc i) s n k p.1 e lt)

pub remove_at-IsGapped : (l : List Block) (i : ℕ) → IsGapped l → IsGapped (remove_at l i)
remove_at-IsGapped [] i p = tt
remove_at-IsGapped ((t, m) ∷ []) zero p = tt
remove_at-IsGapped ((t, m) ∷ []) (suc i) p = tt
remove_at-IsGapped ((t, m) ∷ (u, j) ∷ l) zero p = p.1
remove_at-IsGapped ((t, m) ∷ (u, j) ∷ []) (suc zero) p = tt
remove_at-IsGapped ((t, m) ∷ (u, j) ∷ (w, k) ∷ l) (suc zero) p = (omega arith, p.1.1)
remove_at-IsGapped ((t, m) ∷ (u, j) ∷ l) (suc (suc i)) p =
    (p.0, remove_at-IsGapped ((u, j) ∷ l) (suc i) p.1)

before-IsGapped :
    (t m x : ℕ) (l : List Block) → IsGapped ((t, m) ∷ l) → x < t → cover x ((t, m) ∷ l) ≡ 0
before-IsGapped t m x [] p lt = ground arith
before-IsGapped t m x ((u, k) ∷ l) p lt = ground (arith, before-IsGapped u k x l p.1 (omega arith))

-- With nothing allocated, a gapped free list is the one block that the heap began with.
pub whole_again :
    (start : ℕ) (h : Heap)
    → IsPartition start h
    → IsGapped h.freelist
    → h.sizemap ≡ []
    → 0 < h.size
    → h.freelist ≡ (start, h.size) ∷ []
whole_again start h v g none_used pos =
    one_block h.freelist g (λ a. ground (arith, v.exact a, ap (cover a) none_used)) v.free_positive
  where
    one_block :
        (l : List Block)
        → IsGapped l
        → ((a : ℕ) → cover a l ≡ holds a (start, h.size))
        → All IsPositive l
        → l ≡ (start, h.size) ∷ []
    one_block [] g c p = absurd (ground (arith, c start))
    one_block ((s, n) ∷ []) g c p =
        ground (
          arith,
          c s,
          c start,
          c (s + n),
          c (start + h.size),
          c (s + n - 1),
          c (start + h.size - 1),
        )
    one_block ((s, n) ∷ (t, m) ∷ l) g c p =
        absurd (ground (arith, c s, c (s + n), c t, before-IsGapped t m (s + n) l g.1 g.0))
