-- ===== src/Malloc/Safety.antt =====
-- What `malloc` and `free` promise their caller, over the invariant of Malloc/Partition.
use life.Prelude.{
  ℕ, ◌+◌, ◌<◌, ◌≡◌, ◌≢◌, ◌↔◌, refl, Bool, true, false, Option, none, some, List, [], ◌∷◌,
  if◌then◌else◌, lookup, delete, lookup-delete, All, Option-cases, inl, inr, arith, ok,
}
use life.Malloc.{
  Block, Policy, ListOrder, Heap, Candidate, init, needed, malloc, scan, put_back, merge, coalesced,
  free,
}
use life.Malloc.Cover.{holds, cover, IsPositive, cover-put_back, cover-coalesced}
use life.Malloc.Positive.{All-delete, All-lookup, All-put_back, coalesced-IsPositive}
use life.Malloc.Search.{scan_whole-AllFit}
use life.Malloc.Partition.{
  IsPartition, IsDict-delete, cover-delete, outcome, malloc-outcome, outcome-IsPartition,
  needed_pos,
}

pub init-IsPartition :
    (size start header : ℕ) (p : Policy) (o : ListOrder) (c : Bool) (align : Option ℕ) {h : Heap}
    → 0 < size
    → init size start header p o c align ≡ ok h
    → IsPartition start h
unfolding init
init-IsPartition size start header p o c none pos e = ground arith
init-IsPartition size start header p o c (some a) pos e = ground arith

-- On a heap whose addresses lie in exactly one block each, free or allocated, `malloc` of a request
-- that is positive with its header raises nothing, and the heap that it returns is such a heap too.
pub malloc-IsPartition :
    (start : ℕ) (h : Heap) (n : ℕ)
    → IsPartition start h
    → 0 < n + h.header_size
    → (r : Heap × Option ℕ × ℕ) × (malloc h n ≡ ok r) × IsPartition start r.0
malloc-IsPartition start h n v pos =
    let k : ℕ = needed h n in
    let s : Option Candidate × ℕ = scan h.policy h.size k h.freelist 0 none 0 in
    (
      outcome start h v k s,
      malloc-outcome start h v n pos,
      outcome-IsPartition start h v k s.0 s.1 (needed_pos start h v n pos)
          (scan_whole-AllFit h.policy h.size k h.freelist),
    )

-- the list after `free`, coalesced or not
tidied :
    (c : Bool) (l : List Block) (a : ℕ)
    → 0 < cover a l
    → (l' : List Block) × ((if c then coalesced l else ok l) ≡ ok l')
unfolding coalesced
tidied c [] a pos = absurd (omega arith)
tidied true (b ∷ l) a pos = (merge b [] l, refl)
tidied false (b ∷ l) a pos = (b ∷ l, refl)

tidied-cover :
    (c : Bool) (l l' : List Block) (a : ℕ)
    → (if c then coalesced l else ok l) ≡ ok l'
    → cover a l' ≡ cover a l
tidied-cover true l l' a e = cover-coalesced a l l' e
tidied-cover false l l' a e = ground arith

tidied-IsPositive :
    (c : Bool) (l l' : List Block)
    → (if c then coalesced l else ok l) ≡ ok l'
    → All IsPositive l
    → All IsPositive l'
tidied-IsPositive true l l' e p = coalesced-IsPositive l l' e p
tidied-IsPositive false l l' e p = let q : l ≡ l' = cc in rw q at p

free-tidied :
    (h : Heap) (addr n : ℕ) (l : List Block)
    → lookup addr h.sizemap ≡ some n
    → (let back = put_back h.return_policy (addr, n) h.freelist in
        (if h.coalesce then coalesced back else ok back))
      ≡ ok l
    → free h addr ≡ ok (record h { freelist = l; sizemap = delete addr h.sizemap }, true)
unfolding free
free-tidied h addr n l e t = rw (free, e, t)

-- what `free` does to an allocated address
module _ (start : ℕ) (h : Heap) (v : IsPartition start h) (addr n : ℕ)
    (e : lookup addr h.sizemap ≡ some n) where
  abbrev pub returned : List Block
  returned = put_back h.return_policy (addr, n) h.freelist

  cover-returned : (a : ℕ) → cover a returned ≡ holds a (addr, n) + cover a h.freelist
  cover-returned a = cover-put_back a h.return_policy (addr, n) h.freelist

  pub free-allocated :
      (l : List Block) × (free h addr
        ≡ ok (record h { freelist = l; sizemap = delete addr h.sizemap }, true))
      × IsPartition start (record h { freelist = l; sizemap = delete addr h.sizemap })
      × ((if h.coalesce then coalesced returned else ok returned) ≡ ok l)
  free-allocated =
      let p : 0 < n = All-lookup IsPositive addr h.sizemap v.used_positive e in
      let (l, t) = tidied h.coalesce returned addr (ground (arith, cover-returned addr)) in
      (
        l,
        free-tidied h addr n l e t,
        record {
          exact = λ a. omega (
            arith,
            v.exact a,
            tidied-cover h.coalesce returned l a t,
            cover-returned a,
            cover-delete a addr h.sizemap v.distinct e,
          );
          free_positive =
              tidied-IsPositive h.coalesce returned l t
                (All-put_back IsPositive h.return_policy (addr, n) h.freelist p v.free_positive);
          used_positive = All-delete IsPositive addr h.sizemap v.used_positive;
          distinct = IsDict-delete addr h.sizemap v.distinct;
        },
        t,
      )

pub free-absent : (h : Heap) (addr : ℕ) → lookup addr h.sizemap ≡ none → free h addr ≡ ok (h, false)
unfolding free
free-absent h addr e = rw (free, e)

-- On a heap whose addresses lie in exactly one block each `free` of any address raises nothing, under every list order, with coalescing or
-- without; the heap that it returns has every address in exactly one block again; and it reports
-- success exactly if the address was a key of the dictionary of allocations.
pub free-IsPartition :
    (start : ℕ) (h : Heap) (addr : ℕ)
    → IsPartition start h
    → (r : Heap × Bool) × (free h addr ≡ ok r)
      × IsPartition start r.0
      × ((r.1 ≡ true) ↔ (lookup addr h.sizemap ≢ none))
free-IsPartition start h addr v = elim (Option-cases (lookup addr h.sizemap)) [
  | inl e ↦ ((h, false), free-absent h addr e, v, (λ f. cc, λ f. absurd (f e)))
  | inr (n, e) ↦
      let (l, f, w, t) = free-allocated start h v addr n e in
      (
        (record h { freelist = l; sizemap = delete addr h.sizemap }, true),
        f,
        w,
        (λ _ g. cc, λ _. refl),
      )
]

-- On a heap that meets the invariant, after a successful `free` of an address, a second `free` of it
-- answers -1 and changes nothing.
pub free_twice :
    (start : ℕ) (h : Heap) (addr : ℕ) {h' : Heap}
    → IsPartition start h
    → free h addr ≡ ok (h', true)
    → free h' addr ≡ ok (h', false)
free_twice start h addr {h'} v f = elim (Option-cases (lookup addr h.sizemap)) [
  | inl e ↦ let g = free-absent h addr e in absurd (cc)
  | inr (n, e) ↦
      let (l, g, w, t) = free-allocated start h v addr n e in
      let p : record h { freelist = l; sizemap = delete addr h.sizemap } ≡ h' = cc in
      rw p at (
        free-absent (record h { freelist = l; sizemap = delete addr h.sizemap }) addr
          (ground (arith, lookup-delete addr addr h.sizemap)))
]
