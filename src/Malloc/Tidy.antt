-- ===== src/Malloc/Tidy.antt =====
-- `malloc` and `free` keep the free list sorted and coalesced, under ADDRSORT with coalescing.
use life.Prelude.{
  ℕ, ◌+◌, ◌<◌, ◌≡◌, Bool, true, false, Option, none, some, List, ltb, lookup, delete, ap,
  if◌then◌else◌, Bool-cases, Option-cases, inl, inr, arith, ok,
}
use life.Malloc.{
  Block, Policy, ListOrder, addr_sort, Heap, Candidate, init, needed, malloc, scan, put_back,
  coalesced, free,
}
use life.Malloc.Cover.{IsPositive, cover-put_back}
use life.Malloc.Positive.{All-lookup, All-put_back}
use life.Malloc.Search.{Fits, AllFit, scan_whole-AllFit}
use life.Malloc.Partition.{IsPartition, cover-delete, outcome, taken, malloc-outcome}
use life.Malloc.Safety.{free-allocated, free-absent}
use life.Malloc.Ordered.{IsGapped, coalesced-IsGapped, set-IsGapped, remove_at-IsGapped}

pub record IsTidy (h : Heap) : Type 0 where
  pub addr_sorted : h.return_policy ≡ addr_sort
  pub coalescing : h.coalesce ≡ true
  pub gapped : IsGapped h.freelist

pub init-IsTidy :
    (size start header : ℕ) (p : Policy) (align : Option ℕ) {h : Heap}
    → init size start header p addr_sort true align ≡ ok h
    → IsTidy h
unfolding init
init-IsTidy size start header p none e = ground arith
init-IsTidy size start header p (some a) e = ground arith

only_coalesced :
    (c : Bool) (o : ListOrder) (b : Block) (f l : List Block)
    → c ≡ true
    → o ≡ addr_sort
    → (if c then coalesced (put_back o b f) else ok (put_back o b f)) ≡ ok l
    → coalesced (put_back addr_sort b f) ≡ ok l
only_coalesced c o b f l p q e = ground arith

module _ (start : ℕ) (h : Heap) (v : IsPartition start h) (g : IsTidy h) where
  taken-IsTidy : (n : ℕ) (c : Candidate) → Fits h.freelist n c → IsTidy (taken start h v n c)
  unfolding taken
  taken-IsTidy n c fits = record {
    addr_sorted = g.addr_sorted;
    coalescing = g.coalescing;
    gapped = elim (Bool-cases (ltb n c.size)) [
      | inl e ↦
          rw e (set-IsGapped h.freelist c.idx c.addr c.size n g.gapped fits.there (ground arith))
      | inr e ↦ rw e (remove_at-IsGapped h.freelist c.idx g.gapped)
    ];
  }

  outcome-IsTidy :
      (n : ℕ) (found : Option Candidate) (count : ℕ)
      → AllFit h.freelist n found
      → IsTidy (outcome start h v n (found, count)).0
  unfolding outcome
  outcome-IsTidy n none count fit = g
  outcome-IsTidy n (some c) count fit = taken-IsTidy n c fit

  pub malloc-IsTidy :
      (n : ℕ) (r : Heap × Option ℕ × ℕ) → 0 < n + h.header_size → malloc h n ≡ ok r → IsTidy r.0
  malloc-IsTidy n r pos e =
      let k : ℕ = needed h n in
      let s : Option Candidate × ℕ = scan h.policy h.size k h.freelist 0 none 0 in
      let t = outcome-IsTidy k s.0 s.1 (scan_whole-AllFit h.policy h.size k h.freelist) in
      let q : outcome start h v k s ≡ r = (let o = malloc-outcome start h v n pos in cc) in
      rw q at t

  pub free-IsTidy : (addr : ℕ) (r : Heap × Bool) → free h addr ≡ ok r → IsTidy r.0
  free-IsTidy addr r f = elim (Option-cases (lookup addr h.sizemap)) [
    | inl e ↦
        let q : ◌≡◌ {A = Heap × Bool} (h, false) r = (let o = free-absent h addr e in cc) in
        let t : h ≡ r.0 = ap (λ (x : Heap × Bool). x.0) q in rw t at g
    | inr (n, e) ↦
        let (l, o, w, z) = free-allocated start h v addr n e in
        let h' : Heap = record h { freelist = l; sizemap = delete addr h.sizemap } in
        let q : ◌≡◌ {A = Heap × Bool} (h', true) r = cc in
        let t : h' ≡ r.0 = ap (λ (x : Heap × Bool). x.0) q in
        let p : 0 < n = All-lookup IsPositive addr h.sizemap v.used_positive e in
        let tidy : IsTidy h' = record {
          addr_sorted = g.addr_sorted;
          coalescing = g.coalescing;
          gapped =
              coalesced-IsGapped (addr, n) h.freelist l
                (All-put_back IsPositive addr_sort (addr, n) h.freelist p v.free_positive)
                (λ a. ground (
                  arith,
                  v.exact a,
                  cover-put_back a addr_sort (addr, n) h.freelist,
                  cover-delete a addr h.sizemap v.distinct e,
                ))
                (only_coalesced h.coalesce h.return_policy (addr, n) h.freelist l g.coalescing
                  g.addr_sorted z);
        } in
        rw t at tidy
  ]
