-- ===== src/Malloc/Driver/Whole.antt =====
-- A run under ADDRSORT with coalescing keeps the free list sorted with gaps; when it has freed all
-- that it allocated, the free list is the one block of the start.
use life.Prelude.{
  ℕ, ◌<◌, ◌≡◌, Bool, true, Option, List, [], ◌∷◌, leb, lookup, ◌∙◌, ap, Bool-cases, Option-cases,
  Result-cases, inl, inr, arith, ok, raise, All, length,
}
use life.Malloc.{Policy, addr_sort, Heap, init, take_block, add_to_map, malloc, free}
use life.Malloc.Partition.{IsPartition}
use life.Malloc.Safety.{init-IsPartition, malloc-IsPartition, free-IsPartition}
use life.Malloc.Ordered.{whole_again}
use life.Malloc.Tidy.{IsTidy, init-IsTidy, malloc-IsTidy, free-IsTidy}
use life.Malloc.Driver.{Op, alloc, release, badly_specified, Sim, step, run, start_of}
use life.Malloc.Driver.Runs.{IsRequest}

size-malloc : (h : Heap) (n : ℕ) (r : Heap × Option ℕ × ℕ) → malloc h n ≡ ok r → r.0.size ≡ h.size
unfolding malloc take_block add_to_map
size-malloc h n r e = ground arith

size-free : (h : Heap) (a : ℕ) (r : Heap × Bool) → free h a ≡ ok r → r.0.size ≡ h.size
unfolding free
size-free h a r e = elim (Option-cases (lookup a h.sizemap)) [
  | inl f ↦ ground arith
  | inr (n, f) ↦ ground arith
]

record Keeps (start size : ℕ) (h : Heap) : Type 0 where
  valid : IsPartition start h
  tidy : IsTidy h
  sized : h.size ≡ size

malloc-Keeps :
    (start size n : ℕ) (h : Heap) (r : Heap × Option ℕ × ℕ)
    → 0 < n
    → Keeps start size h
    → malloc h n ≡ ok r
    → Keeps start size r.0
malloc-Keeps start size n h r pos k e =
    let (x, f, v) = malloc-IsPartition start h n k.valid (omega arith) in
    let q : x ≡ r = cc in
    let w : IsPartition start r.0 = rw q at v in
    record {
      valid = w;
      tidy = malloc-IsTidy start h k.valid k.tidy n r (omega arith) e;
      sized = size-malloc h n r e ∙ k.sized;
    }

free-Keeps :
    (start size a : ℕ) (h : Heap) (r : Heap × Bool)
    → Keeps start size h
    → free h a ≡ ok r
    → Keeps start size r.0
free-Keeps start size a h r k e =
    let (x, f, v, i) = free-IsPartition start h a k.valid in
    let q : x ≡ r = cc in
    let w : IsPartition start r.0 = rw q at v in
    record {
      valid = w;
      tidy = free-IsTidy start h k.valid k.tidy a r e;
      sized = size-free h a r e ∙ k.sized;
    }

step-Keeps :
    (start size : ℕ) (op : Op) (s s' : Sim)
    → IsRequest op
    → Keeps start size s.heap
    → step op s ≡ ok s'
    → Keeps start size s'.heap
unfolding step
step-Keeps start size (alloc n) s s' q k e =
    let (x, f, v) = malloc-IsPartition start s.heap n k.valid (omega arith) in
    let t : x.0 ≡ s'.heap = ground arith in rw t at (malloc-Keeps start size n s.heap x q k f)
step-Keeps start size (release i) s s' q k e = elim (Bool-cases (leb (length s.p) i)) [
  | inl b ↦ let t : s.heap ≡ s'.heap = ground arith in rw t at k
  | inr b ↦ elim (Option-cases (lookup i s.p)) [
    | inl f ↦ absurd (ground arith)
    | inr (a, f) ↦
        let (x, g, v, w) = free-IsPartition start s.heap a k.valid in
        let t : x.0 ≡ s'.heap = ground arith in rw t at (free-Keeps start size a s.heap x k g)
  ]
]
step-Keeps start size badly_specified s s' q k e = absurd q

run-Keeps :
    (start size : ℕ) (ops : List Op) (s s' : Sim)
    → All IsRequest ops
    → Keeps start size s.heap
    → run ops s ≡ ok s'
    → Keeps start size s'.heap
unfolding run
run-Keeps start size [] s s' q k e = let t : s ≡ s' = cc in rw (ap (λ (x : Sim). x.heap) t) at k
run-Keeps start size (op ∷ ops) s s' q k e = elim (Result-cases (step op s)) [
  | inl (t, f) ↦
      run-Keeps start size ops t s' q.1 (step-Keeps start size op s t q.0 k f) (rw f at e)
  | inr (x, f) ↦ absurd (let g : raise x ≡ ok s' = rw f at e in cc)
]

-- A run from a new, non-empty heap under ADDRSORT with coalescing, with positive sizes, that
-- returns a state in which nothing is allocated: the free list is the one block of the start,
-- whatever the search policy, the alignment, the header and the order of the operations.
pub run_to_one_block :
    (size start header : ℕ) (p : Policy) (align : Option ℕ) (ops : List Op) (h : Heap) (s : Sim)
    → 0 < size
    → init size start header p addr_sort true align ≡ ok h
    → All IsRequest ops
    → run ops (start_of h) ≡ ok s
    → s.heap.sizemap ≡ []
    → s.heap.freelist ≡ (start, size) ∷ []
run_to_one_block size start header p align ops h s pos e q f used =
    let k0 : Keeps start size h = record {
      valid = init-IsPartition size start header p addr_sort true align pos e;
      tidy = init-IsTidy size start header p align e;
      sized = unfold init in ground arith;
    } in
    let k = run-Keeps start size ops (start_of h) s q k0 f in
    rw k.sized at (whole_again start s.heap k.valid k.tidy.gapped used (omega (arith, k.sized)))
