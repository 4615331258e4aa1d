-- ===== src/Malloc/Driver/Runs.antt =====
-- A run of the main program keeps the allocator's invariant; the only exception that it can end
-- with is the KeyError of `p[index]`, and only after an allocation has failed.
use life.Prelude.{
  ℕ, ◌+◌, ◌≤◌, ◌<◌, ◌≡◌, ◌≢◌, ◌↔◌, ◌∙◌, lookup-insert, refl, Option, none, some, List, [], ◌∷◌, leb,
  lookup, ap, delete_absent, Bool-cases, Option-cases, ◌⊎◌, inl, inr, arith, ok, raise, key_error,
  All, length,
}
use life.Malloc.{Heap}
use life.Malloc.Partition.{IsPartition}
use life.Malloc.Safety.{malloc-IsPartition, free-IsPartition}
use life.Malloc.Driver.{Op, alloc, release, badly_specified, Sim, note, step, run, start_of}

-- Sizes are positive, and every operand is `+` or `-`.
abbrev pub IsRequest : Op → Type 0
IsRequest (alloc n) = 0 < n
IsRequest (release i) = Unit
IsRequest badly_specified = ⊥

-- The heap is valid; `p` has keys below `c` only, and all of them unless an allocation has failed.
pub record IsReady (start : ℕ) (s : Sim) : Type 0 where
  pub valid : IsPartition start s.heap
  pub fresh : (i : ℕ) → s.c ≤ i → lookup i s.p ≡ none
  pub counted : length s.p ≤ s.c
  pub full : length s.p ≡ s.c → (i : ℕ) → i < s.c → lookup i s.p ≢ none

pub IsReady-init : (start : ℕ) (h : Heap) → IsPartition start h → IsReady start (start_of h)
IsReady-init start h v = record {
  valid = v;
  fresh = λ i le. refl;
  counted = omega arith;
  full = λ e i lt. absurd (omega arith);
}

note-IsReady :
    (start : ℕ) (s : Sim) (h : Heap) (o : Option ℕ)
    → IsReady start s
    → IsPartition start h
    → IsReady start (record { heap = h; c = s.c + 1; p = note o s.c s.p })
unfolding note
note-IsReady start s h none r v = record {
  valid = v;
  fresh = λ i le. r.fresh i (omega arith);
  counted = omega (arith, r.counted);
  full = λ e i lt. absurd (omega (arith, r.counted));
}
note-IsReady start s h (some ptr) r v =
    let same = delete_absent s.c s.p (r.fresh s.c (omega arith)) in
    record {
      valid = v;
      fresh = λ i le. lookup-insert s.c i ptr s.p ∙ ground (arith, r.fresh i (omega arith));
      counted = rw same (omega (arith, r.counted));
      full = λ e i lt. rw same (
          let e' : length s.p ≡ s.c = (let f = ap length same in omega arith) in
          ground (arith, r.full e' i));
    }

-- One operation: it succeeds and keeps the state ready, or it is a `release` of an allocation that
-- failed.
step-IsReady :
    (start : ℕ) (op : Op) (s : Sim)
    → IsRequest op
    → IsReady start s
    → ((s' : Sim) × (step op s ≡ ok s') × IsReady start s') ⊎ (step op s ≡ raise key_error)
unfolding step
step-IsReady start (alloc n) s q r =
    let (x, e, v) = malloc-IsPartition start s.heap n r.valid (omega arith) in
    inl (
      record { heap = x.0; c = s.c + 1; p = note x.1 s.c s.p },
      rw e,
      note-IsReady start s x.0 x.1 r v,
    )
step-IsReady start (release i) s q r = elim (Bool-cases (leb (length s.p) i)) [
  | inl e ↦ inl (s, rw e, r)
  | inr e ↦ elim (Option-cases (lookup i s.p)) [
    | inl f ↦ inr (ground arith)
    | inr (addr, f) ↦
        let (x, g, v, w) = free-IsPartition start s.heap addr r.valid in
        inl (
          record s { heap = x.0 },
          ground arith,
          record { valid = v; fresh = r.fresh; counted = r.counted; full = r.full },
        )
  ]
]
step-IsReady start badly_specified s q r = absurd q

-- From a ready state (a valid heap, `p` with keys below `c`), a run of operations with positive
-- sizes returns a ready state, or ends with a KeyError; it raises nothing else.
pub run-IsReady :
    (start : ℕ) (ops : List Op) (s : Sim)
    → All IsRequest ops
    → IsReady start s
    → ((s' : Sim) × (run ops s ≡ ok s') × IsReady start s') ⊎ (run ops s ≡ raise key_error)
unfolding run
run-IsReady start [] s q r = inl (s, refl, r)
run-IsReady start (op ∷ ops) s q r = elim (step-IsReady start op s q.0 r) [
  | inl (t, e, u) ↦ rw e (run-IsReady start ops t q.1 u)
  | inr e ↦ inr (rw e)
]

-- In a ready state a `release` raises a KeyError exactly where its index is below `len(p)` and has
-- no entry in `p`; while `p` has an entry for every allocation it never does.
pub release_raises :
    (start : ℕ) (i : ℕ) (s : Sim)
    → IsReady start s
    → ((step (release i) s ≡ raise key_error) ↔ ((i < length s.p) × (lookup i s.p ≡ none)))
      × (length s.p ≡ s.c → step (release i) s ≢ raise key_error)
unfolding step
release_raises start i s r =
    (both, λ e f. r.full e i (omega (arith, (both.0 f).0, r.counted)) (both.0 f).1)
  where
    both : (step (release i) s ≡ raise key_error) ↔ ((i < length s.p) × (lookup i s.p ≡ none))
    both = elim (Option-cases (lookup i s.p)) [
      | inl f ↦ ((λ e. (ground arith, f)), (λ h. ground arith))
      | inr (addr, f) ↦
          let (x, g, v, w) = free-IsPartition start s.heap addr r.valid in
          ((λ e. absurd (ground arith)), (λ h. absurd (ground arith)))
    ]
