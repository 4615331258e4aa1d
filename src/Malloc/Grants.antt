-- ===== src/Malloc/Grants.antt =====
-- What `malloc` grants and when it refuses.
use life.Prelude.{
  ℕ, ◌+◌, ◌-◌, ◌≤◌, ◌<◌, ◌≡◌, ◌≢◌, ◌↔◌, true, Option, none, some, leb, get_elem?, lookup, delete,
  delete_absent, Bool-cases, Option-cases, inl, inr, arith, ok,
}
use life.Malloc.{Heap, Candidate, aligned, needed, malloc, scan, free}
use life.Malloc.Cover.{holds, cover, cover-set, cover-remove_at}
use life.Malloc.Search.{Fits, Prefers, scan_whole-AllFit, scan_whole-Chooses}
use life.Malloc.Partition.{
  IsPartition, free_small, free_not_used, outcome, taken, malloc-outcome, needed_pos,
}
use life.Malloc.Safety.{malloc-IsPartition, free-allocated}

module _ (start : ℕ) (h : Heap) (v : IsPartition start h) (n : ℕ)
    (pos : 0 < n + h.header_size) where
  abbrev found : Option Candidate × ℕ
  found = scan h.policy h.size (needed h n) h.freelist 0 none 0

  -- a grant comes from a candidate of the search
  pub granted :
      {h' : Heap} {a count : ℕ}
      → malloc h n ≡ ok (h', some a, count)
      → (c : Candidate) × (found.0 ≡ some c) × (c.addr ≡ a) × (h' ≡ taken start h v (needed h n) c)
  unfolding outcome
  granted e = elim (Option-cases found.0) [
    | inl f ↦ absurd (ground (arith, malloc-outcome start h v n pos))
    | inr (c, f) ↦ (
      c,
      f,
      ground (arith, malloc-outcome start h v n pos),
      ground (arith, malloc-outcome start h v n pos),
    )
  ]

  granted-Fits : (c : Candidate) → found.0 ≡ some c → Fits h.freelist (needed h n) c
  granted-Fits c f = rw f at (scan_whole-AllFit h.policy h.size (needed h n) h.freelist)

-- When `malloc` grants an address on a valid heap, the dictionary has the block under the size of the
-- aligned request with one header; an address is covered by the old free list as often as by
-- the new free list and the block together; and every other entry of the dictionary is as it was.
pub malloc_grants :
    (start : ℕ) (h : Heap) (n a count : ℕ) (h' : Heap)
    → IsPartition start h
    → 0 < n + h.header_size
    → malloc h n ≡ ok (h', some a, count)
    → (lookup a h'.sizemap ≡ some (aligned h.align n + h.header_size))
      × ((x : ℕ)
          → cover x h.freelist
            ≡ cover x h'.freelist + holds x (a, aligned h.align n + h.header_size))
      × ((b : ℕ) → b ≢ a → lookup b h'.sizemap ≡ lookup b h.sizemap)
unfolding taken needed
malloc_grants start h n a count h' v pos e =
    let (c, f, p, q) = granted start h v n pos e in
    let fits = granted-Fits start h v n pos c f in
    let k : ℕ = needed h n in
    rw (q, ← p)
      (
        ground arith,
        λ x. ground (
          arith,
          fits.large,
          cover-set x h.freelist c.idx (c.addr, c.size) (c.addr + k, c.size - k) fits.there,
          cover-remove_at x h.freelist c.idx (c.addr, c.size) fits.there,
        ),
        λ b ne. ground arith,
      )

-- On a valid heap, for a request that is positive with its header, `malloc` returns -1 and the
-- unchanged heap exactly when every free block is smaller than the size that is needed.
pub malloc_refuses :
    (start : ℕ) (h : Heap) (n : ℕ)
    → IsPartition start h
    → 0 < n + h.header_size
    → ((count : ℕ) × (malloc h n ≡ ok (h, none, count)))
      ↔ ((j a m : ℕ) → get_elem? h.freelist j ≡ some (a, m) → m < needed h n)
unfolding outcome
malloc_refuses start h n v pos = (refused, small)
  where
    refused :
        (count : ℕ) × (malloc h n ≡ ok (h, none, count))
        → (j a m : ℕ) → get_elem? h.freelist j ≡ some (a, m)
        → m < needed h n
    refused (count, e) j a m at = elim (Bool-cases (leb (needed h n) m)) [
      | inr l ↦ ground arith
      | inl l ↦
          let best_one =
            scan_whole-Chooses h.policy h.size (needed h n) h.freelist (free_small start h v) j a m
              at (ground arith) in
          elim (Option-cases (found start h v n pos).0) [
            | inl f ↦ absurd (rw f at best_one)
            | inr (c, f) ↦ absurd (ground (arith, malloc-outcome start h v n pos))
          ]
    ]

    small :
        ((j a m : ℕ) → get_elem? h.freelist j ≡ some (a, m) → m < needed h n)
        → (count : ℕ) × (malloc h n ≡ ok (h, none, count))
    small all = elim (Option-cases (found start h v n pos).0) [
      | inl f ↦ ((found start h v n pos).1, ground (arith, malloc-outcome start h v n pos))
      | inr (c, f) ↦
          let fits = granted-Fits start h v n pos c f in
          absurd (ground (arith, all c.idx c.addr c.size fits.there, fits.large))
    ]

-- The address that `malloc` grants on a valid heap is that of a free block which is large enough,
-- and which the policy likes at least as much as every other such block: FIRST the first one, BEST
-- a smallest, WORST a largest, and of several the first on the list.
pub malloc_chooses :
    (start : ℕ) (h : Heap) (n a count : ℕ) (h' : Heap)
    → IsPartition start h
    → 0 < n + h.header_size
    → malloc h n ≡ ok (h', some a, count)
    → (c : Candidate) × (c.addr ≡ a)
      × Fits h.freelist (needed h n) c
      × ((j b m : ℕ)
          → get_elem? h.freelist j ≡ some (b, m)
          → needed h n ≤ m
          → Prefers h.policy c j m)
malloc_chooses start h n a count h' v pos e =
    let (c, f, p, q) = granted start h v n pos e in
    (
      c,
      p,
      granted-Fits start h v n pos c f,
      λ j b m at large.
          let best_one =
            scan_whole-Chooses h.policy h.size (needed h n) h.freelist (free_small start h v) j b m
              at large in
          rw f at best_one,
    )

-- After a grant on a valid heap, `free` of the granted address succeeds, the dictionary is what it
-- was before the `malloc`, and the free list covers the same addresses as before.
pub free-malloc :
    (start : ℕ) (h : Heap) (n a count : ℕ) (h' : Heap)
    → IsPartition start h
    → 0 < n + h.header_size
    → malloc h n ≡ ok (h', some a, count)
    → (h'' : Heap) × (free h' a ≡ ok (h'', true))
      × (h''.sizemap ≡ h.sizemap)
      × ((x : ℕ) → cover x h''.freelist ≡ cover x h.freelist)
unfolding taken needed
free-malloc start h n a count h' v pos e =
    let (c, f, p, q) = granted start h v n pos e in
    let fits = granted-Fits start h v n pos c f in
    let (r, e', w) = malloc-IsPartition start h n v pos in
    let w' : IsPartition start h' = (let s : r.0 ≡ h' = ground arith in rw s at w) in
    let at : lookup a h'.sizemap ≡ some (needed h n) =
      (malloc_grants start h n a count h' v pos e).0 in
    let (l, g, u, t) = free-allocated start h' w' a (needed h n) at in
    let fresh : lookup a h.sizemap ≡ none = rw p at (
      free_not_used start h v c.idx c.addr c.size fits.there
        (omega (arith, fits.large, needed_pos start h v n pos))) in
    let same : delete a h'.sizemap ≡ h.sizemap =
      rw (q, p) (ground (arith, delete_absent a h.sizemap fresh)) in
    (
      record h' { freelist = l; sizemap = delete a h'.sizemap },
      g,
      same,
      λ x. let s : h'.size ≡ h.size = ground arith in ground (arith, v.exact x, u.exact x),
    )
