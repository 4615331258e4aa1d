-- ===== src/Malloc/Partition.antt =====
-- The invariant of the allocator: every address of the heap lies in exactly one block, free or
-- allocated, and no address outside it does. `malloc` and `free` keep it and raise nothing.
use life.Prelude.{
  ℕ, ◌+◌, ◌-◌, ◌≤◌, ◌<◌, ◌≡◌, Option, none, some, List, [], ◌∷◌, ltb, ◌==◌, if◌then◌else◌,
  get_elem?, set, remove_at, lookup, delete, lookup-delete, delete_absent, All, Bool-cases,
  Option-cases, inl, inr, arith, ok,
}
use life.Malloc.{Block, Heap, Candidate, add_to_map, aligned, take_block, needed, malloc, scan}
use life.Malloc.Cover.{
  holds, cover, IsPositive, cover-set, cover-remove_at, cover_elem, cover_of_lookup,
}
use life.Malloc.Positive.{All-set, All-remove_at}
use life.Malloc.Search.{Fits, AllFit, scan_whole-AllFit}

-- No key has two entries.
abbrev pub IsDict : List Block → Type 0
IsDict [] = Unit
IsDict ((k, n) ∷ d) = (lookup k d ≡ none) × IsDict d

pub record IsPartition (start : ℕ) (h : Heap) : Type 0 where
  pub exact : (a : ℕ) → cover a h.freelist + cover a h.sizemap ≡ holds a (start, h.size)
  pub free_positive : All IsPositive h.freelist
  pub used_positive : All IsPositive h.sizemap
  pub distinct : IsDict h.sizemap

pub IsDict-delete : (k : ℕ) (d : List Block) → IsDict d → IsDict (delete k d)
IsDict-delete k [] p = tt
IsDict-delete k ((j, n) ∷ d) p = elim (Bool-cases (j == k)) [
  | inl e ↦ rw e (IsDict-delete k d p.1)
  | inr e ↦ rw e (ground (arith, lookup-delete k j d), IsDict-delete k d p.1)
]

pub cover-delete :
    (a k : ℕ) (d : List Block) {n : ℕ}
    → IsDict d
    → lookup k d ≡ some n
    → cover a (delete k d) + holds a (k, n) ≡ cover a d
cover-delete a k [] p h = cc
cover-delete a k ((j, m) ∷ d) {n} p h = elim (Bool-cases (j == k)) [
  | inl e ↦
      let q : j ≡ k = ground arith in
      let r : m ≡ n = ground arith in
      let s : delete k d ≡ d = delete_absent k d (rw q at p.0) in rw (e, s, ← q, ← r) (omega arith)
  | inr e ↦ rw e (omega (arith, cover-delete a k d p.1 (rw e at h)))
]

pub aligned_le : (o : Option ℕ) (n : ℕ) → n ≤ aligned o n
unfolding aligned
aligned_le o n = ground arith

module _ (start : ℕ) (h : Heap) (v : IsPartition start h) where
  -- a free block is no larger than the heap
  pub free_small : (j a m : ℕ) → get_elem? h.freelist j ≡ some (a, m) → m ≤ h.size
  free_small j a m at = ground (
    arith,
    v.exact a,
    v.exact (a + m - 1),
    cover_elem a h.freelist j (a, m) at,
    cover_elem (a + m - 1) h.freelist j (a, m) at,
  )

  -- a free block's address is no key of the dictionary
  pub free_not_used :
      (i a m : ℕ) → get_elem? h.freelist i ≡ some (a, m) → 0 < m → lookup a h.sizemap ≡ none
  free_not_used i a m at pos = elim (Option-cases (lookup a h.sizemap)) [
    | inl e ↦ e
    | inr (n, e) ↦ absurd (
        ground (
          arith,
          v.exact a,
          cover_elem a h.freelist i (a, m) at,
          cover_of_lookup a h.sizemap v.used_positive e,
        ))
  ]

  -- The heap after the block is split or taken whole.
  unfoldable pub taken : ℕ → Candidate → Heap
  taken n c = record h {
    freelist =
        if ltb n c.size
        then set h.freelist c.idx (c.addr + n, c.size - n)
        else remove_at h.freelist c.idx;
    sizemap = (c.addr, n) ∷ h.sizemap;
  }

  take_block-taken :
      (n : ℕ) (c : Candidate) → Fits h.freelist n c → 0 < n → take_block h n c ≡ ok (taken n c)
  unfolding take_block add_to_map taken
  take_block-taken n c fits pos =
      ground (arith, free_not_used c.idx c.addr c.size fits.there, fits.large)

  taken-IsPartition :
      (n : ℕ) (c : Candidate) → Fits h.freelist n c → 0 < n → IsPartition start (taken n c)
  unfolding taken
  taken-IsPartition n c fits pos = record {
    exact = λ a. ground (
      arith,
      v.exact a,
      fits.large,
      cover-set a h.freelist c.idx (c.addr, c.size) (c.addr + n, c.size - n) fits.there,
      cover-remove_at a h.freelist c.idx (c.addr, c.size) fits.there,
    );
    free_positive = elim (Bool-cases (ltb n c.size)) [
      | inl e ↦ rw e (
          All-set IsPositive h.freelist c.idx (c.addr + n, c.size - n) v.free_positive
            (ground arith))
      | inr e ↦ rw e (All-remove_at IsPositive h.freelist c.idx v.free_positive)
    ];
    used_positive = (pos, v.used_positive);
    distinct =
        (free_not_used c.idx c.addr c.size fits.there (omega (arith, fits.large)), v.distinct);
  }

  pub needed_pos : (n : ℕ) → 0 < n + h.header_size → 0 < needed h n
  unfolding needed
  needed_pos n pos = omega (arith, aligned_le h.align n)

  -- What `malloc` comes to on a valid heap: no exception, and the search's choice is taken.
  unfoldable pub outcome : ℕ → Option Candidate × ℕ → Heap × Option ℕ × ℕ
  outcome n (none, count) = (h, none, count)
  outcome n (some c, count) = (taken n c, some c.addr, count)

  pub malloc-outcome :
      (n : ℕ)
      → 0 < n + h.header_size
      → malloc h n
        ≡ ok (outcome (needed h n) (scan h.policy h.size (needed h n) h.freelist 0 none 0))
  unfolding malloc outcome
  malloc-outcome n pos =
      let k : ℕ = needed h n in
      let fit = scan_whole-AllFit h.policy h.size k h.freelist in
      elim (Option-cases (scan h.policy h.size k h.freelist 0 none 0).0) [
        | inl e ↦ ground arith
        | inr (c, e) ↦
            let fits : Fits h.freelist k c = rw e at fit in
            ground (arith, take_block-taken k c fits (needed_pos n pos))
      ]

  pub outcome-IsPartition :
      (n : ℕ) (found : Option Candidate) (count : ℕ)
      → 0 < n
      → AllFit h.freelist n found
      → IsPartition start (outcome n (found, count)).0
  unfolding outcome
  outcome-IsPartition n none count pos fit = v
  outcome-IsPartition n (some c) count pos fit = taken-IsPartition n c fit pos
