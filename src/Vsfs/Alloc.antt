-- ===== src/Vsfs/Alloc.antt =====
-- What the bitmaps of vsfs.py keep and hand out.
use life.Prelude.{
  ℕ, zero, suc, ◌+◌, ◌-◌, ◌≤◌, ◌<◌, ◌≡◌, refl, ◌⊎◌, inl, inr, Bool, true, false, Bool-cases, none,
  some, ltb, ◌==◌, if◌then◌else◌, ok, arith,
}
use life.Vsfs.Bitmap.{Bitmap, set_bit, first_free, alloc, free, num_free}

-- How many of the `n` numbers from `i` on are taken.
abbrev pub taken : ℕ → ℕ → (ℕ → Bool) → ℕ
taken zero i bmap = 0
taken (suc n) i bmap = (if bmap i then 1 else 0) + taken n (i + 1) bmap

abbrev pub IsSound : Bitmap → Type 0
IsSound b = b.num_allocated ≡ taken b.size 0 b.bmap

pub taken-set :
    (n i k : ℕ) (bit : Bool) (bmap : ℕ → Bool)
    → taken n i (set_bit k bit bmap)
        + (if ltb k i then 0 else if ltb k (i + n) then (if bmap k then 1 else 0) else 0)
      ≡ taken n i bmap
        + (if ltb k i then 0 else if ltb k (i + n) then (if bit then 1 else 0) else 0)
taken-set zero i k bit bmap = ground arith
taken-set (suc n) i k bit bmap = ground (arith, taken-set n (i + 1) k bit bmap)

taken-le : (n i : ℕ) (bmap : ℕ → Bool) → taken n i bmap ≤ n
taken-le zero i bmap = omega arith
taken-le (suc n) i bmap = ground (arith, taken-le n (i + 1) bmap)

-- What the search of `n` numbers from `i` on comes to: the least number that is free, or every one is
-- taken.
pub first_free-cases :
    (n i : ℕ) (bmap : ℕ → Bool)
    → ((first_free n i bmap ≡ none) × (taken n i bmap ≡ n))
      ⊎ ((k : ℕ) × (first_free n i bmap ≡ some k)
          × (i ≤ k)
          × (k < i + n)
          × (bmap k ≡ false)
          × ((j : ℕ) → i ≤ j → j < k → bmap j ≡ true))
unfolding first_free
first_free-cases zero i bmap = inl (refl, refl)
first_free-cases (suc n) i bmap = elim (Bool-cases (bmap i)) [
  | inr f ↦ inr (i, rw f refl, omega arith, omega arith, f, λ j le lt. absurd (omega arith))
  | inl f ↦ elim (first_free-cases n (i + 1) bmap) [
    | inl (e, t) ↦ inl (rw f e, ground arith)
    | inr (k, e, le, lt, g, below) ↦ inr (
      k,
      rw f e,
      omega arith,
      omega arith,
      g,
      λ j le' lt'. elim (Bool-cases (i == j)) [
        | inl s ↦ (let s' : i ≡ j = ground arith in rw (← s') f)
        | inr s ↦ below j (ground arith) lt'
      ],
    )
  ]
]

-- The number `k` that `alloc` hands out: the least that is free. It is taken then, no other number
-- changes, and `free` gives back the bitmap that was there.
pub record Allocated (b : Bitmap) (k : ℕ) (b' : Bitmap) : Type 0 where
  pub inside : k < b.size
  pub was_free : b.bmap k ≡ false
  pub least : (j : ℕ) → j < k → b.bmap j ≡ true
  pub sound : IsSound b'
  pub bits : (j : ℕ) → b'.bmap j ≡ (if j == k then true else b.bmap j)
  pub size : b'.size ≡ b.size
  pub undone :
      (b'' : Bitmap) × (free k b' ≡ ok b'')
      × ((j : ℕ) → b''.bmap j ≡ b.bmap j)
      × (num_free b'' ≡ num_free b)
      × IsSound b''

-- A bitmap whose counter is the number of taken entries: `alloc` fails and changes nothing exactly when
-- `numFree` is 0, and hands out the least free number otherwise, which `free` takes back.
pub alloc_lem :
    (b : Bitmap)
    → IsSound b
    → ((alloc b ≡ (b, none)) × (num_free b ≡ 0))
      ⊎ ((k : ℕ) × (b' : Bitmap) × (alloc b ≡ (b', some k)) × (0 < num_free b) × Allocated b k b')
unfolding alloc num_free free
alloc_lem b h = elim (first_free-cases b.size 0 b.bmap) [
  | inl (e, t) ↦ inl (rw (alloc, e) refl, omega (arith, h))
  | inr (k, e, le, lt, g, below) ↦
      let t = taken-set b.size 0 k true b.bmap in
      let bmap' : ℕ → Bool = set_bit k true b.bmap in
      let u = taken-set b.size 0 k false bmap' in
      inr (
        k,
        record b { bmap = bmap'; num_allocated = b.num_allocated + 1 },
        rw (alloc, e) refl,
        ground (arith, h, t, taken-le b.size 0 bmap'),
        record {
          inside = omega arith;
          was_free = g;
          least = λ j lt'. below j (omega arith) lt';
          sound = ground (arith, h, t);
          bits = λ j. refl;
          size = refl;
          undone = (
            record b { bmap = set_bit k false bmap'; num_allocated = b.num_allocated + 1 - 1 },
            ground arith,
            λ j. elim (Bool-cases (j == k)) [
              | inr s ↦ rw s refl
              | inl s ↦ let s' : j ≡ k = ground arith in rw (s, s', g) refl
            ],
            omega arith,
            ground (arith, h, t, u),
          );
        },
      )
]
