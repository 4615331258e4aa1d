-- ===== src/Raid/Layout/Parity.antt =====
-- RAID 5: the parity disk rotates, and never holds data of its stripe.
use life.Prelude.{
  ℕ, ◌+◌, ◌-◌, ◌*◌, ◌/◌, ◌%◌, ◌<◌, ◌≤◌, ◌≡◌, ◌≢◌, refl, ltb, if◌then◌else◌, arith, ◌∙◌, ok,
}
use native.Mathlib.Nat.{mod-lt, div-div-eq-div-mul, div-eq_of_lt-le}
use life.Raid.Layout.{
  Geometry, Raid5Type, left_asymmetric, left_symmetric, rotate, bmap5_full, bmap5, pmap5,
  blocks_in_stripe,
}
use life.Raid.Layout.Chunks.{div-mul-add, mod-sub}
use life.Raid.Layout.Striping.{unmap, unmap-stripe}

-- The position in the stripe of a disk, the other way round.
abbrev pub unrotate : Raid5Type → ℕ → ℕ → ℕ → ℕ → ℕ
unrotate left_asymmetric n col pdisk disk = if ltb pdisk disk then disk - 1 else disk
unrotate left_symmetric n col pdisk disk = if ltb (disk + col) n then disk + col else disk + col - n

rotate_lem :
    (t : Raid5Type) (n col x : ℕ)
    → col < n
    → x < n - 1
    → (rotate t n col (n - 1 - col) x < n)
      × (rotate t n col (n - 1 - col) x ≢ n - 1 - col)
      × (unrotate t n col (n - 1 - col) (rotate t n col (n - 1 - col) x) ≡ x)
unfolding rotate
rotate_lem left_asymmetric n col x h k = ground arith
rotate_lem left_symmetric n col x h k = ground (arith, mod-sub x n col (omega arith) h)

-- The disk, the parity disk and the offset of a block, for at least two disks.
module _ (g : Geometry) (pc : 0 < g.chunk_size) (pn : 2 ≤ g.num_disks) where
  abbrev pub row : ℕ → ℕ
  row b = b / g.chunk_size / (g.num_disks - 1)

  abbrev pub parity : ℕ → ℕ
  parity b = g.num_disks - 1 - row b % g.num_disks

  abbrev pub disk_of : ℕ → ℕ
  disk_of b =
      rotate g.raid5type g.num_disks (row b % g.num_disks) (parity b)
        (b / g.chunk_size % (g.num_disks - 1))

  abbrev pub off_of : ℕ → ℕ
  off_of b = row b * g.chunk_size + b % g.chunk_size

  pub rotated :
      (b : ℕ)
      → (disk_of b < g.num_disks)
        × (disk_of b ≢ parity b)
        × (unrotate g.raid5type g.num_disks (row b % g.num_disks) (parity b) (disk_of b)
            ≡ b / g.chunk_size % (g.num_disks - 1))
  rotated b =
      rotate_lem g.raid5type g.num_disks (row b % g.num_disks)
        (b / g.chunk_size % (g.num_disks - 1)) (mod-lt (row b) (omega arith))
        (mod-lt (b / g.chunk_size) (omega arith))

  pub bmap5_full-ok : (b : ℕ) → bmap5_full g b ≡ ok (disk_of b, parity b, off_of b)
  unfolding bmap5_full
  bmap5_full-ok b = ground (arith, (rotated b).1)

  pub bmap5-ok : (b : ℕ) → bmap5 g b ≡ ok (disk_of b, off_of b)
  unfolding bmap5
  bmap5-ok b = rw (bmap5_full-ok b)

  pub pmap5-ok : (s : ℕ) → pmap5 g s ≡ ok (parity (s * blocks_in_stripe g))
  unfolding pmap5
  pmap5-ok s = rw (bmap5_full-ok (s * blocks_in_stripe g))

-- RAID 5, with either layout, at least two disks and a positive chunk size: the assert never fails;
-- data is on a disk of the array other than the parity disk of its row; and the block can be
-- computed back from its disk, its offset and the layout, so no two blocks share a place.
pub bmap5_places :
    (g : Geometry) (b : ℕ)
    → 0 < g.chunk_size
    → 2 ≤ g.num_disks
    → (disk : ℕ) × (pdisk : ℕ) × (off : ℕ) × (bmap5_full g b ≡ ok (disk, pdisk, off))
      × (disk < g.num_disks)
      × (disk ≢ pdisk)
      × (pdisk ≡ g.num_disks - 1 - off / g.chunk_size % g.num_disks)
      × (unmap g.chunk_size
            (g.num_disks - 1)
            (unrotate g.raid5type g.num_disks (off / g.chunk_size % g.num_disks) pdisk disk)
            off
          ≡ b)
bmap5_places g b pc pn =
    let r = rotated g pc pn b in
    let q : off_of g pc pn b / g.chunk_size ≡ row g pc pn b =
      div-mul-add (row g pc pn b) g.chunk_size (b % g.chunk_size) (mod-lt b pc) in
    (
      disk_of g pc pn b,
      parity g pc pn b,
      off_of g pc pn b,
      bmap5_full-ok g pc pn b,
      r.0,
      r.1,
      rw q,
      rw (q, r.2) (rw q at (unmap-stripe g.chunk_size (g.num_disks - 1) pc b)),
    )

pub row_of_stripe :
    (g : Geometry) (pc : 0 < g.chunk_size) (pn : 2 ≤ g.num_disks) (stripe b : ℕ)
    → stripe * blocks_in_stripe g ≤ b
    → b < stripe * blocks_in_stripe g + blocks_in_stripe g
    → row g pc pn b ≡ stripe
row_of_stripe g pc pn stripe b lo hi =
    div-div-eq-div-mul b g.chunk_size (g.num_disks - 1)
    ∙ div-eq_of_lt-le (g.chunk_size * (g.num_disks - 1)) (omega arith) (omega arith)

-- RAID 5: the parity disk that `pmap5` gives for a stripe is the one of each block of the stripe.
pub pmap5_of_stripe :
    (g : Geometry) (stripe b : ℕ)
    → 0 < g.chunk_size
    → 2 ≤ g.num_disks
    → stripe * blocks_in_stripe g ≤ b
    → b < stripe * blocks_in_stripe g + blocks_in_stripe g
    → (disk : ℕ) × (pdisk : ℕ) × (off : ℕ) × (bmap5_full g b ≡ ok (disk, pdisk, off))
      × (pmap5 g stripe ≡ ok pdisk)
unfolding pmap5
pmap5_of_stripe g stripe b pc pn lo hi = (
  disk_of g pc pn b,
  parity g pc pn b,
  off_of g pc pn b,
  bmap5_full-ok g pc pn b,
  rw (bmap5_full-ok g pc pn (stripe * blocks_in_stripe g)) (
      rw
        (
          row_of_stripe g pc pn stripe b lo hi,
          row_of_stripe g pc pn stripe (stripe * blocks_in_stripe g) (omega arith) (grind arith),
        )
        refl),
)
