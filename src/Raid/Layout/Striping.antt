-- ===== src/Raid/Layout/Striping.antt =====
-- RAID 0, 1 and 4: every block of the array has its own place on a disk, and every place has a block.
use life.Prelude.{ℕ, ◌+◌, ◌-◌, ◌*◌, ◌/◌, ◌%◌, ◌<◌, ◌≤◌, ◌≡◌, refl, arith, false, ◌||◌, ◌==◌, ok}
use native.Mathlib.Nat.{mod-lt, div-add-mod'}
use life.Raid.Layout.{Geometry, bmap0, bmap1, bmap4, pmap4}
use life.Raid.Layout.Chunks.{div-mul-add, mod-mul-add}

-- The block at an offset of a disk, of `n` that are striped in chunks of `c`.
abbrev pub unmap : ℕ → ℕ → ℕ → ℕ → ℕ
unmap c n disk off = ((off / c) * n + disk) * c + off % c

-- The striping that all the levels share.
abbrev stripe_disk : ℕ → ℕ → ℕ → ℕ
stripe_disk c n b = (b / c) % n

abbrev stripe_off : ℕ → ℕ → ℕ → ℕ
stripe_off c n b = ((b / c) / n) * c + b % c

module _ (c n : ℕ) (pc : 0 < c) where
  pub unmap-stripe : (b : ℕ) → unmap c n (stripe_disk c n b) (stripe_off c n b) ≡ b
  unmap-stripe b = rw (
    div-mul-add ((b / c) / n) c (b % c) (mod-lt b pc),
    mod-mul-add ((b / c) / n) c (b % c) (mod-lt b pc),
    div-add-mod' (b / c) n,
    div-add-mod' b c,
  )

  pub stripe_disk-unmap : (d off : ℕ) → d < n → stripe_disk c n (unmap c n d off) ≡ d
  stripe_disk-unmap d off h =
      rw (div-mul-add ((off / c) * n + d) c (off % c) (mod-lt off pc), mod-mul-add (off / c) n d h)

  pub stripe_off-unmap : (d off : ℕ) → d < n → stripe_off c n (unmap c n d off) ≡ off
  stripe_off-unmap d off h = rw (
    div-mul-add ((off / c) * n + d) c (off % c) (mod-lt off pc),
    mod-mul-add ((off / c) * n + d) c (off % c) (mod-lt off pc),
    div-mul-add (off / c) n d h,
    div-add-mod' off c,
  )

-- RAID 0 with at least one disk and a positive chunk size: the mapping raises nothing, the disk is one
-- of the array, the block can be computed back from its disk and offset, and every offset of every
-- disk is the place of the block so computed.
pub bmap0_bijective :
    (g : Geometry)
    → 0 < g.chunk_size
    → 0 < g.num_disks
    → ((b : ℕ)
        → (disk : ℕ) × (off : ℕ) × (bmap0 g b ≡ ok (disk, off))
          × (disk < g.num_disks)
          × (unmap g.chunk_size g.num_disks disk off ≡ b))
      × ((d off : ℕ)
          → d < g.num_disks
          → bmap0 g (unmap g.chunk_size g.num_disks d off) ≡ ok (d, off))
unfolding bmap0
bmap0_bijective g pc pn =
    let guard : (g.chunk_size == 0 || g.num_disks == 0) ≡ false = ground arith in
    (
      λ b. (
        stripe_disk g.chunk_size g.num_disks b,
        stripe_off g.chunk_size g.num_disks b,
        rw (bmap0, guard) refl,
        mod-lt (b / g.chunk_size) pn,
        unmap-stripe g.chunk_size g.num_disks pc b,
      ),
      λ d off h.
          rw
            (
              bmap0,
              guard,
              stripe_disk-unmap g.chunk_size g.num_disks pc d off h,
              stripe_off-unmap g.chunk_size g.num_disks pc d off h,
            )
            refl,
    )

-- RAID 1 with at least two disks and a positive chunk size: the mapping raises nothing; the two
-- copies of a block are on two neighbouring disks of the array, the first with an even number, at one
-- offset, from which the block can be computed back; and every offset of every pair of disks holds a
-- block.
pub bmap1_mirrored :
    (g : Geometry)
    → 0 < g.chunk_size
    → 2 ≤ g.num_disks
    → ((b : ℕ)
        → (disk1 : ℕ) × (disk2 : ℕ) × (off : ℕ) × (bmap1 g b ≡ ok (disk1, disk2, off))
          × (disk2 ≡ disk1 + 1)
          × (disk2 < g.num_disks)
          × (disk1 % 2 ≡ 0)
          × (unmap g.chunk_size (g.num_disks / 2) (disk1 / 2) off ≡ b))
      × ((k off : ℕ)
          → k < g.num_disks / 2
          → bmap1 g (unmap g.chunk_size (g.num_disks / 2) k off) ≡ ok (2 * k, 2 * k + 1, off))
unfolding bmap1
bmap1_mirrored g pc pn =
    let guard : (g.chunk_size == 0 || g.num_disks / 2 == 0) ≡ false = ground arith in
    (
      λ b.
          let lt = mod-lt (b / g.chunk_size) {m = g.num_disks / 2} (omega arith) in
          let half : (2 * ((b / g.chunk_size) % (g.num_disks / 2))) / 2
              ≡ (b / g.chunk_size) % (g.num_disks / 2) =
            omega arith in
          (
            2 * stripe_disk g.chunk_size (g.num_disks / 2) b,
            2 * stripe_disk g.chunk_size (g.num_disks / 2) b + 1,
            stripe_off g.chunk_size (g.num_disks / 2) b,
            rw (bmap1, guard) refl,
            refl,
            omega arith,
            omega arith,
            rw half (unmap-stripe g.chunk_size (g.num_disks / 2) pc b),
          ),
      λ k off h.
          rw
            (
              bmap1,
              guard,
              stripe_disk-unmap g.chunk_size (g.num_disks / 2) pc k off h,
              stripe_off-unmap g.chunk_size (g.num_disks / 2) pc k off h,
            )
            refl,
    )

-- RAID 4 with at least two disks and a positive chunk size: the mapping raises nothing, data is on the
-- disks before the parity disk only, the block can be computed back, and every offset of every data
-- disk holds a block.
pub bmap4_bijective :
    (g : Geometry) (s : ℕ)
    → 0 < g.chunk_size
    → 2 ≤ g.num_disks
    → ((b : ℕ)
        → (disk : ℕ) × (off : ℕ) × (bmap4 g b ≡ ok (disk, off))
          × (disk < pmap4 g s)
          × (unmap g.chunk_size (g.num_disks - 1) disk off ≡ b))
      × ((d off : ℕ)
          → d < pmap4 g s
          → bmap4 g (unmap g.chunk_size (g.num_disks - 1) d off) ≡ ok (d, off))
unfolding bmap4 pmap4
bmap4_bijective g s pc pn =
    let guard : (g.chunk_size == 0 || g.num_disks == 1) ≡ false = ground arith in
    let guard' : (g.num_disks == 0) ≡ false = ground arith in
    (
      λ b. (
        stripe_disk g.chunk_size (g.num_disks - 1) b,
        stripe_off g.chunk_size (g.num_disks - 1) b,
        rw (bmap4, guard, guard') refl,
        mod-lt (b / g.chunk_size) (omega arith),
        unmap-stripe g.chunk_size (g.num_disks - 1) pc b,
      ),
      λ d off h.
          rw
            (
              bmap4,
              guard,
              guard',
              stripe_disk-unmap g.chunk_size (g.num_disks - 1) pc d off h,
              stripe_off-unmap g.chunk_size (g.num_disks - 1) pc d off h,
            )
            refl,
    )
