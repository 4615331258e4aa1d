-- ===== src/Raid/Requests/Rotated.antt =====
-- The requests to a whole RAID 5 array.
use life.Prelude.{
  ℕ, ◌-◌, ◌*◌, ◌/◌, ◌%◌, ◌<◌, ◌≤◌, ◌≡◌, ◌≢◌, ◌∙◌, ap, Bool, true, false, List, ◌==◌, ok, arith,
}
use native.Mathlib.Nat.{div-add-mod', mod-lt}
use life.Raid.Layout.{Geometry, blocks_in_stripe, bmap5, pmap5}
use life.Raid.Layout.Striping.{unmap, unmap-stripe}
use life.Raid.Layout.Chunks.{div-mul-add}
use life.Raid.Layout.Parity.{
  unrotate, row, disk_of, off_of, rotated, bmap5-ok, pmap5-ok, row_of_stripe,
}
use life.Raid.Requests.{Raid, raid5, enqueue45, enqueue}
use life.Raid.Requests.Plan.{perform}
use life.Raid.Requests.Tiling.{IsParts}
use life.Raid.Requests.Writes.{plan_blocks, plan_parts, IsOffsets, enqueue45_plan}

-- The parity disk of a stripe, from the last disk downwards.
abbrev pub parity_disk : Geometry → ℕ → ℕ
parity_disk g s = g.num_disks - 1 - s % g.num_disks

-- Each block has a place on a disk of the array that is not the parity disk of its stripe, in the row of
-- the stripe, from which it is computed back.
pub IsRotated : Geometry → (ℕ → ℕ × ℕ) → Type 0
IsRotated g b =
    (x : ℕ)
    → ((b x).0 < g.num_disks)
      × ((b x).0 ≢ parity_disk g (x / blocks_in_stripe g))
      × ((b x).1 / g.chunk_size ≡ x / blocks_in_stripe g)
      × (unmap g.chunk_size (g.num_disks - 1)
            (unrotate g.raid5type g.num_disks (x / blocks_in_stripe g % g.num_disks)
              (parity_disk g (x / blocks_in_stripe g)) (b x).0)
            (b x).1
          ≡ x)

module _ (g : Geometry) (pc : 0 < g.chunk_size) (pn : 2 ≤ g.num_disks) where
  stripe_pos : 0 < blocks_in_stripe g
  stripe_pos = grind arith

  row_is : (x : ℕ) → row g pc pn x ≡ x / blocks_in_stripe g
  row_is x =
      let d = div-add-mod' x (blocks_in_stripe g) in
      let m = mod-lt x stripe_pos in
      row_of_stripe g pc pn (x / blocks_in_stripe g) x (omega arith) (omega arith)

  abbrev place : ℕ → ℕ × ℕ
  place x = (disk_of g pc pn x, off_of g pc pn x)

  place-IsRotated : IsRotated g place
  unfolding IsRotated
  place-IsRotated x =
      let r = rotated g pc pn x in
      let q : off_of g pc pn x / g.chunk_size ≡ row g pc pn x =
        div-mul-add (row g pc pn x) g.chunk_size (x % g.chunk_size) (mod-lt x pc) in
      rw (← row_is x) (r.0, r.1, q, rw r.2 (unmap-stripe g.chunk_size (g.num_disks - 1) pc x))

  parity_is : (s : ℕ) → pmap5 g s ≡ ok (parity_disk g s)
  parity_is s =
      let e =
        row_of_stripe g pc pn s (s * blocks_in_stripe g) (omega arith)
          (let pos = stripe_pos in omega arith) in
      pmap5-ok g pc pn s ∙ ap (λ x. ok (g.num_disks - 1 - x % g.num_disks)) e

enqueue-raid5 :
    (r : Raid) (addr n : ℕ) (w : Bool)
    → r.level ≡ raid5
    → (r.geometry.num_disks == 0) ≡ false
    → enqueue r addr n w
      ≡ enqueue45 (blocks_in_stripe r.geometry) (bmap5 r.geometry) (pmap5 r.geometry) w addr n r
unfolding enqueue
enqueue-raid5 r addr n w level some_disk = simp (enqueue, level, some_disk)

-- RAID 5, with either layout, at least two disks and a positive chunk size, for a request of at least one
-- block: each block has a place on a disk other than the parity disk of its stripe, and the parity disk
-- moves down by one from stripe to stripe. Whatever the disks have done, a read of the array is an
-- access to the place of each block in order. A write is a partial write for each of the parts of the
-- request, which are one for each stripe that it meets and together its blocks in order, with the
-- parity accessed once for each offset of the part.
pub enqueue5_plan :
    (r : Raid) (addr n : ℕ)
    → r.level ≡ raid5
    → 0 < r.geometry.chunk_size
    → 2 ≤ r.geometry.num_disks
    → 0 < n
    → (b : ℕ → ℕ × ℕ) × (l : List (ℕ × ℕ × ℕ)) × (offs : ℕ → ℕ → List ℕ) × IsRotated r.geometry b
      × IsParts (blocks_in_stripe r.geometry) addr n l
      × IsOffsets b offs
      × (enqueue r addr n false ≡ perform (plan_blocks false b addr n) r)
      × (enqueue r addr n true
          ≡ perform (plan_parts (blocks_in_stripe r.geometry) b (parity_disk r.geometry) offs l) r)
enqueue5_plan r addr n level pc pn pos =
    let g = r.geometry in
    let (read, l, offs, parts, once, write) =
      enqueue45_plan (blocks_in_stripe g) (bmap5 g) (pmap5 g) (place g pc pn) (parity_disk g) addr n
        (bmap5-ok g pc pn) (parity_is g pc pn) (stripe_pos g pc pn) pos in
    let some_disk : (g.num_disks == 0) ≡ false = ground arith in
    (
      place g pc pn,
      l,
      offs,
      place-IsRotated g pc pn,
      parts,
      once,
      enqueue-raid5 r addr n false level some_disk ∙ read r,
      enqueue-raid5 r addr n true level some_disk ∙ write r,
    )
