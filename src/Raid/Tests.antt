-- ===== src/Raid/Tests.antt =====
-- Runs of raid.py's mappings and requests at concrete inputs, and the theorems applied there.
use life.Prelude.{
  ℕ, ◌+◌, ◌-◌, ◌*◌, ◌/◌, ◌%◌, ◌<◌, ◌≡◌, ◌≢◌, refl, true, false, some, List, [], ◌∷◌, ◌++◌, All, ok,
  raise, ◌>>=◌, system_exit, zero_division_error, map, if◌then◌else◌, arith,
}
use life.Raid.Disk
use life.Raid.Disk.{
  Disk, new_disk, same_track, distance, IsCounted, new_disk-IsCounted, enqueue-IsCounted,
  blocks_per_disk, is_next, is_near,
}
use life.Raid.Layout.{
  Geometry, left_symmetric, bmap0, bmap1, bmap4, pmap4, rotate, bmap5_full, bmap5, pmap5,
}
use life.Raid.Layout.Striping.{unmap, bmap0_bijective, bmap1_mirrored, bmap4_bijective}
use life.Raid.Layout.Parity.{
  unrotate, disk_of, off_of, parity, bmap5-ok, pmap5-ok, bmap5_places, pmap5_of_stripe,
}
use life.Raid.Requests.{
  Access, Raid, raid0, raid1, raid5, new_disks, init, do_single, enqueue0, mirror, enqueue1, is_in,
  add_off, each_block, each_parity, is_subtractive, partial_reads, do_partial_write, part_end,
  each_stripe, enqueue45, enqueue, go,
}
use life.Raid.Requests.Plan.{perform, access, IsPlaced, enqueue0_plan}
use life.Raid.Requests.Rotated.{IsRotated, parity_disk, enqueue5_plan}
use life.Raid.Requests.Tiling.{IsParts}
use life.Raid.Requests.Writes.{plan_blocks, plan_parts, IsOffsets, enqueue45_plan}
use life.Raid.Requests.Total.{perform-total}

program : Unit {0}
unfolding same_track distance Disk.enqueue bmap0 bmap1 bmap4 pmap4 rotate bmap5_full bmap5 pmap5
    new_disks init do_single enqueue0 mirror enqueue1 is_in add_off each_block each_parity
    is_subtractive partial_reads do_partial_write part_end each_stripe enqueue45 enqueue perform go
program = tt

abbrev four : Geometry
four = record { chunk_size = 1; num_disks = 4; raid5type = left_symmetric }

abbrev array : Raid
array = record {
  geometry = four;
  level = raid5;
  disks = new_disk ∷ new_disk ∷ new_disk ∷ new_disk ∷ [];
  physical = [];
}

made : init 4096 4 raid5 left_symmetric ≡ ok array
unfolding program
made = refl

odd_mirror : init 4096 3 raid1 left_symmetric ≡ raise system_exit
unfolding program
odd_mirror = refl

-- The left-symmetric layout of the first two rows.
first_rows :
    (bmap5_full four 0 ≡ ok (0, 3, 0))
    × (bmap5_full four 3 ≡ ok (3, 2, 1))
    × (bmap5_full four 4 ≡ ok (0, 2, 1))
unfolding program
first_rows = (refl, refl, refl)

-- A write of one block reads it and the parity, and writes both.
small_write :
    (enqueue array 0 1 true >>= λ r. ok r.physical)
    ≡ ok (access false (0, 0) ∷ access false (3, 0) ∷ access true (0, 0) ∷ access true (3, 0) ∷ [])
unfolding program
small_write = refl

-- A write of a whole stripe reads nothing.
full_write :
    (enqueue array 0 3 true >>= λ r. ok r.physical)
    ≡ ok (access true (0, 0) ∷ access true (1, 0) ∷ access true (2, 0) ∷ access true (3, 0) ∷ [])
unfolding program
full_write = refl

full_write_time : (enqueue array 0 3 true >>= λ r. ok (go r.disks 0)) ≡ ok 101
unfolding program
full_write_time = refl

-- A chunk of no blocks is accepted, and the first request divides by 0.
no_chunk : (init 0 4 raid0 left_symmetric >>= λ r. enqueue r 5 2 false) ≡ raise zero_division_error
unfolding program
no_chunk = refl

abbrev moved : Disk
moved = record new_disk { curr_addr = some 6; count_io = 1; count_rand = 1; util_time = 101 }

moved-IsCounted : IsCounted moved
moved-IsCounted = record { counted = refl; timed = omega arith; sequential = omega arith }

enqueue-IsCounted_example :
    (d : Disk) × (Disk.enqueue moved 7 ≡ ok d)
    × IsCounted d
    × (d.curr_addr ≡ some 7)
    × (d.count_io ≡ moved.count_io + 1)
    × (d.count_seq ≡ moved.count_seq + (if is_next moved.curr_addr 7 then 1 else 0))
    × (d.count_rand ≡ moved.count_rand + (if is_near moved.curr_addr 7 then 0 else 1))
enqueue-IsCounted_example = enqueue-IsCounted moved 7 (omega arith) moved-IsCounted

bmap0_bijective_example :
    ((b : ℕ)
      → (disk : ℕ) × (off : ℕ) × (bmap0 four b ≡ ok (disk, off))
        × (disk < 4)
        × (unmap 1 4 disk off ≡ b))
    × ((d off : ℕ) → d < 4 → bmap0 four (unmap 1 4 d off) ≡ ok (d, off))
bmap0_bijective_example = bmap0_bijective four (omega arith) (omega arith)

bmap1_mirrored_example :
    ((b : ℕ)
      → (disk1 : ℕ) × (disk2 : ℕ) × (off : ℕ) × (bmap1 four b ≡ ok (disk1, disk2, off))
        × (disk2 ≡ disk1 + 1)
        × (disk2 < 4)
        × (disk1 % 2 ≡ 0)
        × (unmap 1 (4 / 2) (disk1 / 2) off ≡ b))
    × ((k off : ℕ) → k < 4 / 2 → bmap1 four (unmap 1 (4 / 2) k off) ≡ ok (2 * k, 2 * k + 1, off))
bmap1_mirrored_example = bmap1_mirrored four (omega arith) (omega arith)

bmap4_bijective_example :
    ((b : ℕ)
      → (disk : ℕ) × (off : ℕ) × (bmap4 four b ≡ ok (disk, off))
        × (disk < pmap4 four 2)
        × (unmap 1 (4 - 1) disk off ≡ b))
    × ((d off : ℕ) → d < pmap4 four 2 → bmap4 four (unmap 1 (4 - 1) d off) ≡ ok (d, off))
bmap4_bijective_example = bmap4_bijective four 2 (omega arith) (omega arith)

bmap5_places_example :
    (disk : ℕ) × (pdisk : ℕ) × (off : ℕ) × (bmap5_full four 4 ≡ ok (disk, pdisk, off))
    × (disk < 4)
    × (disk ≢ pdisk)
    × (pdisk ≡ 4 - 1 - off / 1 % 4)
    × (unmap 1 (4 - 1) (unrotate left_symmetric 4 (off / 1 % 4) pdisk disk) off ≡ 4)
bmap5_places_example = bmap5_places four 4 (omega arith) (omega arith)

pmap5_of_stripe_example :
    (disk : ℕ) × (pdisk : ℕ) × (off : ℕ) × (bmap5_full four 4 ≡ ok (disk, pdisk, off))
    × (pmap5 four 1 ≡ ok pdisk)
pmap5_of_stripe_example =
    pmap5_of_stripe four 1 4 (omega arith) (omega arith) (omega arith) (omega arith)

enqueue0_plan_example :
    (places : List (ℕ × ℕ)) × IsPlaced 1 4 2 5 places
    × ((r : Raid) → enqueue0 four true 2 5 r ≡ perform (map (access true) places) r)
enqueue0_plan_example = enqueue0_plan four true 2 5 (omega arith) (omega arith)

-- The places of blocks and the parity disks of stripes in the left-symmetric layout.
abbrev place : ℕ → ℕ × ℕ
place x = (disk_of four (omega arith) (omega arith) x, off_of four (omega arith) (omega arith) x)

abbrev four_parity : ℕ → ℕ
four_parity s = parity four (omega arith) (omega arith) (s * 3)

place_is : (x : ℕ) → bmap5 four x ≡ ok (place x)
place_is x = bmap5-ok four (omega arith) (omega arith) x

four_parity_is : (s : ℕ) → pmap5 four s ≡ ok (four_parity s)
four_parity_is s = pmap5-ok four (omega arith) (omega arith) s

enqueue45_plan_example :
    ((r : Raid)
      → enqueue45 3 (bmap5 four) (pmap5 four) false 2 5 r ≡ perform (plan_blocks false place 2 5) r)
    × (l : List (ℕ × ℕ × ℕ)) × (offs : ℕ → ℕ → List ℕ) × IsParts 3 2 5 l
    × IsOffsets place offs
    × ((r : Raid)
        → enqueue45 3 (bmap5 four) (pmap5 four) true 2 5 r
          ≡ perform (plan_parts 3 place four_parity offs l) r)
enqueue45_plan_example =
    enqueue45_plan 3 (bmap5 four) (pmap5 four) place four_parity 2 5 place_is four_parity_is
      (omega arith) (omega arith)

enqueue5_plan_example :
    (b : ℕ → ℕ × ℕ) × (l : List (ℕ × ℕ × ℕ)) × (offs : ℕ → ℕ → List ℕ) × IsRotated four b
    × IsParts 3 2 5 l
    × IsOffsets b offs
    × (enqueue array 2 5 false ≡ perform (plan_blocks false b 2 5) array)
    × (enqueue array 2 5 true ≡ perform (plan_parts 3 b (parity_disk four) offs l) array)
enqueue5_plan_example = enqueue5_plan array 2 5 refl (omega arith) (omega arith) (omega arith)

abbrev two_accesses : List Access
two_accesses = access false (0, 0) ∷ access true (3, 7) ∷ []

perform-total_example :
    (r : Raid) × (perform two_accesses array ≡ ok r)
    × (r.physical ≡ array.physical ++ two_accesses)
    × All IsCounted r.disks
perform-total_example =
    perform-total two_accesses array (omega arith)
      (new_disk-IsCounted, (new_disk-IsCounted, (new_disk-IsCounted, (new_disk-IsCounted, tt))))
