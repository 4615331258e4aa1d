-- ===== src/Raid/Layout.antt =====
-- The mappings `bmap0`, `bmap1`, `bmap4`, `bmap5`, `pmap4` and `pmap5` of raid.py: from a block of the
-- array to a disk and an offset on it.
pub mod Chunks
pub mod Striping
pub mod Parity
use life.Prelude.{
  ℕ, ◌+◌, ◌-◌, ◌*◌, ◌/◌, ◌%◌, leb, ◌==◌, not, ◌||◌, if◌then◌else◌, Result, ok, raise,
  assertion_error, zero_division_error, outside, ◌>>=◌,
}

pub data Raid5Type : Type 0 where
  left_asymmetric left_symmetric : Raid5Type

-- The fields of `raid` that the mappings read: the chunk size in blocks and the number of disks.
pub record Geometry : Type 0 where
  pub chunk_size : ℕ
  pub num_disks : ℕ
  pub raid5type : Raid5Type

-- Where there is a division by 0 the mappings raise: with no block in a chunk, or no disk for data.
-- Without disks `numDisks - 1` is negative in `bmap4`, which the model does not follow.
unfoldable pub bmap0 : Geometry → ℕ → Result (ℕ × ℕ)
bmap0 g bnum =
    let cnum = bnum / g.chunk_size in
    let coff = bnum % g.chunk_size in
    if g.chunk_size == 0 || g.num_disks == 0
    then raise zero_division_error
    else ok (cnum % g.num_disks, (cnum / g.num_disks) * g.chunk_size + coff)

unfoldable pub bmap1 : Geometry → ℕ → Result (ℕ × ℕ × ℕ)
bmap1 g bnum =
    let cnum = bnum / g.chunk_size in
    let coff = bnum % g.chunk_size in
    let disk = 2 * (cnum % (g.num_disks / 2)) in
    if g.chunk_size == 0 || g.num_disks / 2 == 0
    then raise zero_division_error
    else ok (disk, disk + 1, (cnum / (g.num_disks / 2)) * g.chunk_size + coff)

unfoldable pub bmap4 : Geometry → ℕ → Result (ℕ × ℕ)
bmap4 g bnum =
    let cnum = bnum / g.chunk_size in
    let coff = bnum % g.chunk_size in
    if g.chunk_size == 0 || g.num_disks == 1
    then raise zero_division_error
    else if g.num_disks == 0
    then raise outside
    else ok (cnum % (g.num_disks - 1), (cnum / (g.num_disks - 1)) * g.chunk_size + coff)

-- `self.pdisk` of level 4
unfoldable pub pmap4 : Geometry → ℕ → ℕ
pmap4 g snum = g.num_disks - 1

abbrev pub blocks_in_stripe : Geometry → ℕ
blocks_in_stripe g = (g.num_disks - 1) * g.chunk_size

-- The `if` over the layouts in `__bmap5`. `(disk - col) % numDisks` is not negative in Python.
unfoldable pub rotate : Raid5Type → ℕ → ℕ → ℕ → ℕ → ℕ
rotate left_asymmetric num_disks col pdisk disk = if leb pdisk disk then disk + 1 else disk
rotate left_symmetric num_disks col pdisk disk = (disk + num_disks - col) % num_disks

-- `__bmap5`, with its assert: the disk, the parity disk and the offset.
unfoldable pub bmap5_full : Geometry → ℕ → Result (ℕ × ℕ × ℕ)
bmap5_full g bnum =
    let cnum = bnum / g.chunk_size in
    let coff = bnum % g.chunk_size in
    let ddsk = cnum / (g.num_disks - 1) in
    let doff = ddsk * g.chunk_size + coff in
    let col = ddsk % g.num_disks in
    let pdisk = g.num_disks - 1 - col in
    let disk = rotate g.raid5type g.num_disks col pdisk (cnum % (g.num_disks - 1)) in
    if g.chunk_size == 0 || leb g.num_disks 1
    then raise zero_division_error
    else if not (disk == pdisk)
    then ok (disk, pdisk, doff)
    else raise assertion_error

unfoldable pub bmap5 : Geometry → ℕ → Result (ℕ × ℕ)
bmap5 g bnum = do (disk, pdisk, off) ← bmap5_full g bnum; ok (disk, off)

unfoldable pub pmap5 : Geometry → ℕ → Result ℕ
pmap5 g snum = do (disk, pdisk, off) ← bmap5_full g (snum * blocks_in_stripe g); ok pdisk
