-- ===== src/Raid/Requests.antt =====
-- The requests of raid.py: `enqueue` with `enqueue0`, `enqueue1` and `enqueue45`, the write of a part
-- of a stripe, and the accesses to single disks.
pub mod Plan
pub mod Tiling
pub mod Total
pub mod Writes
pub mod Rotated
use life.Prelude.{
  ℕ, zero, suc, ◌+◌, ◌-◌, ◌*◌, ◌/◌, ◌%◌, Bool, true, false, ◌&&◌, ◌||◌, not, Option, none, some,
  List, [], ◌∷◌, ◌++◌, leb, ◌==◌, if◌then◌else◌, get_elem?, set, length, Result, ok, raise, ◌>>=◌,
  index_error, system_exit, zero_division_error, outside,
}
use life.Raid.Disk
use life.Raid.Disk.{Disk, new_disk}
use life.Raid.Layout.{
  Geometry, Raid5Type, bmap0, bmap1, bmap4, pmap4, bmap5, pmap5, blocks_in_stripe,
}

pub data Level : Type 0 where
  raid0 raid1 raid4 raid5 : Level

-- A line that `doSingleRead` or `doSingleWrite` prints.
pub record Access : Type 0 where
  pub is_write : Bool
  pub disk : ℕ
  pub off : ℕ

pub record Raid : Type 0 where
  pub geometry : Geometry
  pub level : Level
  pub disks : List Disk
  pub physical : List Access

abbrev pub block_size : ℕ
block_size = 4096

-- `for i in range(self.numDisks): self.disks.append(disk())`
unfoldable pub new_disks : ℕ → List Disk
new_disks zero = []
new_disks (suc n) = new_disk ∷ new_disks n

-- `raid.__init__`, from the chunk size in bytes.
unfoldable pub init : ℕ → ℕ → Level → Raid5Type → Result Raid
unfolding new_disks
init chunk_bytes num_disks level t =
    let r : Raid = record {
      geometry = record {
        chunk_size = chunk_bytes / block_size;
        num_disks = num_disks;
        raid5type = t;
      };
      level = level;
      disks = new_disks num_disks;
      physical = [];
    } in
    if not (chunk_bytes % block_size == 0) then raise system_exit else elim level [
      | raid1 ↦ if not (num_disks % 2 == 0) then raise system_exit else ok r
      | _ ↦ ok r
    ]

-- `doSingleRead` and `doSingleWrite`
unfoldable pub do_single : Bool → ℕ → ℕ → Raid → Result Raid
do_single is_write disk off r = elim (get_elem? r.disks disk) [
  | none ↦ raise index_error
  | some d ↦ Disk.enqueue d off >>= λ d'. ok (record r {
    disks = set r.disks disk d';
    physical = r.physical ++ record { is_write = is_write; disk = disk; off = off } ∷ [];
  })
]

-- `for b in range(addr, addr + size)` of `enqueue0`
unfoldable pub enqueue0 : Geometry → Bool → ℕ → ℕ → Raid → Result Raid
enqueue0 g is_write addr zero r = ok r
enqueue0 g is_write addr (suc size) r = do
  (disk, off) ← bmap0 g addr
  r' ← do_single is_write disk off r
  enqueue0 g is_write (addr + 1) size r'

-- The body of the loop of `enqueue1`: both copies are written, and a read goes to the first copy at an
-- even offset and to the second at an odd one.
unfoldable pub mirror : Bool → ℕ × ℕ × ℕ → Raid → Result Raid
mirror true (disk1, disk2, off) r = do r' ← do_single true disk1 off r; do_single true disk2 off r'
mirror false (disk1, disk2, off) r =
    if off % 2 == 0 then do_single false disk1 off r else do_single false disk2 off r

unfoldable pub enqueue1 : Geometry → Bool → ℕ → ℕ → Raid → Result Raid
unfolding mirror
enqueue1 g is_write addr zero r = ok r
enqueue1 g is_write addr (suc size) r = do
  copies ← bmap1 g addr
  r' ← mirror is_write copies r
  enqueue1 g is_write (addr + 1) size r'

-- `off not in offList`
unfoldable pub is_in : ℕ → List ℕ → Bool
is_in x [] = false
is_in x (y ∷ ys) = x == y || is_in x ys

unfoldable pub add_off : ℕ → List ℕ → List ℕ
unfolding is_in
add_off off offs = if is_in off offs then offs else offs ++ off ∷ []

-- `for voff in range(begin, end)` with an access to each block, which gathers the offsets.
unfoldable pub each_block :
    Bool → (ℕ → Result (ℕ × ℕ)) → ℕ → ℕ → List ℕ → Raid → Result (Raid × List ℕ)
each_block is_write bmap voff zero offs r = ok (r, offs)
each_block is_write bmap voff (suc n) offs r = do
  (disk, off) ← bmap voff
  r' ← do_single is_write disk off r
  each_block is_write bmap (voff + 1) n (add_off off offs) r'

-- `for i in range(len(offList))` with an access to the parity disk.
unfoldable pub each_parity : Bool → ℕ → List ℕ → Raid → Result Raid
each_parity is_write pdisk [] r = ok r
each_parity is_write pdisk (off ∷ offs) r = do
  r' ← do_single is_write pdisk off r
  each_parity is_write pdisk offs r'

-- `numWrites + 1 <= blocksInStripe - numWrites`. Where the difference is negative, it is 0 here.
unfoldable pub is_subtractive : ℕ → ℕ → Bool
is_subtractive stripe_size num_writes = leb (num_writes + 1) (stripe_size - num_writes)

-- The reads before a partial write: the old data and parity, or the rest of the stripe.
unfoldable pub partial_reads : ℕ → (ℕ → Result (ℕ × ℕ)) → ℕ → ℕ → ℕ → ℕ → Raid → Result Raid
partial_reads stripe_size bmap pdisk stripe begin end r =
    if is_subtractive stripe_size (end - begin)
    then (do
      (r', offs) ← each_block false bmap begin (end - begin) [] r
      each_parity false pdisk offs r')
    else (do
      let stripe_begin = stripe * stripe_size
      let stripe_end = stripe_begin + stripe_size
      (r', _) ← each_block false bmap stripe_begin (begin - stripe_begin) [] r
      (r'', _) ← each_block false bmap end (stripe_end - end) [] r'
      ok r'')

unfoldable pub do_partial_write :
    ℕ → (ℕ → Result (ℕ × ℕ)) → (ℕ → Result ℕ) → ℕ → ℕ → ℕ → Raid → Result Raid
do_partial_write stripe_size bmap pmap stripe begin end r = do
  pdisk ← pmap stripe
  r' ← partial_reads stripe_size bmap pdisk stripe begin end r
  (r'', offs) ← each_block true bmap begin (end - begin) [] r'
  each_parity true pdisk offs r''

-- The end of the part of a request that lies in a stripe.
unfoldable pub part_end : ℕ → ℕ → ℕ → ℕ → ℕ
part_end stripe_size stripe begin left =
    let end_of_stripe = stripe * stripe_size + stripe_size in
    let end : ℕ = if leb stripe_size left then begin + stripe_size else begin + left in
    if leb end_of_stripe end then end_of_stripe else end

-- `for stripe in range(initStripe, finalStripe + 1)`, with the variables `left` and `begin`.
unfoldable pub each_stripe :
    ℕ → (ℕ → Result (ℕ × ℕ)) → (ℕ → Result ℕ) → ℕ → ℕ → ℕ → ℕ → Raid → Result Raid
each_stripe stripe_size bmap pmap zero stripe left begin r = ok r
each_stripe stripe_size bmap pmap (suc n) stripe left begin r = do
  let end = part_end stripe_size stripe begin left
  r' ← do_partial_write stripe_size bmap pmap stripe begin end r
  each_stripe stripe_size bmap pmap n (stripe + 1) (left - (end - begin)) end r'

unfoldable pub enqueue45 :
    ℕ → (ℕ → Result (ℕ × ℕ)) → (ℕ → Result ℕ) → Bool → ℕ → ℕ → Raid → Result Raid
enqueue45 stripe_size bmap pmap false addr size r = do
  (r', _) ← each_block false bmap addr size [] r
  ok r'
enqueue45 stripe_size bmap pmap true addr size r =
    let init_stripe = addr / stripe_size in
    let final_stripe = (addr + size - 1) / stripe_size in
    if stripe_size == 0
    then raise zero_division_error
    else each_stripe stripe_size bmap pmap (final_stripe + 1 - init_stripe) init_stripe size addr r

-- `raid.enqueue`. Without disks `blocksInStripe` is negative, which the model does not follow.
unfoldable pub enqueue : Raid → ℕ → ℕ → Bool → Result Raid
enqueue r addr size is_write =
    let g = r.geometry in
    elim r.level [
      | raid0 ↦ enqueue0 g is_write addr size r
      | raid1 ↦ enqueue1 g is_write addr size r
      | raid4 ↦
          if g.num_disks == 0
          then raise outside
          else enqueue45 (blocks_in_stripe g) (bmap4 g) (λ s. ok (pmap4 g s)) is_write addr size r
      | raid5 ↦
          if g.num_disks == 0
          then raise outside
          else enqueue45 (blocks_in_stripe g) (bmap5 g) (pmap5 g) is_write addr size r
    ]

-- `go`: the time of the disk that takes the longest
unfoldable pub go : List Disk → ℕ → ℕ
go [] tmax = tmax
go (d ∷ ds) tmax = go ds (if leb d.util_time tmax then tmax else d.util_time)
