-- ===== src/Raid/Disk.antt =====
-- The class `disk` of raid.py.
use life.Prelude.{
  ℕ, ◌+◌, ◌-◌, ◌*◌, ◌/◌, ◌<◌, ◌≤◌, ◌≡◌, refl, Bool, false, ◌||◌, ◌&&◌, Option, none, some, ltb, leb,
  ◌==◌, if◌then◌else◌, arith, Result, Result-cases, inl, inr, ok, raise, assertion_error,
}

-- `curr_addr` is `none` for the initial -10000.
pub record Disk : Type 0 where
  pub curr_addr : Option ℕ
  pub count_io : ℕ
  pub count_seq : ℕ
  pub count_nseq : ℕ
  pub count_rand : ℕ
  pub util_time : ℕ

abbrev pub seek_time : ℕ
seek_time = 100

abbrev pub xfer_time : ℕ
xfer_time = 1

abbrev pub num_tracks : ℕ
num_tracks = 100

abbrev pub blocks_per_track : ℕ
blocks_per_track = 100

abbrev pub blocks_per_disk : ℕ
blocks_per_disk = num_tracks * blocks_per_track

abbrev pub new_disk : Disk
new_disk = record {
  curr_addr = none;
  count_io = 0;
  count_seq = 0;
  count_nseq = 0;
  count_rand = 0;
  util_time = 0;
}

-- `currTrack == newTrack`; the initial address is on track -100.
unfoldable pub same_track : Option ℕ → ℕ → Bool
same_track none addr = false
same_track (some curr) addr = curr / num_tracks == addr / num_tracks

-- The absolute difference of the two addresses.
unfoldable pub distance : Option ℕ → ℕ → ℕ
distance none addr = addr + 10000
distance (some curr) addr = if leb curr addr then addr - curr else curr - addr

unfoldable pub enqueue : Disk → ℕ → Result Disk
unfolding same_track distance
enqueue d addr =
    let diff = distance d.curr_addr addr in
    let d' : Disk = record d { curr_addr = some addr; count_io = d.count_io + 1 } in
    if ltb addr blocks_per_disk
    then (if same_track d.curr_addr addr || ltb diff blocks_per_track
        then (if diff == 1
            then ok (record d' {
              count_seq = d.count_seq + 1;
              util_time = d.util_time + diff * xfer_time;
            })
            else ok (record d' {
              count_nseq = d.count_nseq + 1;
              util_time = d.util_time + diff * xfer_time;
            }))
        else ok (record d' {
          count_rand = d.count_rand + 1;
          util_time = d.util_time + (seek_time + xfer_time);
        }))
    else raise assertion_error

-- The three kinds of access add up to all of them, and no access takes longer than a seek: an
-- access on the track or near it moves by less than a track.
pub record IsCounted (d : Disk) : Type 0 where
  pub counted : d.count_io ≡ d.count_seq + d.count_nseq + d.count_rand
  pub timed : d.util_time ≤ 99 * (d.count_seq + d.count_nseq) + 101 * d.count_rand
  pub sequential : d.count_seq + 101 * d.count_rand ≤ d.util_time

pub new_disk-IsCounted : IsCounted new_disk
new_disk-IsCounted = record { counted = refl; timed = omega arith; sequential = omega arith }

-- The address is the one before or the one after.
abbrev pub is_next : Option ℕ → ℕ → Bool
is_next none addr = false
is_next (some curr) addr = curr + 1 == addr || addr + 1 == curr

-- The address is less than a track away.
abbrev pub is_near : Option ℕ → ℕ → Bool
is_near none addr = false
is_near (some curr) addr = ltb addr (curr + 100) && ltb curr (addr + 100)

-- An access below the capacity succeeds and moves the head there. It is counted as sequential exactly
-- if it is one block away from where the head was, as random exactly if it is a track away or more (as
-- is the first), and else as near, and the counts and the time stay consistent.
pub enqueue-IsCounted :
    (d : Disk) (addr : ℕ)
    → addr < blocks_per_disk
    → IsCounted d
    → (d' : Disk) × (enqueue d addr ≡ ok d')
      × IsCounted d'
      × (d'.curr_addr ≡ some addr)
      × (d'.count_io ≡ d.count_io + 1)
      × (d'.count_seq ≡ d.count_seq + (if is_next d.curr_addr addr then 1 else 0))
      × (d'.count_rand ≡ d.count_rand + (if is_near d.curr_addr addr then 0 else 1))
unfolding enqueue
enqueue-IsCounted d addr h c = elim (Result-cases (enqueue d addr)) [
  | inl (d', e) ↦ (
    d',
    e,
    record { counted = ground arith; timed = ground arith; sequential = ground arith },
    ground arith,
    ground arith,
    ground arith,
    ground arith,
  )
  | inr (x, e) ↦ absurd (ground arith)
]
