-- ===== src/Ssd/Client.antt =====
-- What a client of the logging device sees: `write`, `read` and `trim` act on the view like on a
-- dictionary.
use life.Prelude.{
  ℕ, ◌+◌, ◌*◌, ◌/◌, ◌≤◌, ◌<◌, ◌≡◌, ◌≢◌, refl, ◌∙◌, true, false, Option, none, some, Option-cases,
  Bool-cases, ◌⊎◌, inl, inr, leb, ◌==◌, if◌then◌else◌, arith, ok,
}
use life.Ssd.Device.{Ssd, logging, update, init, physical_read}
use life.Ssd.{
  Answer, success, device_full, illegal, uninitialized, contains, write_logging, read, write, trim,
}
use life.Ssd.Sound.{IsFull, view, IsSound}
use life.Ssd.Writes.{write_logging-Written}
use native.Mathlib.Nat.{div-lt_iff_lt-mul}

-- The counters that reads, writes and trims move.
abbrev pub counted : Ssd → ℕ → ℕ → ℕ → ℕ → ℕ → ℕ → ℕ → (ℕ → ℕ) → Ssd
counted s w wf r rf t tf p c = record s {
  logical_write_sum = w;
  logical_write_fail_sum = wf;
  logical_read_sum = r;
  logical_read_fail_sum = rf;
  logical_trim_sum = t;
  logical_trim_fail_sum = tf;
  physical_read_sum = p;
  physical_read_count = c;
}

pub counted-IsSound :
    (nb ppb : ℕ) (s : Ssd) (w wf r rf t tf p : ℕ) (c : ℕ → ℕ)
    → IsSound nb ppb s
    → IsSound nb ppb (counted s w wf r rf t tf p c)
counted-IsSound nb ppb s w wf r rf t tf p c h = record {
  logs = h.logs;
  same_blocks = h.same_blocks;
  same_pages = h.same_pages;
  positive = h.positive;
  in_device = h.in_device;
  mapped = h.mapped;
  fresh = h.fresh;
  clear = h.clear;
  cursor = λ q e.
      let k = h.cursor q e in
      record { inside = k.inside; bounded = k.bounded; ahead = k.ahead; behind = k.behind };
}

-- A new device with pages is sound.
pub init-IsSound :
    (nl nb ppb high low : ℕ) → 0 < ppb → IsSound nb ppb (init logging nl nb ppb high low)
unfolding init
init-IsSound nl nb ppb high low pos = record {
  logs = refl;
  same_blocks = refl;
  same_pages = refl;
  positive = pos;
  in_device = omega arith;
  mapped = λ a p e. absurd (cc);
  fresh = λ b p lt e i v. cc;
  clear = λ b p lt e i. absurd (cc);
  cursor = λ p e. absurd (cc);
}

-- What a read answers.
abbrev pub answer_of : Option ℕ → Answer
answer_of none = uninitialized
answer_of (some value) = contains value

-- The device after a read that fails, and after one that reads a page.
abbrev failed_read : Ssd → Ssd
failed_read s =
    counted s s.logical_write_sum s.logical_write_fail_sum (s.logical_read_sum + 1)
      (s.logical_read_fail_sum + 1) s.logical_trim_sum s.logical_trim_fail_sum s.physical_read_sum
      s.physical_read_count

abbrev done_read : Ssd → ℕ → Ssd
done_read s page =
    counted s s.logical_write_sum s.logical_write_fail_sum (s.logical_read_sum + 1)
      s.logical_read_fail_sum s.logical_trim_sum s.logical_trim_fail_sum (s.physical_read_sum + 1)
      (update s.physical_read_count (page / s.pages_per_block)
        (s.physical_read_count (page / s.pages_per_block) + 1))

-- a mapped page is in a block of the device
pub mapped-block :
    (nb ppb : ℕ) (s : Ssd) (page : ℕ)
    → IsSound nb ppb s
    → page < nb * ppb
    → page / s.pages_per_block < s.num_blocks
mapped-block nb ppb s page h lt =
    let e : s.pages_per_block ≡ ppb = h.same_pages in
    let f : s.num_blocks ≡ nb = h.same_blocks in
    rw (e, f) ((div-lt_iff_lt-mul {x = page} {y = nb} h.positive).1 lt)

read_mapped :
    (nb ppb a page : ℕ) (s : Ssd)
    → IsSound nb ppb s
    → leb s.num_logical_pages a ≡ false
    → s.forward_map a ≡ some page
    → read a s ≡ ok (done_read s page, contains (s.contents page))
unfolding read physical_read
read_mapped nb ppb a page s h e f =
    ground (arith, mapped-block nb ppb s page h (h.mapped a page f).0)

-- On a sound logging device a read raises nothing, changes nothing of the device but the counters of
-- reads, and so nothing that reads return, and answers with the data of the page, or that the address is illegal or has no data.
pub read-view :
    (nb ppb a : ℕ) (s : Ssd)
    → IsSound nb ppb s
    → (r : Ssd × Answer) × (read a s ≡ ok r)
      × IsSound nb ppb r.0
      × (r.0 ≡ record s {
        logical_read_sum = r.0.logical_read_sum;
        logical_read_fail_sum = r.0.logical_read_fail_sum;
        physical_read_sum = r.0.physical_read_sum;
        physical_read_count = r.0.physical_read_count;
      })
      × ((b : ℕ) → view r.0 b ≡ view s b)
      × (r.1 ≡ (if leb s.num_logical_pages a then illegal else answer_of (view s a)))
unfolding read
read-view nb ppb a s h = elim (Bool-cases (leb s.num_logical_pages a)) [
  | inl e ↦ (
    (failed_read s, illegal),
    ground arith,
    counted-IsSound nb ppb s _ _ _ _ _ _ _ _ h,
    refl,
    λ b. refl,
    rw e,
  )
  | inr e ↦ elim (Option-cases (s.forward_map a)) [
    | inl f ↦ (
      (failed_read s, uninitialized),
      ground arith,
      counted-IsSound nb ppb s _ _ _ _ _ _ _ _ h,
      refl,
      λ b. refl,
      ground arith,
    )
    | inr (page, f) ↦ (
      (done_read s page, contains (s.contents page)),
      read_mapped nb ppb a page s h e f,
      counted-IsSound nb ppb s _ _ _ _ _ _ _ _ h,
      refl,
      λ b. refl,
      ground arith,
    )
  ]
]

-- the device with the write counted, which `write` hands to the logging layer
abbrev pub started : Ssd → Ssd
started s =
    counted s (s.logical_write_sum + 1) s.logical_write_fail_sum s.logical_read_sum
      s.logical_read_fail_sum s.logical_trim_sum s.logical_trim_fail_sum s.physical_read_sum
      s.physical_read_count

pub write-started :
    (nb ppb a value : ℕ) (s : Ssd)
    → IsSound nb ppb s
    → a < s.num_logical_pages
    → write a value s ≡ write_logging a value (started s)
unfolding write
write-started nb ppb a value s h lt =
    let e : leb s.num_logical_pages a ≡ false = ground arith in
    let f : s.ssd_type ≡ logging = h.logs in ground arith

-- On a sound logging device a write to a legal address raises nothing and keeps the device sound.
-- Either it succeeds, and reads then return the new data at the address and what they returned
-- before at every other; or there is no page to write to, with no current page and the first page of
-- every block valid, and then the answer is that the device is full, the failure is counted, and
-- reads return what they did.
pub write-view :
    (nb ppb a value : ℕ) (s : Ssd)
    → IsSound nb ppb s
    → a < s.num_logical_pages
    → (r : Ssd × Answer) × (write a value s ≡ ok r)
      × IsSound nb ppb r.0
      × ((r.1 ≡ success)
            × (r.0.logical_write_fail_sum ≡ s.logical_write_fail_sum)
            × ((b : ℕ) → view r.0 b ≡ (if b == a then some value else view s b))
          ⊎ (r.1 ≡ device_full)
            × (r.0.logical_write_fail_sum ≡ s.logical_write_fail_sum + 1)
            × IsFull nb ppb s
            × ((b : ℕ) → view r.0 b ≡ view s b))
write-view nb ppb a value s h lt =
    let t = started s in
    let k : IsSound nb ppb t = counted-IsSound nb ppb s _ _ _ _ _ _ _ _ h in
    let (r, e, c) = write_logging-Written nb ppb t a value k in
    elim c [
      | inl (f, w) ↦
          (r, write-started nb ppb a value s h lt ∙ e, w.sound, inl (f, w.fails, w.views))
      | inr (f, q, n, full) ↦ (
        r,
        write-started nb ppb a value s h lt ∙ e,
        counted-IsSound nb ppb (record r.0 { logical_write_fail_sum = s.logical_write_fail_sum })
            r.0.logical_write_sum r.0.logical_write_fail_sum r.0.logical_read_sum
            r.0.logical_read_fail_sum r.0.logical_trim_sum r.0.logical_trim_fail_sum
            r.0.physical_read_sum r.0.physical_read_count q.sound,
        inr (f, n, (full.0, full.1), q.views),
      )
    ]

abbrev failed_trim : Ssd → Ssd
failed_trim s =
    counted s s.logical_write_sum s.logical_write_fail_sum s.logical_read_sum
      s.logical_read_fail_sum (s.logical_trim_sum + 1) (s.logical_trim_fail_sum + 1)
      s.physical_read_sum s.physical_read_count

abbrev done_trim : ℕ → Ssd → Ssd
done_trim a s = record s {
  logical_trim_sum = s.logical_trim_sum + 1;
  forward_map = update s.forward_map a none;
}

trim_illegal :
    (a : ℕ) (s : Ssd) → leb s.num_logical_pages a ≡ true → trim a s ≡ (failed_trim s, illegal)
unfolding trim
trim_illegal a s e = ground arith

trim_empty :
    (a : ℕ) (s : Ssd)
    → leb s.num_logical_pages a ≡ false
    → s.forward_map a ≡ none
    → trim a s ≡ (failed_trim s, uninitialized)
unfolding trim
trim_empty a s e f = ground arith

trim_full :
    (a page : ℕ) (s : Ssd)
    → leb s.num_logical_pages a ≡ false
    → s.forward_map a ≡ some page
    → trim a s ≡ (done_trim a s, success)
unfolding trim
trim_full a page s e f = ground arith

done_trim-IsSound : (nb ppb a : ℕ) (s : Ssd) → IsSound nb ppb s → IsSound nb ppb (done_trim a s)
done_trim-IsSound nb ppb a s h = record {
  logs = h.logs;
  same_blocks = h.same_blocks;
  same_pages = h.same_pages;
  positive = h.positive;
  in_device = h.in_device;
  mapped = λ b p e. h.mapped b p (ground arith);
  fresh = h.fresh;
  clear = h.clear;
  cursor = λ q e.
      let k = h.cursor q e in
      record { inside = k.inside; bounded = k.bounded; ahead = k.ahead; behind = k.behind };
}

-- On a sound logging device a trim keeps the device sound. It answers with success exactly where a
-- read finds data, and then takes the data from reads of that address only; otherwise reads return
-- what they did.
pub trim-view :
    (nb ppb a : ℕ) (s : Ssd)
    → IsSound nb ppb s
    → IsSound nb ppb (trim a s).0
      × (((trim a s).1 ≡ success)
            × (a < s.num_logical_pages)
            × (view s a ≢ none)
            × ((b : ℕ) → view (trim a s).0 b ≡ (if b == a then none else view s b))
          ⊎ ((trim a s).1 ≢ success)
            × ((s.num_logical_pages ≤ a) ⊎ (view s a ≡ none))
            × ((b : ℕ) → view (trim a s).0 b ≡ view s b))
trim-view nb ppb a s h = elim (Bool-cases (leb s.num_logical_pages a)) [
  | inl e ↦
      rw (trim_illegal a s e)
        (counted-IsSound nb ppb s _ _ _ _ _ _ _ _ h, inr (λ q. cc, inl (ground arith), λ b. refl))
  | inr e ↦ elim (Option-cases (s.forward_map a)) [
    | inl f ↦
        rw (trim_empty a s e f)
          (counted-IsSound nb ppb s _ _ _ _ _ _ _ _ h, inr (λ q. cc, inr (ground arith), λ b. refl))
    | inr (page, f) ↦ rw (trim_full a page s e f) (
      done_trim-IsSound nb ppb a s h,
      inl (refl, ground arith, λ q. ground arith, λ b. ground arith),
    )
  ]
]
