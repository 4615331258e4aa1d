-- ===== src/Ssd/Cleaning.antt =====
-- What `garbage_collect` does to one block.
use life.Prelude.{
  ℕ, zero, suc, ◌+◌, ◌*◌, ◌≤◌, ◌<◌, ◌≡◌, ◌≢◌, refl, ap, ◌∙◌, false, some, Bool-cases, ◌⊎◌, inl, inr,
  List, [], ◌∷◌, ◌==◌, arith, ok,
}
use life.Ssd.Device.{Ssd, PageState, invalid, erased, valid, wiped, physical_erase}
use life.Ssd.{range}
use life.Ssd.Collector.{is_live, live_pages, move_pages, pages_of, clean, is_skipped, collect}
use life.Ssd.Blocks.{InBlock}
use life.Ssd.Sound.{view, IsSound}
use life.Ssd.Erase.{wiped-IsSound, view-wiped}
use life.Ssd.Live.{range-IsOneOf, live_pages-IsOneOf, is_live-mapped, live_pages-lem}
use life.Ssd.Moves.{Covers, move_pages-Copied}

-- A step that keeps the device sound, and reads and the count of failed writes as they are.
pub record Tidy (nb ppb : ℕ) (s t : Ssd) : Type 0 where
  pub sound : IsSound nb ppb t
  pub views : (c : ℕ) → view t c ≡ view s c
  pub fails : t.logical_write_fail_sum ≡ s.logical_write_fail_sum

-- The loop over the blocks goes on, after steps that lose nothing, with a block whose cleaning has a
-- failed write.
pub record WriteFailed (nb ppb : ℕ) (blocks : List ℕ) (s : Ssd) : Type 0 where
  pub before : Ssd
  pub after : Ssd
  pub block : ℕ
  pub later : List ℕ
  pub reached : collect blocks s ≡ collect (block ∷ later) before
  pub taken : is_skipped block before ≡ false
  pub tidy : Tidy nb ppb s before
  pub cleaned : clean block before ≡ ok after
  pub failed : before.logical_write_fail_sum < after.logical_write_fail_sum

State-first :
    (nb ppb b : ℕ) (s : Ssd)
    → IsSound nb ppb s
    → b < nb
    → s.state (b * ppb) ≢ valid
    → (a p : ℕ) → s.forward_map a ≡ some p
    → ¬ InBlock ppb b p
State-first nb ppb b s h lt ne a p e i = by_state (s.state (b * ppb)) refl
  where
    by_state : (x : PageState) → s.state (b * ppb) ≡ x → ⊥
    by_state valid f = ne f
    by_state invalid f = h.fresh b p lt f i (h.mapped a p e).1
    by_state erased f = let x = h.clear b p lt f i in let y = (h.mapped a p e).1 in absurd (cc)

live_pages-empty :
    (ppb b lo n : ℕ) (s : Ssd)
    → ((a p : ℕ) → s.forward_map a ≡ some p → ¬ InBlock ppb b p)
    → b * ppb ≤ lo
    → lo + n ≤ b * ppb + ppb
    → live_pages s (range lo n) ≡ []
unfolding live_pages
live_pages-empty ppb b lo zero s none_in le hi = refl
live_pages-empty ppb b lo (suc n) s none_in le hi = elim (Bool-cases (is_live s lo)) [
  | inl e ↦ let (a, f) = is_live-mapped s lo e in absurd (none_in a lo f (le, omega arith))
  | inr e ↦ rw e (live_pages-empty ppb b (lo + 1) n s none_in (omega arith) (omega arith))
]

wiped-Tidy :
    (nb ppb b : ℕ) (s t : Ssd)
    → b < nb
    → Tidy nb ppb s t
    → t.current_block ≢ b
    → ((a p : ℕ) → t.forward_map a ≡ some p → ¬ InBlock ppb b p)
    → Tidy nb ppb s (wiped b t)
wiped-Tidy nb ppb b s t lt d ne none_in = record {
  sound = wiped-IsSound nb ppb t d.sound b lt none_in (λ page e. ne);
  views = λ c. view-wiped nb ppb t d.sound b lt none_in c ∙ d.views c;
  fails = unfold wiped in d.fails;
}

erase-wiped :
    (nb ppb b : ℕ) (t : Ssd) → IsSound nb ppb t → b < nb → physical_erase b t ≡ ok (wiped b t)
unfolding physical_erase
erase-wiped nb ppb b t h lt = ground (arith, h.same_blocks)

-- Cleaning a block comes out tidy, or a write of it failed.
abbrev pub Cleaned : ℕ → ℕ → ℕ → Ssd → Ssd → Type 0
Cleaned nb ppb b s t =
    (clean b s ≡ ok t) × (Tidy nb ppb s t ⊎ (s.logical_write_fail_sum < t.logical_write_fail_sum))

-- Cleaning a block that is not written to.
module _ (nb ppb b : ℕ) (s : Ssd) (h : IsSound nb ppb s) (lt : b < nb)
    (ne : s.current_block ≢ b) where
  clean_unmapped : s.state (b * ppb) ≢ valid → Cleaned nb ppb b s (wiped b s)
  unfolding clean move_pages
  clean_unmapped n =
      let none_in = State-first nb ppb b s h lt n in
      let e : s.pages_per_block ≡ ppb = h.same_pages in
      let f : live_pages s (pages_of s b) ≡ [] =
        ap (λ (n : ℕ). live_pages s (range (b * n) n)) e
        ∙ live_pages-empty ppb b (b * ppb) ppb s none_in (omega arith) (omega arith) in
      (
        rw f (erase-wiped nb ppb b s h lt),
        inl (
            wiped-Tidy nb ppb b s s lt (record { sound = h; views = λ c. refl; fails = refl }) ne
              none_in),
      )

  clean_mapped : s.state (b * ppb) ≡ valid → (t : Ssd) × Cleaned nb ppb b s t
  unfolding clean
  clean_mapped v =
      let e : s.pages_per_block ≡ ppb = h.same_pages in
      let l : List ℕ = live_pages s (range (b * ppb) ppb) in
      let same : live_pages s (pages_of s b) ≡ l = rw e in
      let (m, o) = live_pages-lem s (b * ppb) ppb in
      let (t, f, c) = move_pages-Copied nb ppb b (b * ppb) l s h (v, ne) m o in
      let g : clean b s ≡ ok (wiped b t) =
        rw (clean, same, f) (erase-wiped nb ppb b t c.sound lt) in
      let cov : Covers ppb b s l = λ a p x i.
        live_pages-IsOneOf nb ppb s (range (b * ppb) ppb) a p h x
          (range-IsOneOf p (b * ppb) ppb i.0 i.1) in
      (
        wiped b t,
        (
          g,
          elim (Bool-cases (t.logical_write_fail_sum == s.logical_write_fail_sum)) [
            | inl x ↦
                let y : t.logical_write_fail_sum ≡ s.logical_write_fail_sum = ground arith in
                inl (
                  wiped-Tidy nb ppb b s t lt
                    (record { sound = c.sound; views = c.views; fails = y }) c.frozen.1
                    (c.done y cov))
            | inr x ↦ inr (unfold wiped in ground (arith, c.fails))
          ],
        ),
      )

  pub clean-Cleaned : (t : Ssd) × Cleaned nb ppb b s t
  clean-Cleaned = by_state (s.state (b * ppb)) refl
    where
      by_state : (x : PageState) → s.state (b * ppb) ≡ x → (t : Ssd) × Cleaned nb ppb b s t
      by_state valid f = clean_mapped f
      by_state invalid f = (wiped b s, clean_unmapped (λ g. cc))
      by_state erased f = (wiped b s, clean_unmapped (λ g. cc))
