-- ===== src/Ssd/Collect.antt =====
-- `garbage_collect` and `upkeep`.
use life.Prelude.{
  ℕ, zero, suc, ◌+◌, ◌-◌, ◌≤◌, ◌<◌, ◌≡◌, ◌≢◌, refl, ◌∙◌, true, false, Bool-cases, ◌⊎◌, inl, inr,
  List, [], ◌∷◌, ◌++◌, All, leb, arith, ok,
}
use life.Ssd.Device.{Ssd}
use life.Ssd.{range}
use life.Ssd.Collector.{blocks_in_use, clean, is_skipped, collect, garbage_collect, upkeep}
use life.Ssd.Sound.{IsSound}
use life.Ssd.Cleaning.{Tidy, WriteFailed, clean-Cleaned}

Tidy-trans : (nb ppb : ℕ) (s t u : Ssd) → Tidy nb ppb s t → Tidy nb ppb t u → Tidy nb ppb s u
Tidy-trans nb ppb s t u d e = record {
  sound = e.sound;
  views = λ c. e.views c ∙ d.views c;
  fails = e.fails ∙ d.fails;
}

WriteFailed-from :
    (nb ppb : ℕ) (bs cs : List ℕ) (s t : Ssd)
    → Tidy nb ppb s t
    → collect bs s ≡ collect cs t
    → WriteFailed nb ppb cs t
    → WriteFailed nb ppb bs s
WriteFailed-from nb ppb bs cs s t d e w = record {
  before = w.before;
  after = w.after;
  block = w.block;
  later = w.later;
  reached = e ∙ w.reached;
  taken = w.taken;
  tidy = Tidy-trans nb ppb s t w.before d w.tidy;
  cleaned = w.cleaned;
  failed = w.failed;
}

Tidy-refl : (nb ppb : ℕ) (s : Ssd) → IsSound nb ppb s → Tidy nb ppb s s
Tidy-refl nb ppb s h = record { sound = h; views = λ c. refl; fails = refl }

-- the numbers of the collector's turn are not part of the invariant
turn-Tidy :
    (nb ppb : ℕ) (s t : Ssd) (b n : ℕ)
    → Tidy nb ppb s t
    → Tidy nb ppb s (record t { gc_current_block = b; gc_count = n })
turn-Tidy nb ppb s t b n d = record {
  sound = record {
    logs = d.sound.logs;
    same_blocks = d.sound.same_blocks;
    same_pages = d.sound.same_pages;
    positive = d.sound.positive;
    in_device = d.sound.in_device;
    mapped = d.sound.mapped;
    fresh = d.sound.fresh;
    clear = d.sound.clear;
    cursor = λ q e.
        let k = d.sound.cursor q e in
        record { inside = k.inside; bounded = k.bounded; ahead = k.ahead; behind = k.behind };
  };
  views = d.views;
  fails = d.fails;
}

not_current : (b : ℕ) (s : Ssd) → is_skipped b s ≡ false → s.current_block ≢ b
unfolding is_skipped
not_current b s e = ground arith

-- the loop goes on to the next block
collect-skipped :
    (b : ℕ) (bs : List ℕ) (s : Ssd) → is_skipped b s ≡ true → collect (b ∷ bs) s ≡ collect bs s
unfolding collect
collect-skipped b bs s e = rw e

collect-stops :
    (b : ℕ) (bs : List ℕ) (s t : Ssd)
    → is_skipped b s ≡ false
    → clean b s ≡ ok t
    → leb (blocks_in_use t) t.gc_low_water_mark ≡ true
    → collect (b ∷ bs) s ≡ ok (record t { gc_current_block = b; gc_count = t.gc_count + 1 })
unfolding collect
collect-stops b bs s t e f g = rw (e, f, g) refl

collect-goes_on :
    (b : ℕ) (bs : List ℕ) (s t : Ssd)
    → is_skipped b s ≡ false
    → clean b s ≡ ok t
    → leb (blocks_in_use t) t.gc_low_water_mark ≡ false
    → collect (b ∷ bs) s ≡ collect bs t
unfolding collect
collect-goes_on b bs s t e f g = rw (e, f, g) refl

collect-Tidy :
    (nb ppb : ℕ) (bs : List ℕ) (s : Ssd)
    → IsSound nb ppb s
    → All (λ b. b < nb) bs
    → ((t : Ssd) × (collect bs s ≡ ok t) × Tidy nb ppb s t) ⊎ WriteFailed nb ppb bs s
collect-Tidy nb ppb [] s h lt = inl (s, unfold collect in refl, Tidy-refl nb ppb s h)
collect-Tidy nb ppb (b ∷ bs) s h lt = elim (Bool-cases (is_skipped b s)) [
  | inl e ↦
      after s (collect-skipped b bs s e) (Tidy-refl nb ppb s h) (collect-Tidy nb ppb bs s h lt.1)
  | inr e ↦
      let (t, (f, c)) = clean-Cleaned nb ppb b s h lt.0 (not_current b s e) in
      elim c [
        | inr x ↦ inr (record {
          before = s;
          after = t;
          block = b;
          later = bs;
          reached = refl;
          taken = e;
          tidy = Tidy-refl nb ppb s h;
          cleaned = f;
          failed = x;
        })
        | inl d ↦ elim (Bool-cases (leb (blocks_in_use t) t.gc_low_water_mark)) [
          | inl g ↦ inl (
            record t { gc_current_block = b; gc_count = t.gc_count + 1 },
            collect-stops b bs s t e f g,
            turn-Tidy nb ppb s t b (t.gc_count + 1) d,
          )
          | inr g ↦
              after t (collect-goes_on b bs s t e f g) d (collect-Tidy nb ppb bs t d.sound lt.1)
        ]
      ]
]
  where
    after :
        (t : Ssd)
        → collect (b ∷ bs) s ≡ collect bs t
        → Tidy nb ppb s t
        → ((u : Ssd) × (collect bs t ≡ ok u) × Tidy nb ppb t u) ⊎ WriteFailed nb ppb bs t
        → ((u : Ssd) × (collect (b ∷ bs) s ≡ ok u) × Tidy nb ppb s u)
          ⊎ WriteFailed nb ppb (b ∷ bs) s
    after t f d (inl (u, g, k)) = inl (u, f ∙ g, Tidy-trans nb ppb s t u d k)
    after t f d (inr w) = inr (WriteFailed-from nb ppb (b ∷ bs) bs s t d f w)

range-All : (nb a n : ℕ) → a + n ≤ nb → All (λ b. b < nb) (range a n)
range-All nb a zero le = tt
range-All nb a (suc n) le = (omega arith, range-All nb (a + 1) n (omega arith))

All-join :
    (nb : ℕ) (xs ys : List ℕ)
    → All (λ b. b < nb) xs
    → All (λ b. b < nb) ys
    → All (λ b. b < nb) (xs ++ ys)
All-join nb [] ys p q = q
All-join nb (x ∷ xs) ys p q = (p.0, All-join nb xs ys p.1 q)

-- The blocks that `garbage_collect` goes through.
abbrev pub turn : Ssd → List ℕ
turn s = range s.gc_current_block (s.num_blocks - s.gc_current_block) ++ range 0 s.gc_current_block

-- Upkeep of a sound logging device whose collector is at one of its blocks, below the high water
-- mark or not, returns with the device sound, every read as before and no write failed; or the
-- collector comes, after steps that lose nothing, to a block at whose cleaning a write fails.
pub upkeep_view :
    (nb ppb : ℕ) (s : Ssd)
    → IsSound nb ppb s
    → s.gc_current_block ≤ nb
    → ((t : Ssd) × (upkeep s ≡ ok t) × Tidy nb ppb s t) ⊎ WriteFailed nb ppb (turn s) s
unfolding upkeep garbage_collect
upkeep_view nb ppb s h le = elim (Bool-cases (leb s.gc_high_water_mark (blocks_in_use s))) [
  | inr e ↦ inl (s, rw e, Tidy-refl nb ppb s h)
  | inl e ↦ rw e (
      collect-Tidy nb ppb (turn s) s h (
        All-join nb (range s.gc_current_block (s.num_blocks - s.gc_current_block))
          (range 0 s.gc_current_block)
          (range-All nb s.gc_current_block (s.num_blocks - s.gc_current_block)
            (omega (arith, h.same_blocks)))
          (range-All nb 0 s.gc_current_block (omega arith))))
]
