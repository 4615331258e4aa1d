-- ===== src/Ssd/Moves.antt =====
-- The loop of `garbage_collect` that copies the live pages of a block.
use life.Prelude.{
  ℕ, ◌+◌, ◌/◌, ◌≤◌, ◌<◌, ◌≡◌, ◌≢◌, refl, sym, ap, ◌∙◌, true, Option, some, Bool-cases, ◌⊎◌, inl,
  inr, List, [], ◌∷◌, leb, ◌==◌, arith, ok,
}
use life.Ssd.Device.{Ssd, update, physical_read}
use life.Ssd.{Answer, illegal, write}
use life.Ssd.Collector.{rewrite_page, move_pages}
use life.Ssd.Blocks.{InBlock}
use life.Ssd.Sound.{view, IsSound, IsFrozen}
use life.Ssd.Writes.{write_logging-Written}
use life.Ssd.Client.{counted, counted-IsSound, mapped-block, started, write-started}
use life.Ssd.Live.{AllMapped, IsAscending, IsOneOf}

-- A copy of a page of block `b`: it is made, or the write fails and is counted.
record Moved (nb ppb b a : ℕ) (s t : Ssd) : Type 0 where
  sound : IsSound nb ppb t
  frozen : IsFrozen ppb t b
  views : (c : ℕ) → view t c ≡ view s c
  others : (c : ℕ) → c ≢ a → t.forward_map c ≡ s.forward_map c
  made :
      (t.logical_write_fail_sum ≡ s.logical_write_fail_sum)
        × ((p : ℕ) → t.forward_map a ≡ some p → ¬ InBlock ppb b p)
      ⊎ (s.logical_write_fail_sum < t.logical_write_fail_sum) × (t.forward_map a ≡ s.forward_map a)

module _ (nb ppb b : ℕ) (s : Ssd) (h : IsSound nb ppb s) (z : IsFrozen ppb s b) (a q : ℕ)
    (at : s.forward_map a ≡ some q) where
  abbrev was_read : Ssd
  was_read =
      counted s s.logical_write_sum s.logical_write_fail_sum s.logical_read_sum
        s.logical_read_fail_sum s.logical_trim_sum s.logical_trim_fail_sum (s.physical_read_sum + 1)
        (update s.physical_read_count (q / s.pages_per_block)
          (s.physical_read_count (q / s.pages_per_block) + 1))

  physical_read-ok : physical_read q s ≡ ok (was_read, s.contents q)
  unfolding physical_read
  physical_read-ok = ground (arith, mapped-block nb ppb s q h (h.mapped a q at).0)

  view-at : view s a ≡ some (s.contents q)
  view-at = rw (view, at)

  back : s.reverse_map q ≡ some a
  back = (h.mapped a q at).2

  abbrev refused : Ssd
  refused =
      counted was_read (s.logical_write_sum + 1) (s.logical_write_fail_sum + 1) s.logical_read_sum
        s.logical_read_fail_sum s.logical_trim_sum s.logical_trim_fail_sum
        was_read.physical_read_sum was_read.physical_read_count

  write-refused :
      leb s.num_logical_pages a ≡ true → write a (s.contents q) was_read ≡ ok (refused, illegal)
  unfolding write
  write-refused e = ground arith

  rewrite_page-Moved :
      (r : Ssd × Answer) × (rewrite_page (was_read.reverse_map q) (s.contents q) was_read ≡ ok r)
      × Moved nb ppb b a s r.0
  unfolding rewrite_page
  rewrite_page-Moved = elim (Bool-cases (leb s.num_logical_pages a)) [
    | inl e ↦ (
      (refused, illegal),
      rw back (write-refused e),
      record {
        sound = counted-IsSound nb ppb s _ _ _ _ _ _ _ _ h;
        frozen = z;
        views = λ c. refl;
        others = λ c ne. refl;
        made = inr (omega arith, refl);
      },
    )
    | inr e ↦
        let k : IsSound nb ppb was_read = counted-IsSound nb ppb s _ _ _ _ _ _ _ _ h in
        let k' : IsSound nb ppb (started was_read) =
          counted-IsSound nb ppb was_read _ _ _ _ _ _ _ _ k in
        let (r, f, c) = write_logging-Written nb ppb (started was_read) a (s.contents q) k' in
        let g = write-started nb ppb a (s.contents q) was_read k (ground arith) ∙ f in
        elim c [
          | inl (x, w) ↦ (
            r,
            rw back g,
            record {
              sound = w.sound;
              frozen = w.frozen b z;
              views = λ d. w.views d ∙ ground (arith, ap (view s) {x = d} {y = a}, view-at);
              others = w.forward;
              made = inl (w.fails, λ p e' i. w.elsewhere p b e' z i);
            },
          )
          | inr (x, w, n, full) ↦ (
            r,
            rw back g,
            record {
              sound =
                  counted-IsSound nb ppb
                    (record r.0 { logical_write_fail_sum = s.logical_write_fail_sum })
                    r.0.logical_write_sum r.0.logical_write_fail_sum r.0.logical_read_sum
                    r.0.logical_read_fail_sum r.0.logical_trim_sum r.0.logical_trim_fail_sum
                    r.0.physical_read_sum r.0.physical_read_count w.sound;
              frozen = w.frozen b z;
              views = w.views;
              others = λ d ne. ap (λ (m : ℕ → Option ℕ). m d) w.forward;
              made = inr (omega (arith, n), ap (λ (m : ℕ → Option ℕ). m a) w.forward);
            },
          )
        ]
  ]

-- The mapped pages of block `b` are on the list.
abbrev pub Covers : ℕ → ℕ → Ssd → List ℕ → Type 0
Covers ppb b s l = (a p : ℕ) → s.forward_map a ≡ some p → InBlock ppb b p → IsOneOf p l

-- The copies of a list of pages: all are made, and then block `b` has no mapped page, or some write
-- failed.
pub record Copied (nb ppb b : ℕ) (s t : Ssd) (l : List ℕ) : Type 0 where
  pub sound : IsSound nb ppb t
  pub frozen : IsFrozen ppb t b
  pub views : (c : ℕ) → view t c ≡ view s c
  pub fails : s.logical_write_fail_sum ≤ t.logical_write_fail_sum
  pub done :
      t.logical_write_fail_sum ≡ s.logical_write_fail_sum
      → Covers ppb b s l
      → (a p : ℕ) → t.forward_map a ≡ some p
      → ¬ InBlock ppb b p

AllMapped-others :
    (s t : Ssd) (a q lo : ℕ) (l : List ℕ)
    → s.forward_map a ≡ some q
    → q < lo
    → IsAscending lo l
    → ((c : ℕ) → c ≢ a → t.forward_map c ≡ s.forward_map c)
    → AllMapped s l
    → AllMapped t l
AllMapped-others s t a q lo [] at lt o f m = tt
AllMapped-others s t a q lo (p ∷ l) at lt o f ((c, e), m) = (
  (c, f c (λ x. absurd (differ x)) ∙ e),
  AllMapped-others s t a q (p + 1) l at (omega (arith, o.0)) o.1 f m,
)
  where
    differ : c ≡ a → ⊥
    differ x = let y : s.forward_map a ≡ some p = rw x at e in ground (arith, o.0)

Covers-rest :
    (nb ppb b a q : ℕ) (l : List ℕ) (s r : Ssd)
    → IsSound nb ppb s
    → s.forward_map a ≡ some q
    → ((c : ℕ) → c ≢ a → r.forward_map c ≡ s.forward_map c)
    → ((p : ℕ) → r.forward_map a ≡ some p → ¬ InBlock ppb b p)
    → Covers ppb b s (q ∷ l)
    → Covers ppb b r l
Covers-rest nb ppb b a q l s r h at f y cov c p e i = elim (Bool-cases (c == a)) [
  | inl t ↦ let x : c ≡ a = ground arith in absurd (y p (rw x at e) i)
  | inr t ↦
      let ne : c ≢ a = ground arith in
      let e' : s.forward_map c ≡ some p = sym (f c ne) ∙ e in
      elim (cov c p e' i) [
        | inr m ↦ m
        | inl x ↦
            let u = (h.mapped c p e').2 in
            let v : s.reverse_map p ≡ some a = rw (← x) at (h.mapped a q at).2 in absurd (ne (cc))
      ]
]

Copied-step :
    (nb ppb b a q : ℕ) (l : List ℕ) (s r t : Ssd)
    → IsSound nb ppb s
    → s.forward_map a ≡ some q
    → Moved nb ppb b a s r
    → Copied nb ppb b r t l
    → Copied nb ppb b s t (q ∷ l)
Copied-step nb ppb b a q l s r t h at k c = elim k.made [
  | inl (x, y) ↦ record {
    sound = c.sound;
    frozen = c.frozen;
    views = λ d. c.views d ∙ k.views d;
    fails = omega (arith, c.fails);
    done = λ e cov. c.done (omega arith) (Covers-rest nb ppb b a q l s r h at k.others y cov);
  }
  | inr (x, y) ↦ record {
    sound = c.sound;
    frozen = c.frozen;
    views = λ d. c.views d ∙ k.views d;
    fails = omega (arith, c.fails);
    done = λ e cov. absurd (omega (arith, c.fails));
  }
]

pub move_pages-Copied :
    (nb ppb b lo : ℕ) (l : List ℕ) (s : Ssd)
    → IsSound nb ppb s
    → IsFrozen ppb s b
    → AllMapped s l
    → IsAscending lo l
    → (t : Ssd) × (move_pages l s ≡ ok t) × Copied nb ppb b s t l
unfolding move_pages
move_pages-Copied nb ppb b lo [] s h z m o = (
  s,
  refl,
  record {
    sound = h;
    frozen = z;
    views = λ c. refl;
    fails = omega arith;
    done = λ e c a p f i. c a p f i;
  },
)
move_pages-Copied nb ppb b lo (q ∷ l) s h z ((a, at), m) o =
    let (r, e, k) = rewrite_page-Moved nb ppb b s h z a q at in
    let (t, f, c) =
      move_pages-Copied nb ppb b (q + 1) l r.0 k.sound k.frozen
        (AllMapped-others s r.0 a q (q + 1) l at (omega arith) o.1 k.others m) o.1 in
    (
      t,
      rw (physical_read-ok nb ppb b s h z a q at, e) f,
      Copied-step nb ppb b a q l s r.0 t h at k c,
    )
