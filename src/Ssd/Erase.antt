-- ===== src/Ssd/Erase.antt =====
-- Erasing a block with no mapped page, away from the cursor, and taking an erased block to write to.
use life.Prelude.{
  ℕ, ◌*◌, ◌<◌, ◌≡◌, ◌≢◌, sym, ap, ◌∙◌, some, Option-cases, Bool-cases, inl, inr, ◌==◌, arith, ok,
}
use life.Ssd.Device.{Ssd, erased, wiped, physical_erase}
use life.Ssd.{take_block}
use life.Ssd.Blocks.{InBlock, InBlock-first, InBlock-ne}
use life.Ssd.Sound.{view, IsSound, IsFrozen, state-wiped_in, state-wiped_out, contents-wiped_out}

module _ (nb ppb : ℕ) (s : Ssd) (h : IsSound nb ppb s) (b : ℕ) (lt : b < nb)
    (unmapped : (address page : ℕ) → s.forward_map address ≡ some page → ¬ InBlock ppb b page) where
  pub physical_erase-wiped : physical_erase b s ≡ ok (wiped b s)
  unfolding physical_erase
  physical_erase-wiped = ground (arith, h.same_blocks)

  state_elsewhere : (c p : ℕ) → c ≢ b → InBlock ppb c p → (wiped b s).state p ≡ s.state p
  state_elsewhere c p ne i = state-wiped_out nb ppb s h b p (InBlock-ne ppb b c p ne i)

  state_first : (c : ℕ) → c ≢ b → (wiped b s).state (c * ppb) ≡ s.state (c * ppb)
  state_first c ne = state_elsewhere c (c * ppb) ne (InBlock-first ppb c h.positive)

  state_here : (c : ℕ) → c ≡ b → (wiped b s).state (c * ppb) ≡ erased
  state_here c e = state-wiped_in nb ppb s h b (c * ppb) (rw e (InBlock-first ppb b h.positive))

  pub wiped-IsSound :
      ((page : ℕ) → s.current_page ≡ some page → s.current_block ≢ b) → IsSound nb ppb (wiped b s)
  unfolding wiped
  wiped-IsSound away = record {
    logs = h.logs;
    same_blocks = h.same_blocks;
    same_pages = h.same_pages;
    positive = h.positive;
    in_device = h.in_device;
    mapped = λ address page e.
        let (x, y, z) = h.mapped address page (e) in
        (x, state-wiped_out nb ppb s h b page (unmapped address page (e)) ∙ y, z);
    fresh = λ c p clt e i. elim (Bool-cases (c == b)) [
      | inl t ↦ let f = state_here c (ground arith) in absurd (cc)
      | inr t ↦
          let ne : c ≢ b = ground arith in
          rw (state_elsewhere c p ne i) (h.fresh c p clt (sym (state_first c ne) ∙ e) i)
    ];
    clear = λ c p clt e i. elim (Bool-cases (c == b)) [
      | inl t ↦ let f : c ≡ b = ground arith in state-wiped_in nb ppb s h b p (rw f at i)
      | inr t ↦
          let ne : c ≢ b = ground arith in
          state_elsewhere c p ne i ∙ h.clear c p clt (sym (state_first c ne) ∙ e) i
    ];
    cursor = λ page e.
        let k = h.cursor page e in
        let ne = away page e in
        record {
          inside = k.inside;
          bounded = k.bounded;
          ahead = λ p lo hi.
              state_elsewhere s.current_block p ne (omega (arith, k.inside), hi) ∙ k.ahead p lo hi;
          behind = λ n. state_first s.current_block ne ∙ k.behind n;
        };
  }

  pub view-wiped : (address : ℕ) → view (wiped b s) address ≡ view s address
  unfolding wiped
  view-wiped address = elim (Option-cases (s.forward_map address)) [
    | inl e ↦ rw (e, view)
    | inr (page, e) ↦
        rw (e, view) (ap some (contents-wiped_out nb ppb s h b page (unmapped address page e)))
  ]

  pub wiped-IsFrozen : (c : ℕ) → c ≢ b → IsFrozen ppb s c → IsFrozen ppb (wiped b s) c
  unfolding wiped
  wiped-IsFrozen c ne f = (state_first c ne ∙ f.0, f.1)

-- An erased block can be taken: the cursor goes to its first page.
pub take_block-IsSound :
    (nb ppb : ℕ) (s : Ssd) (b : ℕ)
    → IsSound nb ppb s
    → b < nb
    → s.state (b * ppb) ≡ erased
    → IsSound nb ppb (take_block b s)
take_block-IsSound nb ppb s b h lt e = record {
  logs = h.logs;
  same_blocks = h.same_blocks;
  same_pages = h.same_pages;
  positive = h.positive;
  in_device = omega arith;
  mapped = h.mapped;
  fresh = h.fresh;
  clear = h.clear;
  cursor = λ page q.
      let r : page ≡ b * ppb = ground (arith, h.same_pages) in
      record {
        inside = rw r (InBlock-first ppb b h.positive);
        bounded = lt;
        ahead = λ p lo hi. h.clear b p lt e (omega arith, hi);
        behind = λ n. absurd (n r);
      };
}
