-- ===== src/Ssd/Cursor.antt =====
-- The search for a block to write to.
use life.Prelude.{
  ℕ, zero, suc, ◌+◌, ◌-◌, ◌*◌, ◌≤◌, ◌<◌, ◌≡◌, ◌≢◌, refl, Bool-cases, ltb, ◌==◌, sym, Bool, true,
  false, none, some, Option-cases, ◌⊎◌, inl, inr, arith, ok,
}
use life.Ssd.Device.{Ssd, PageState, invalid, erased, valid, wiped}
use life.Ssd.{take_block, is_block_free, find_block, get_cursor}
use life.Ssd.Blocks.{InBlock, InBlock-first}
use life.Ssd.Sound.{IsFull, view, IsSound, IsFrozen, state-wiped_in}
use life.Ssd.Erase.{
  physical_erase-wiped, wiped-IsSound, view-wiped, wiped-IsFrozen, take_block-IsSound,
}

-- A step that changes neither the maps nor what a client sees, nor the count of failed writes, nor
-- the blocks that are frozen.
pub record Quiet (nb ppb : ℕ) (s t : Ssd) : Type 0 where
  pub sound : IsSound nb ppb t
  pub views : (address : ℕ) → view t address ≡ view s address
  pub forward : t.forward_map ≡ s.forward_map
  pub reverse : t.reverse_map ≡ s.reverse_map
  pub fails : t.logical_write_fail_sum ≡ s.logical_write_fail_sum
  pub frozen : (c : ℕ) → IsFrozen ppb s c → IsFrozen ppb t c

pub Quiet-refl : (nb ppb : ℕ) (s : Ssd) → IsSound nb ppb s → Quiet nb ppb s s
Quiet-refl nb ppb s h = record {
  sound = h;
  views = λ a. refl;
  forward = refl;
  reverse = refl;
  fails = refl;
  frozen = λ c f. f;
}

State-cases : (x : PageState) → (x ≡ valid) ⊎ (x ≡ erased) ⊎ (x ≡ invalid)
State-cases valid = inl refl
State-cases erased = inr (inl refl)
State-cases invalid = inr (inr refl)

module _ (nb ppb : ℕ) (s : Ssd) (h : IsSound nb ppb s) (idle : s.current_page ≡ none) (b : ℕ)
    (lt : b < nb) where
  unmapped :
      s.state (b * ppb) ≡ invalid
      → (address page : ℕ) → s.forward_map address ≡ some page
      → ¬ InBlock ppb b page
  unmapped e address page f i = h.fresh b page lt e i (h.mapped address page f).1

  take_erased : s.state (b * ppb) ≡ erased → Quiet nb ppb s (take_block b s)
  take_erased e = record {
    sound = take_block-IsSound nb ppb s b h lt e;
    views = λ a. refl;
    forward = refl;
    reverse = refl;
    fails = refl;
    frozen = λ c f. (f.0, λ q. ne_of_state c (f.0) q);
  }
    where
      ne_of_state : (c : ℕ) → s.state (c * ppb) ≡ valid → b ≡ c → ⊥
      ne_of_state c f q = let g : s.state (c * ppb) ≡ erased = rw q at e in cc

  take_invalid : s.state (b * ppb) ≡ invalid → Quiet nb ppb s (take_block b (wiped b s))
  take_invalid e = record {
    sound =
        take_block-IsSound nb ppb (wiped b s) b
          (wiped-IsSound nb ppb s h b lt (unmapped e) (λ page q. absurd (cc))) lt
          (state-wiped_in nb ppb s h b (b * ppb) (InBlock-first ppb b h.positive));
    views = view-wiped nb ppb s h b lt (unmapped e);
    forward = unfold wiped in refl;
    reverse = unfold wiped in refl;
    fails = unfold wiped in refl;
    frozen = λ c f. (
      (wiped-IsFrozen nb ppb s h b lt (unmapped e) c (λ q. ne_of_state c f.0 (sym q)) f).0,
      λ q. ne_of_state c f.0 q,
    );
  }
    where
      ne_of_state : (c : ℕ) → s.state (c * ppb) ≡ valid → b ≡ c → ⊥
      ne_of_state c f q = let g : s.state (c * ppb) ≡ invalid = rw q at e in cc

  at_first : (x : PageState) → s.state (b * ppb) ≡ x → s.state (b * s.pages_per_block) ≡ x
  at_first x e = let p : s.pages_per_block ≡ ppb = h.same_pages in rw p e

  -- A block is taken, and then there is a cursor, or it is not free and nothing changes.
  pub is_block_free-Quiet :
      (r : Ssd × Bool) × (is_block_free b s ≡ ok r)
      × Quiet nb ppb s r.0
      × ((r.1 ≡ true) × (r.0.current_page ≢ none)
          ⊎ (r.1 ≡ false) × (r.0 ≡ s) × (s.state (b * ppb) ≡ valid))
  unfolding is_block_free
  is_block_free-Quiet = elim (State-cases (s.state (b * ppb))) [
    | inl e ↦ (
      (s, false),
      rw (is_block_free, at_first valid e),
      Quiet-refl nb ppb s h,
      inr (refl, refl, e),
    )
    | inr (inl e) ↦ (
      (take_block b s, true),
      rw (is_block_free, at_first erased e),
      take_erased e,
      inl (refl, λ q. cc),
    )
    | inr (inr e) ↦ (
      (take_block b (wiped b s), true),
      rw (is_block_free, at_first invalid e, physical_erase-wiped nb ppb s h b lt (unmapped e)),
      take_invalid e,
      inl (refl, λ q. cc),
    )
  ]

-- The same of the loop over blocks, and of the whole search.
Found : (nb ppb b n : ℕ) (s : Ssd) (r : Ssd × Bool) → Type 0
Found nb ppb b n s r =
    Quiet nb ppb s r.0
    × ((r.1 ≡ true) × (r.0.current_page ≢ none)
        ⊎ (r.1 ≡ false) × (r.0 ≡ s) × ((c : ℕ) → b ≤ c → c < b + n → s.state (c * ppb) ≡ valid))

find_block-Quiet :
    (nb ppb n b : ℕ) (s : Ssd)
    → IsSound nb ppb s
    → s.current_page ≡ none
    → b + n ≤ nb
    → (r : Ssd × Bool) × (find_block b n s ≡ ok r) × Found nb ppb b n s r
unfolding find_block Found
find_block-Quiet nb ppb zero b s h idle le =
    ((s, false), refl, (Quiet-refl nb ppb s h, inr (refl, refl, λ c lo hi. absurd (omega arith))))
find_block-Quiet nb ppb (suc n) b s h idle le =
    let ((t, free), e, q, c) = is_block_free-Quiet nb ppb s h idle b (omega arith) in
    elim c [
      | inl (f, ready) ↦ ((t, true), rw (e, f), (q, inl (refl, ready)))
      | inr (f, same, used) ↦
          let (r, g, (k, later)) = find_block-Quiet nb ppb n (b + 1) s h idle (omega arith) in
          (
            r,
            rw (e, f, same) g,
            (
              k,
              elim later [
                | inl x ↦ inl x
                | inr (x, y, all) ↦ inr (
                  x,
                  y,
                  λ i lo hi. elim (Bool-cases (b == i)) [
                    | inl z ↦ let w : b ≡ i = ground arith in rw (← w) used
                    | inr z ↦ all i (ground arith) (omega arith)
                  ],
                )
              ],
            ),
          )
    ]

pub get_cursor-Quiet :
    (nb ppb : ℕ) (s : Ssd)
    → IsSound nb ppb s
    → (r : Ssd × Bool) × (get_cursor s ≡ ok r)
      × Quiet nb ppb s r.0
      × ((r.1 ≡ true) × (r.0.current_page ≢ none) ⊎ (r.1 ≡ false) × (r.0 ≡ s) × IsFull nb ppb s)
unfolding get_cursor Found
get_cursor-Quiet nb ppb s h = elim (Option-cases s.current_page) [
  | inr (page, e) ↦ ((s, true), ground arith, Quiet-refl nb ppb s h, inl (refl, λ q. cc))
  | inl e ↦
      let ((t, found), f, (q, c)) =
        find_block-Quiet nb ppb (s.num_blocks - s.current_block) s.current_block s h e
          (omega (arith, h.same_blocks, h.in_device)) in
      elim c [
        | inl (g, ready) ↦ ((t, true), rw (get_cursor, e, f, g), q, inl (refl, ready))
        | inr (g, same, upper) ↦
            let (r, k, (q', c')) =
              find_block-Quiet nb ppb s.current_block 0 s h e (omega (arith, h.in_device)) in
            (
              r,
              rw (get_cursor, e, f, g, same) k,
              q',
              elim c' [
                | inl x ↦ inl x
                | inr (x, y, lower) ↦ inr (
                  x,
                  y,
                  (
                    e,
                    λ b lt. elim (Bool-cases (ltb b s.current_block)) [
                      | inl z ↦ lower b (omega arith) (ground arith)
                      | inr z ↦ upper b (ground arith) (ground (arith, h.same_blocks))
                    ],
                  ),
                )
              ],
            )
      ]
]
