-- ===== src/Ssd/Writes.antt =====
-- A write of the logging layer.
use life.Prelude.{
  ℕ, ◌+◌, ◌-◌, ◌*◌, ◌/◌, ◌%◌, ◌≤◌, ◌<◌, ◌≡◌, ◌≢◌, refl, sym, ap, ◌∙◌, Option, none, some,
  Option-cases, Bool-cases, ◌⊎◌, inl, inr, ltb, ◌==◌, if◌then◌else◌, arith, ok,
}
use native.Mathlib.Nat.{mod_self, mod-eq_of_lt, mul-add-mod_self_right}
use life.Ssd.Device.{Ssd, PageState, invalid, erased, valid, programmed, physical_program, update}
use life.Ssd.{Answer, success, device_full, append, update_cursor, write_logging}
use life.Ssd.Blocks.{InBlock, InBlock-le, div-InBlock, InBlock-unique}
use life.Ssd.Sound.{IsFull, view, AtCursor, IsSound, IsFrozen}
use life.Ssd.Cursor.{Quiet, Quiet-refl, get_cursor-Quiet}

-- The end of a block is where the page number is a multiple of its size.
at_end : (ppb b page : ℕ) → InBlock ppb b page → (page + 1) % ppb ≡ 0 → page + 1 ≡ b * ppb + ppb
at_end ppb b page i e = elim (Bool-cases (ltb (page + 1) (b * ppb + ppb))) [
  | inr l ↦ ground arith
  | inl l ↦
      let d : ℕ = page + 1 - b * ppb in
      let p : b * ppb + d ≡ page + 1 = omega (arith, i) in
      let q : (b * ppb + d) % ppb ≡ d =
        mul-add-mod_self_right b ppb d ∙ mod-eq_of_lt (ground arith) in
      absurd (omega (arith, i, q, ap (λ (x : ℕ). x % ppb) p))
]

module _ (nb ppb : ℕ) (s : Ssd) (h : IsSound nb ppb s) (address value page : ℕ)
    (ready : s.current_page ≡ some page) where
  abbrev mapping : Ssd → Ssd
  mapping t = record t {
    forward_map = update t.forward_map address (some page);
    reverse_map = update t.reverse_map page (some address);
  }

  -- The device after the page is programmed and mapped.
  pub appended : Ssd
  unfolding programmed update_cursor
  appended = update_cursor page (mapping (programmed page value s))

  k : AtCursor nb ppb s page
  k = h.cursor page ready

  is_clear : s.state page ≡ erased
  is_clear = k.ahead page (omega arith) (k.inside.1)

  append-appended : append address value s ≡ ok (appended, success)
  unfolding append physical_program appended
  append-appended =
      let e : s.pages_per_block ≡ ppb = h.same_pages in
      let d = div-InBlock ppb s.current_block page k.inside in
      let f : page / s.pages_per_block < s.num_blocks =
        rw (e, d) (omega (arith, k.bounded, h.same_blocks)) in
      ground (arith, is_clear)

  -- a page that was valid is another one
  other : (p : ℕ) → s.state p ≡ valid → p ≢ page
  other p e q = let f : s.state page ≡ valid = rw q at e in (let g = is_clear in cc)

  view-appended : (a : ℕ) → view appended a ≡ (if a == address then some value else view s a)
  unfolding appended
  view-appended a = elim (Bool-cases (a == address)) [
    | inl e ↦ ground arith
    | inr e ↦ elim (Option-cases (s.forward_map a)) [
      | inl f ↦ ground arith
      | inr (p, f) ↦ ground (arith, other p (h.mapped a p f).1)
    ]
  ]

  -- what is in the block of the cursor
  not_first_unless : (b : ℕ) → InBlock ppb b page → b * ppb ≢ page → s.state (b * ppb) ≡ valid
  not_first_unless b i ne =
      let e : s.current_block ≡ b = InBlock-unique ppb s.current_block b page k.inside i in
      rw e at (k.behind (λ q. ne (rw e at (sym q))))

  abbrev state' : ℕ → PageState
  state' = update s.state page valid

  state'_old : (p : ℕ) → p ≢ page → state' p ≡ s.state p
  state'_old p ne = ground arith

  state'_ne : (p : ℕ) (x : PageState) → x ≢ valid → state' p ≡ x → (p ≢ page) × (s.state p ≡ x)
  state'_ne p x ne e = elim (Bool-cases (p == page)) [
    | inl t ↦ absurd (ground arith)
    | inr t ↦ (ground arith, ground arith)
  ]

  fresh' : (b p : ℕ) → b < nb → state' (b * ppb) ≡ invalid → InBlock ppb b p → state' p ≢ valid
  fresh' b p lt e i v =
      let (ne, f) = state'_ne (b * ppb) invalid (λ q. cc) e in
      elim (Bool-cases (p == page)) [
        | inl t ↦ let q : p ≡ page = ground arith in let g = not_first_unless b (rw q at i) ne in cc
        | inr t ↦ h.fresh b p lt f i (sym (state'_old p (ground arith)) ∙ v)
      ]

  clear' : (b p : ℕ) → b < nb → state' (b * ppb) ≡ erased → InBlock ppb b p → state' p ≡ erased
  clear' b p lt e i =
      let (ne, f) = state'_ne (b * ppb) erased (λ q. cc) e in
      elim (Bool-cases (p == page)) [
        | inl t ↦
            let q : p ≡ page = ground arith in
            let g = not_first_unless b (rw q at i) ne in absurd (cc)
        | inr t ↦ state'_old p (ground arith) ∙ h.clear b p lt f i
      ]

  mapped' :
      (a p : ℕ)
      → update s.forward_map address (some page) a ≡ some p
      → (p < nb * ppb) × (state' p ≡ valid) × (update s.reverse_map page (some address) p ≡ some a)
  mapped' a p e = elim (Bool-cases (a == address)) [
    | inl t ↦
        let q : page ≡ p = ground arith in
        (
          rw q at (InBlock-le ppb s.current_block nb page k.bounded k.inside),
          ground arith,
          ground arith,
        )
    | inr t ↦
        let f : s.forward_map a ≡ some p = ground arith in
        let (x, y, z) = h.mapped a p f in
        let ne = other p y in (x, state'_old p ne ∙ y, ground arith)
  ]

  cursor' :
      (p : ℕ)
      → (if (page + 1) % s.pages_per_block == 0 then none else some (page + 1)) ≡ some p
      → (InBlock ppb s.current_block p)
        × ((q : ℕ) → p ≤ q → q < s.current_block * ppb + ppb → state' q ≡ erased)
        × (p ≢ s.current_block * ppb → state' (s.current_block * ppb) ≡ valid)
  cursor' p e =
      let r : s.pages_per_block ≡ ppb = h.same_pages in
      let m : (page + 1) % s.pages_per_block ≢ 0 = λ z. ground arith in
      let n : (page + 1) % ppb ≢ 0 = rw r at m in
      let q : page + 1 ≡ p = ground arith in
      let end : page + 1 ≢ s.current_block * ppb + ppb = λ z. n (
        ap (λ (x : ℕ). x % ppb) z
        ∙ mul-add-mod_self_right s.current_block ppb ppb
        ∙ mod_self ppb) in
      (
        (omega (arith, k.inside), omega (arith, k.inside)),
        λ j lo hi. state'_old j (omega arith) ∙ k.ahead j (omega arith) hi,
        λ ne. elim (Bool-cases (page == s.current_block * ppb)) [
          | inl t ↦ ground arith
          | inr t ↦ ground (arith, k.behind (λ z. ground arith))
        ],
      )

  appended-IsSound : IsSound nb ppb appended
  unfolding appended
  appended-IsSound = record {
    logs = h.logs;
    same_blocks = h.same_blocks;
    same_pages = h.same_pages;
    positive = h.positive;
    in_device = h.in_device;
    mapped = mapped';
    fresh = fresh';
    clear = clear';
    cursor = λ p e.
        let (x, y, z) = cursor' p e in
        record { inside = x; bounded = k.bounded; ahead = y; behind = z };
  }

  appended-IsFrozen : (c : ℕ) → IsFrozen ppb s c → IsFrozen ppb appended c
  unfolding appended
  appended-IsFrozen c f = (ground (arith, f.0), f.1)

  fails-appended : appended.logical_write_fail_sum ≡ s.logical_write_fail_sum
  unfolding appended
  fails-appended = refl

  forward-appended :
      (a : ℕ) → appended.forward_map a ≡ (if a == address then some page else s.forward_map a)
  unfolding appended
  forward-appended a = refl

-- What a write to a device with a cursor or without one comes to.
pub record Written (nb ppb address value : ℕ) (s t : Ssd) : Type 0 where
  pub sound : IsSound nb ppb t
  pub views : (a : ℕ) → view t a ≡ (if a == address then some value else view s a)
  pub fails : t.logical_write_fail_sum ≡ s.logical_write_fail_sum
  pub frozen : (c : ℕ) → IsFrozen ppb s c → IsFrozen ppb t c
  pub elsewhere :
      (page c : ℕ) → t.forward_map address ≡ some page → IsFrozen ppb s c → ¬ InBlock ppb c page
  pub forward : (a : ℕ) → a ≢ address → t.forward_map a ≡ s.forward_map a

-- The whole write: it succeeds, or the device is full and the write is counted as failed.
pub write_logging-Written :
    (nb ppb : ℕ) (s : Ssd) (address value : ℕ)
    → IsSound nb ppb s
    → (r : Ssd × Answer) × (write_logging address value s ≡ ok r)
      × ((r.1 ≡ success) × Written nb ppb address value s r.0
          ⊎ (r.1 ≡ device_full)
            × Quiet nb ppb s (record r.0 { logical_write_fail_sum = s.logical_write_fail_sum })
            × (r.0.logical_write_fail_sum ≡ s.logical_write_fail_sum + 1)
            × IsFull nb ppb s)
unfolding write_logging
write_logging-Written nb ppb s address value h =
    let ((t, found), e, q, c) = get_cursor-Quiet nb ppb s h in
    elim c [
      | inr (f, same, full) ↦ (
        (record s { logical_write_fail_sum = s.logical_write_fail_sum + 1 }, device_full),
        rw (write_logging, e, f, same),
        inr (refl, Quiet-refl nb ppb s h, refl, full),
      )
      | inl (f, some_page) ↦ elim (Option-cases t.current_page) [
        | inl n ↦ absurd (some_page n)
        | inr (page, ready) ↦ (
          (appended nb ppb t q.sound address value page ready, success),
          rw (write_logging, e, f) (append-appended nb ppb t q.sound address value page ready),
          inl (
            refl,
            record {
              sound = appended-IsSound nb ppb t q.sound address value page ready;
              views =
                  λ a. view-appended nb ppb t q.sound address value page ready a ∙ rw (q.views a);
              fails = fails-appended nb ppb t q.sound address value page ready ∙ q.fails;
              frozen = λ b z.
                  appended-IsFrozen nb ppb t q.sound address value page ready b (q.frozen b z);
              elsewhere = λ p b m z i.
                  let o : page ≡ p =
                    (let o1 = forward-appended nb ppb t q.sound address value page ready address in
                      ground arith) in
                  (q.frozen b z).1 (
                    InBlock-unique ppb t.current_block b page (q.sound.cursor page ready).inside
                      (rw (← o) at i));
              forward = λ a ne.
                  let x = forward-appended nb ppb t q.sound address value page ready a in
                  ground (arith, x, ap (λ (m : ℕ → Option ℕ). m a) q.forward);
            },
          ),
        )
      ]
    ]
