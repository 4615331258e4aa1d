-- ===== src/Ssd/Sound.antt =====
-- The invariant of the logging layer, what a client sees of the device, and that erasing a block
-- with no mapped page keeps both.
use life.Prelude.{
  ℕ, ◌+◌, ◌*◌, ◌≤◌, ◌<◌, ◌≡◌, ◌≢◌, ◌∙◌, Option, none, some, Bool-cases, inl, inr, ◌&&◌, ltb, leb,
  arith,
}
use life.Ssd.Device.{Ssd, logging, invalid, erased, valid, fill_lem, space, wiped}
use life.Ssd.Blocks.{InBlock}

-- What reads return: the data of a logical page, if it has any.
abbrev pub view : Ssd → ℕ → Option ℕ
view s address = elim (s.forward_map address) [ none ↦ none | some page ↦ some (s.contents page) ]

-- The cursor is in the current block, from it on the block is erased, and behind it the block's
-- first page is valid.
pub record AtCursor (nb ppb : ℕ) (s : Ssd) (page : ℕ) : Type 0 where
  pub inside : InBlock ppb s.current_block page
  pub bounded : s.current_block < nb
  pub ahead : (p : ℕ) → page ≤ p → p < s.current_block * ppb + ppb → s.state p ≡ erased
  pub behind : page ≢ s.current_block * ppb → s.state (s.current_block * ppb) ≡ valid

-- A mapped page is a page of the device, is valid, and is mapped back; the first page of a block
-- tells whether it has valid pages, and whether it is erased.
pub record IsSound (nb ppb : ℕ) (s : Ssd) : Type 0 where
  pub logs : s.ssd_type ≡ logging
  pub same_blocks : s.num_blocks ≡ nb
  pub same_pages : s.pages_per_block ≡ ppb
  pub positive : 0 < ppb
  pub in_device : s.current_block ≤ nb
  pub mapped :
      (address page : ℕ)
      → s.forward_map address ≡ some page
      → (page < nb * ppb) × (s.state page ≡ valid) × (s.reverse_map page ≡ some address)
  pub fresh : (b p : ℕ) → b < nb → s.state (b * ppb) ≡ invalid → InBlock ppb b p → s.state p ≢ valid
  pub clear : (b p : ℕ) → b < nb → s.state (b * ppb) ≡ erased → InBlock ppb b p → s.state p ≡ erased
  pub cursor : (page : ℕ) → s.current_page ≡ some page → AtCursor nb ppb s page

-- There is no page to write to.
abbrev pub IsFull : ℕ → ℕ → Ssd → Type 0
IsFull nb ppb s = (s.current_page ≡ none) × ((b : ℕ) → b < nb → s.state (b * ppb) ≡ valid)

-- A block whose first page is valid and that is not written to stays so.
abbrev pub IsFrozen : ℕ → Ssd → ℕ → Type 0
IsFrozen ppb s c = (s.state (c * ppb) ≡ valid) × (s.current_block ≢ c)

module _ (nb ppb : ℕ) (s : Ssd) (h : IsSound nb ppb s) (b : ℕ) where
  pub state-wiped_in : (p : ℕ) → InBlock ppb b p → (wiped b s).state p ≡ erased
  unfolding wiped
  state-wiped_in p i =
      let e : s.pages_per_block ≡ ppb = h.same_pages in
      fill_lem (b * s.pages_per_block) s.pages_per_block erased s.state p ∙ rw e (ground arith)

  pub state-wiped_out : (p : ℕ) → ¬ InBlock ppb b p → (wiped b s).state p ≡ s.state p
  unfolding wiped
  state-wiped_out p o =
      let e : s.pages_per_block ≡ ppb = h.same_pages in
      fill_lem (b * s.pages_per_block) s.pages_per_block erased s.state p
      ∙ rw e (elim (Bool-cases (leb (b * ppb) p && ltb p (b * ppb + ppb))) [
        | inl t ↦ absurd (o (ground arith))
        | inr t ↦ rw t
      ])

  pub contents-wiped_out : (p : ℕ) → ¬ InBlock ppb b p → (wiped b s).contents p ≡ s.contents p
  unfolding wiped
  contents-wiped_out p o =
      let e : s.pages_per_block ≡ ppb = h.same_pages in
      fill_lem (b * s.pages_per_block) s.pages_per_block space s.contents p
      ∙ rw e (elim (Bool-cases (leb (b * ppb) p && ltb p (b * ppb + ppb))) [
        | inl t ↦ absurd (o (ground arith))
        | inr t ↦ rw t
      ])
