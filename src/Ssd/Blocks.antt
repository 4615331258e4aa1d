-- ===== src/Ssd/Blocks.antt =====
-- Pages and their blocks.
use life.Prelude.{ℕ, ◌+◌, ◌*◌, ◌/◌, ◌≤◌, ◌<◌, ◌≡◌, ◌≢◌, sym, ◌∙◌, arith}
use native.Mathlib.Nat.{div-add-mod', mod-lt, div-eq_of_lt-le}

-- The page lies in the block.
abbrev pub InBlock : ℕ → ℕ → ℕ → Type 0
InBlock ppb block page = (block * ppb ≤ page) × (page < block * ppb + ppb)

pub InBlock-div : (ppb page : ℕ) → 0 < ppb → InBlock ppb (page / ppb) page
InBlock-div ppb page h =
    (omega (arith, div-add-mod' page ppb), omega (arith, div-add-mod' page ppb, mod-lt page h))

pub div-InBlock : (ppb block page : ℕ) → InBlock ppb block page → page / ppb ≡ block
div-InBlock ppb block page h = div-eq_of_lt-le {k = block} ppb {m = page} h.0 (omega (arith, h.1))

-- A page lies in one block only.
pub InBlock-unique : (ppb b c page : ℕ) → InBlock ppb b page → InBlock ppb c page → b ≡ c
InBlock-unique ppb b c page h k = sym (div-InBlock ppb b page h) ∙ div-InBlock ppb c page k

pub InBlock-first : (ppb b : ℕ) → 0 < ppb → InBlock ppb b (b * ppb)
InBlock-first ppb b h = omega arith

pub InBlock-ne : (ppb b c page : ℕ) → c ≢ b → InBlock ppb c page → ¬ InBlock ppb b page
InBlock-ne ppb b c page ne h k = ne (InBlock-unique ppb c b page h k)

pub InBlock-le : (ppb b nb page : ℕ) → b < nb → InBlock ppb b page → page < nb * ppb
InBlock-le ppb b nb page lt h = grind arith
