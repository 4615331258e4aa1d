-- ===== src/Raid/Layout/Chunks.antt =====
-- Quotients and remainders by the chunk size and by the number of disks.
use life.Prelude.{
  ℕ, ◌+◌, ◌-◌, ◌*◌, ◌/◌, ◌%◌, ◌<◌, ◌≤◌, ◌≡◌, leb, if◌then◌else◌, arith, ◌∙◌, Bool-cases, inl, inr,
}
use native.Mathlib.Nat.{
  mul-add-div_right, mul-add-mod_self_right, mod-eq_of_lt, div-eq_of_lt, mod-eq-sub-mod,
}

-- A quotient and a remainder put together are taken apart again.
pub div-mul-add : (q c r : ℕ) → r < c → (q * c + r) / c ≡ q
div-mul-add q c r h = omega (arith, mul-add-div_right {m = c} (omega arith) q r, div-eq_of_lt h)

pub mod-mul-add : (q c r : ℕ) → r < c → (q * c + r) % c ≡ r
mod-mul-add q c r h = mul-add-mod_self_right q c r ∙ mod-eq_of_lt h

-- The rotation of the left-symmetric layout, without its remainder.
pub mod-sub : (x n c : ℕ) → x < n → c < n → (x + n - c) % n ≡ (if leb c x then x - c else x + n - c)
mod-sub x n c h k = elim (Bool-cases (leb c x)) [
  | inl e ↦
      let p : n ≤ x + n - c = ground arith in
      let q : x + n - c - n ≡ x - c = ground arith in
      rw e (mod-eq-sub-mod p ∙ rw q (mod-eq_of_lt (omega arith)))
  | inr e ↦ rw e (mod-eq_of_lt (ground arith))
]
