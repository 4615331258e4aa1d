-- ===== src/Malloc/Align.antt =====
-- The rounding of a request to the alignment.
use life.Prelude.{
  ℕ, ◌+◌, ◌%◌, ◌≤◌, ◌<◌, ◌≡◌, some, ◌==◌, arith, sym, ap, ◌∙◌, ◌-◌, Bool-cases, inl, inr,
}
use life.Malloc.{aligned}
use native.Mathlib.Nat.{mod-lt, mod-add-mod, mod_self}

-- With a positive alignment `a` the aligned request is a multiple of `a`, not below the request,
-- and less than `a` above it.
pub aligned_least :
    (a n : ℕ)
    → 0 < a
    → (aligned (some a) n % a ≡ 0) × (n ≤ aligned (some a) n) × (aligned (some a) n < n + a)
unfolding aligned
aligned_least a n pos =
    let lt = mod-lt n pos in
    let round : (n + (a - n % a)) % a ≡ 0 =
      sym (mod-add-mod n a (a - n % a)) ∙ ap (λ (x : ℕ). x % a) (omega arith) ∙ mod_self a in
    elim (Bool-cases (n % a == 0)) [
      | inl e ↦
          let z : n + 0 ≡ n = omega arith in rw e (rw z (ground arith, omega arith, omega arith))
      | inr e ↦ rw e (round, omega arith, ground arith)
    ]
