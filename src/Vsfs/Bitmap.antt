-- ===== src/Vsfs/Bitmap.antt =====
-- The class `bitmap` of vsfs.py.
use life.Prelude.{
  ℕ, zero, suc, ◌+◌, ◌-◌, Bool, true, false, Option, none, some, ltb, ◌==◌, if◌then◌else◌, Result,
  ok, raise, index_error, assertion_error,
}

pub record Bitmap : Type 0 where
  pub size : ℕ
  pub bmap : ℕ → Bool
  pub num_allocated : ℕ

-- `__init__`
abbrev pub empty : ℕ → Bitmap
empty size = record { size = size; bmap = λ num. false; num_allocated = 0 }

abbrev pub set_bit : ℕ → Bool → (ℕ → Bool) → ℕ → Bool
set_bit num bit bmap i = if i == num then bit else bmap i

-- The loop of `alloc`, over `n` numbers from `num` on.
unfoldable pub first_free : ℕ → ℕ → (ℕ → Bool) → Option ℕ
first_free zero num bmap = none
first_free (suc n) num bmap = if bmap num then first_free n (num + 1) bmap else some num

unfoldable pub alloc : Bitmap → Bitmap × Option ℕ
alloc b = elim (first_free b.size 0 b.bmap) [
  | none ↦ (b, none)
  | some num ↦
      (record b { bmap = set_bit num true b.bmap; num_allocated = b.num_allocated + 1 }, some num)
]

unfoldable pub free : ℕ → Bitmap → Result Bitmap
free num b =
    if ltb num b.size
    then if b.bmap num
      then ok (record b { bmap = set_bit num false b.bmap; num_allocated = b.num_allocated - 1 })
      else raise assertion_error
    else raise index_error

unfoldable pub mark_allocated : ℕ → Bitmap → Result Bitmap
mark_allocated num b =
    if ltb num b.size
    then if b.bmap num
      then raise assertion_error
      else ok (record b { bmap = set_bit num true b.bmap; num_allocated = b.num_allocated + 1 })
    else raise index_error

unfoldable pub num_free : Bitmap → ℕ
num_free b = b.size - b.num_allocated
