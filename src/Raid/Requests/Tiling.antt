-- ===== src/Raid/Requests/Tiling.antt =====
-- The parts of a write to RAID 4 or 5, one for each stripe: together they are the request.
use life.Prelude.{
  ℕ, zero, suc, ◌+◌, ◌-◌, ◌*◌, ◌/◌, ◌≤◌, ◌<◌, ◌≡◌, ◌∙◌, ap, List, [], ◌∷◌, ◌++◌, append-nil, All,
  map, length, refl, leb, if◌then◌else◌, arith,
}
use Prim.Native.Nat.add
use native.Mathlib.Nat.{div-add-mod', mod-lt, le-div_iff_mul-le}
use life.Raid.Requests.{part_end}

-- The numbers from `v` on.
abbrev pub range : ℕ → ℕ → List ℕ
range v zero = []
range v (suc n) = v ∷ range (v + 1) n

range-append : (v m n : ℕ) → range v m ++ range (v + m) n ≡ range v (m + n)
range-append v zero n = rw (add.zero n) (let e : v + 0 ≡ v = omega arith in rw e)
range-append v (suc m) n =
    let e : v + suc m ≡ v + 1 + m = omega arith in
    let f : suc m + n ≡ suc (m + n) = omega arith in
    rw (e, f) (ap (◌∷◌ v) (range-append (v + 1) m n))

range-split : (v k n t : ℕ) → v + k ≡ t → k ≤ n → range v k ++ range t (n - k) ≡ range v n
range-split v k n t e h = rw (← e) (range-append v k (n - k) ∙ ap (range v) (omega arith))

-- The stripe, the first block and the end of each part, as `enqueue45` goes through them.
abbrev pub parts : ℕ → ℕ → ℕ → ℕ → ℕ → List (ℕ × ℕ × ℕ)
parts size zero stripe left v = []
parts size (suc n) stripe left v =
    let e = part_end size stripe v left in
    (stripe, v, e) ∷ parts size n (stripe + 1) (left - (e - v)) e

abbrev pub blocks_of : List (ℕ × ℕ × ℕ) → List ℕ
blocks_of [] = []
blocks_of ((stripe, v, e) ∷ l) = range v (e - v) ++ blocks_of l

-- The part is not empty, and in its stripe.
abbrev pub IsInside : ℕ → ℕ × ℕ × ℕ → Type 0
IsInside size (stripe, v, e) = (stripe * size ≤ v) × (v < e) × (e ≤ stripe * size + size)

part_end_lem :
    (size stripe v left : ℕ)
    → stripe * size ≤ v
    → part_end size stripe v left
      ≡ (if leb (stripe * size + size) (v + left) then stripe * size + size else v + left)
unfolding part_end
part_end_lem size stripe v left h = ground arith

tile :
    (size n stripe left v : ℕ)
    → stripe * size ≤ v
    → v < stripe * size + size
    → 0 < left
    → v + left ≤ (stripe + suc n) * size
    → (stripe + n) * size < v + left
    → (blocks_of (parts size (suc n) stripe left v) ≡ range v left)
      × All (IsInside size) (parts size (suc n) stripe left v)
tile size zero stripe left v lo hi pos up down =
    let e : part_end size stripe v left ≡ v + left =
      ground (arith, part_end_lem size stripe v left lo) in
    let f : v + left - v ≡ left = omega arith in
    rw (e, f) (append-nil (range v left), ((lo, omega arith, omega arith), tt))
tile size (suc n) stripe left v lo hi pos up down =
    let e : part_end size stripe v left ≡ stripe * size + size =
      ground (arith, part_end_lem size stripe v left lo) in
    let k : ℕ = stripe * size + size - v in
    let (same, inside) =
      tile size n (stripe + 1) (left - k) (stripe * size + size) (omega arith) (omega arith)
        (omega arith) (omega arith) (omega arith) in
    rw e (
      ap (λ l. range v k ++ l) same
          ∙ range-split v k left (stripe * size + size) (omega arith) (omega arith),
      ((lo, hi, omega arith), inside),
    )

-- The stripes of the parts are one after the other.
parts-stripes :
    (size n stripe left v : ℕ)
    → map (λ t. t.0) (parts size n stripe left v)
      ≡ range stripe (length (parts size n stripe left v))
parts-stripes size zero stripe left v = refl
parts-stripes size (suc n) stripe left v =
    ap (λ l. stripe ∷ l)
      (parts-stripes size n (stripe + 1) (left - (part_end size stripe v left - v))
        (part_end size stripe v left))

-- The parts of a request for `n` blocks from `addr` on: together they are its blocks in order, each is not
-- empty and lies in its stripe, and there is one for each stripe from the first on.
pub record IsParts (size addr n : ℕ) (parts : List (ℕ × ℕ × ℕ)) : Type 0 where
  pub blocks : blocks_of parts ≡ range addr n
  pub inside : All (IsInside size) parts
  pub stripes : map (λ t. t.0) parts ≡ range (addr / size) (length parts)

pub parts_tile :
    (size addr n : ℕ)
    → 0 < size
    → 0 < n
    → IsParts size addr n
        (parts size ((addr + n - 1) / size + 1 - addr / size) (addr / size) n addr)
parts_tile size addr n ps pn =
    let i : ℕ = addr / size in
    let f : ℕ = (addr + n - 1) / size in
    let lo = div-add-mod' addr size in
    let hi = div-add-mod' (addr + n - 1) size in
    let lt = mod-lt addr ps in
    let lt' = mod-lt (addr + n - 1) ps in
    let le : i ≤ f = (le-div_iff_mul-le {x = i} {y = addr + n - 1} ps).1 (omega arith) in
    let count : f + 1 - i ≡ suc (f - i) = omega arith in
    let whole : i + suc (f - i) ≡ suc f = omega arith in
    let last : i + (f - i) ≡ f = omega arith in
    let (same, inside) =
      tile size (f - i) i n addr (omega arith) (omega arith) pn (rw whole (omega arith))
        (rw last (omega arith)) in
    record {
      blocks = rw count same;
      inside = rw count inside;
      stripes = parts-stripes size (f + 1 - i) i n addr;
    }
