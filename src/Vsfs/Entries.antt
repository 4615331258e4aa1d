-- ===== src/Vsfs/Entries.antt =====
-- The entries of a directory of vsfs.py: how many have a name, and the inode of the first.
use life.Prelude.{
  ℕ, ◌+◌, ◌<◌, ◌≡◌, refl, inl, inr, false, Bool-cases, Option, none, some, List, [], ◌∷◌, ◌++◌,
  length, ltb, ◌==◌, if◌then◌else◌, arith,
}
use life.Vsfs.Block.{Name, dot, dotdot, named, same_name, has_entry, drop_entry}

abbrev pub uses : ℕ → List (Name × ℕ) → ℕ
uses n [] = 0
uses n ((x, i) ∷ l) = (if same_name x (named n) then 1 else 0) + uses n l

abbrev pub find : ℕ → List (Name × ℕ) → Option ℕ
find n [] = none
find n ((x, i) ∷ l) = if same_name x (named n) then some i else find n l

pub has_entry-uses : (n : ℕ) (l : List (Name × ℕ)) → has_entry (named n) l ≡ ltb 0 (uses n l)
unfolding has_entry
has_entry-uses n [] = ground arith
has_entry-uses n ((x, i) ∷ l) = ground (arith, has_entry-uses n l)

pub uses-append :
    (n m i : ℕ) (l : List (Name × ℕ))
    → uses n (l ++ (named m, i) ∷ []) ≡ uses n l + (if m == n then 1 else 0)
uses-append n m i [] = omega arith
uses-append n m i ((x, j) ∷ l) = omega (arith, uses-append n m i l)

pub find-append :
    (n m i : ℕ) (l : List (Name × ℕ))
    → find n (l ++ (named m, i) ∷ [])
      ≡ (if ltb 0 (uses n l) then find n l else if m == n then some i else none)
find-append n m i [] = ground arith
find-append n m i ((x, j) ∷ l) = ground (arith, find-append n m i l)

pub uses-drop :
    (n m : ℕ) (l : List (Name × ℕ))
    → 0 < uses m l
    → uses n l ≡ uses n (drop_entry (named m) l) + (if m == n then 1 else 0)
unfolding drop_entry
uses-drop n m [] lt = absurd (omega arith)
uses-drop n m ((dot, j) ∷ l) lt = omega (arith, uses-drop n m l (omega arith))
uses-drop n m ((dotdot, j) ∷ l) lt = omega (arith, uses-drop n m l (omega arith))
uses-drop n m ((named x, j) ∷ l) lt = elim (Bool-cases (x == m)) [
  | inl s ↦ ground arith
  | inr s ↦ ground (arith, uses-drop n m l (ground arith))
]

pub find-drop :
    (n m : ℕ) (l : List (Name × ℕ)) → (m == n) ≡ false → find n (drop_entry (named m) l) ≡ find n l
unfolding drop_entry
find-drop n m [] ne = refl
find-drop n m ((dot, j) ∷ l) ne = find-drop n m l ne
find-drop n m ((dotdot, j) ∷ l) ne = find-drop n m l ne
find-drop n m ((named x, j) ∷ l) ne = ground (arith, find-drop n m l ne)

pub length-drop :
    (m : ℕ) (l : List (Name × ℕ)) → 0 < uses m l → length l ≡ length (drop_entry (named m) l) + 1
unfolding drop_entry
length-drop m [] lt = absurd (omega arith)
length-drop m ((x, j) ∷ l) lt = elim (Bool-cases (same_name x (named m))) [
  | inl s ↦ rw s (omega arith)
  | inr s ↦ rw s (omega (arith, length-drop m l (ground arith)))
]
