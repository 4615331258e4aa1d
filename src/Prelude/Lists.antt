-- ===== src/Prelude/Lists.antt =====
-- Lists measured and indexed by native numbers, under the library's names; Python's dictionaries
-- with numbers as keys; predicates on every element of a list.
use Prim.Native.Nat.{ℕ, zero, suc, ◌+◌, ◌<◌}
use mathlib.Core.List.{List, [], ◌∷◌, ◌++◌}
use mathlib.Core.Option.{Option, none, some}
use mathlib.Core.Path.{◌≡◌, refl}
use native.Mathlib.Omega.{arith}
use life.Prelude.Tests.{◌==◌, if◌then◌else◌}

module _ {ℓ} {A : Type ℓ} where
  abbrev pub length : List A → ℕ
  length [] = 0
  length (x ∷ xs) = suc (length xs)

  abbrev pub get_elem? : List A → ℕ → Option A
  get_elem? [] i = none
  get_elem? (x ∷ xs) zero = some x
  get_elem? (x ∷ xs) (suc i) = get_elem? xs i

  -- `l[i] = v`; a write out of bounds changes nothing.
  abbrev pub set : List A → ℕ → A → List A
  set [] i v = []
  set (x ∷ xs) zero v = v ∷ xs
  set (x ∷ xs) (suc i) v = x ∷ set xs i v

  -- `l.pop(i)`, for its effect; out of bounds it changes nothing.
  abbrev pub remove_at : List A → ℕ → List A
  remove_at [] i = []
  remove_at (x ∷ xs) zero = xs
  remove_at (x ∷ xs) (suc i) = x ∷ remove_at xs i

  abbrev pub All {κ} : (A → Type κ) → List A → Type κ
  All P [] = Unit
  All P (x ∷ xs) = P x × All P xs

  pub length-append : (xs ys : List A) → length (xs ++ ys) ≡ length xs + length ys
  length-append [] ys = omega arith
  length-append (x ∷ xs) ys = omega (arith, length-append xs ys)

module _ {ℓ} {A : Type ℓ} where
  pub get_elem?-lt : (l : List A) (i : ℕ) (x : A) → get_elem? l i ≡ some x → i < length l
  get_elem?-lt [] i x e = absurd (cc)
  get_elem?-lt (y ∷ l) zero x e = omega arith
  get_elem?-lt (y ∷ l) (suc i) x e = omega (arith, get_elem?-lt l i x e)

  pub get_elem?-some : (l : List A) (i : ℕ) → i < length l → (x : A) × (get_elem? l i ≡ some x)
  get_elem?-some [] i lt = absurd (omega arith)
  get_elem?-some (y ∷ l) zero lt = (y, refl)
  get_elem?-some (y ∷ l) (suc i) lt = get_elem?-some l i (omega arith)

  pub length-set : (l : List A) (i : ℕ) (x : A) → length (set l i x) ≡ length l
  length-set [] i x = refl
  length-set (y ∷ l) zero x = refl
  length-set (y ∷ l) (suc i) x = omega (arith, length-set l i x)

  pub get_elem?-set :
      (l : List A) (i j : ℕ) (x : A)
      → i < length l
      → get_elem? (set l i x) j ≡ (if i == j then some x else get_elem? l j)
  get_elem?-set [] i j x lt = absurd (omega arith)
  get_elem?-set (y ∷ l) zero zero x lt = ground arith
  get_elem?-set (y ∷ l) zero (suc j) x lt = ground arith
  get_elem?-set (y ∷ l) (suc i) zero x lt = ground arith
  get_elem?-set (y ∷ l) (suc i) (suc j) x lt = ground (arith, get_elem?-set l i j x (omega arith))

-- `d.get(k)`, `del d[k]` and `d[k] = v` of a dictionary; a key has one entry.
module _ {ℓ} {V : Type ℓ} where
  abbrev pub lookup : ℕ → List (ℕ × V) → Option V
  lookup k [] = none
  lookup k ((j, v) ∷ d) = if j == k then some v else lookup k d

  abbrev pub delete : ℕ → List (ℕ × V) → List (ℕ × V)
  delete k [] = []
  delete k ((j, v) ∷ d) = let rest = delete k d in if j == k then rest else (j, v) ∷ rest

  abbrev pub insert : ℕ → V → List (ℕ × V) → List (ℕ × V)
  insert k v d = (k, v) ∷ delete k d

  pub lookup-delete :
      (k j : ℕ) (d : List (ℕ × V)) → lookup j (delete k d) ≡ (if k == j then none else lookup j d)
  lookup-delete k j [] = ground arith
  lookup-delete k j ((i, v) ∷ d) = ground (arith, lookup-delete k j d)

  pub delete_absent : (k : ℕ) (d : List (ℕ × V)) → lookup k d ≡ none → delete k d ≡ d
  delete_absent k [] h = refl
  delete_absent k ((i, v) ∷ d) h = ground (arith, delete_absent k d)

  pub lookup-insert :
      (k j : ℕ) (v : V) (d : List (ℕ × V))
      → lookup j (insert k v d) ≡ (if k == j then some v else lookup j d)
  lookup-insert k j v d = ground (arith, lookup-delete k j d)
