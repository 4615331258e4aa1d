-- ===== src/Vsfs/Paths.antt =====
-- Lists of paths, for the file system of vsfs.py: how often a path is in a list, and how many paths of
-- a list name an inode.
use life.Prelude.{
  ℕ, zero, suc, ◌+◌, ◌<◌, ◌≡◌, refl, inl, inr, Bool, true, false, Bool-cases, Option, none, some,
  List, [], ◌∷◌, ◌++◌, get_elem?, ◌==◌, if◌then◌else◌, ok, arith,
}
use life.Vsfs.Store.{same_path, remove_path}

pub same_path-eq : (p q : List ℕ) → same_path p q ≡ true → p ≡ q
same_path-eq [] [] e = refl
same_path-eq [] (n ∷ q) e = absurd (cc)
same_path-eq (m ∷ p) [] e = absurd (cc)
same_path-eq (m ∷ p) (n ∷ q) e = elim (Bool-cases (m == n)) [
  | inr f ↦ absurd (ground arith)
  | inl f ↦ let s : m ≡ n = ground arith in let t : p ≡ q = same_path-eq p q (rw (f) at e) in cc
]

pub same_path_self : (p : List ℕ) → same_path p p ≡ true
same_path_self [] = refl
same_path_self (m ∷ p) = ground (arith, same_path_self p)

pub same_path_comm : (p q : List ℕ) → same_path p q ≡ same_path q p
same_path_comm [] [] = refl
same_path_comm [] (n ∷ q) = refl
same_path_comm (m ∷ p) [] = refl
same_path_comm (m ∷ p) (n ∷ q) = ground (arith, same_path_comm p q)

pub same_path-longer : (m : ℕ) (p : List ℕ) → same_path p (m ∷ p) ≡ false
same_path-longer m [] = refl
same_path-longer m (n ∷ p) = ground (arith, same_path-longer n p)

abbrev pub times : List ℕ → List (List ℕ) → ℕ
times p [] = 0
times p (q ∷ l) = (if same_path q p then 1 else 0) + times p l

-- Whether a name is that of the inode `i`.
abbrev pub points : ℕ → Option ℕ → Bool
points i none = false
points i (some j) = j == i

abbrev pub links : ℕ → (List ℕ → Option ℕ) → List (List ℕ) → ℕ
links i names [] = 0
links i names (q ∷ l) = (if points i (names q) then 1 else 0) + links i names l

pub times-append :
    (p q : List ℕ) (l : List (List ℕ))
    → times p (l ++ q ∷ []) ≡ times p l + (if same_path q p then 1 else 0)
times-append p q [] = omega arith
times-append p q (r ∷ l) = omega (arith, times-append p q l)

pub links-append :
    (i : ℕ) (names : List ℕ → Option ℕ) (q : List ℕ) (l : List (List ℕ))
    → links i names (l ++ q ∷ []) ≡ links i names l + (if points i (names q) then 1 else 0)
links-append i names q [] = omega arith
links-append i names q (r ∷ l) = omega (arith, links-append i names q l)

pub get_elem?-times :
    (l : List (List ℕ)) (k : ℕ) (p : List ℕ) → get_elem? l k ≡ some p → 0 < times p l
get_elem?-times [] k p e = absurd (cc)
get_elem?-times (q ∷ l) zero p e = let s : q ≡ p = cc in rw s (ground (arith, same_path_self p))
get_elem?-times (q ∷ l) (suc k) p e = omega (arith, get_elem?-times l k p e)

-- The names of the paths of a list are all that counts for its links.
pub links_same :
    (i : ℕ) (names names' : List ℕ → Option ℕ) (l : List (List ℕ))
    → ((q : List ℕ) → 0 < times q l → names' q ≡ names q)
    → links i names' l ≡ links i names l
links_same i names names' [] h = refl
links_same i names names' (r ∷ l) h =
    rw (h r (ground (arith, same_path_self r)))
      (omega (arith, links_same i names names' l (λ q lt. h q (omega arith))))

pub links_none :
    (i : ℕ) (names : List ℕ → Option ℕ) (l : List (List ℕ))
    → ((q : List ℕ) → 0 < times q l → points i (names q) ≡ false)
    → links i names l ≡ 0
links_none i names [] h = refl
links_none i names (r ∷ l) h =
    rw (h r (ground (arith, same_path_self r)))
      (omega (arith, links_none i names l (λ q lt. h q (omega arith))))

pub no_links :
    (i : ℕ) (names : List ℕ → Option ℕ) (l : List (List ℕ)) (q : List ℕ)
    → links i names l ≡ 0
    → 0 < times q l
    → points i (names q) ≡ false
no_links i names [] q z lt = absurd (omega arith)
no_links i names (r ∷ l) q z lt = elim (Bool-cases (same_path r q)) [
  | inl s ↦ let e = same_path-eq r q s in rw (← e) (ground arith)
  | inr s ↦ no_links i names l q (ground arith) (ground arith)
]

pub remove_path_lem :
    (p : List ℕ) (l : List (List ℕ))
    → 0 < times p l
    → (l' : List (List ℕ)) × (remove_path p l ≡ ok l')
      × ((q : List ℕ) → times q l ≡ times q l' + (if same_path p q then 1 else 0))
      × ((i : ℕ) (names : List ℕ → Option ℕ)
          → links i names l ≡ links i names l' + (if points i (names p) then 1 else 0))
unfolding remove_path
remove_path_lem p [] lt = absurd (omega arith)
remove_path_lem p (r ∷ l) lt = elim (Bool-cases (same_path r p)) [
  | inl s ↦
      let e = same_path-eq r p s in
      (l, rw s refl, λ q. rw e (omega arith), λ i names. rw e (omega arith))
  | inr s ↦
      let (l', e, t, k) = remove_path_lem p l (ground arith) in
      (r ∷ l', rw (s, e) refl, λ q. omega (arith, t q), λ i names. omega (arith, k i names))
]

-- A path that is in a list is not one that is not.
pub absent-same :
    (p q : List ℕ) (l : List (List ℕ)) → times p l ≡ 0 → 0 < times q l → same_path q p ≡ false
absent-same p q l z lt = elim (Bool-cases (same_path q p)) [
  | inr s ↦ s
  | inl s ↦
      let e = same_path-eq q p s in let lt' : 0 < times p l = rw (← e) lt in absurd (omega arith)
]
