-- ===== src/Vsfs/Pruned.antt =====
-- The path of a file taken out of the tree of vsfs.py: its entry, and the path in the list of files.
use life.Prelude.{
  ℕ, ◌+◌, ◌<◌, ◌≡◌, ◌∙◌, inl, inr, Bool-cases, Option, some, List, [], ◌∷◌, ◌==◌, if◌then◌else◌,
  arith,
}
use life.Vsfs.Block.{Name, named, drop_entry, Inode}
use life.Vsfs.Store.{same_path}
use life.Vsfs.Paths.{times, points, links}
use life.Vsfs.Entries.{uses, find, uses-drop, find-drop}
use life.Vsfs.Tree.{IsTree, same_dir}

module _ (inodes : ℕ → Inode) (entries : ℕ → List (Name × ℕ)) (files dirs : List (List ℕ))
    (names : List ℕ → Option ℕ) (owed : ℕ → ℕ) (h : IsTree inodes entries files dirs names owed)
    (n k i : ℕ) (p : List ℕ) (live : 0 < times (n ∷ p) files) (name_k : names (n ∷ p) ≡ some k)
    (e : names p ≡ some i) (files' : List (List ℕ))
    (fewer : (q : List ℕ) → times q files ≡ times q files' + (if same_path (n ∷ p) q then 1 else 0))
    (unlinked : (j : ℕ)
      → links j names files
        ≡ links j names files' + (if points j (names (n ∷ p)) then 1 else 0)) where
  abbrev pub dropped : ℕ → List (Name × ℕ)
  dropped j = if j == i then drop_entry (named n) (entries j) else entries j

  pub parent : 0 < times p dirs
  parent = h.file_parent n p live

  pub used : 0 < uses n (entries i)
  used = omega (arith, h.entry p i n parent e, live)

  dropped-uses :
      (q : List ℕ) (j m : ℕ)
      → 0 < times q dirs
      → names q ≡ some j
      → uses m (entries j) ≡ uses m (dropped j) + (if same_path (n ∷ p) (m ∷ q) then 1 else 0)
  dropped-uses q j m l f =
      let d = same_dir inodes entries files dirs names owed h p q i j parent l e f in
      elim (Bool-cases (j == i)) [
        | inl s ↦
            let t : j ≡ i = ground arith in
            let u : 0 < uses n (entries j) = rw t used in
            ground (arith, uses-drop m n (entries j) u)
        | inr s ↦ ground (arith)
      ]

  dropped-find :
      (q : List ℕ) (j m : ℕ)
      → 0 < times q dirs
      → names q ≡ some j
      → 0 < uses m (dropped j)
      → find m (dropped j) ≡ names (m ∷ q)
  dropped-find q j m l f u =
      let d = same_dir inodes entries files dirs names owed h p q i j parent l e f in
      let a = dropped-uses q j m l f in
      let b = h.entry q j m l f in
      let c = h.once q m l in
      elim (Bool-cases (j == i)) [
        | inl s ↦ rw s (find-drop m n (entries j) (ground arith) ∙ h.found q j m l f (omega arith))
        | inr s ↦ rw s (h.found q j m l f (omega arith))
      ]

  pub pruned-IsTree :
      ((j : ℕ) → owed j ≡ 0)
      → IsTree inodes dropped files' dirs names (λ j. if j == k then 1 else 0)
  pruned-IsTree owes = record {
    root = h.root;
    no_root = omega (arith, fewer [], h.no_root);
    dir_at = h.dir_at;
    file_at = λ q l. h.file_at q (omega (arith, fewer q));
    dir_once = h.dir_once;
    file_parent = λ m q l. h.file_parent m q (omega (arith, fewer (m ∷ q)));
    dir_parent = h.dir_parent;
    entry = λ q j m l f. omega (arith, dropped-uses q j m l f, h.entry q j m l f, fewer (m ∷ q));
    once = λ q m l. omega (arith, h.once q m l, fewer (m ∷ q));
    found = λ q j m l f u. dropped-find q j m l f u;
    refs = λ j t. (let u = (rw name_k at unlinked j) in ground (arith, h.refs j t, owes j, u));
  }
