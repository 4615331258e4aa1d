-- ===== src/Vsfs/Tree.antt =====
-- The directories of vsfs.py as a tree: the lists of paths, the names and the entries agree.
use life.Prelude.{
  ℕ, ◌+◌, ◌<◌, ◌≤◌, ◌≡◌, refl, inl, inr, true, Bool-cases, Option, some, List, [], ◌∷◌, ◌==◌, arith,
}
use life.Vsfs.Block.{dir, file, Name, Inode}
use life.Vsfs.Store.{same_path}
use life.Vsfs.Paths.{same_path-eq, same_path_self, times, links}
use life.Vsfs.Entries.{uses, find}

-- The inodes, the entries of each directory inode, the paths of files and of directories and the names;
-- `owed i` is how many of the references to `i` have no path in the list of files.
pub record IsTree (inodes : ℕ → Inode) (entries : ℕ → List (Name × ℕ)) (files dirs : List (List ℕ))
    (names : List ℕ → Option ℕ) (owed : ℕ → ℕ) : Type 0 where
  pub root : 0 < times [] dirs
  pub no_root : times [] files ≡ 0
  pub dir_at :
      (p : List ℕ) → 0 < times p dirs → (i : ℕ) × (names p ≡ some i) × ((inodes i).ftype ≡ dir)
  pub file_at :
      (p : List ℕ) → 0 < times p files → (i : ℕ) × (names p ≡ some i) × ((inodes i).ftype ≡ file)
  pub dir_once :
      (p q : List ℕ) (i : ℕ)
      → 0 < times p dirs
      → 0 < times q dirs
      → names p ≡ some i
      → names q ≡ some i
      → p ≡ q
  pub file_parent : (n : ℕ) (p : List ℕ) → 0 < times (n ∷ p) files → 0 < times p dirs
  pub dir_parent : (n : ℕ) (p : List ℕ) → 0 < times (n ∷ p) dirs → 0 < times p dirs
  pub entry :
      (p : List ℕ) (i n : ℕ)
      → 0 < times p dirs
      → names p ≡ some i
      → uses n (entries i) ≡ times (n ∷ p) files + times (n ∷ p) dirs
  pub once : (p : List ℕ) (n : ℕ) → 0 < times p dirs → times (n ∷ p) files + times (n ∷ p) dirs ≤ 1
  pub found :
      (p : List ℕ) (i n : ℕ)
      → 0 < times p dirs
      → names p ≡ some i
      → 0 < uses n (entries i)
      → find n (entries i) ≡ names (n ∷ p)
  pub refs : (i : ℕ) → (inodes i).ftype ≡ file → (inodes i).ref_cnt ≡ links i names files + owed i

module _ (inodes : ℕ → Inode) (entries : ℕ → List (Name × ℕ)) (files dirs : List (List ℕ))
    (names : List ℕ → Option ℕ) (owed : ℕ → ℕ)
    (h : IsTree inodes entries files dirs names owed) where
  -- Other inodes, of the same types where a path names them.
  pub inodes-IsTree :
      (inodes' : ℕ → Inode) (entries' : ℕ → List (Name × ℕ)) (owed' : ℕ → ℕ)
      → ((i : ℕ) → (inodes i).ftype ≡ dir → (inodes' i).ftype ≡ dir)
      → ((p : List ℕ) (i : ℕ)
          → 0 < times p files
          → names p ≡ some i
          → (inodes i).ftype ≡ file
          → (inodes' i).ftype ≡ file)
      → ((i : ℕ) → (inodes i).ftype ≡ dir → entries' i ≡ entries i)
      → ((i : ℕ) → (inodes' i).ftype ≡ file → (inodes' i).ref_cnt ≡ links i names files + owed' i)
      → IsTree inodes' entries' files dirs names owed'
  inodes-IsTree inodes' entries' owed' hd hf he hr =
      let same : (p : List ℕ) (i : ℕ)
          → 0 < times p dirs
          → names p ≡ some i
          → entries' i ≡ entries i =
        λ p i lt e.
          (let (j, f, t) = h.dir_at p lt in
            let s : i ≡ j = cc in let t' : (inodes i).ftype ≡ dir = rw s t in he i t') in
      record {
        root = h.root;
        no_root = h.no_root;
        dir_at = λ p lt. let (i, e, t) = h.dir_at p lt in (i, e, hd i t);
        file_at = λ p lt. let (i, e, t) = h.file_at p lt in (i, e, hf p i lt e t);
        dir_once = h.dir_once;
        file_parent = h.file_parent;
        dir_parent = h.dir_parent;
        entry = λ p i n lt e. rw (same p i lt e) (h.entry p i n lt e);
        once = h.once;
        found = λ p i n lt e u. rw (same p i lt e) (h.found p i n lt e (rw (same p i lt e) at u));
        refs = hr;
      }

  -- Whether a directory is the one at `p`, by its inode.
  pub same_dir :
      (p q : List ℕ) (i j : ℕ)
      → 0 < times p dirs
      → 0 < times q dirs
      → names p ≡ some i
      → names q ≡ some j
      → (j == i) ≡ same_path p q
  same_dir p q i j lt lt' e f = elim (Bool-cases (same_path p q)) [
    | inl s ↦
        let t = same_path-eq p q s in
        let u : names p ≡ some j = rw t f in let v : i ≡ j = cc in rw (s) (ground arith)
    | inr s ↦ elim (Bool-cases (j == i)) [
      | inr t ↦ rw (s, t) refl
      | inl t ↦
          let t' : j ≡ i = ground arith in
          let u = h.dir_once p q i lt lt' e (rw (← t') f) in
          let v : same_path p q ≡ true = rw (← u) (same_path_self p) in absurd (cc)
    ]
  ]
