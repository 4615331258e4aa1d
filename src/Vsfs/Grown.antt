-- ===== src/Vsfs/Grown.antt =====
-- A new path in the tree of vsfs.py: an entry in the block of the parent, the name, and the path in the
-- list of files or of directories.
use life.Prelude.{
  ℕ, ◌+◌, ◌<◌, ◌≤◌, ◌≡◌, ◌≢◌, refl, sym, ◌∙◌, inl, inr, true, false, ◌&&◌, Bool-cases, Option, some,
  List, [], ◌∷◌, ◌++◌, ◌==◌, if◌then◌else◌, arith,
}
use life.Vsfs.Block.{dir, file, Name, named, Inode}
use life.Vsfs.Store.{same_path}
use life.Vsfs.Paths.{
  same_path-eq, same_path_self, same_path_comm, same_path-longer, absent-same, times, times-append,
  links-append, links_same,
}
use life.Vsfs.Entries.{uses, find, uses-append, find-append}
use life.Vsfs.Tree.{IsTree, same_dir}

module _ (inodes : ℕ → Inode) (entries : ℕ → List (Name × ℕ)) (files dirs : List (List ℕ))
    (names : List ℕ → Option ℕ) (owed : ℕ → ℕ) (h : IsTree inodes entries files dirs names owed)
    (n k i : ℕ) (p : List ℕ) (lt : 0 < times p dirs) (e : names p ≡ some i)
    (unused : uses n (entries i) ≡ 0) where
  abbrev pub added : ℕ → List (Name × ℕ)
  added j = if j == i then entries j ++ (named n, k) ∷ [] else entries j

  abbrev pub names' : List ℕ → Option ℕ
  names' q = if same_path q (n ∷ p) then some k else names q

  new_path : times (n ∷ p) files + times (n ∷ p) dirs ≡ 0
  new_path = omega (arith, h.entry p i n lt e)

  file_name : (q : List ℕ) → 0 < times q files → names' q ≡ names q
  file_name q l = rw (absent-same (n ∷ p) q files (omega (arith, new_path)) l) refl

  dir_name : (q : List ℕ) → 0 < times q dirs → names' q ≡ names q
  dir_name q l = rw (absent-same (n ∷ p) q dirs (omega (arith, new_path)) l) refl

  added-uses :
      (q : List ℕ) (j m : ℕ)
      → 0 < times q dirs
      → names q ≡ some j
      → uses m (added j) ≡ uses m (entries j) + (if same_path (n ∷ p) (m ∷ q) then 1 else 0)
  added-uses q j m l f = ground (
    arith,
    same_dir inodes entries files dirs names owed h p q i j lt l e f,
    uses-append m n k (entries j),
  )

  added-find :
      (q : List ℕ) (j m : ℕ)
      → 0 < times q dirs
      → names q ≡ some j
      → 0 < uses m (added j)
      → find m (added j) ≡ names' (m ∷ q)
  added-find q j m l f u =
      let d = same_dir inodes entries files dirs names owed h p q i j lt l e f in
      let a = find-append m n k (entries j) in
      let b = uses-append m n k (entries j) in
      let c = same_path_comm p q in
      elim (Bool-cases (m == n && same_path q p)) [
        | inl s ↦
            let g : q ≡ p = same_path-eq q p (ground arith) in
            let t : j ≡ i = ground arith in
            let w : m ≡ n = ground arith in
            let z : uses m (entries j) ≡ 0 = rw (w, t) unused in ground (arith, a, z)
        | inr s ↦ ground (arith, a, h.found q j m l f)
      ]

  added-once :
      (q : List ℕ) (m : ℕ)
      → 0 < times q dirs
      → times (m ∷ q) files + times (m ∷ q) dirs + (if same_path (n ∷ p) (m ∷ q) then 1 else 0) ≤ 1
  added-once q m l = elim (Bool-cases (same_path (n ∷ p) (m ∷ q))) [
    | inr s ↦ rw s (omega (arith, h.once q m l))
    | inl s ↦ let t = same_path-eq (n ∷ p) (m ∷ q) s in rw (s, ← t) (omega (arith, new_path))
  ]

  -- The path of a file, which owes a reference.
  pub file-IsTree :
      (inodes k).ftype ≡ file
      → ((j : ℕ) → owed j ≡ (if j == k then 1 else 0))
      → IsTree inodes added (files ++ (n ∷ p) ∷ []) dirs names' (λ j. 0)
  file-IsTree kind owes = record {
    root = h.root;
    no_root = ground (arith, times-append [] (n ∷ p) files, h.no_root);
    dir_at = λ q l. rw (dir_name q l) (h.dir_at q l);
    file_at = λ q l. elim (Bool-cases (same_path q (n ∷ p))) [
      | inl s ↦ (k, rw s refl, kind)
      | inr s ↦
          rw s
            (h.file_at q (ground (arith, times-append q (n ∷ p) files, same_path_comm (n ∷ p) q)))
    ];
    dir_once =
        λ q r j l l' f g. h.dir_once q r j l l' (rw (dir_name q l) at f) (rw (dir_name r l') at g);
    file_parent = λ m q l. elim (Bool-cases (same_path (m ∷ q) (n ∷ p))) [
      | inl s ↦ let t = same_path-eq q p (ground arith) in rw t lt
      | inr s ↦
          h.file_parent m q
            (ground (arith, times-append (m ∷ q) (n ∷ p) files, same_path_comm (n ∷ p) (m ∷ q)))
    ];
    dir_parent = h.dir_parent;
    entry = λ q j m l f.
        (let f' = (rw (dir_name q l) at f) in
          omega
            (arith, added-uses q j m l f', h.entry q j m l f', times-append (m ∷ q) (n ∷ p) files));
    once = λ q m l. omega (arith, added-once q m l, times-append (m ∷ q) (n ∷ p) files);
    found = λ q j m l f u. added-find q j m l (rw (dir_name q l) at f) u;
    refs = λ j t. ground (
      arith,
      h.refs j t,
      owes j,
      links-append j names' (n ∷ p) files,
      links_same j names names' files file_name,
      same_path_self p,
    );
  }

  -- The path of a directory, whose inode no directory has and whose block has no named entries.
  pub dir-IsTree :
      (inodes k).ftype ≡ dir
      → ((q : List ℕ) → 0 < times q dirs → names q ≢ some k)
      → ((m : ℕ) → uses m (entries k) ≡ 0)
      → IsTree inodes added files (dirs ++ (n ∷ p) ∷ []) names' owed
  dir-IsTree kind fresh bare =
      let old : (q : List ℕ)
          → 0 < times q (dirs ++ (n ∷ p) ∷ [])
          → same_path q (n ∷ p) ≡ false
          → 0 < times q dirs =
        λ q l s. ground (arith, times-append q (n ∷ p) dirs, same_path_comm (n ∷ p) q) in
      let other : (k == i) ≡ false = elim (Bool-cases (k == i)) [
        | inr s ↦ s
        | inl s ↦ let t : k ≡ i = ground arith in absurd (fresh p lt (rw t e))
      ] in
      let empty : (m : ℕ) → uses m (added k) ≡ 0 = λ m. rw other (bare m) in
      let alone : (m : ℕ) → times (m ∷ n ∷ p) files + times (m ∷ n ∷ p) (dirs ++ (n ∷ p) ∷ []) ≡ 0 =
        λ m. ground (
          arith,
          new_path,
          times-append (m ∷ n ∷ p) (n ∷ p) dirs,
          same_path-longer m (n ∷ p),
          h.file_parent m (n ∷ p),
          h.dir_parent m (n ∷ p),
        ) in
      let name_k : (j : ℕ) (q : List ℕ) → same_path q (n ∷ p) ≡ true → names' q ≡ some j → j ≡ k =
        λ j q s f. (let f' = (rw s at f) in cc) in
      record {
        root = omega (arith, h.root, times-append [] (n ∷ p) dirs);
        no_root = h.no_root;
        dir_at = λ q l. elim (Bool-cases (same_path q (n ∷ p))) [
          | inl s ↦ (k, rw s refl, kind)
          | inr s ↦ rw s (h.dir_at q (old q l s))
        ];
        file_at = λ q l. rw (file_name q l) (h.file_at q l);
        dir_once = λ q r j l l' f g. elim (Bool-cases (same_path q (n ∷ p))) [
          | inl s ↦ elim (Bool-cases (same_path r (n ∷ p))) [
            | inl t ↦ same_path-eq q (n ∷ p) s ∙ sym (same_path-eq r (n ∷ p) t)
            | inr t ↦ let w = name_k j q s f in absurd (fresh r (old r l' t) (rw (← w) (rw t at g)))
          ]
          | inr s ↦ elim (Bool-cases (same_path r (n ∷ p))) [
            | inl t ↦ let w = name_k j r t g in absurd (fresh q (old q l s) (rw (← w) (rw s at f)))
            | inr t ↦ h.dir_once q r j (old q l s) (old r l' t) (rw s at f) (rw t at g)
          ]
        ];
        file_parent = λ m q l. omega (arith, h.file_parent m q l, times-append q (n ∷ p) dirs);
        dir_parent = λ m q l. elim (Bool-cases (same_path (m ∷ q) (n ∷ p))) [
          | inl s ↦
              let t = same_path-eq q p (ground arith) in
              rw t (omega (arith, lt, times-append p (n ∷ p) dirs))
          | inr s ↦ omega (arith, h.dir_parent m q (old (m ∷ q) l s), times-append q (n ∷ p) dirs)
        ];
        entry = λ q j m l f. elim (Bool-cases (same_path q (n ∷ p))) [
          | inl s ↦
              let t = same_path-eq q (n ∷ p) s in
              let w = name_k j q s f in rw (t, w) (omega (arith, empty m, alone m))
          | inr s ↦
              let l0 = old q l s in
              let f0 = (rw s at f) in
              omega (
                arith,
                added-uses q j m l0 f0,
                h.entry q j m l0 f0,
                times-append (m ∷ q) (n ∷ p) dirs,
              )
        ];
        once = λ q m l. elim (Bool-cases (same_path q (n ∷ p))) [
          | inl s ↦ let t = same_path-eq q (n ∷ p) s in rw t (omega (arith, alone m))
          | inr s ↦ omega (arith, added-once q m (old q l s), times-append (m ∷ q) (n ∷ p) dirs)
        ];
        found = λ q j m l f u. elim (Bool-cases (same_path q (n ∷ p))) [
          | inl s ↦
              let w = name_k j q s f in let u' = (rw w at u) in absurd (omega (arith, empty m))
          | inr s ↦ added-find q j m (old q l s) (rw s at f) u
        ];
        refs = λ j t. omega (arith, h.refs j t, links_same j names names' files file_name);
      }
