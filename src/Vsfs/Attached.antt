-- ===== src/Vsfs/Attached.antt =====
-- The last steps of `doLink` and `doCreate` of vsfs.py: the entry in the parent and the path.
use life.Prelude.{
  ℕ, ◌+◌, ◌-◌, ◌<◌, ◌≡◌, ◌≢◌, refl, sym, ◌∙◌, inl, inr, Bool, true, false, Bool-cases, some, List,
  [], ◌∷◌, ◌++◌, length-append, leb, ◌==◌, if◌then◌else◌, ok, arith, le→leb,
}
use life.Vsfs.Block.{
  dir, file, named, Block, add_dir_entry, get_free_entries, dir_entry_exists, has_entry,
}
use life.Vsfs.Store.{Fs, put_block, has_room, add_name, index_of}
use life.Vsfs.Requests.{add_path}
use life.Vsfs.Disk.{IsDisk, assign, block-IsDisk}
use life.Vsfs.Paths.{times}
use life.Vsfs.Entries.{uses, has_entry-uses}
use life.Vsfs.Tree.{IsTree, inodes-IsTree}
use life.Vsfs.Grown.{added, names', file-IsTree, dir-IsTree}
use life.Vsfs.Views.{entries, IsSound, block-entries}
use life.Vsfs.Written.{inode_at-ok, block_at-ok, inum_of-ok, DirAt}

-- The tests of `createLink` and `createFile` on the parent.
pub has_room-ok :
    (fs : Fs) (p : List ℕ) (at : DirAt fs p) (n : ℕ)
    → (room : Bool) × (has_room p n fs ≡ ok (room, at.inum, at.block))
      × (room ≡ true
          → ((fs.blocks at.block).dir_used < 32) × (uses n (fs.blocks at.block).dir_list ≡ 0))
unfolding has_room get_free_entries dir_entry_exists index_of
has_room-ok fs p at n =
    let e1 = inum_of-ok fs p at.inum at.name in
    let e2 = inode_at-ok fs at.inum at.inside in
    let e3 = block_at-ok fs at.block at.block_inside in
    let l = (fs.blocks at.block).dir_list in
    elim (Bool-cases (leb (32 - (fs.blocks at.block).dir_used) 0)) [
      | inl s ↦ (false, rw (has_room, e1, e2, at.addr, e3, at.block_kind, s) refl, λ f. absurd (cc))
      | inr s ↦ elim (Bool-cases (has_entry (named n) l)) [
        | inl t ↦
            (false, rw (has_room, e1, e2, at.addr, e3, at.block_kind, s, t) refl, λ f. absurd (cc))
        | inr t ↦ (
          true,
          rw (has_room, e1, e2, at.addr, e3, at.block_kind, s, t) refl,
          λ f. (ground arith, (let u = sym (has_entry-uses n l) ∙ t in ground arith)),
        )
      ]
    ]

module _ (fs : Fs) (owed : ℕ → ℕ)
    (d : IsDisk fs.num_inodes fs.num_data fs.ibitmap fs.inodes fs.dbitmap fs.blocks)
    (t : IsTree fs.inodes (entries fs.inodes fs.blocks) fs.files fs.dirs fs.name_to_inum owed)
    (n k : ℕ) (p : List ℕ) (lt : 0 < times p fs.dirs) (at : DirAt fs p)
    (room : (fs.blocks at.block).dir_used < 32)
    (unused : uses n (fs.blocks at.block).dir_list ≡ 0) where
  abbrev pub block' : Block
  block' = record (fs.blocks at.block) {
    dir_list = (fs.blocks at.block).dir_list ++ (named n, k) ∷ [];
    dir_used = (fs.blocks at.block).dir_used + 1;
  }

  pub add_name-ok : add_name at.block (named n) k fs ≡ ok (put_block at.block block' fs)
  unfolding add_name add_dir_entry
  add_name-ok =
      let e : leb ((fs.blocks at.block).dir_used + 1) 32 ≡ true =
        le→leb ((fs.blocks at.block).dir_used + 1) 32 (omega arith) in
      rw (add_name, block_at-ok fs at.block at.block_inside, add_dir_entry, at.block_kind, e) refl

  attached-IsDisk :
      IsDisk fs.num_inodes fs.num_data fs.ibitmap fs.inodes fs.dbitmap
        (assign at.block block' fs.blocks)
  attached-IsDisk =
      block-IsDisk fs.num_inodes fs.num_data fs.ibitmap fs.inodes fs.dbitmap fs.blocks d at.block
        block' refl
        (omega (
          arith,
          d.counted at.block,
          length-append (fs.blocks at.block).dir_list ((named n, k) ∷ []),
        ))
        (λ e. absurd (let e' = (rw at.block_kind at e) in cc))

  empty_name : uses n (entries fs.inodes fs.blocks at.inum) ≡ 0
  empty_name = rw at.addr unused

  attached-entries :
      (j : ℕ)
      → entries fs.inodes (assign at.block block' fs.blocks) j
        ≡ added fs.inodes
            (entries fs.inodes fs.blocks)
            fs.files
            fs.dirs
            fs.name_to_inum
            owed
            t
            n
            k
            at.inum
            p
            lt
            at.name
            empty_name
            j
  attached-entries j =
      block-entries fs.num_inodes fs.num_data fs.ibitmap fs.inodes fs.dbitmap fs.blocks d at.inum
        at.block block' at.addr j
      ∙ elim (Bool-cases (j == at.inum)) [
        | inr s ↦ rw s refl
        | inl s ↦ let v : j ≡ at.inum = ground arith in rw (s, v, at.addr) refl
      ]

  -- The path of a file, whose inode has a reference more than paths.
  pub attach_file-IsSound :
      (fs.inodes k).ftype ≡ file
      → ((j : ℕ) → owed j ≡ (if j == k then 1 else 0))
      → IsSound (add_path file (n ∷ p) k (put_block at.block block' fs))
  unfolding add_path
  attach_file-IsSound kind owes = record {
    disk = attached-IsDisk;
    tree =
        inodes-IsTree fs.inodes
          (added fs.inodes (entries fs.inodes fs.blocks) fs.files fs.dirs fs.name_to_inum owed t n k
            at.inum p lt at.name empty_name)
          (fs.files ++ (n ∷ p) ∷ []) fs.dirs
          (names' fs.inodes (entries fs.inodes fs.blocks) fs.files fs.dirs fs.name_to_inum owed t n
            k at.inum p lt at.name empty_name)
          (λ j. 0)
          (file-IsTree fs.inodes (entries fs.inodes fs.blocks) fs.files fs.dirs fs.name_to_inum owed
            t n k at.inum p lt at.name empty_name kind owes)
          fs.inodes (entries fs.inodes (assign at.block block' fs.blocks)) (λ j. 0) (λ i u. u)
          (λ q i l e u. u) (λ i u. attached-entries i)
          (file-IsTree fs.inodes (entries fs.inodes fs.blocks) fs.files fs.dirs fs.name_to_inum owed
            t n k at.inum p lt at.name empty_name kind owes).refs;
  }

  -- The path of a directory.
  pub attach_dir-IsSound :
      (fs.inodes k).ftype ≡ dir
      → ((j : ℕ) → owed j ≡ 0)
      → ((q : List ℕ) → 0 < times q fs.dirs → fs.name_to_inum q ≢ some k)
      → ((m : ℕ) → uses m (entries fs.inodes fs.blocks k) ≡ 0)
      → IsSound (add_path dir (n ∷ p) k (put_block at.block block' fs))
  unfolding add_path
  attach_dir-IsSound kind owes fresh bare =
      let tree =
        dir-IsTree fs.inodes (entries fs.inodes fs.blocks) fs.files fs.dirs fs.name_to_inum owed t n
          k at.inum p lt at.name empty_name kind fresh bare in
      record {
        disk = attached-IsDisk;
        tree =
            inodes-IsTree fs.inodes
              (added fs.inodes (entries fs.inodes fs.blocks) fs.files fs.dirs fs.name_to_inum owed t
                n k at.inum p lt at.name empty_name)
              fs.files (fs.dirs ++ (n ∷ p) ∷ [])
              (names' fs.inodes (entries fs.inodes fs.blocks) fs.files fs.dirs fs.name_to_inum owed
                t n k at.inum p lt at.name empty_name)
              owed tree fs.inodes (entries fs.inodes (assign at.block block' fs.blocks)) (λ j. 0)
              (λ i u. u) (λ q i l e u. u) (λ i u. attached-entries i)
              (λ i u. omega (arith, tree.refs i u, owes i));
      }
