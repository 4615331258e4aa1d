-- ===== src/Vsfs/Created.antt =====
-- `createLink` and `createFile` of vsfs.py, with the path that their callers add, keep a sound file system
-- sound.
use life.Prelude.{
  ℕ, ◌<◌, ◌≡◌, ◌≢◌, refl, sym, ◌∙◌, inl, inr, true, false, Bool-cases, Option, none, some, List,
  ◌∷◌, ◌==◌, if◌then◌else◌, ok, arith,
}
use life.Vsfs.Bitmap.{Bitmap}
use life.Vsfs.Alloc.{Allocated}
use life.Vsfs.Block.{FType, free, dir, file, is_dir, Name, Inode, inc_ref_cnt, set_all}
use life.Vsfs.Store.{Fs, put_inode, put_block, create_link, finish_create}
use life.Vsfs.Requests.{add_path, named_at}
use life.Vsfs.Disk.{assign, inode-IsDisk}
use life.Vsfs.Paths.{times, points, links_none}
use life.Vsfs.Entries.{uses}
use life.Vsfs.Tree.{IsTree, inodes-IsTree}
use life.Vsfs.Views.{
  entries, IsSound, inode_same_bit, inode-entries, assign-IsTree, assign-type, is_free-eq,
}
use life.Vsfs.Written.{inode_at-ok, inum_of-ok, DirAt, file_of, dir_of, set-Allocated}
use life.Vsfs.Attached.{has_room-ok, add_name-ok, attach_file-IsSound, block'}

-- A directory is where it was when an inode that is not its own changes.
abbrev pub put_inode-DirAt :
    (fs : Fs) (p : List ℕ) (at : DirAt fs p) (k : ℕ) (x : Inode)
    → (at.inum == k) ≡ false
    → DirAt (put_inode k x fs) p
put_inode-DirAt fs p at k x s = record {
  inum = at.inum;
  name = at.name;
  kind = rw s at.kind;
  inside = at.inside;
  block = at.block;
  addr = rw s at.addr;
  block_kind = at.block_kind;
  block_inside = at.block_inside;
}

module _ (fs : Fs) (h : IsSound fs) where
  pub not_dir :
      (p : List ℕ) (at : DirAt fs p) (k : ℕ)
      → is_dir (fs.inodes k).ftype ≡ false
      → (at.inum == k) ≡ false
  not_dir p at k e = elim (Bool-cases (at.inum == k)) [
    | inr s ↦ s
    | inl s ↦
        let u : at.inum ≡ k = ground arith in
        let v : (fs.inodes k).ftype ≡ dir = rw (← u) at.kind in let w = (rw v at e) in absurd (cc)
  ]

  pub create_link-IsSound :
      (target parent : List ℕ) (n : ℕ)
      → 0 < times target fs.files
      → 0 < times parent fs.dirs
      → (fs' : Fs) × (o : Option ℕ) × (create_link target n parent fs ≡ ok (fs', o))
        × IsSound (named_at file (n ∷ parent) (fs', o)).0
  unfolding create_link named_at
  create_link-IsSound target parent n lt lt' =
      let at = dir_of fs h parent lt' in
      let from = file_of fs h target lt in
      let k = from.inum in
      let (room, e, spare) = has_room-ok fs parent at n in
      elim (Bool-cases room) [
        | inr s ↦ (fs, none, rw (create_link, e, s) refl, h)
        | inl s ↦
            let (less, unused) = spare s in
            let x : Inode = inc_ref_cnt (fs.inodes k) in
            let fs1 : Fs = put_inode k x fs in
            let at1 = put_inode-DirAt fs parent at k x (not_dir parent at k (rw from.kind refl)) in
            let d =
              inode-IsDisk fs.num_inodes fs.num_data fs.ibitmap fs.inodes fs.dbitmap fs.blocks
                h.disk k x fs.ibitmap from.inside
                (inode_same_bit fs.num_inodes fs.num_data fs.ibitmap fs.inodes fs.dbitmap fs.blocks
                  h.disk k x.ftype refl)
                refl (λ b f. refl) (h.disk.no_addr k) (h.disk.dir_addr k) in
            let t =
              assign-IsTree fs.inodes (entries fs.inodes fs.blocks) fs.files fs.dirs fs.name_to_inum
                (λ i. 0) h.tree k x (entries (assign k x fs.inodes) fs.blocks)
                (λ j. if j == k then 1 else 0) refl
                (λ i u.
                  inode-entries fs.num_inodes fs.num_data fs.ibitmap fs.inodes fs.dbitmap fs.blocks
                    h.disk k x refl i)
                (λ i u. elim (Bool-cases (i == k)) [
                  | inr s' ↦ rw s' (h.tree.refs i u)
                  | inl s' ↦
                      (let v : i ≡ k = ground arith in
                        rw (s', ← v) (omega (arith, h.tree.refs i u)))
                ]) in
            let owed : ℕ → ℕ = λ j. if j == k then 1 else 0 in
            let y = block' fs1 owed d t n k parent lt' at1 less unused in
            (
              put_block at.block y fs1,
              some k,
              rw
                  (
                    create_link,
                    e,
                    s,
                    inum_of-ok fs target k from.name,
                    inode_at-ok fs k from.inside,
                    add_name-ok fs1 owed d t n k parent lt' at1 less unused,
                  )
                  refl,
              attach_file-IsSound fs1 owed d t n k parent lt' at1 less unused
                  (assign-type k x fs.inodes refl k ∙ from.kind) (λ j. refl),
            )
      ]

  -- No path has an inode that is free.
  pub no_dir :
      (k : ℕ)
      → (fs.inodes k).ftype ≡ free
      → (q : List ℕ) → 0 < times q fs.dirs
      → fs.name_to_inum q ≢ some k
  no_dir k u q lt e =
      let (i, f, v) = h.tree.dir_at q lt in
      let w : i ≡ k = cc in let v' : (fs.inodes k).ftype ≡ dir = rw (← w) v in cc

  no_file :
      (k : ℕ)
      → (fs.inodes k).ftype ≡ free
      → (q : List ℕ) → 0 < times q fs.files
      → points k (fs.name_to_inum q) ≡ false
  no_file k u q lt = elim (Bool-cases (points k (fs.name_to_inum q))) [
    | inr s ↦ s
    | inl s ↦
        let (i, f, v) = h.tree.file_at q lt in
        let w : i ≡ k = (let s' = (rw f at s) in ground arith) in
        let v' : (fs.inodes k).ftype ≡ file = rw (← w) v in absurd (cc)
  ]

  -- The tree when a free inode is given a type.
  pub new_node-IsTree :
      (k : ℕ) (x : Inode) (entries' : ℕ → List (Name × ℕ)) (r : ℕ)
      → (fs.inodes k).ftype ≡ free
      → ((i : ℕ) → (fs.inodes i).ftype ≡ dir → entries' i ≡ entries fs.inodes fs.blocks i)
      → (x.ftype ≡ file → x.ref_cnt ≡ r)
      → IsTree
          (assign k x fs.inodes)
          entries'
          fs.files
          fs.dirs
          fs.name_to_inum
          (λ j. if j == k then r else 0)
  new_node-IsTree k x entries' r u he hr =
      let keeps : (i : ℕ) (t : FType)
          → (fs.inodes i).ftype ≡ t
          → t ≢ free
          → (assign k x fs.inodes i).ftype ≡ t =
        λ i t e ne. elim (Bool-cases (i == k)) [
          | inr s ↦ rw s e
          | inl s ↦ let v : i ≡ k = ground arith in absurd (ne (sym e ∙ rw v u))
        ] in
      inodes-IsTree fs.inodes (entries fs.inodes fs.blocks) fs.files fs.dirs fs.name_to_inum
        (λ i. 0) h.tree (assign k x fs.inodes) entries' (λ j. if j == k then r else 0)
        (λ i e. keeps i dir e (λ c. cc)) (λ q i l f e. keeps i file e (λ c. cc)) he
        (λ i e. elim (Bool-cases (i == k)) [
          | inr s ↦ rw s (h.tree.refs i (rw s at e))
          | inl s ↦
              let v : i ≡ k = ground arith in
              let z = links_none k fs.name_to_inum fs.files (no_file k u) in
              rw (s, v, hr (rw s at e)) (omega (arith, z))
        ])

  -- A file in a directory with room for it,
  pub finish_file :
      (parent : List ℕ) (n : ℕ) (lt : 0 < times parent fs.dirs) (at : DirAt fs parent) (k : ℕ)
      (ibitmap : Bitmap)
      → Allocated fs.ibitmap k ibitmap
      → (fs.blocks at.block).dir_used < 32
      → uses n (fs.blocks at.block).dir_list ≡ 0
      → (fs' : Fs) × (finish_create file none 1 k at.inum at.block n
            (record fs { ibitmap = ibitmap })
          ≡ ok (fs', some k))
        × IsSound (add_path file (n ∷ parent) k fs')
  unfolding finish_create
  finish_file parent n lt at k ibitmap s less unused =
      let u : (fs.inodes k).ftype ≡ free =
        is_free-eq (fs.inodes k).ftype (sym (h.disk.inode_bit k) ∙ s.was_free) in
      let lt_k : k < fs.num_inodes = omega (arith, s.inside, h.disk.inode_size) in
      let no_addr = h.disk.no_addr k u in
      let x : Inode = set_all file none 1 in
      let fs1 : Fs = put_inode k x (record fs { ibitmap = ibitmap }) in
      let ne = not_dir parent at k (rw u refl) in
      let at1 = put_inode-DirAt fs parent at k x ne in
      let at2 : DirAt fs1 parent = record {
        inum = at.inum;
        name = at.name;
        kind = at1.kind;
        inside = at.inside;
        block = at.block;
        addr = at1.addr;
        block_kind = at.block_kind;
        block_inside = at.block_inside;
      } in
      let owed : ℕ → ℕ = λ j. if j == k then 1 else 0 in
      let d =
        inode-IsDisk fs.num_inodes fs.num_data fs.ibitmap fs.inodes fs.dbitmap fs.blocks h.disk k x
          ibitmap lt_k (set-Allocated fs.ibitmap k ibitmap s) (sym no_addr) (λ b f. absurd (cc))
          (λ f. refl) (λ f. absurd (cc)) in
      let t =
        new_node-IsTree k x (entries (assign k x fs.inodes) fs.blocks) 1 u
          (λ i v.
            inode-entries fs.num_inodes fs.num_data fs.ibitmap fs.inodes fs.dbitmap fs.blocks h.disk
              k x (sym no_addr) i)
          (λ f. refl) in
      let self : (k == k) ≡ true = ground arith in
      (
        put_block at.block (block' fs1 owed d t n k parent lt at2 less unused) fs1,
        rw
            (
              finish_create,
              inode_at-ok (record fs { ibitmap = ibitmap }) k lt_k,
              inode_at-ok fs1 at.inum at.inside,
              add_name-ok fs1 owed d t n k parent lt at2 less unused,
            )
            refl,
        attach_file-IsSound fs1 owed d t n k parent lt at2 less unused (rw self refl) (λ j. refl),
      )
