-- ===== src/Vsfs/Deleted.antt =====
-- `deleteFile` of vsfs.py keeps a sound file system sound.
use life.Prelude.{
  ℕ, ◌+◌, ◌-◌, ◌<◌, ◌≡◌, refl, ap, ◌∙◌, inl, inr, true, false, Bool-cases, some, List, ◌∷◌, ◌==◌,
  if◌then◌else◌, ok, arith, lt→ltb,
}
use life.Vsfs.Block.{dir, file, named, Block, Inode, del_dir_entry, drop_entry, has_entry}
use life.Vsfs.Store.{
  Fs, same_path, put_block, unlink_inode, drop_name, delete_file, get_parent, last_name, index_of,
}
use life.Vsfs.Disk.{IsDisk, assign, block-IsDisk}
use life.Vsfs.Paths.{times, points, links, remove_path_lem, no_links}
use life.Vsfs.Entries.{uses, has_entry-uses, length-drop}
use life.Vsfs.Tree.{IsTree, inodes-IsTree}
use life.Vsfs.Pruned.{dropped, pruned-IsTree}
use life.Vsfs.Views.{entries, IsSound, block-entries}
use life.Vsfs.Written.{inode_at-ok, block_at-ok, inum_of-ok, FileAt, DirAt, file_of, dir_of}
use life.Vsfs.Unlinked.{Unlinked, unlink_lem}

module _ (fs : Fs) (h : IsSound fs) (n : ℕ) (p : List ℕ) (live : 0 < times (n ∷ p) fs.files) where
  abbrev tfile : FileAt fs (n ∷ p)
  tfile = file_of fs h (n ∷ p) live

  abbrev above : DirAt fs p
  above = dir_of fs h p (h.tree.file_parent n p live)

  apart : (above.inum == tfile.inum) ≡ false
  apart = elim (Bool-cases (above.inum == tfile.inum)) [
    | inr s ↦ s
    | inl s ↦
        let t : above.inum ≡ tfile.inum = ground arith in
        let u : (fs.inodes tfile.inum).ftype ≡ dir = rw (← t) above.kind in
        let v = tfile.kind in absurd (cc)
  ]

  -- The block of the parent without the entry.
  abbrev block' : Block
  block' = record (fs.blocks above.block) {
    dir_list = drop_entry (named n) (fs.blocks above.block).dir_list;
    dir_used = (fs.blocks above.block).dir_used - 1;
  }

  in_use : 0 < uses n (fs.blocks above.block).dir_list
  in_use =
      let e : uses n (fs.blocks above.block).dir_list
          ≡ times (n ∷ p) fs.files + times (n ∷ p) fs.dirs =
        (rw above.addr at (h.tree.entry p above.inum n (h.tree.file_parent n p live) above.name)) in
      omega (arith, live)

  -- What the file system is after the inode has lost a name.
  module _ (fs1 : Fs) (u : Unlinked fs tfile.inum fs1) where
    inodes1 : ℕ → Inode
    inodes1 = assign tfile.inum u.node fs.inodes

    same_above : inodes1 above.inum ≡ fs.inodes above.inum
    unfolding inodes1
    same_above = rw (apart) refl

    still_dir : (i : ℕ) → (fs.inodes i).ftype ≡ dir → (inodes1 i).ftype ≡ dir
    unfolding inodes1
    still_dir i t = elim (Bool-cases (i == tfile.inum)) [
      | inr s ↦ rw s t
      | inl s ↦
          let v : i ≡ tfile.inum = ground arith in
          let t' : (fs.inodes tfile.inum).ftype ≡ dir = rw (← v) t in
          let w = tfile.kind in absurd (cc)
    ]

    deleted-IsDisk :
        IsDisk fs.num_inodes fs.num_data u.ibitmap inodes1 u.dbitmap
          (assign above.block block' u.blocks)
    unfolding inodes1
    deleted-IsDisk =
        let same = u.dir_blocks above.inum above.block above.kind above.addr in
        block-IsDisk fs.num_inodes fs.num_data u.ibitmap inodes1 u.dbitmap u.blocks u.disk
          above.block block' (rw same refl)
          (ground (
            arith,
            h.disk.counted above.block,
            length-drop n (fs.blocks above.block).dir_list in_use,
          ))
          (λ e. absurd (let e' = (rw above.block_kind at e) in cc))

    deleted-entries :
        (j : ℕ)
        → (fs.inodes j).ftype ≡ dir
        → entries inodes1 (assign above.block block' u.blocks) j ≡ (
            if j == above.inum
            then drop_entry (named n) (entries fs.inodes fs.blocks j)
            else entries fs.inodes fs.blocks j)
    unfolding inodes1
    deleted-entries j t =
        let e : (inodes1 above.inum).addr ≡ some above.block = rw same_above above.addr in
        block-entries fs.num_inodes fs.num_data u.ibitmap inodes1 u.dbitmap u.blocks u.disk
          above.inum above.block block' e j
        ∙ elim (Bool-cases (j == above.inum)) [
          | inr s ↦ rw s (u.dirs j t)
          | inl s ↦ let v : j ≡ above.inum = ground arith in rw (s, v, above.addr) refl
        ]

    -- The file system then, before the entry is dropped.
    abbrev after : Fs
    after = record fs {
      ibitmap = u.ibitmap;
      inodes = inodes1;
      dbitmap = u.dbitmap;
      blocks = u.blocks;
    }

    drop_name-ok :
        drop_name above.block (some (named n)) after ≡ ok (put_block above.block block' after)
    unfolding drop_name del_dir_entry
    drop_name-ok =
        let same : u.blocks above.block ≡ fs.blocks above.block =
          u.dir_blocks above.inum above.block above.kind above.addr in
        let e : has_entry (named n) (fs.blocks above.block).dir_list ≡ true =
          has_entry-uses n (fs.blocks above.block).dir_list
          ∙ lt→ltb 0 (uses n (fs.blocks above.block).dir_list) in_use in
        rw
          (
            drop_name,
            block_at-ok after above.block above.block_inside,
            same,
            del_dir_entry,
            above.block_kind,
            e,
          )
          refl

    module _ (files' : List (List ℕ))
        (fewer : (q : List ℕ)
          → times q fs.files ≡ times q files' + (if same_path (n ∷ p) q then 1 else 0))
        (unlinked : (j : ℕ)
          → links j fs.name_to_inum fs.files
            ≡ links j fs.name_to_inum files'
              + (if points j (fs.name_to_inum (n ∷ p)) then 1 else 0)) where
      refs_left : (fs.inodes tfile.inum).ref_cnt ≡ links tfile.inum fs.name_to_inum files' + 1
      refs_left =
          let e = (rw tfile.name at unlinked tfile.inum) in
          ground (arith, h.tree.refs tfile.inum tfile.kind, e)

      still_file :
          (q : List ℕ) (i : ℕ)
          → 0 < times q files'
          → fs.name_to_inum q ≡ some i
          → (fs.inodes i).ftype ≡ file
          → (inodes1 i).ftype ≡ file
      unfolding inodes1
      still_file q i lt e t = elim (Bool-cases (i == tfile.inum)) [
        | inr s ↦ rw s t
        | inl s ↦ elim u.counts [
          | inr (v, w, z) ↦ rw s v
          | inl (v, w) ↦
              let z = no_links tfile.inum fs.name_to_inum files' q (omega (arith, refs_left)) lt in
              let z' = (rw e at z) in absurd (ground arith)
        ]
      ]

      refs_kept :
          (i : ℕ)
          → (inodes1 i).ftype ≡ file
          → (inodes1 i).ref_cnt ≡ links i fs.name_to_inum files' + 0
      unfolding inodes1
      refs_kept i t = elim (Bool-cases (i == tfile.inum)) [
        | inr s ↦
            let e = (rw tfile.name at unlinked i) in
            rw s (ground (arith, h.tree.refs i (rw s at t), e))
        | inl s ↦
            let v : i ≡ tfile.inum = ground arith in
            let t' : u.node.ftype ≡ file = (rw s at t) in
            rw (s, v)
              (elim u.counts [
                | inl (a, b) ↦ absurd (cc)
                | inr (a, b, c) ↦ omega (arith, refs_left)
              ])
      ]

      deleted-IsTree :
          IsTree inodes1
            (entries inodes1 (assign above.block block' u.blocks))
            files'
            fs.dirs
            fs.name_to_inum
            (λ i. 0)
      deleted-IsTree =
          let t =
            pruned-IsTree fs.inodes (entries fs.inodes fs.blocks) fs.files fs.dirs fs.name_to_inum
              (λ i. 0) h.tree n tfile.inum above.inum p live tfile.name above.name files' fewer
              unlinked (λ j. refl) in
          inodes-IsTree fs.inodes
            (dropped fs.inodes (entries fs.inodes fs.blocks) fs.files fs.dirs fs.name_to_inum
              (λ i. 0) h.tree n tfile.inum above.inum p live tfile.name above.name files' fewer
              unlinked)
            files' fs.dirs fs.name_to_inum (λ j. if j == tfile.inum then 1 else 0) t inodes1
            (entries inodes1 (assign above.block block' u.blocks)) (λ i. 0) still_dir still_file
            deleted-entries refs_kept

  pub delete_file-IsSound : (fs' : Fs) × (delete_file (n ∷ p) fs ≡ ok fs') × IsSound fs'
  unfolding delete_file get_parent last_name index_of inodes1
  delete_file-IsSound =
      let (fs1, e, u) = unlink_lem fs h tfile.inum tfile.kind in
      let (files', r, fewer, unlinked) = remove_path_lem (n ∷ p) fs.files live in
      let e1 = inum_of-ok fs (n ∷ p) tfile.inum tfile.name in
      let e2 = inode_at-ok fs tfile.inum tfile.inside in
      let k = tfile.kind in
      let fs2 : Fs = after fs1 u in
      let e' : unlink_inode tfile.inum (fs.inodes tfile.inum) fs ≡ ok fs2 = e ∙ ap ok u.is in
      let e3 = inum_of-ok fs2 p above.inum above.name in
      let e4 = inode_at-ok fs2 above.inum above.inside in
      (
        record (put_block above.block block' fs2) { files = files' },
        rw (delete_file, e1, e2, e', e3, e4, k, same_above fs1 u, above.addr, drop_name-ok fs1 u, r)
            refl,
        record {
          disk = deleted-IsDisk fs1 u;
          tree = deleted-IsTree fs1 u files' fewer (λ j. unlinked j fs.name_to_inum);
        },
      )
