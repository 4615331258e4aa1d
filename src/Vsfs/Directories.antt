-- ===== src/Vsfs/Directories.antt =====
-- A new directory of vsfs.py: its inode, its block, and the reference to its parent.
use life.Prelude.{
  ℕ, ◌<◌, ◌≡◌, refl, sym, ◌∙◌, inl, inr, true, false, Bool-cases, Option, none, some, List, [], ◌∷◌,
  ◌==◌, if◌then◌else◌, ok, arith, ==_refl,
}
use life.Vsfs.Bitmap.{Bitmap}
use life.Vsfs.Alloc.{Allocated, alloc_lem}
use life.Vsfs.Block.{
  free, dir, file, dot, dotdot, Block, Inode, inc_ref_cnt, set_all, set_type, add_dir_entry,
  free_node,
}
use life.Vsfs.Store.{Fs, put_inode, put_block, create_dir, make_dir, finish_create, inode_free}
use life.Vsfs.Requests.{add_path, named_at}
use life.Vsfs.Disk.{IsDisk, IsBitSet, assign, inode-IsDisk, both-IsDisk}
use life.Vsfs.Paths.{times}
use life.Vsfs.Entries.{uses}
use life.Vsfs.Tree.{IsTree}
use life.Vsfs.Views.{
  entries, listed, IsSound, inode_same_bit, inode-entries, both-entries, no_owner, assign-IsTree,
  assign-type, is_free-eq,
}
use life.Vsfs.Written.{inode_at-ok, block_at-ok, DirAt, data_alloc-alloc, set-Allocated}
use life.Vsfs.Unlinked.{free_lem}
use life.Vsfs.Attached.{add_name-ok, attach_dir-IsSound, block'}
use life.Vsfs.Created.{not_dir, no_dir, new_node-IsTree}

module _ (fs : Fs) (h : IsSound fs) (parent : List ℕ) (n : ℕ) (lt : 0 < times parent fs.dirs)
    (at : DirAt fs parent) (k : ℕ) (ibitmap : Bitmap) (s : Allocated fs.ibitmap k ibitmap) where
  abbrev pub fs0 : Fs
  fs0 = record fs { ibitmap = ibitmap }

  was_free : (fs.inodes k).ftype ≡ free
  was_free = is_free-eq (fs.inodes k).ftype (sym (h.disk.inode_bit k) ∙ s.was_free)

  lt_k : k < fs.num_inodes
  lt_k = omega (arith, s.inside, h.disk.inode_size)

  -- Without a block the inode is given back.
  give_back : (fs' : Fs) × (inode_free k fs0 ≡ ok fs') × IsSound fs'
  unfolding inode_free
  give_back =
      let d = h.disk in
      let self : (k == k) ≡ true = ground arith in
      let taken : ibitmap.bmap k ≡ true = s.bits k ∙ rw self refl in
      let (bitmap, e, b) = free_lem ibitmap k s.sound (omega (arith, s.inside, s.size)) taken in
      let x : Inode = free_node (fs.inodes k) in
      let no_addr = d.no_addr k was_free in
      let set : IsBitSet fs.ibitmap k false bitmap = record {
        count = b.count;
        size = b.size ∙ s.size;
        bits = λ j. b.bits j ∙ ground (arith, s.bits j);
      } in
      (
        put_inode k x (record fs { ibitmap = bitmap }),
        rw (inode_free, e, inode_at-ok fs0 k lt_k) refl,
        record {
          disk =
              inode-IsDisk fs.num_inodes fs.num_data fs.ibitmap fs.inodes fs.dbitmap fs.blocks d k x
                bitmap lt_k set (sym no_addr) (λ c f. absurd (cc)) (λ f. refl) (λ f. absurd (cc));
          tree =
              assign-IsTree fs.inodes (entries fs.inodes fs.blocks) fs.files fs.dirs fs.name_to_inum
                (λ i. 0) h.tree k x (entries (assign k x fs.inodes) fs.blocks) (λ i. 0)
                (sym was_free)
                (λ i u.
                  inode-entries fs.num_inodes fs.num_data fs.ibitmap fs.inodes fs.dbitmap fs.blocks
                    d k x (sym no_addr) i)
                (λ i u. elim (Bool-cases (i == k)) [
                  | inr f ↦ rw f (h.tree.refs i u)
                  | inl f ↦ (let v : i ≡ k = ground arith in rw (f, ← v) (h.tree.refs i u))
                ]);
        },
      )

  module _ (b : ℕ) (dbitmap : Bitmap) (s' : Allocated fs.dbitmap b dbitmap) where
    block_free : (fs.blocks b).ftype ≡ free
    block_free = is_free-eq (fs.blocks b).ftype (sym (h.disk.block_bit b) ∙ s'.was_free)

    lt_b : b < fs.num_data
    lt_b = omega (arith, s'.inside, h.disk.block_size)

    none_used : (fs.blocks b).dir_list ≡ []
    none_used = h.disk.bare b (rw block_free refl)

    -- The block of the directory, and its inode.
    abbrev new_block : Block
    new_block = record (fs.blocks b) {
      ftype = dir;
      dir_list = (dot, k) ∷ (dotdot, at.inum) ∷ [];
      dir_used = 2;
    }

    abbrev node : Inode
    node = set_all dir (some b) 2

    abbrev fs1 : Fs
    fs1 = record fs { ibitmap = ibitmap; dbitmap = dbitmap }

    make_dir-ok : make_dir b k at.inum fs1 ≡ ok (put_block b new_block fs1)
    unfolding make_dir set_type add_dir_entry
    make_dir-ok =
        let e : (fs.blocks b).dir_used ≡ 0 = h.disk.counted b ∙ rw none_used refl in
        rw (make_dir, block_at-ok fs1 b lt_b, set_type, block_free, none_used, e) refl

    mine : (j : ℕ) → (fs.inodes j).addr ≡ some b → j ≡ k
    mine j f = absurd (
        no_owner fs.num_inodes fs.num_data fs.ibitmap fs.inodes fs.dbitmap fs.blocks h.disk b j
          block_free f)

    made-IsDisk :
        IsDisk fs.num_inodes fs.num_data ibitmap
          (assign k node fs.inodes)
          dbitmap
          (assign b new_block fs.blocks)
    made-IsDisk =
        both-IsDisk fs.num_inodes fs.num_data fs.ibitmap fs.inodes fs.dbitmap fs.blocks h.disk k b
          node new_block ibitmap dbitmap lt_k lt_b (set-Allocated fs.ibitmap k ibitmap s)
          (set-Allocated fs.dbitmap b dbitmap s') refl (λ f. absurd (cc))
          (λ c f. absurd (let g = h.disk.no_addr k was_free in cc)) mine
          (λ c f. (ground arith, refl)) (λ f. refl) (λ f. absurd (cc)) (λ f. refl)

    made-IsTree :
        IsTree
          (assign k node fs.inodes)
          (entries (assign k node fs.inodes) (assign b new_block fs.blocks))
          fs.files
          fs.dirs
          fs.name_to_inum
          (λ j. if j == k then 0 else 0)
    made-IsTree =
        new_node-IsTree fs h k node
          (entries (assign k node fs.inodes) (assign b new_block fs.blocks)) 0 was_free
          (both-entries fs.num_inodes fs.num_data fs.ibitmap fs.inodes fs.dbitmap fs.blocks h.disk k
            b node new_block (rw was_free refl) mine)
          (λ f. absurd (cc))

    ne : (at.inum == k) ≡ false
    ne = not_dir fs h parent at k (rw was_free refl)

    block_ne : (at.block == b) ≡ false
    block_ne = elim (Bool-cases (at.block == b)) [
      | inr f ↦ f
      | inl f ↦
          let v : at.block ≡ b = ground arith in
          let e : (fs.blocks b).ftype ≡ dir = rw (← v) at.block_kind in
          let e' = block_free in absurd (cc)
    ]

    -- The parent has a reference more.
    abbrev inodes2 : ℕ → Inode
    inodes2 = assign k node fs.inodes

    abbrev parent_node : Inode
    parent_node = inc_ref_cnt (inodes2 at.inum)

    abbrev fs2 : Fs
    fs2 = put_inode at.inum parent_node (put_inode k node (put_block b new_block fs1))

    abbrev at2 : DirAt fs2 parent
    at2 = record {
      inum = at.inum;
      name = at.name;
      kind = assign-type at.inum parent_node inodes2 refl at.inum ∙ rw ne at.kind;
      inside = at.inside;
      block = at.block;
      addr = rw (==_refl at.inum, ne) at.addr;
      block_kind = rw block_ne at.block_kind;
      block_inside = at.block_inside;
    }

    raised-IsDisk :
        IsDisk fs.num_inodes fs.num_data ibitmap fs2.inodes dbitmap (assign b new_block fs.blocks)
    raised-IsDisk =
        let d = made-IsDisk in
        inode-IsDisk fs.num_inodes fs.num_data ibitmap inodes2 dbitmap
          (assign b new_block fs.blocks) d at.inum parent_node ibitmap at.inside
          (inode_same_bit fs.num_inodes fs.num_data ibitmap inodes2 dbitmap
            (assign b new_block fs.blocks) d at.inum parent_node.ftype refl)
          refl (λ c f. refl) (d.no_addr at.inum) (d.dir_addr at.inum)

    raised-IsTree :
        IsTree fs2.inodes
          (entries fs2.inodes fs2.blocks)
          fs.files
          fs.dirs
          fs.name_to_inum
          (λ j. if j == k then 0 else 0)
    raised-IsTree =
        let t = made-IsTree in
        assign-IsTree inodes2 (entries inodes2 (assign b new_block fs.blocks)) fs.files fs.dirs
          fs.name_to_inum (λ j. if j == k then 0 else 0) t at.inum parent_node
          (entries fs2.inodes fs2.blocks) (λ j. if j == k then 0 else 0) refl
          (λ i u.
            inode-entries fs.num_inodes fs.num_data ibitmap inodes2 dbitmap
              (assign b new_block fs.blocks) made-IsDisk at.inum parent_node refl i)
          (λ i u. elim (Bool-cases (i == at.inum)) [
            | inr f ↦ rw f (t.refs i u)
            | inl f ↦
                let v : i ≡ at.inum = ground arith in
                let u' : (inodes2 at.inum).ftype ≡ file = rw (← v) u in
                let w : (inodes2 at.inum).ftype ≡ dir = rw ne at.kind in absurd (cc)
          ])

    finish_dir :
        (fs.blocks at.block).dir_used < 32
        → uses n (fs.blocks at.block).dir_list ≡ 0
        → (fs' : Fs) × (finish_create dir
              (some b)
              2
              k
              at.inum
              at.block
              n
              (put_block b new_block fs1)
            ≡ ok (fs', some k))
          × IsSound (add_path dir (n ∷ parent) k fs')
    unfolding finish_create
    finish_dir less unused =
        let owed : ℕ → ℕ = λ j. if j == k then 0 else 0 in
        let less' : (fs2.blocks at.block).dir_used < 32 = rw block_ne less in
        let unused' : uses n (fs2.blocks at.block).dir_list ≡ 0 = rw block_ne unused in
        let self : (k == k) ≡ true = ground arith in
        let self' : (b == b) ≡ true = ground arith in
        let ne' : (k == at.inum) ≡ false = (let f = ne in ground arith) in
        (
          put_block at.block
              (block' fs2 owed raised-IsDisk raised-IsTree n k parent lt at2 less' unused') fs2,
          rw
              (
                finish_create,
                inode_at-ok (put_block b new_block fs1) k lt_k,
                inode_at-ok (put_inode k node (put_block b new_block fs1)) at.inum at.inside,
                add_name-ok fs2 owed raised-IsDisk raised-IsTree n k parent lt at2 less' unused',
              )
              refl,
          attach_dir-IsSound fs2 owed raised-IsDisk raised-IsTree n k parent lt at2 less' unused'
              (rw (ne', self) refl) (λ j. ground arith) (no_dir fs h k was_free)
              (λ m. rw (ne', self, listed, self') refl),
        )

  pub made :
      (fs.blocks at.block).dir_used < 32
      → uses n (fs.blocks at.block).dir_list ≡ 0
      → (fs' : Fs) × (o : Option ℕ) × (create_dir k at.inum at.block n fs0 ≡ ok (fs', o))
        × IsSound (named_at dir (n ∷ parent) (fs', o)).0
  unfolding create_dir named_at
  made less unused = elim (alloc_lem fs.dbitmap h.disk.block_count) [
    | inl (a, z) ↦
        let (g, g') = data_alloc-alloc fs0 fs.dbitmap none a in
        let (fs', e, sound) = give_back in (fs', none, rw (create_dir, g, g', e) refl, sound)
    | inr (b, dbitmap, a, pos, s') ↦
        let (g, g') = data_alloc-alloc fs0 dbitmap (some b) a in
        let (fs', e, sound) = finish_dir b dbitmap s' less unused in
        (fs', some k, rw (create_dir, g, g', make_dir-ok b dbitmap s', e) refl, sound)
  ]
