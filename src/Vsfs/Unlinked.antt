-- ===== src/Vsfs/Unlinked.antt =====
-- An inode of vsfs.py that loses a name, in a sound file system.
use life.Prelude.{
  ℕ, ◌-◌, ◌<◌, ◌≡◌, ◌≢◌, ◌⊎◌, refl, sym, ◌∙◌, inl, inr, true, false, Bool-cases, Option-cases, none,
  some, ◌==◌, ok, arith, lt→ltb,
}
use life.Vsfs.Bitmap
use life.Vsfs.Bitmap.{Bitmap, set_bit}
use life.Vsfs.Alloc
use life.Vsfs.Alloc.{taken-set}
use life.Vsfs.Block.{free, dir, file, Block, Inode, free_block, free_node, dec_ref_cnt}
use life.Vsfs.Store.{Fs, put_inode, put_block, data_free, inode_free, unlink_inode}
use life.Vsfs.Disk.{IsDisk, assign, IsBitSet, both-IsDisk, inode-IsDisk}
use life.Vsfs.Views.{
  entries, IsSound, inode_lt, block_lt, inode_same_bit, both-entries, inode-entries,
}
use life.Vsfs.Written.{inode_at-ok, block_at-ok}

pub free_lem :
    (b : Bitmap) (k : ℕ)
    → Alloc.IsSound b
    → k < b.size
    → b.bmap k ≡ true
    → (b' : Bitmap) × (Bitmap.free k b ≡ ok b') × IsBitSet b k false b'
unfolding Bitmap.free
free_lem b k h lt e = (
  record b { bmap = set_bit k false b.bmap; num_allocated = b.num_allocated - 1 },
  rw (Bitmap.free, lt→ltb k b.size lt, e) refl,
  record {
    count = ground (arith, h, taken-set b.size 0 k false b.bmap);
    size = refl;
    bits = λ j. refl;
  },
)

-- What is left of the file system when the file inode `k` has lost a name: it is free, if this was its
-- last, or has a reference less, and the directories are the same.
pub record Unlinked (fs : Fs) (k : ℕ) (fs' : Fs) : Type 0 where
  pub ibitmap : Bitmap
  pub dbitmap : Bitmap
  pub node : Inode
  pub blocks : ℕ → Block
  pub is : fs' ≡ record fs {
    ibitmap = ibitmap;
    inodes = assign k node fs.inodes;
    dbitmap = dbitmap;
    blocks = blocks;
  }
  pub disk : IsDisk fs.num_inodes fs.num_data ibitmap (assign k node fs.inodes) dbitmap blocks
  pub dirs :
      (i : ℕ)
      → (fs.inodes i).ftype ≡ dir
      → entries (assign k node fs.inodes) blocks i ≡ entries fs.inodes fs.blocks i
  pub dir_blocks :
      (i c : ℕ) → (fs.inodes i).ftype ≡ dir → (fs.inodes i).addr ≡ some c → blocks c ≡ fs.blocks c
  pub counts :
      ((node.ftype ≡ free) × ((fs.inodes k).ref_cnt ≡ 1))
      ⊎ ((node.ftype ≡ file)
          × (node.ref_cnt ≡ (fs.inodes k).ref_cnt - 1)
          × ((fs.inodes k).ref_cnt ≢ 1))

module _ (fs : Fs) (h : IsSound fs) (k : ℕ) (kind : (fs.inodes k).ftype ≡ file) where
  lt_k : k < fs.num_inodes
  lt_k =
      inode_lt fs.num_inodes fs.num_data fs.ibitmap fs.inodes fs.dbitmap fs.blocks h.disk k
        (rw kind refl)

  k_taken : fs.ibitmap.bmap k ≡ true
  k_taken = rw (h.disk.inode_bit k, kind) refl

  -- The last name, of a file without a block,
  unlink_empty :
      (fs.inodes k).addr ≡ none
      → (fs.inodes k).ref_cnt ≡ 1
      → (fs' : Fs) × (unlink_inode k (fs.inodes k) fs ≡ ok fs') × Unlinked fs k fs'
  unfolding unlink_inode inode_free
  unlink_empty bare one =
      let d = h.disk in
      let (ibitmap, e, s) =
        free_lem fs.ibitmap k d.inode_count (omega (arith, lt_k, d.inode_size)) k_taken in
      let x : Inode = free_node (fs.inodes k) in
      let test : ((fs.inodes k).ref_cnt == 1) ≡ true = ground arith in
      (
        put_inode k x (record fs { ibitmap = ibitmap }),
        rw (unlink_inode, test, bare, inode_free, e, inode_at-ok fs k lt_k) refl,
        record {
          ibitmap = ibitmap;
          dbitmap = fs.dbitmap;
          node = x;
          blocks = fs.blocks;
          is = refl;
          disk =
              inode-IsDisk fs.num_inodes fs.num_data fs.ibitmap fs.inodes fs.dbitmap fs.blocks d k x
                ibitmap lt_k s (sym bare) (λ b f. absurd (cc)) (λ f. refl) (λ f. absurd (cc));
          dirs = λ i t.
              inode-entries fs.num_inodes fs.num_data fs.ibitmap fs.inodes fs.dbitmap fs.blocks d k
                x (sym bare) i;
          dir_blocks = λ i c t f. refl;
          counts = inl (refl, one);
        },
      )

  -- of one with a block,
  unlink_full :
      (b : ℕ)
      → (fs.inodes k).addr ≡ some b
      → (fs.inodes k).ref_cnt ≡ 1
      → (fs' : Fs) × (unlink_inode k (fs.inodes k) fs ≡ ok fs') × Unlinked fs k fs'
  unfolding unlink_inode inode_free data_free free_block
  unlink_full b at one =
      let d = h.disk in
      let u : (fs.blocks b).ftype ≡ file = d.same_type k b at ∙ kind in
      let lt_b =
        block_lt fs.num_inodes fs.num_data fs.ibitmap fs.inodes fs.dbitmap fs.blocks d b
          (rw u refl) in
      let taken : fs.dbitmap.bmap b ≡ true = rw (d.block_bit b, u) refl in
      let (dbitmap, e, s) =
        free_lem fs.dbitmap b d.block_count (omega (arith, lt_b, d.block_size)) taken in
      let (ibitmap, e', s') =
        free_lem fs.ibitmap k d.inode_count (omega (arith, lt_k, d.inode_size)) k_taken in
      let x : Inode = free_node (fs.inodes k) in
      let test : ((fs.inodes k).ref_cnt == 1) ≡ true = ground arith in
      let y : Block = record (fs.blocks b) { contents = none; ftype = free } in
      let fs1 : Fs = put_block b y (record fs { dbitmap = dbitmap }) in
      let freed : data_free b fs ≡ ok fs1 =
        rw (data_free, e, block_at-ok fs b lt_b, free_block, u) refl in
      let mine : (j : ℕ) → (fs.inodes j).addr ≡ some b → j ≡ k = λ j f. d.owner j k b f at in
      (
        put_inode k x (record fs1 { ibitmap = ibitmap }),
        rw (unlink_inode, test, at, freed, inode_free, e', inode_at-ok fs1 k lt_k) refl,
        record {
          ibitmap = ibitmap;
          dbitmap = dbitmap;
          node = x;
          blocks = assign b y fs.blocks;
          is = refl;
          disk =
              both-IsDisk fs.num_inodes fs.num_data fs.ibitmap fs.inodes fs.dbitmap fs.blocks d k b
                x y ibitmap dbitmap lt_k lt_b s' s (d.counted b) (λ t. d.bare b (rw u refl))
                (λ c f. cc) mine (λ c f. absurd (cc)) (λ f. absurd (cc)) (λ f. refl)
                (λ f. absurd (cc));
          dirs =
              both-entries fs.num_inodes fs.num_data fs.ibitmap fs.inodes fs.dbitmap fs.blocks d k b
                x y (rw kind refl) mine;
          dir_blocks = λ i c t f. elim (Bool-cases (c == b)) [
            | inr v ↦ rw v refl
            | inl v ↦
                let w : c ≡ b = ground arith in
                let z = mine i (rw (← w) f) in
                let t' : (fs.inodes k).ftype ≡ dir = rw (← z) t in absurd (cc)
          ];
          counts = inl (refl, one);
        },
      )

  -- or one name of several.
  unlink_one :
      (fs.inodes k).ref_cnt ≢ 1
      → (fs' : Fs) × (unlink_inode k (fs.inodes k) fs ≡ ok fs') × Unlinked fs k fs'
  unfolding unlink_inode
  unlink_one more =
      let d = h.disk in
      let x : Inode = dec_ref_cnt (fs.inodes k) in
      let f : ((fs.inodes k).ref_cnt == 1) ≡ false = ground arith in
      (
        put_inode k x fs,
        rw (unlink_inode, f) refl,
        record {
          ibitmap = fs.ibitmap;
          dbitmap = fs.dbitmap;
          node = x;
          blocks = fs.blocks;
          is = refl;
          disk =
              inode-IsDisk fs.num_inodes fs.num_data fs.ibitmap fs.inodes fs.dbitmap fs.blocks d k x
                fs.ibitmap lt_k
                (inode_same_bit fs.num_inodes fs.num_data fs.ibitmap fs.inodes fs.dbitmap fs.blocks
                  d k x.ftype refl)
                refl (λ b f. refl) (d.no_addr k) (d.dir_addr k);
          dirs = λ i t.
              inode-entries fs.num_inodes fs.num_data fs.ibitmap fs.inodes fs.dbitmap fs.blocks d k
                x refl i;
          dir_blocks = λ i c t f. refl;
          counts = inr (kind, refl, more);
        },
      )

  pub unlink_lem : (fs' : Fs) × (unlink_inode k (fs.inodes k) fs ≡ ok fs') × Unlinked fs k fs'
  unlink_lem = elim (Bool-cases ((fs.inodes k).ref_cnt == 1)) [
    | inr s ↦ unlink_one (ground arith)
    | inl s ↦ elim (Option-cases (fs.inodes k).addr) [
      | inl f ↦ unlink_empty f (ground arith)
      | inr (b, f) ↦ unlink_full b f (ground arith)
    ]
  ]
