-- ===== src/Vsfs/Written.antt =====
-- Paths of a sound file system of vsfs.py are resolved, and `writeFile` keeps it sound.
use life.Prelude.{
  ℕ, ◌<◌, ◌≡◌, refl, sym, ◌∙◌, inl, inr, Bool, true, false, Bool-cases, Option-cases, Option, none,
  some, List, ◌==◌, ok, arith, lt→ltb,
}
use life.Vsfs.Bitmap.{Bitmap, alloc}
use life.Vsfs.Alloc.{Allocated, alloc_lem}
use life.Vsfs.Block.{free, dir, file, Block, Inode, set_type, add_data, get_size}
use life.Vsfs.Store.{
  Fs, inode_at, block_at, inum_of, put_inode, put_block, inode_alloc, data_alloc, write_file,
}
use life.Vsfs.Disk.{assign, IsBitSet, both-IsDisk}
use life.Vsfs.Paths.{times}
use life.Vsfs.Views.{
  entries, IsSound, is_free-eq, inode_lt, block_lt, no_owner, inode_same_bit, both-entries,
  assign-IsTree,
}

pub inode_at-ok : (fs : Fs) (i : ℕ) → i < fs.num_inodes → inode_at i fs ≡ ok (fs.inodes i)
unfolding inode_at
inode_at-ok fs i lt = rw (lt→ltb i fs.num_inodes lt) refl

pub block_at-ok : (fs : Fs) (b : ℕ) → b < fs.num_data → block_at b fs ≡ ok (fs.blocks b)
unfolding block_at
block_at-ok fs b lt = rw (lt→ltb b fs.num_data lt) refl

pub inum_of-ok : (fs : Fs) (p : List ℕ) (i : ℕ) → fs.name_to_inum p ≡ some i → inum_of p fs ≡ ok i
unfolding inum_of
inum_of-ok fs p i e = rw (inum_of, e) refl

pub data_alloc-alloc :
    (fs : Fs) (b : Bitmap) (o : Option ℕ)
    → alloc fs.dbitmap ≡ (b, o)
    → ((data_alloc fs).1 ≡ o) × ((data_alloc fs).0 ≡ record fs { dbitmap = b })
unfolding data_alloc
data_alloc-alloc fs b o e = (rw (data_alloc, e) refl, rw (data_alloc, e) refl)

pub inode_alloc-alloc :
    (fs : Fs) (b : Bitmap) (o : Option ℕ)
    → alloc fs.ibitmap ≡ (b, o)
    → ((inode_alloc fs).1 ≡ o) × ((inode_alloc fs).0 ≡ record fs { ibitmap = b })
unfolding inode_alloc
inode_alloc-alloc fs b o e = (rw (inode_alloc, e) refl, rw (inode_alloc, e) refl)

pub set-Allocated : (b : Bitmap) (k : ℕ) (b' : Bitmap) → Allocated b k b' → IsBitSet b k true b'
set-Allocated b k b' s = record { count = s.sound; size = s.size; bits = s.bits }

pub record FileAt (fs : Fs) (p : List ℕ) : Type 0 where
  pub inum : ℕ
  pub name : fs.name_to_inum p ≡ some inum
  pub kind : (fs.inodes inum).ftype ≡ file
  pub inside : inum < fs.num_inodes

pub record DirAt (fs : Fs) (p : List ℕ) : Type 0 where
  pub inum : ℕ
  pub name : fs.name_to_inum p ≡ some inum
  pub kind : (fs.inodes inum).ftype ≡ dir
  pub inside : inum < fs.num_inodes
  pub block : ℕ
  pub addr : (fs.inodes inum).addr ≡ some block
  pub block_kind : (fs.blocks block).ftype ≡ dir
  pub block_inside : block < fs.num_data

module _ (fs : Fs) (h : IsSound fs) where
  pub file_of : (p : List ℕ) → 0 < times p fs.files → FileAt fs p
  file_of p lt =
      let (i, e, t) = h.tree.file_at p lt in
      record {
        inum = i;
        name = e;
        kind = t;
        inside =
            inode_lt fs.num_inodes fs.num_data fs.ibitmap fs.inodes fs.dbitmap fs.blocks h.disk i
              (rw t refl);
      }

  pub dir_of : (p : List ℕ) → 0 < times p fs.dirs → DirAt fs p
  dir_of p lt =
      let (i, e, t) = h.tree.dir_at p lt in
      let (b, f) = h.disk.dir_addr i t in
      let u = h.disk.same_type i b f ∙ t in
      record {
        inum = i;
        name = e;
        kind = t;
        inside =
            inode_lt fs.num_inodes fs.num_data fs.ibitmap fs.inodes fs.dbitmap fs.blocks h.disk i
              (rw t refl);
        block = b;
        addr = f;
        block_kind = u;
        block_inside =
            block_lt fs.num_inodes fs.num_data fs.ibitmap fs.inodes fs.dbitmap fs.blocks h.disk b
              (rw u refl);
      }

  pub write_file-IsSound :
      (p : List ℕ) (value : ℕ)
      → 0 < times p fs.files
      → (fs' : Fs) × (good : Bool) × (write_file p value fs ≡ ok (fs', good)) × IsSound fs'
  unfolding write_file set_type add_data get_size
  write_file-IsSound p value lt =
      let at = file_of p lt in
      let k = at.inum in
      let d = h.disk in
      let e1 = inum_of-ok fs p k at.name in
      let e2 = inode_at-ok fs k at.inside in
      elim (Option-cases (fs.inodes k).addr) [
        | inr (b, f) ↦ (fs, false, rw (write_file, e1, e2, f) refl, h)
        | inl f ↦ elim (alloc_lem fs.dbitmap d.block_count) [
          | inl (a, z) ↦
              let (g, g') = data_alloc-alloc fs fs.dbitmap none a in
              (fs, false, rw (write_file, e1, e2, f, g, g') refl, h)
          | inr (b, bitmap, a, lt', s) ↦
              let (g, g') = data_alloc-alloc fs bitmap (some b) a in
              let lt_b : b < fs.num_data = omega (arith, s.inside, d.block_size) in
              let e3 = block_at-ok (record fs { dbitmap = bitmap }) b lt_b in
              let u : (fs.blocks b).ftype ≡ free =
                is_free-eq (fs.blocks b).ftype (sym (d.block_bit b) ∙ s.was_free) in
              let x : Inode = record (fs.inodes k) { addr = some b } in
              let y : Block = record (fs.blocks b) { ftype = file; contents = some value } in
              let mine : (j : ℕ) → (fs.inodes j).addr ≡ some b → j ≡ k = λ j g. absurd (
                no_owner fs.num_inodes fs.num_data fs.ibitmap fs.inodes fs.dbitmap fs.blocks d b j u
                  g) in
              (
                put_inode k x (put_block b y (record fs { dbitmap = bitmap })),
                true,
                rw (write_file, e1, e2, f, g, g', e3, u) refl,
                record {
                  disk =
                      both-IsDisk fs.num_inodes fs.num_data fs.ibitmap fs.inodes fs.dbitmap
                        fs.blocks d k b x y fs.ibitmap bitmap at.inside lt_b
                        (inode_same_bit fs.num_inodes fs.num_data fs.ibitmap fs.inodes fs.dbitmap
                          fs.blocks d k x.ftype refl)
                        (set-Allocated fs.dbitmap b bitmap s) (d.counted b)
                        (λ t. d.bare b (rw u refl)) (λ c g. absurd (cc)) mine
                        (λ c g. (ground arith, sym at.kind)) (λ t. refl)
                        (λ t. absurd (let t' = at.kind in cc)) (λ t. refl);
                  tree =
                      assign-IsTree fs.inodes (entries fs.inodes fs.blocks) fs.files fs.dirs
                        fs.name_to_inum (λ i. 0) h.tree k x
                        (entries (assign k x fs.inodes) (assign b y fs.blocks)) (λ i. 0) refl
                        (both-entries fs.num_inodes fs.num_data fs.ibitmap fs.inodes fs.dbitmap
                          fs.blocks d k b x y (rw at.kind refl) mine)
                        (λ i t. elim (Bool-cases (i == k)) [
                          | inr s ↦ rw s (h.tree.refs i t)
                          | inl s ↦ (let v : i ≡ k = ground arith in rw (s, ← v) (h.tree.refs i t))
                        ]);
                },
              )
        ]
      ]
