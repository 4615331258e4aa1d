-- ===== src/Vsfs/Views.antt =====
-- What the inodes, the blocks and the entries of vsfs.py are to each other, and how the entries of the
-- directories change with an inode or a block.
use life.Prelude.{
  ℕ, ◌+◌, ◌<◌, ◌≡◌, ◌≢◌, refl, sym, ◌∙◌, inl, inr, true, false, not, Bool-cases, Option-cases,
  Option, none, some, List, [], ◌==◌, if◌then◌else◌, arith,
}
use life.Vsfs.Bitmap.{Bitmap}
use life.Vsfs.Block.{FType, free, dir, file, is_dir, is_free, Name, Block, Inode}
use life.Vsfs.Store.{Fs}
use life.Vsfs.Disk.{IsDisk, assign, IsBitSet}
use life.Vsfs.Tree.{IsTree, inodes-IsTree}
use life.Vsfs.Paths.{links}

abbrev pub listed : (ℕ → Block) → Option ℕ → List (Name × ℕ)
listed blocks none = []
listed blocks (some b) = (blocks b).dir_list

-- The entries in the block of an inode.
abbrev pub entries : (ℕ → Inode) → (ℕ → Block) → ℕ → List (Name × ℕ)
entries inodes blocks i = listed blocks (inodes i).addr

-- The file system: the bitmaps, the inodes and the blocks agree, and so do the paths.
pub record IsSound (fs : Fs) : Type 0 where
  pub disk : IsDisk fs.num_inodes fs.num_data fs.ibitmap fs.inodes fs.dbitmap fs.blocks
  pub tree :
      IsTree fs.inodes (entries fs.inodes fs.blocks) fs.files fs.dirs fs.name_to_inum (λ i. 0)

pub is_free-eq : (t : FType) → not (is_free t) ≡ false → t ≡ free
is_free-eq free e = refl
is_free-eq dir e = absurd (cc)
is_free-eq file e = absurd (cc)

pub assign-type :
    (k : ℕ) (x : Inode) (inodes : ℕ → Inode)
    → x.ftype ≡ (inodes k).ftype
    → (i : ℕ) → (assign k x inodes i).ftype ≡ (inodes i).ftype
assign-type k x inodes e i = elim (Bool-cases (i == k)) [
  | inr s ↦ rw s refl
  | inl s ↦ let u : i ≡ k = ground arith in rw (s, u) e
]

pub assign-refs :
    (k : ℕ) (x : Inode) (inodes : ℕ → Inode)
    → (i : ℕ) → (assign k x inodes i).ref_cnt ≡ (if i == k then x.ref_cnt else (inodes i).ref_cnt)
assign-refs k x inodes i = elim (Bool-cases (i == k)) [ inr s ↦ rw s refl | inl s ↦ rw s refl ]

module _ (ni nd : ℕ) (ibitmap : Bitmap) (inodes : ℕ → Inode) (dbitmap : Bitmap) (blocks : ℕ → Block)
    (h : IsDisk ni nd ibitmap inodes dbitmap blocks) where
  pub inode_lt : (i : ℕ) → is_free (inodes i).ftype ≡ false → i < ni
  inode_lt i e = h.inode_inside i (rw (h.inode_bit i, e) refl)

  pub block_lt : (b : ℕ) → is_free (blocks b).ftype ≡ false → b < nd
  block_lt b e = h.block_inside b (rw (h.block_bit b, e) refl)

  -- A free block is at no address.
  pub no_owner : (b j : ℕ) → (blocks b).ftype ≡ free → (inodes j).addr ≢ some b
  no_owner b j e f =
      let t : (inodes j).ftype ≡ free = sym (h.same_type j b f) ∙ e in let u = h.no_addr j t in cc

  pub inode_same_bit :
      (k : ℕ) (t : FType) → t ≡ (inodes k).ftype → IsBitSet ibitmap k (not (is_free t)) ibitmap
  inode_same_bit k t e = record {
    count = h.inode_count;
    size = refl;
    bits = λ j. elim (Bool-cases (j == k)) [
      | inr s ↦ rw s refl
      | inl s ↦ let u : j ≡ k = ground arith in rw (s, u, e) (h.inode_bit k)
    ];
  }

  -- The entries do not change with an inode at the same address,
  pub inode-entries :
      (k : ℕ) (x : Inode)
      → x.addr ≡ (inodes k).addr
      → (i : ℕ) → entries (assign k x inodes) blocks i ≡ entries inodes blocks i
  inode-entries k x same i = elim (Bool-cases (i == k)) [
    | inr s ↦ rw s refl
    | inl s ↦ let t : i ≡ k = ground arith in rw (s, t, same) refl
  ]

  -- nor those of a directory with a file and its block,
  pub both-entries :
      (k b : ℕ) (x : Inode) (y : Block)
      → is_dir (inodes k).ftype ≡ false
      → ((j : ℕ) → (inodes j).addr ≡ some b → j ≡ k)
      → (i : ℕ) → (inodes i).ftype ≡ dir
      → entries (assign k x inodes) (assign b y blocks) i ≡ entries inodes blocks i
  both-entries k b x y e mine i t =
      let (c, f) = h.dir_addr i t in
      elim (Bool-cases (i == k)) [
        | inl s ↦
            let u : i ≡ k = ground arith in
            let v : (inodes k).ftype ≡ dir = rw (← u) t in let w = (rw v at e) in absurd (cc)
        | inr s ↦ elim (Bool-cases (c == b)) [
          | inl s' ↦
              let u : c ≡ b = ground arith in let v = mine i (rw (← u) f) in absurd (ground arith)
          | inr s' ↦ rw (s, f, listed, s') refl
        ]
      ]

  -- and with a block those of its inode do.
  pub block-entries :
      (k b : ℕ) (y : Block)
      → (inodes k).addr ≡ some b
      → (i : ℕ)
      → entries inodes (assign b y blocks) i
        ≡ (if i == k then y.dir_list else entries inodes blocks i)
  block-entries k b y e i = elim (Bool-cases (i == k)) [
    | inl s ↦
        let u : i ≡ k = ground arith in
        let v : (b == b) ≡ true = ground arith in rw (s, u, e, listed, v) refl
    | inr s ↦ elim (Option-cases (inodes i).addr) [
      | inl f ↦ rw (s, f) refl
      | inr (c, f) ↦ elim (Bool-cases (c == b)) [
        | inr s' ↦ rw (s, f, listed, s') refl
        | inl s' ↦
            let u : c ≡ b = ground arith in
            let v = h.owner i k b (rw (← u) f) e in absurd (ground arith)
      ]
    ]
  ]

-- Another inode of the same type.
pub assign-IsTree :
    (inodes : ℕ → Inode) (entries : ℕ → List (Name × ℕ)) (files dirs : List (List ℕ))
    (names : List ℕ → Option ℕ) (owed : ℕ → ℕ) (h : IsTree inodes entries files dirs names owed)
    (k : ℕ) (x : Inode) (entries' : ℕ → List (Name × ℕ)) (owed' : ℕ → ℕ)
    → x.ftype ≡ (inodes k).ftype
    → ((i : ℕ) → (inodes i).ftype ≡ dir → entries' i ≡ entries i)
    → ((i : ℕ)
        → (inodes i).ftype ≡ file
        → (if i == k then x.ref_cnt else (inodes i).ref_cnt) ≡ links i names files + owed' i)
    → IsTree (assign k x inodes) entries' files dirs names owed'
assign-IsTree inodes entries files dirs names owed h k x entries' owed' e he hr =
    let types = assign-type k x inodes e in
    inodes-IsTree inodes entries files dirs names owed h (assign k x inodes) entries' owed'
      (λ i t. types i ∙ t) (λ p i l f t. types i ∙ t) he
      (λ i t. assign-refs k x inodes i ∙ hr i (sym (types i) ∙ t))
