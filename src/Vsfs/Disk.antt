-- ===== src/Vsfs/Disk.antt =====
-- The inodes, the blocks and the two bitmaps of vsfs.py agree.
use life.Prelude.{
  ℕ, ◌<◌, ◌≡◌, refl, sym, ◌∙◌, inl, inr, Bool, true, false, not, Bool-cases, none, some, [], length,
  ◌==◌, if◌then◌else◌, arith,
}
use life.Vsfs.Bitmap.{Bitmap}
use life.Vsfs.Alloc
use life.Vsfs.Block.{free, dir, is_dir, is_free, Block, Inode}

pub record IsDisk (num_inodes num_data : ℕ) (ibitmap : Bitmap) (inodes : ℕ → Inode)
    (dbitmap : Bitmap) (blocks : ℕ → Block) : Type 0 where
  pub inode_count : Alloc.IsSound ibitmap
  pub inode_size : ibitmap.size ≡ num_inodes
  pub inode_bit : (i : ℕ) → ibitmap.bmap i ≡ not (is_free (inodes i).ftype)
  pub inode_inside : (i : ℕ) → ibitmap.bmap i ≡ true → i < num_inodes
  pub block_count : Alloc.IsSound dbitmap
  pub block_size : dbitmap.size ≡ num_data
  pub block_bit : (b : ℕ) → dbitmap.bmap b ≡ not (is_free (blocks b).ftype)
  pub block_inside : (b : ℕ) → dbitmap.bmap b ≡ true → b < num_data
  pub counted : (b : ℕ) → (blocks b).dir_used ≡ length (blocks b).dir_list
  pub bare : (b : ℕ) → is_dir (blocks b).ftype ≡ false → (blocks b).dir_list ≡ []
  pub same_type : (i b : ℕ) → (inodes i).addr ≡ some b → (blocks b).ftype ≡ (inodes i).ftype
  pub no_addr : (i : ℕ) → (inodes i).ftype ≡ free → (inodes i).addr ≡ none
  pub dir_addr : (i : ℕ) → (inodes i).ftype ≡ dir → (b : ℕ) × ((inodes i).addr ≡ some b)
  pub owner : (i j b : ℕ) → (inodes i).addr ≡ some b → (inodes j).addr ≡ some b → i ≡ j
  pub owned : (b : ℕ) → is_free (blocks b).ftype ≡ false → (i : ℕ) × ((inodes i).addr ≡ some b)

abbrev pub assign {ℓ} : {A : Type ℓ} → ℕ → A → (ℕ → A) → ℕ → A
assign k x f i = if i == k then x else f i

-- A bitmap that differs in the bit of `k`.
pub record IsBitSet (b : Bitmap) (k : ℕ) (bit : Bool) (b' : Bitmap) : Type 0 where
  pub count : Alloc.IsSound b'
  pub size : b'.size ≡ b.size
  pub bits : (j : ℕ) → b'.bmap j ≡ (if j == k then bit else b.bmap j)

module _ (ni nd : ℕ) (ibitmap : Bitmap) (inodes : ℕ → Inode) (dbitmap : Bitmap) (blocks : ℕ → Block)
    (h : IsDisk ni nd ibitmap inodes dbitmap blocks) where
  -- Another block of the same type.
  pub block-IsDisk :
      (b : ℕ) (y : Block)
      → y.ftype ≡ (blocks b).ftype
      → y.dir_used ≡ length y.dir_list
      → (is_dir y.ftype ≡ false → y.dir_list ≡ [])
      → IsDisk ni nd ibitmap inodes dbitmap (assign b y blocks)
  block-IsDisk b y same used bare =
      let types : (c : ℕ) → (assign b y blocks c).ftype ≡ (blocks c).ftype = λ c.
        elim (Bool-cases (c == b)) [
          | inr s ↦ rw s refl
          | inl s ↦ let t : c ≡ b = ground arith in rw (s, t) same
        ] in
      record {
        inode_count = h.inode_count;
        inode_size = h.inode_size;
        inode_bit = h.inode_bit;
        inode_inside = h.inode_inside;
        block_count = h.block_count;
        block_size = h.block_size;
        block_bit = λ c. rw (types c) (h.block_bit c);
        block_inside = h.block_inside;
        counted =
            λ c. elim (Bool-cases (c == b)) [ inr s ↦ rw s (h.counted c) | inl s ↦ rw s used ];
        bare = λ c e. elim (Bool-cases (c == b)) [
          | inr s ↦ rw s (h.bare c (rw s at e))
          | inl s ↦ rw s (bare (rw s at e))
        ];
        same_type = λ i c e. types c ∙ h.same_type i c e;
        no_addr = h.no_addr;
        dir_addr = h.dir_addr;
        owner = h.owner;
        owned = λ c e. h.owned c (rw (types c) at e);
      }

  -- Another inode at the same address.
  pub inode-IsDisk :
      (k : ℕ) (x : Inode) (ibitmap' : Bitmap)
      → k < ni
      → IsBitSet ibitmap k (not (is_free x.ftype)) ibitmap'
      → x.addr ≡ (inodes k).addr
      → ((b : ℕ) → x.addr ≡ some b → x.ftype ≡ (inodes k).ftype)
      → (x.ftype ≡ free → x.addr ≡ none)
      → (x.ftype ≡ dir → (b : ℕ) × (x.addr ≡ some b))
      → IsDisk ni nd ibitmap' (assign k x inodes) dbitmap blocks
  inode-IsDisk k x ibitmap' lt set same types no_addr dir_addr =
      let addrs : (j : ℕ) → (assign k x inodes j).addr ≡ (inodes j).addr = λ c.
        elim (Bool-cases (c == k)) [
          | inr s ↦ rw s refl
          | inl s ↦ let t : c ≡ k = ground arith in rw (s, t) same
        ] in
      record {
        inode_count = set.count;
        inode_size = set.size ∙ h.inode_size;
        inode_bit = λ i.
            set.bits i
            ∙ elim (Bool-cases (i == k)) [ inr s ↦ rw s (h.inode_bit i) | inl s ↦ rw s refl ];
        inode_inside = λ i e. elim (Bool-cases (i == k)) [
          | inr s ↦ h.inode_inside i (rw (set.bits i, s) at e)
          | inl s ↦ ground arith
        ];
        block_count = h.block_count;
        block_size = h.block_size;
        block_bit = h.block_bit;
        block_inside = h.block_inside;
        counted = h.counted;
        bare = h.bare;
        same_type = λ i c e. elim (Bool-cases (i == k)) [
          | inr s ↦ rw s (h.same_type i c (rw s at e))
          | inl s ↦
              let t : i ≡ k = ground arith in
              let e' : x.addr ≡ some c = (rw s at e) in
              rw s (h.same_type k c (sym same ∙ e') ∙ sym (types c e'))
        ];
        no_addr = λ i e. elim (Bool-cases (i == k)) [
          | inr s ↦ rw s (h.no_addr i (rw s at e))
          | inl s ↦ rw s (no_addr (rw s at e))
        ];
        dir_addr = λ i e. elim (Bool-cases (i == k)) [
          | inr s ↦ rw s (h.dir_addr i (rw s at e))
          | inl s ↦ rw s (dir_addr (rw s at e))
        ];
        owner = λ i j b e f. h.owner i j b (rw (addrs i) at e) (rw (addrs j) at f);
        owned = λ c e. let (i, f) = h.owned c e in (i, addrs i ∙ f);
      }

  -- Another inode `k` and another block `b` that no other inode has.
  pub both-IsDisk :
      (k b : ℕ) (x : Inode) (y : Block) (ibitmap' dbitmap' : Bitmap)
      → k < ni
      → b < nd
      → IsBitSet ibitmap k (not (is_free x.ftype)) ibitmap'
      → IsBitSet dbitmap b (not (is_free y.ftype)) dbitmap'
      → y.dir_used ≡ length y.dir_list
      → (is_dir y.ftype ≡ false → y.dir_list ≡ [])
      → ((c : ℕ) → (inodes k).addr ≡ some c → c ≡ b)
      → ((j : ℕ) → (inodes j).addr ≡ some b → j ≡ k)
      → ((c : ℕ) → x.addr ≡ some c → (c ≡ b) × (y.ftype ≡ x.ftype))
      → (is_free y.ftype ≡ false → x.addr ≡ some b)
      → (x.ftype ≡ free → x.addr ≡ none)
      → (x.ftype ≡ dir → x.addr ≡ some b)
      → IsDisk ni nd ibitmap' (assign k x inodes) dbitmap' (assign b y blocks)
  both-IsDisk k b x y ibitmap' dbitmap' lt lt' set set' used bare was mine now owns no_addr
        dir_addr =
      let apart : (i c : ℕ) → (i == k) ≡ false → (inodes i).addr ≡ some c → (c == b) ≡ false =
        λ i c s e. elim (Bool-cases (c == b)) [
          | inr t ↦ t
          | inl t ↦
              let u : c ≡ b = ground arith in let v = mine i (rw (← u) e) in absurd (ground arith)
        ] in
      record {
        inode_count = set.count;
        inode_size = set.size ∙ h.inode_size;
        inode_bit = λ i.
            set.bits i
            ∙ elim (Bool-cases (i == k)) [ inr s ↦ rw s (h.inode_bit i) | inl s ↦ rw s refl ];
        inode_inside = λ i e. elim (Bool-cases (i == k)) [
          | inr s ↦ h.inode_inside i (rw (set.bits i, s) at e)
          | inl s ↦ ground arith
        ];
        block_count = set'.count;
        block_size = set'.size ∙ h.block_size;
        block_bit = λ c.
            set'.bits c
            ∙ elim (Bool-cases (c == b)) [ inr s ↦ rw s (h.block_bit c) | inl s ↦ rw s refl ];
        block_inside = λ c e. elim (Bool-cases (c == b)) [
          | inr s ↦ h.block_inside c (rw (set'.bits c, s) at e)
          | inl s ↦ ground arith
        ];
        counted =
            λ c. elim (Bool-cases (c == b)) [ inr s ↦ rw s (h.counted c) | inl s ↦ rw s used ];
        bare = λ c e. elim (Bool-cases (c == b)) [
          | inr s ↦ rw s (h.bare c (rw s at e))
          | inl s ↦ rw s (bare (rw s at e))
        ];
        same_type = λ i c e. elim (Bool-cases (i == k)) [
          | inr s ↦ let e' = (rw s at e) in rw (s, apart i c s e') (h.same_type i c e')
          | inl s ↦
              let (u, v) = now c (rw s at e) in
              let t : (c == b) ≡ true = ground arith in rw (s, t) v
        ];
        no_addr = λ i e. elim (Bool-cases (i == k)) [
          | inr s ↦ rw s (h.no_addr i (rw s at e))
          | inl s ↦ rw s (no_addr (rw s at e))
        ];
        dir_addr = λ i e. elim (Bool-cases (i == k)) [
          | inr s ↦ rw s (h.dir_addr i (rw s at e))
          | inl s ↦ (b, rw s (dir_addr (rw s at e)))
        ];
        owner = λ i j c e f. elim (Bool-cases (i == k)) [
          | inr s ↦ elim (Bool-cases (j == k)) [
            | inr t ↦ h.owner i j c (rw s at e) (rw t at f)
            | inl t ↦
                let (u, v) = now c (rw t at f) in
                let w = apart i c s (rw s at e) in absurd (ground arith)
          ]
          | inl s ↦ elim (Bool-cases (j == k)) [
            | inr t ↦
                let (u, v) = now c (rw s at e) in
                let w = apart j c t (rw t at f) in absurd (ground arith)
            | inl t ↦ ground arith
          ]
        ];
        owned = λ c e. elim (Bool-cases (c == b)) [
          | inl s ↦
              let t : c ≡ b = ground arith in
              let u : (k == k) ≡ true = ground arith in (k, rw (u, t) (owns (rw s at e)))
          | inr s ↦
              let (i, f) = h.owned c (rw s at e) in
              elim (Bool-cases (i == k)) [
                | inr t ↦ (i, rw t f)
                | inl t ↦
                    let u : i ≡ k = ground arith in
                    let v = was c (rw (← u) f) in absurd (ground arith)
              ]
        ];
      }
