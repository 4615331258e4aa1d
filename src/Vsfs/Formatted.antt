-- ===== src/Vsfs/Formatted.antt =====
-- The file system that `fs.__init__` of vsfs.py makes, and what the requests make of it, is sound.
use life.Prelude.{
  ℕ, zero, suc, ◌+◌, ◌<◌, ◌≡◌, refl, sym, ◌∙◌, inl, inr, true, false, Bool-cases, Option, none,
  some, List, [], ◌∷◌, ◌==◌, if◌then◌else◌, ok, arith, lt→ltb,
}
use life.Vsfs.Bitmap
use life.Vsfs.Bitmap.{Bitmap, set_bit}
use life.Vsfs.Alloc.{taken, taken-set}
use life.Vsfs.Block.{
  free, dir, dot, dotdot, Block, Inode, new_block, new_inode, set_all, set_type, add_dir_entry,
}
use life.Vsfs.Store.{Fs, init, same_path}
use life.Vsfs.Disk.{IsDisk, IsBitSet, assign, both-IsDisk}
use life.Vsfs.Paths.{times}
use life.Vsfs.Tree.{IsTree}
use life.Vsfs.Views.{IsSound, entries}
use life.Vsfs.Reached.{Reached, start, after, request-IsSound}

taken_none : (n i : ℕ) → taken n i (λ k. false) ≡ 0
taken_none zero i = refl
taken_none (suc n) i = omega (arith, taken_none n (i + 1))

-- A bitmap with number 0 taken.
abbrev root_bitmap : ℕ → Bitmap
root_bitmap n = record { size = n; bmap = set_bit 0 true (λ k. false); num_allocated = 1 }

mark_root : (n : ℕ) → 0 < n → Bitmap.mark_allocated 0 (Bitmap.empty n) ≡ ok (root_bitmap n)
unfolding Bitmap.mark_allocated
mark_root n lt = rw (Bitmap.mark_allocated, lt→ltb 0 n lt) refl

root-IsBitSet : (n : ℕ) → 0 < n → IsBitSet (Bitmap.empty n) 0 true (root_bitmap n)
root-IsBitSet n lt = record {
  count = ground (arith, taken_none n 0, taken-set n 0 0 true (λ k. false));
  size = refl;
  bits = λ j. refl;
}

abbrev root_block : Block
root_block = record (new_block free) {
  ftype = dir;
  dir_used = 2;
  dir_list = (dot, 0) ∷ (dotdot, 0) ∷ [];
}

abbrev root_node : Inode
root_node = set_all dir (some 0) 2

abbrev blank_nodes : ℕ → Inode
blank_nodes i = new_inode

abbrev blank_blocks : ℕ → Block
blank_blocks b = new_block free

blank-IsDisk :
    (ni nd : ℕ) → IsDisk ni nd (Bitmap.empty ni) blank_nodes (Bitmap.empty nd) blank_blocks
blank-IsDisk ni nd = record {
  inode_count = sym (taken_none ni 0);
  inode_size = refl;
  inode_bit = λ i. refl;
  inode_inside = λ i e. absurd (cc);
  block_count = sym (taken_none nd 0);
  block_size = refl;
  block_bit = λ b. refl;
  block_inside = λ b e. absurd (cc);
  counted = λ b. refl;
  bare = λ b e. refl;
  same_type = λ i b e. absurd (cc);
  no_addr = λ i e. refl;
  dir_addr = λ i e. absurd (cc);
  owner = λ i j b e f. absurd (cc);
  owned = λ b e. absurd (cc);
}

abbrev root_names : List ℕ → Option ℕ
root_names p = if same_path p [] then some 0 else none

only_root : (p : List ℕ) → 0 < times p ([] ∷ []) → p ≡ []
only_root [] lt = refl
only_root (n ∷ p) lt = absurd (omega arith)

root-IsTree :
    IsTree
      (assign 0 root_node blank_nodes)
      (entries (assign 0 root_node blank_nodes) (assign 0 root_block blank_blocks))
      []
      ([] ∷ [])
      root_names
      (λ i. 0)
root-IsTree = record {
  root = omega arith;
  no_root = refl;
  dir_at = λ p lt. (let e = only_root p lt in rw e (0, refl, refl));
  file_at = λ p lt. absurd (omega arith);
  dir_once = λ p q i lt lt' e f. only_root p lt ∙ sym (only_root q lt');
  file_parent = λ n p lt. absurd (omega arith);
  dir_parent = λ n p lt. absurd (omega arith);
  entry = λ p i n lt e.
      (let v = only_root p lt in
        let e' : some 0 ≡ some i = (rw v at e) in let w : i ≡ 0 = cc in rw w refl);
  once = λ p n lt. omega arith;
  found = λ p i n lt e u.
      (let v = only_root p lt in
        let e' : some 0 ≡ some i = (rw v at e) in
        let w : i ≡ 0 = cc in let u' = (rw w at u) in absurd (omega arith));
  refs = λ i e. elim (Bool-cases (i == 0)) [
    | inl s ↦ absurd (let e' = (rw s at e) in cc)
    | inr s ↦ absurd (let e' = (rw s at e) in cc)
  ];
}

-- With an inode and a block for the root, `__init__` raises nothing and gives a sound file system.
pub init-IsSound :
    (num_inodes num_data : ℕ)
    → 0 < num_inodes
    → 0 < num_data
    → (fs : Fs) × (init num_inodes num_data ≡ ok fs) × IsSound fs
unfolding init set_type add_dir_entry
init-IsSound ni nd lt lt' = (
  record {
    num_inodes = ni;
    num_data = nd;
    ibitmap = root_bitmap ni;
    inodes = assign 0 root_node blank_nodes;
    dbitmap = root_bitmap nd;
    blocks = assign 0 root_block blank_blocks;
    files = [];
    dirs = [] ∷ [];
    name_to_inum = root_names;
  },
  rw (init, mark_root ni lt, mark_root nd lt') refl,
  record {
    disk =
        both-IsDisk ni nd (Bitmap.empty ni) blank_nodes (Bitmap.empty nd) blank_blocks
          (blank-IsDisk ni nd) 0 0 root_node root_block (root_bitmap ni) (root_bitmap nd) lt lt'
          (root-IsBitSet ni lt) (root-IsBitSet nd lt') refl (λ e. absurd (cc)) (λ c e. absurd (cc))
          (λ j e. absurd (cc)) (λ c e. (ground arith, refl)) (λ e. refl) (λ e. absurd (cc))
          (λ e. refl);
    tree = root-IsTree;
  },
)

-- Every file system that requests make of a new one with an inode and a block at least, their draws in
-- range, is sound: the bitmaps, the types and the addresses of inodes and blocks agree, no block is lost
-- or owned twice, each path is in the directory of its parent and no other entry is, and a file has as
-- many references as paths.
pub Reached-IsSound :
    (num_inodes num_data : ℕ)
    → 0 < num_inodes
    → 0 < num_data
    → (fs : Fs) → Reached num_inodes num_data fs
    → IsSound fs
Reached-IsSound ni nd lt lt' fs (start e) =
    let (fs', f, h) = init-IsSound ni nd lt lt' in let s : fs' ≡ fs = cc in rw (← s) h
Reached-IsSound ni nd lt lt' fs (after {fs = fs0} r before i e) =
    let h = Reached-IsSound ni nd lt lt' fs0 before in
    let (fs', good, f, h') = request-IsSound fs0 r h i in let s : fs' ≡ fs = cc in rw (← s) h'
