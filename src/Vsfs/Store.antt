-- ===== src/Vsfs/Store.antt =====
-- The class `fs` of vsfs.py: the inodes, the blocks and the operations on paths.
use life.Prelude.{
  ℕ, ◌-◌, Bool, true, false, ◌&&◌, Option, none, some, List, [], ◌∷◌, leb, ltb, ◌==◌, if◌then◌else◌,
  Result, ok, raise, ◌>>=◌, assertion_error, index_error, key_error, value_error,
}
use life.Vsfs.Bitmap
use life.Vsfs.Bitmap.{Bitmap}
use life.Vsfs.Block.{
  FType, free, dir, file, is_dir, Name, dot, dotdot, named, Block, new_block, set_type, add_data,
  get_free_entries, add_dir_entry, del_dir_entry, dir_entry_exists, free_block, Inode, new_inode,
  set_all, inc_ref_cnt, dec_ref_cnt, get_size, free_node,
}

abbrev pub same_path : List ℕ → List ℕ → Bool
same_path [] [] = true
same_path [] (n ∷ q) = false
same_path (m ∷ p) [] = false
same_path (m ∷ p) (n ∷ q) = m == n && same_path p q

pub record Fs : Type 0 where
  pub num_inodes : ℕ
  pub num_data : ℕ
  pub ibitmap : Bitmap
  pub inodes : ℕ → Inode
  pub dbitmap : Bitmap
  pub blocks : ℕ → Block
  pub files : List (List ℕ)
  pub dirs : List (List ℕ)
  pub name_to_inum : List ℕ → Option ℕ

-- Indexing the lists of inodes and of blocks, and `self.nameToInum[name]`.
unfoldable pub inode_at : ℕ → Fs → Result Inode
inode_at i fs = if ltb i fs.num_inodes then ok (fs.inodes i) else raise index_error

unfoldable pub block_at : ℕ → Fs → Result Block
block_at b fs = if ltb b fs.num_data then ok (fs.blocks b) else raise index_error

unfoldable pub inum_of : List ℕ → Fs → Result ℕ
inum_of p fs = elim (fs.name_to_inum p) [ none ↦ raise key_error | some i ↦ ok i ]

abbrev pub put_inode : ℕ → Inode → Fs → Fs
put_inode i x fs = record fs { inodes = λ j. if j == i then x else fs.inodes j }

abbrev pub put_block : ℕ → Block → Fs → Fs
put_block b x fs = record fs { blocks = λ c. if c == b then x else fs.blocks c }

abbrev pub put_name : List ℕ → ℕ → Fs → Fs
put_name p i fs = record fs {
  name_to_inum = λ q. if same_path q p then some i else fs.name_to_inum q;
}

-- An address as an index of the list of blocks, where -1 is the last.
unfoldable pub index_of : Option ℕ → Fs → ℕ
index_of none fs = fs.num_data - 1
index_of (some b) fs = b

unfoldable pub inode_alloc : Fs → Fs × Option ℕ
inode_alloc fs = let (b, i) = Bitmap.alloc fs.ibitmap in (record fs { ibitmap = b }, i)

unfoldable pub data_alloc : Fs → Fs × Option ℕ
data_alloc fs = let (b, i) = Bitmap.alloc fs.dbitmap in (record fs { dbitmap = b }, i)

unfoldable pub inode_free : ℕ → Fs → Result Fs
inode_free i fs = do
  b ← Bitmap.free i fs.ibitmap
  x ← inode_at i fs
  ok (put_inode i (free_node x) (record fs { ibitmap = b }))

unfoldable pub data_free : ℕ → Fs → Result Fs
data_free n fs = do
  b ← Bitmap.free n fs.dbitmap
  x ← block_at n fs
  x' ← free_block x
  ok (put_block n x' (record fs { dbitmap = b }))

-- `__init__`
unfoldable pub init : ℕ → ℕ → Result Fs
init num_inodes num_data = do
  ibitmap ← Bitmap.mark_allocated 0 (Bitmap.empty num_inodes)
  dbitmap ← Bitmap.mark_allocated 0 (Bitmap.empty num_data)
  b1 ← set_type dir (new_block free)
  b2 ← add_dir_entry dot 0 b1
  b3 ← add_dir_entry dotdot 0 b2
  ok (record {
    num_inodes = num_inodes;
    num_data = num_data;
    ibitmap = ibitmap;
    inodes = λ i. if i == 0 then set_all dir (some 0) 2 else new_inode;
    dbitmap = dbitmap;
    blocks = λ b. if b == 0 then b3 else new_block free;
    files = [];
    dirs = [] ∷ [];
    name_to_inum = λ p. if same_path p [] then some 0 else none;
  })

unfoldable pub get_parent : List ℕ → List ℕ
get_parent [] = []
get_parent (n ∷ p) = p

-- The last name of a path; that of '/' is empty, which no entry has.
unfoldable pub last_name : List ℕ → Option Name
last_name [] = none
last_name (n ∷ p) = some (named n)

-- `self.files.remove(path)`
unfoldable pub remove_path : List ℕ → List (List ℕ) → Result (List (List ℕ))
remove_path p [] = raise value_error
remove_path p (q ∷ l) = if same_path q p then ok l else (remove_path p l >>= λ l'. ok (q ∷ l'))

-- The first half of `deleteFile`: the inode loses a name, and is freed with its block if it was the last.
unfoldable pub unlink_inode : ℕ → Inode → Fs → Result Fs
unlink_inode inum node fs =
    if node.ref_cnt == 1
    then (do fs' ← elim node.addr [ none ↦ ok fs | some b ↦ data_free b fs ]; inode_free inum fs')
    else ok (put_inode inum (dec_ref_cnt node) fs)

-- An entry is taken out of a block.
unfoldable pub drop_name : ℕ → Option Name → Fs → Result Fs
drop_name b name fs = do
  x ← block_at b fs
  x' ← elim name [ none ↦ raise assertion_error | some n ↦ del_dir_entry n x ]
  ok (put_block b x' fs)

unfoldable pub delete_file : List ℕ → Fs → Result Fs
delete_file tfile fs = do
  inum ← inum_of tfile fs
  node ← inode_at inum fs
  fs1 ← unlink_inode inum node fs
  pinum ← inum_of (get_parent tfile) fs1
  pnode ← inode_at pinum fs1
  let fs2 = if is_dir node.ftype then put_inode pinum (dec_ref_cnt pnode) fs1 else fs1
  fs3 ← drop_name (index_of pnode.addr fs1) (last_name tfile) fs2
  files ← remove_path tfile fs3.files
  ok (record fs3 { files = files })

-- Whether the parent directory has room and no entry of the name, and its block.
unfoldable pub has_room : List ℕ → ℕ → Fs → Result (Bool × ℕ × ℕ)
has_room parent name fs = do
  pinum ← inum_of parent fs
  pnode ← inode_at pinum fs
  let pblock = index_of pnode.addr fs
  x ← block_at pblock fs
  n ← get_free_entries x
  if leb n 0
      then ok (false, pinum, pblock)
      else (dir_entry_exists (named name) x >>= λ exists.
          ok (if exists then false else true, pinum, pblock))

unfoldable pub add_name : ℕ → Name → ℕ → Fs → Result Fs
add_name b name inum fs = do
  x ← block_at b fs
  x' ← add_dir_entry name inum x
  ok (put_block b x' fs)

-- `createLink`; the result is the inode, or -1.
unfoldable pub create_link : List ℕ → ℕ → List ℕ → Fs → Result (Fs × Option ℕ)
create_link target newfile parent fs = do
  (room, pinum, pblock) ← has_room parent newfile fs
  let link : Result (Fs × Option ℕ) = (do
    tinum ← inum_of target fs
    node ← inode_at tinum fs
    fs' ← add_name pblock (named newfile) tinum (put_inode tinum (inc_ref_cnt node) fs)
    ok (fs', some tinum))
  if room then link else ok (fs, none)

-- The block of a new directory.
unfoldable pub make_dir : ℕ → ℕ → ℕ → Fs → Result Fs
make_dir fblock inum parent_inum fs = do
  x ← block_at fblock fs
  x1 ← set_type dir x
  x2 ← add_dir_entry dot inum x1
  x3 ← add_dir_entry dotdot parent_inum x2
  ok (put_block fblock x3 fs)

-- The last lines of `createFile`.
unfoldable pub finish_create : FType → Option ℕ → ℕ → ℕ → ℕ → ℕ → ℕ → Fs → Result (Fs × Option ℕ)
finish_create ftype fblock ref_cnt inum parent_inum pblock newfile fs = do
  old ← inode_at inum fs
  let fs1 = put_inode inum (set_all ftype fblock ref_cnt) fs
  pnode ← inode_at parent_inum fs1
  let fs2 = if is_dir ftype then put_inode parent_inum (inc_ref_cnt pnode) fs1 else fs1
  fs3 ← add_name pblock (named newfile) inum fs2
  ok (fs3, some inum)

unfoldable pub create_dir : ℕ → ℕ → ℕ → ℕ → Fs → Result (Fs × Option ℕ)
create_dir inum parent_inum pblock newfile fs =
    let (fs1, found) = data_alloc fs in
    elim found [
      | none ↦ do fs2 ← inode_free inum fs1; ok (fs2, none)
      | some fblock ↦ do
        fs2 ← make_dir fblock inum parent_inum fs1
        finish_create dir (some fblock) 2 inum parent_inum pblock newfile fs2
    ]

unfoldable pub create_file : List ℕ → ℕ → FType → Fs → Result (Fs × Option ℕ)
create_file parent newfile ftype fs = do
  (room, parent_inum, pblock) ← has_room parent newfile fs
  let (fs1, found) = inode_alloc fs
  let create : Result (Fs × Option ℕ) = elim found [
    | none ↦ ok (fs1, none)
    | some inum ↦
        if is_dir ftype
        then create_dir inum parent_inum pblock newfile fs1
        else finish_create ftype none 1 inum parent_inum pblock newfile fs1
  ]
  if room then create else ok (fs, none)

unfoldable pub write_file : List ℕ → ℕ → Fs → Result (Fs × Bool)
write_file tfile value fs = do
  inum ← inum_of tfile fs
  node ← inode_at inum fs
  let (fs1, found) = data_alloc fs
  let write : Result (Fs × Bool) = elim found [
    | none ↦ ok (fs1, false)
    | some fblock ↦ do
      x ← block_at fblock fs1
      x1 ← set_type file x
      x2 ← add_data value x1
      ok (put_inode inum (record node { addr = some fblock }) (put_block fblock x2 fs1), true)
  ]
  if get_size node == 1 then ok (fs, false) else write
