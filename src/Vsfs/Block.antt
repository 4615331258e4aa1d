-- ===== src/Vsfs/Block.antt =====
-- The classes `block` and `inode` of vsfs.py.
use life.Prelude.{
  ℕ, ◌+◌, ◌-◌, Bool, true, false, Option, none, some, List, [], ◌∷◌, ◌++◌, leb, ◌==◌, if◌then◌else◌,
  Result, ok, raise, assertion_error,
}

-- 'free', 'd' and 'f'
pub data FType : Type 0 where
  free dir file : FType

abbrev pub is_dir : FType → Bool
is_dir dir = true
is_dir free = false
is_dir file = false

abbrev pub is_file : FType → Bool
is_file file = true
is_file free = false
is_file dir = false

abbrev pub is_free : FType → Bool
is_free free = true
is_free dir = false
is_free file = false

-- The name of an entry of a directory.
pub data Name : Type 0 where
  dot dotdot : Name
  named : ℕ → Name

abbrev pub same_name : Name → Name → Bool
same_name dot dot = true
same_name dotdot dotdot = true
same_name (named m) (named n) = m == n
same_name dot dotdot = false
same_name dot (named n) = false
same_name dotdot dot = false
same_name dotdot (named n) = false
same_name (named m) dot = false
same_name (named m) dotdot = false

pub record Block : Type 0 where
  pub ftype : FType
  pub dir_used : ℕ
  pub dir_list : List (Name × ℕ)
  pub contents : Option ℕ

abbrev pub max_used : ℕ
max_used = 32

-- `__init__`
abbrev pub new_block : FType → Block
new_block t = record { ftype = t; dir_used = 0; dir_list = []; contents = none }

unfoldable pub set_type : FType → Block → Result Block
set_type t b = if is_free b.ftype then ok (record b { ftype = t }) else raise assertion_error

unfoldable pub add_data : ℕ → Block → Result Block
add_data value b =
    if is_file b.ftype then ok (record b { contents = some value }) else raise assertion_error

unfoldable pub get_free_entries : Block → Result ℕ
get_free_entries b = if is_dir b.ftype then ok (max_used - b.dir_used) else raise assertion_error

unfoldable pub add_dir_entry : Name → ℕ → Block → Result Block
add_dir_entry name inum b =
    let b' : Block = record b {
      dir_list = b.dir_list ++ (name, inum) ∷ [];
      dir_used = b.dir_used + 1;
    } in
    if is_dir b.ftype
    then if leb b'.dir_used max_used then ok b' else raise assertion_error
    else raise assertion_error

-- The loop of `dir_entry_exists`.
unfoldable pub has_entry : Name → List (Name × ℕ) → Bool
has_entry name [] = false
has_entry name ((n, inum) ∷ l) = if same_name n name then true else has_entry name l

-- The loop of `del_dir_entry`, where the entry is there.
unfoldable pub drop_entry : Name → List (Name × ℕ) → List (Name × ℕ)
drop_entry name [] = []
drop_entry name ((n, inum) ∷ l) = if same_name n name then l else (n, inum) ∷ drop_entry name l

unfoldable pub del_dir_entry : Name → Block → Result Block
del_dir_entry name b =
    if is_dir b.ftype
    then if has_entry name b.dir_list
      then ok (record b { dir_list = drop_entry name b.dir_list; dir_used = b.dir_used - 1 })
      else raise assertion_error
    else raise assertion_error

unfoldable pub dir_entry_exists : Name → Block → Result Bool
dir_entry_exists name b =
    if is_dir b.ftype then ok (has_entry name b.dir_list) else raise assertion_error

-- `block.free`, which keeps the list of entries.
unfoldable pub free_block : Block → Result Block
free_block b = elim b.ftype [
  | free ↦ raise assertion_error
  | file ↦ ok (record b { contents = none; ftype = free })
  | dir ↦
      if b.dir_used == 2
      then ok (record b { dir_used = 0; contents = none; ftype = free })
      else raise assertion_error
]

pub record Inode : Type 0 where
  pub ftype : FType
  pub addr : Option ℕ
  pub ref_cnt : ℕ

abbrev pub new_inode : Inode
new_inode = record { ftype = free; addr = none; ref_cnt = 1 }

abbrev pub set_all : FType → Option ℕ → ℕ → Inode
set_all t addr ref_cnt = record { ftype = t; addr = addr; ref_cnt = ref_cnt }

abbrev pub inc_ref_cnt : Inode → Inode
inc_ref_cnt i = record i { ref_cnt = i.ref_cnt + 1 }

abbrev pub dec_ref_cnt : Inode → Inode
dec_ref_cnt i = record i { ref_cnt = i.ref_cnt - 1 }

unfoldable pub get_size : Inode → ℕ
get_size i = elim i.addr [ none ↦ 0 | some b ↦ 1 ]

-- `inode.free`
abbrev pub free_node : Inode → Inode
free_node i = record i { ftype = free; addr = none }
