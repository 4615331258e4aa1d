-- ===== src/Vsfs/Tests.antt =====
-- Runs of vsfs.py's file system on small workloads, and the theorems applied there.
use life.Prelude.{
  ℕ, ◌<◌, ◌≡◌, ◌≢◌, ◌⊎◌, refl, Bool, true, false, Option, none, some, List, [], ◌∷◌, length, ◌==◌,
  if◌then◌else◌, Result, ok, raise, ◌>>=◌, system_exit, arith,
}
use life.Vsfs.Bitmap
use life.Vsfs.Bitmap.{Bitmap, set_bit}
use life.Vsfs.Alloc.{alloc_lem, Allocated}
use life.Vsfs.Block.{
  free, dir, file, Name, set_all, new_inode, new_block, dot, dotdot, named, set_type, add_data,
  get_free_entries, add_dir_entry, has_entry, drop_entry, del_dir_entry, dir_entry_exists,
  free_block, get_size,
}
use life.Vsfs.Store.{
  Fs, same_path, inode_at, block_at, inum_of, index_of, inode_alloc, data_alloc, inode_free,
  data_free, init, get_parent, last_name, remove_path, unlink_inode, drop_name, delete_file,
  has_room, add_name, create_link, make_dir, finish_create, create_dir, create_file, write_file,
}
use life.Vsfs.Requests.{
  Request, append, delete, link, create, pick, with_file, do_append, do_delete, add_path, named_at,
  do_link, do_create, request, attempt, run,
}
use life.Vsfs.Views.{IsSound}
use life.Vsfs.Reached.{Reached, start, after, request-IsSound}
use life.Vsfs.Formatted.{Reached-IsSound}

workload : Unit {0}
unfolding Bitmap.first_free Bitmap.alloc Bitmap.free Bitmap.mark_allocated Bitmap.num_free set_type
    add_data get_free_entries add_dir_entry has_entry drop_entry del_dir_entry dir_entry_exists
    free_block get_size inode_at block_at inum_of index_of inode_alloc data_alloc inode_free
    data_free init get_parent last_name remove_path unlink_inode drop_name delete_file has_room
    add_name create_link make_dir finish_create create_dir create_file write_file pick with_file
    do_append do_delete add_path named_at do_link do_create request attempt run
workload = tt

-- mkdir /1, creat /1/2, a write to it, link /3 to it, unlink /1/2
abbrev requests : List Request
requests = create dir 0 1 ∷ create file 1 2 ∷ append 0 7 ∷ link 0 3 0 ∷ delete 0 ∷ []

abbrev root_entries : ℕ → List Request → Result (List (Name × ℕ))
root_entries inodes rs =
    init inodes 4 >>= λ fs. (run (length rs) rs fs >>= λ fs'. ok (fs'.blocks 0).dir_list)

abbrev references : ℕ → Result (ℕ × Option ℕ)
references i = init 4 4 >>= λ fs.
    (run 5 requests fs >>= λ fs'. ok ((fs'.inodes i).ref_cnt, (fs'.inodes i).addr))

linked_entries :
    root_entries 4 requests ≡ ok ((dot, 0) ∷ (dotdot, 0) ∷ (named 1, 1) ∷ (named 3, 2) ∷ [])
unfolding workload
linked_entries = refl

-- The file is left with one reference and its block.
linked_references : references 2 ≡ ok (1, some 2)
unfolding workload
linked_references = refl

root_references : references 0 ≡ ok (3, some 0)
unfolding workload
root_references = refl

-- The last inode is handed out, and the program ends.
out_of_inodes : root_entries 3 requests ≡ raise system_exit
unfolding workload
out_of_inodes = refl

-- A name that is there is refused, and another request is tried.
refused_name :
    (init 4 4 >>= λ fs.
    (run 1 (create file 0 1 ∷ []) fs >>= λ fs'. (request (create dir 0 1) fs' >>= λ r. ok r.1)))
    ≡ ok false
unfolding workload
refused_name = refl

-- What a call leaves, where it raises nothing.
abbrev left_by : Request → Fs → Fs
left_by r fs = elim (request r fs) [ ok (fs', good) ↦ fs' | raise e ↦ fs ]

abbrev root_bitmap : Bitmap
root_bitmap = record { size = 4; bmap = set_bit 0 true (λ i. false); num_allocated = 1 }

abbrev formatted : Fs
formatted = record {
  num_inodes = 4;
  num_data = 4;
  ibitmap = root_bitmap;
  inodes = λ i. if i == 0 then set_all dir (some 0) 2 else new_inode;
  dbitmap = root_bitmap;
  blocks = λ b.
      if b == 0
      then record {
        ftype = dir;
        dir_used = 2;
        dir_list = (dot, 0) ∷ (dotdot, 0) ∷ [];
        contents = none;
      }
      else new_block free;
  files = [];
  dirs = [] ∷ [];
  name_to_inum = λ p. if same_path p [] then some 0 else none;
}

abbrev with_dir : Fs
with_dir = left_by (create dir 0 1) formatted

abbrev with_file_in_it : Fs
with_file_in_it = left_by (create file 1 2) with_dir

dir_typed : dir ≢ free
dir_typed e = cc

file_typed : file ≢ free
file_typed e = cc

with_dir-Reached : Reached 4 4 with_dir
unfolding workload
with_dir-Reached =
    after (create dir 0 1) (start {fs = formatted} refl) (dir_typed, omega arith) refl

with_file-Reached : Reached 4 4 with_file_in_it
unfolding workload
with_file-Reached = after (create file 1 2) with_dir-Reached (file_typed, omega arith) refl

with_dir-IsSound : IsSound with_dir
with_dir-IsSound = Reached-IsSound 4 4 (omega arith) (omega arith) with_dir with_dir-Reached

Reached-IsSound_example : IsSound with_file_in_it
Reached-IsSound_example =
    Reached-IsSound 4 4 (omega arith) (omega arith) with_file_in_it with_file-Reached

request-IsSound_example :
    (fs' : Fs) × (good : Bool) × (request (create file 1 2) with_dir ≡ ok (fs', good)) × IsSound fs'
unfolding workload
request-IsSound_example =
    request-IsSound with_dir (create file 1 2) with_dir-IsSound (file_typed, omega arith)

-- The counter of a new bitmap of 4 is the number of taken entries.
alloc_lem_example :
    ((Bitmap.alloc root_bitmap ≡ (root_bitmap, none)) × (Bitmap.num_free root_bitmap ≡ 0))
    ⊎ ((k : ℕ) × (b' : Bitmap) × (Bitmap.alloc root_bitmap ≡ (b', some k))
        × (0 < Bitmap.num_free root_bitmap)
        × Allocated root_bitmap k b')
alloc_lem_example = alloc_lem root_bitmap refl
