-- ===== src/Vsfs/Requests.antt =====
-- The requests that `fs.run` makes: `doAppend`, `doDelete`, `doLink` and `doCreate`. What a call draws
-- (which file, directory, name and value) is in the request. A call gives whether it returned 0.
use life.Prelude.{
  ℕ, zero, suc, Bool, true, false, Option, none, some, List, [], ◌∷◌, ◌++◌, length, get_elem?, ◌==◌,
  if◌then◌else◌, Result, ok, raise, ◌>>=◌, index_error, system_exit, timeout,
}
use life.Vsfs.Bitmap.{num_free}
use life.Vsfs.Block.{FType, free, dir, file}
use life.Vsfs.Store.{Fs, put_name, delete_file, create_link, create_file, write_file}

pub data Request : Type 0 where
  append : ℕ → ℕ → Request
  delete : ℕ → Request
  link : ℕ → ℕ → ℕ → Request
  create : FType → ℕ → ℕ → Request

unfoldable pub pick : List (List ℕ) → ℕ → Result (List ℕ)
pick l k = elim (get_elem? l k) [ none ↦ raise index_error | some p ↦ ok p ]

-- A call on a file that is picked; without files it fails.
unfoldable pub with_file : ℕ → (List ℕ → Fs → Result (Fs × Bool)) → Fs → Result (Fs × Bool)
with_file k call fs =
    if length fs.files == 0 then ok (fs, false) else (pick fs.files k >>= λ p. call p fs)

unfoldable pub do_append : ℕ → ℕ → Fs → Result (Fs × Bool)
do_append k value = with_file k (λ p. write_file p value)

unfoldable pub do_delete : ℕ → Fs → Result (Fs × Bool)
do_delete k = with_file k (λ p fs. delete_file p fs >>= λ fs'. ok (fs', true))

-- The new path in the list of files or of directories, and its inode.
unfoldable pub add_path : FType → List ℕ → ℕ → Fs → Fs
add_path file p inum fs = put_name p inum (record fs { files = fs.files ++ p ∷ [] })
add_path dir p inum fs = put_name p inum (record fs { dirs = fs.dirs ++ p ∷ [] })
add_path free p inum fs = put_name p inum (record fs { files = fs.files ++ p ∷ [] })

unfoldable pub named_at : FType → List ℕ → Fs × Option ℕ → Fs × Bool
named_at ftype p (fs, none) = (fs, false)
named_at ftype p (fs, some inum) = (add_path ftype p inum fs, true)

unfoldable pub do_link : ℕ → ℕ → ℕ → Fs → Result (Fs × Bool)
do_link kparent name ktarget fs =
    with_file ktarget
      (λ target fs. do
        parent ← pick fs.dirs kparent
        r ← create_link target name parent fs
        ok (named_at file (name ∷ parent) r))
      fs

unfoldable pub do_create : FType → ℕ → ℕ → Fs → Result (Fs × Bool)
do_create ftype kparent name fs = do
  parent ← pick fs.dirs kparent
  r ← create_file parent name ftype fs
  ok (named_at ftype (name ∷ parent) r)

unfoldable pub request : Request → Fs → Result (Fs × Bool)
request (append k value) fs = do_append k value fs
request (delete k) fs = do_delete k fs
request (link kparent name ktarget) fs = do_link kparent name ktarget fs
request (create ftype kparent name) fs = do_create ftype kparent name fs

-- A turn of the inner loop of `run`: a request, and the exit when inodes or blocks are used up.
unfoldable pub attempt : Request → Fs → Result (Fs × Bool)
attempt r fs = do
  (fs', done) ← request r fs
  if num_free fs'.ibitmap == 0
      then raise system_exit
      else if num_free fs'.dbitmap == 0
      then raise system_exit
      else ok (fs', done)

-- `run`: so many requests that succeed, out of those that are tried.
unfoldable pub run : ℕ → List Request → Fs → Result Fs
run zero rs fs = ok fs
run (suc n) [] fs = raise timeout
run (suc n) (r ∷ rs) fs =
    (attempt r fs >>= λ (fs', done).
    let next = run n rs fs' in let again = run (suc n) rs fs' in if done then next else again)
