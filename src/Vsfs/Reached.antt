-- ===== src/Vsfs/Reached.antt =====
-- The file system of vsfs.py from `__init__` on, through the requests that `run` makes.
use life.Prelude.{
  ℕ, ◌<◌, ◌≡◌, ◌≢◌, ◌⊎◌, refl, ◌∙◌, inl, inr, Bool, true, false, Bool-cases, List, [], ◌∷◌, length,
  get_elem?-some, ◌==◌, Result, ok, ◌>>=◌, arith,
}
use life.Vsfs.Block.{free, file}
use life.Vsfs.Store.{Fs, create_link, delete_file, write_file, init}
use life.Vsfs.Requests.{
  Request, append, delete, link, create, pick, with_file, do_append, do_delete, do_link, do_create,
  named_at, request,
}
use life.Vsfs.Paths.{times, get_elem?-times}
use life.Vsfs.Views.{IsSound}
use life.Vsfs.Written.{write_file-IsSound}
use life.Vsfs.Deleted.{delete_file-IsSound}
use life.Vsfs.Created.{create_link-IsSound}
use life.Vsfs.Files.{create_file-IsSound}

-- What the draws of a request are: places in the lists as they are, where there is one.
abbrev pub InRange : Request → Fs → Type 0
InRange (append k value) fs = 0 < length fs.files → k < length fs.files
InRange (delete k) fs = 0 < length fs.files → k < length fs.files
InRange (link kparent name ktarget) fs =
    (kparent < length fs.dirs) × (0 < length fs.files → ktarget < length fs.files)
InRange (create ftype kparent name) fs = (ftype ≢ free) × (kparent < length fs.dirs)

pick-times :
    (l : List (List ℕ)) (k : ℕ) → k < length l → (p : List ℕ) × (pick l k ≡ ok p) × (0 < times p l)
unfolding pick
pick-times l k lt =
    let (p, e) = get_elem?-some l k lt in (p, rw (pick, e) refl, get_elem?-times l k p e)

with_file-cases :
    (k : ℕ) (call : List ℕ → Fs → Result (Fs × Bool)) (fs : Fs)
    → (0 < length fs.files → k < length fs.files)
    → (with_file k call fs ≡ ok (fs, false))
      ⊎ ((p : List ℕ) × (0 < times p fs.files) × (with_file k call fs ≡ call p fs))
unfolding with_file
with_file-cases k call fs h = elim (Bool-cases (length fs.files == 0)) [
  | inl e ↦ inl (rw (with_file, e) refl)
  | inr e ↦
      let (p, g, lt) = pick-times fs.files k (ground arith) in
      inr (p, lt, rw (with_file, e, g) refl)
]

-- A request whose draws are in range raises nothing and leaves a sound file system sound: the bitmaps,
-- the types and the addresses of inodes and blocks agree, no block is lost or owned twice, each path
-- is in the directory of its parent and no other entry is, and a file has as many references as paths.
pub request-IsSound :
    (fs : Fs) (r : Request)
    → IsSound fs
    → InRange r fs
    → (fs' : Fs) × (good : Bool) × (request r fs ≡ ok (fs', good)) × IsSound fs'
unfolding request do_append do_delete do_link do_create
request-IsSound fs (append k value) h i = elim (with_file-cases k (λ p. write_file p value) fs i) [
  | inl e ↦ (fs, false, e, h)
  | inr (p, lt, e) ↦
      let (fs', good, f, s) = write_file-IsSound fs h p value lt in (fs', good, e ∙ f, s)
]
request-IsSound fs (delete k) h i =
    elim (with_file-cases k (λ p fs. delete_file p fs >>= λ fs'. ok (fs', true)) fs i) [
      | inl e ↦ (fs, false, e, h)
      | inr ([], lt, e) ↦ absurd (omega (arith, h.tree.no_root))
      | inr (n ∷ q, lt, e) ↦
          let (fs', f, s) = delete_file-IsSound fs h n q lt in (fs', true, e ∙ rw f refl, s)
    ]
request-IsSound fs (link kparent name ktarget) h (i, j) =
    let (parent, e, lt) = pick-times fs.dirs kparent i in
    elim (with_file-cases ktarget
      (λ target fs. do
        parent ← pick fs.dirs kparent
        r ← create_link target name parent fs
        ok (named_at file (name ∷ parent) r))
      fs j) [
        | inl f ↦ (fs, false, f, h)
        | inr (target, lt', f) ↦
            let (fs', o, g, s) = create_link-IsSound fs h target parent name lt' lt in
            let r = named_at file (name ∷ parent) (fs', o) in (r.0, r.1, f ∙ rw (e, g) refl, s)
      ]
request-IsSound fs (create ftype kparent name) h (typed, i) =
    let (parent, e, lt) = pick-times fs.dirs kparent i in
    let (fs', o, g, s) = create_file-IsSound fs h ftype parent name typed lt in
    let r = named_at ftype (name ∷ parent) (fs', o) in
    (r.0, r.1, rw (request, do_create, e, g) refl, s)

-- `fs(numInodes, numData)` and what the requests make of it.
pub data Reached (num_inodes num_data : ℕ) : Fs → Type 0 where
  start : {fs : Fs} → init num_inodes num_data ≡ ok fs → Reached num_inodes num_data fs
  after :
      {fs fs' : Fs} {good : Bool} (r : Request)
      → Reached num_inodes num_data fs
      → InRange r fs
      → request r fs ≡ ok (fs', good)
      → Reached num_inodes num_data fs'
