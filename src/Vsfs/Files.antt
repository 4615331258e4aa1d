-- ===== src/Vsfs/Files.antt =====
-- `createFile` of vsfs.py keeps a sound file system sound, with the path that `doCreate` adds.
use life.Prelude.{ℕ, ◌<◌, ◌≡◌, ◌≢◌, refl, inl, inr, Bool-cases, Option, none, some, List, ◌∷◌, ok}
use life.Vsfs.Alloc.{alloc_lem}
use life.Vsfs.Block.{FType, free, dir, file}
use life.Vsfs.Store.{Fs, create_file}
use life.Vsfs.Requests.{named_at}
use life.Vsfs.Paths.{times}
use life.Vsfs.Views.{IsSound}
use life.Vsfs.Written.{dir_of, inode_alloc-alloc}
use life.Vsfs.Attached.{has_room-ok}
use life.Vsfs.Created.{finish_file}
use life.Vsfs.Directories.{made}

module _ (fs : Fs) (h : IsSound fs) where
  pub create_file-IsSound :
      (ftype : FType) (parent : List ℕ) (n : ℕ)
      → ftype ≢ free
      → 0 < times parent fs.dirs
      → (fs' : Fs) × (o : Option ℕ) × (create_file parent n ftype fs ≡ ok (fs', o))
        × IsSound (named_at ftype (n ∷ parent) (fs', o)).0
  unfolding create_file named_at
  create_file-IsSound free parent n typed lt = absurd (typed refl)
  create_file-IsSound file parent n typed lt =
      let at = dir_of fs h parent lt in
      let (room, e, spare) = has_room-ok fs parent at n in
      elim (Bool-cases room) [
        | inr f ↦ (fs, none, rw (create_file, e, f) refl, h)
        | inl f ↦
            let (less, unused) = spare f in
            elim (alloc_lem fs.ibitmap h.disk.inode_count) [
              | inl (a, z) ↦
                  let (g, g') = inode_alloc-alloc fs fs.ibitmap none a in
                  (fs, none, rw (create_file, e, f, g, g') refl, h)
              | inr (k, ibitmap, a, pos, s) ↦
                  let (g, g') = inode_alloc-alloc fs ibitmap (some k) a in
                  let (fs', e', sound) = finish_file fs h parent n lt at k ibitmap s less unused in
                  (fs', some k, rw (create_file, e, f, g, g', e') refl, sound)
            ]
      ]
  create_file-IsSound dir parent n typed lt =
      let at = dir_of fs h parent lt in
      let (room, e, spare) = has_room-ok fs parent at n in
      elim (Bool-cases room) [
        | inr f ↦ (fs, none, rw (create_file, e, f) refl, h)
        | inl f ↦
            let (less, unused) = spare f in
            elim (alloc_lem fs.ibitmap h.disk.inode_count) [
              | inl (a, z) ↦
                  let (g, g') = inode_alloc-alloc fs fs.ibitmap none a in
                  (fs, none, rw (create_file, e, f, g, g') refl, h)
              | inr (k, ibitmap, a, pos, s) ↦
                  let (g, g') = inode_alloc-alloc fs ibitmap (some k) a in
                  let (fs', o, e', sound) = made fs h parent n lt at k ibitmap s less unused in
                  (fs', o, rw (create_file, e, f, g, g', e') refl, sound)
            ]
      ]
