-- ===== src/Raid/Requests/Plan.antt =====
-- The accesses that a request to RAID 0 or 1 comes to, as a list that does not depend on the disks: what
-- the loops of raid.py do is to perform it.
use life.Prelude.{
  ℕ, zero, suc, ◌+◌, ◌*◌, ◌%◌, ◌<◌, ◌≡◌, ap, refl, Bool, true, false, List, [], ◌∷◌, ◌++◌, map, All,
  Result, ok, ◌>>=◌, Result-cases, inl, inr,
}
use mathlib.Core.Path.{fun_ext}
use life.Raid.Layout.{Geometry}
use life.Raid.Layout.Striping.{unmap, bmap0_bijective}
use life.Raid.Requests.{Access, Raid, do_single, enqueue0}
use life.Raid.Requests.Tiling.{range}

-- The accesses of a list, one after the other; one that raises ends the request.
unfoldable pub perform : List Access → Raid → Result Raid
perform [] r = ok r
perform (a ∷ l) r = do_single a.is_write a.disk a.off r >>= perform l

abbrev pub access : Bool → ℕ × ℕ → Access
access w (d, o) = record { is_write = w; disk = d; off = o }

pub perform-append :
    (xs ys : List Access) (r : Raid) → perform (xs ++ ys) r ≡ (perform xs r >>= perform ys)
unfolding perform
perform-append [] ys r = refl
perform-append (a ∷ xs) ys r = elim (Result-cases (do_single a.is_write a.disk a.off r)) [
  | inl (r', e) ↦ rw e (perform-append xs ys r')
  | inr (x, e) ↦ rw e
]

-- The places, on `n` disks that are striped in chunks of `c`, of the `size` blocks from `addr` on.
pub record IsPlaced (c n addr size : ℕ) (places : List (ℕ × ℕ)) : Type 0 where
  pub blocks : map (λ p. unmap c n p.0 p.1) places ≡ range addr size
  pub inside : All (λ p. p.0 < n) places

placed :
    (c n addr size d o : ℕ) (places : List (ℕ × ℕ))
    → d < n
    → unmap c n d o ≡ addr
    → IsPlaced c n (addr + 1) size places
    → IsPlaced c n addr (suc size) ((d, o) ∷ places)
placed c n addr size d o places lt e h = record {
  blocks = cc (e, h.blocks);
  inside = (lt, h.inside);
}

-- RAID 0 with at least one disk and a positive chunk size: whatever the disks have done, a request is one
-- access to the place of each of its blocks, in order. A place is a disk of the array and an offset
-- there, from which the block is computed back.
pub enqueue0_plan :
    (g : Geometry) (w : Bool) (addr size : ℕ)
    → 0 < g.chunk_size
    → 0 < g.num_disks
    → (places : List (ℕ × ℕ)) × IsPlaced g.chunk_size g.num_disks addr size places
      × ((r : Raid) → enqueue0 g w addr size r ≡ perform (map (access w) places) r)
unfolding enqueue0 perform
enqueue0_plan g w addr zero pc pn = ([], record { blocks = refl; inside = tt }, λ r. refl)
enqueue0_plan g w addr (suc size) pc pn =
    let (d, o, e, lt, u) = (bmap0_bijective g pc pn).0 addr in
    let (places, h, f) = enqueue0_plan g w (addr + 1) size pc pn in
    (
      (d, o) ∷ places,
      placed g.chunk_size g.num_disks addr size d o places lt u h,
      λ r. rw (enqueue0, e) (ap (λ k. do_single w d o r >>= k) (fun_ext f)),
    )

-- The accesses to the copies of blocks on pairs of disks: a write accesses both, a read the first at an
-- even offset and the second at an odd one.
abbrev pub copies : Bool → List (ℕ × ℕ) → List Access
copies w [] = []
copies true ((k, o) ∷ l) = access true (2 * k, o) ∷ access true (2 * k + 1, o) ∷ copies true l
copies false ((k, o) ∷ l) = access false (2 * k + o % 2, o) ∷ copies false l
