-- ===== src/Raid/Requests/Total.antt =====
-- Accesses to disks of the array, below their capacity, raise nothing and are counted.
use life.Prelude.{
  ℕ, zero, suc, ◌<◌, ◌≡◌, ◌∙◌, sym, refl, ap, List, [], ◌∷◌, ◌++◌, append_assoc, append-nil, All,
  length, get_elem?, set, some, ok, arith,
}
use life.Raid.Disk.{Disk, IsCounted, enqueue-IsCounted, blocks_per_disk}
use life.Raid.Requests.{Access, Raid, do_single}
use life.Raid.Requests.Plan.{perform}

abbrev pub IsPossible : Raid → Access → Type 0
IsPossible r a = (a.disk < length r.disks) × (a.off < blocks_per_disk)

length-set : (ds : List Disk) (i : ℕ) (d : Disk) → length (set ds i d) ≡ length ds
length-set [] i d = refl
length-set (x ∷ ds) zero d = refl
length-set (x ∷ ds) (suc i) d = ap suc (length-set ds i d)

All-set :
    (ds : List Disk) (i : ℕ) (d : Disk)
    → All IsCounted ds
    → IsCounted d
    → All IsCounted (set ds i d)
All-set [] i d p q = tt
All-set (x ∷ ds) zero d p q = (q, p.1)
All-set (x ∷ ds) (suc i) d p q = (p.0, All-set ds i d p.1 q)

element :
    (ds : List Disk) (i : ℕ)
    → i < length ds
    → All IsCounted ds
    → (d : Disk) × (get_elem? ds i ≡ some d) × IsCounted d
element [] i h p = absurd (omega arith)
element (x ∷ ds) zero h p = (x, refl, p.0)
element (x ∷ ds) (suc i) h p = element ds i (omega arith) p.1

do_single-total :
    (a : Access) (r : Raid)
    → IsPossible r a
    → All IsCounted r.disks
    → (r' : Raid) × (do_single a.is_write a.disk a.off r ≡ ok r')
      × (length r'.disks ≡ length r.disks)
      × (r'.physical ≡ r.physical ++ a ∷ [])
      × All IsCounted r'.disks
unfolding do_single
do_single-total a r p c =
    let (d, e, q) = element r.disks a.disk p.0 c in
    let (d', f, q', h, k, m, z) = enqueue-IsCounted d a.off p.1 q in
    (
      record r { disks = set r.disks a.disk d'; physical = r.physical ++ a ∷ [] },
      rw (do_single, e, f),
      length-set r.disks a.disk d',
      refl,
      All-set r.disks a.disk d' c q',
    )

IsPossible-later :
    (r r' : Raid) (l : List Access)
    → length r'.disks ≡ length r.disks
    → All (IsPossible r) l
    → All (IsPossible r') l
IsPossible-later r r' [] e p = tt
IsPossible-later r r' (a ∷ l) e p = ((omega arith, p.0.1), IsPossible-later r r' l e p.1)

-- A list of accesses to disks that are there, below their capacity, on an array whose disks have
-- consistent counts: none raises, they are what is printed, in order, and the counts stay
-- consistent.
pub perform-total :
    (l : List Access) (r : Raid)
    → All (IsPossible r) l
    → All IsCounted r.disks
    → (r' : Raid) × (perform l r ≡ ok r') × (r'.physical ≡ r.physical ++ l) × All IsCounted r'.disks
unfolding perform
perform-total [] r p c = (r, refl, sym (append-nil r.physical), c)
perform-total (a ∷ l) r p c =
    let (s, e, n, h, d) = do_single-total a r p.0 c in
    let (r', f, k, q) = perform-total l s (IsPossible-later r s l n p.1) d in
    (r', rw e f, k ∙ ap (λ x. x ++ l) h ∙ append_assoc r.physical (a ∷ []) l, q)
