-- ===== src/Raid/Requests/Writes.antt =====
-- The accesses that a request to RAID 4 or 5 comes to, as a list that does not depend on the disks.
use life.Prelude.{
  ℕ, zero, suc, ◌+◌, ◌-◌, ◌*◌, ◌/◌, ◌<◌, ◌≤◌, ◌≡◌, ◌∙◌, sym, ap, refl, Bool, true, false, List, [],
  ◌∷◌, ◌++◌, map, leb, ltb, ◌==◌, if◌then◌else◌, Result, ok, ◌>>=◌, bind_assoc, bind_ok,
  Result-cases, Bool-cases, inl, inr, arith,
}
use mathlib.Core.Path.{fun_ext}
use life.Raid.Requests.{
  Access, Raid, do_single, is_in, add_off, each_block, each_parity, is_subtractive, partial_reads,
  do_partial_write, part_end, each_stripe, enqueue45,
}
use life.Raid.Requests.Plan.{perform, access, perform-append}
use life.Raid.Requests.Tiling.{range, parts, IsParts, parts_tile}

-- How often a number is in a list.
abbrev pub count : ℕ → List ℕ → ℕ
count x [] = 0
count x (y ∷ l) = (if x == y then 1 else 0) + count x l

count-append :
    (x y : ℕ) (l : List ℕ) → count x (l ++ y ∷ []) ≡ count x l + (if x == y then 1 else 0)
count-append x y [] = omega arith
count-append x y (z ∷ l) = omega (arith, count-append x y l)

is_in-count : (x : ℕ) (l : List ℕ) → is_in x l ≡ ltb 0 (count x l)
unfolding is_in
is_in-count x [] = refl
is_in-count x (y ∷ l) = ground (arith, is_in-count x l)

-- An access to each of the `n` blocks from `v` on, by the map `b`, and to the parity at some offsets.
abbrev pub plan_blocks : Bool → (ℕ → ℕ × ℕ) → ℕ → ℕ → List Access
plan_blocks w b v n = map (λ x. access w (b x)) (range v n)

abbrev pub plan_parity : Bool → ℕ → List ℕ → List Access
plan_parity w q offs = map (λ o. access w (q, o)) offs

-- The offsets that the loop over the blocks gathers.
abbrev offs_of : (ℕ → ℕ × ℕ) → ℕ → ℕ → List ℕ → List ℕ
offs_of b v zero offs = offs
offs_of b v (suc n) offs = offs_of b (v + 1) n (add_off (b v).1 offs)

add_off-count :
    (x o : ℕ) (offs : List ℕ)
    → count x (add_off o offs)
      ≡ count x offs + (if x == o then (if ltb 0 (count x offs) then 0 else 1) else 0)
unfolding add_off
add_off-count x o offs = elim (Bool-cases (x == o)) [
  | inl s ↦
      let e : x ≡ o = ground arith in
      rw e (ground (arith, is_in-count o offs, count-append o o offs))
  | inr s ↦ ground (arith, count-append x o offs)
]

-- The offsets of the blocks are there once each.
abbrev pub IsOffsets : (ℕ → ℕ × ℕ) → (ℕ → ℕ → List ℕ) → Type 0
IsOffsets b offs =
    (v n o : ℕ)
    → count o (offs v n) ≡ (if ltb 0 (count o (map (λ x. (b x).1) (range v n))) then 1 else 0)

offs_of-count :
    (b : ℕ → ℕ × ℕ) (v n o : ℕ) (offs : List ℕ)
    → count o offs ≤ 1
    → count o (offs_of b v n offs)
      ≡ (if ltb 0 (count o offs + count o (map (λ x. (b x).1) (range v n))) then 1 else 0)
offs_of-count b v zero o offs le = ground arith
offs_of-count b v (suc n) o offs le = ground (
  arith,
  add_off-count o (b v).1 offs,
  offs_of-count b (v + 1) n o (add_off (b v).1 offs) (ground (arith, add_off-count o (b v).1 offs)),
)

-- The write of the part of a request in a stripe, from the block `v` to before `e`. If at most half of the
-- stripe without one block is written, the old data and its parity are read, else the other blocks of
-- the stripe. Then the data and its parity are written.
abbrev pub plan_part : ℕ → (ℕ → ℕ × ℕ) → (ℕ → ℕ) → (ℕ → ℕ → List ℕ) → ℕ × ℕ × ℕ → List Access
plan_part size b p offs (stripe, v, e) =
    (if leb (2 * (e - v) + 1) size
      then plan_blocks false b v (e - v) ++ plan_parity false (p stripe) (offs v (e - v))
      else plan_blocks false b (stripe * size) (v - stripe * size)
        ++ plan_blocks false b e (stripe * size + size - e))
    ++ (plan_blocks true b v (e - v) ++ plan_parity true (p stripe) (offs v (e - v)))

abbrev pub plan_parts :
    ℕ → (ℕ → ℕ × ℕ) → (ℕ → ℕ) → (ℕ → ℕ → List ℕ) → List (ℕ × ℕ × ℕ) → List Access
plan_parts size b p offs [] = []
plan_parts size b p offs (t ∷ l) = plan_part size b p offs t ++ plan_parts size b p offs l

is_subtractive-half : (size k : ℕ) → is_subtractive size k ≡ leb (2 * k + 1) size
unfolding is_subtractive
is_subtractive-half size k = ground arith

each_block-plan :
    (w : Bool) (b : ℕ → ℕ × ℕ) (v n : ℕ) (offs : List ℕ) (r : Raid)
    → each_block w (λ x. ok (b x)) v n offs r
      ≡ (perform (plan_blocks w b v n) r >>= λ r'. ok (r', offs_of b v n offs))
unfolding each_block perform
each_block-plan w b v zero offs r = refl
each_block-plan w b v (suc n) offs r = elim (Result-cases (do_single w (b v).0 (b v).1 r)) [
  | inl (r', e) ↦ rw e (each_block-plan w b (v + 1) n (add_off (b v).1 offs) r')
  | inr (x, e) ↦ rw e
]

each_parity-plan :
    (w : Bool) (p : ℕ) (offs : List ℕ) (r : Raid)
    → each_parity w p offs r ≡ perform (plan_parity w p offs) r
unfolding each_parity perform
each_parity-plan w p [] r = refl
each_parity-plan w p (o ∷ offs) r = elim (Result-cases (do_single w p o r)) [
  | inl (r', e) ↦ rw e (each_parity-plan w p offs r')
  | inr (x, e) ↦ rw e
]

module _ (size : ℕ) (b : ℕ → ℕ × ℕ) (p : ℕ → ℕ) where
  abbrev blocks_map : ℕ → Result (ℕ × ℕ)
  blocks_map x = ok (b x)

  abbrev parity_map : ℕ → Result ℕ
  parity_map s = ok (p s)

  abbrev offsets : ℕ → ℕ → List ℕ
  offsets v n = offs_of b v n []

  -- blocks, and then the parity at their offsets
  blocks_then_parity :
      (w : Bool) (q v n : ℕ) (r : Raid)
      → (each_block w blocks_map v n [] r >>= λ x. each_parity w q x.1 x.0)
        ≡ perform (plan_blocks w b v n ++ plan_parity w q (offs_of b v n [])) r
  blocks_then_parity w q v n r =
      rw (each_block-plan w b v n [] r, perform-append)
        (bind_assoc (perform (plan_blocks w b v n) r) (λ r'. ok (r', offs_of b v n []))
            (λ x. each_parity w q x.1 x.0)
          ∙ ap (λ f. perform (plan_blocks w b v n) r >>= f)
              (fun_ext (each_parity-plan w q (offs_of b v n []))))

  -- blocks, whose offsets are not needed, and then the rest
  blocks_then :
      (w : Bool) (v n : ℕ) (r : Raid) (k : Raid → Result Raid)
      → (each_block w blocks_map v n [] r >>= λ x. k x.0) ≡ (perform (plan_blocks w b v n) r >>= k)
  blocks_then w v n r k =
      rw (each_block-plan w b v n [] r) (
        bind_assoc (perform (plan_blocks w b v n) r) (λ r'. ok (r', offs_of b v n [])) (λ x. k x.0))

  only_blocks :
      (w : Bool) (v n : ℕ) (r : Raid)
      → (each_block w blocks_map v n [] r >>= λ x. ok x.0) ≡ perform (plan_blocks w b v n) r
  only_blocks w v n r = blocks_then w v n r ok ∙ bind_ok (perform (plan_blocks w b v n) r)

  partial_reads-plan :
      (stripe v e : ℕ) (r : Raid)
      → partial_reads size blocks_map (p stripe) stripe v e r
        ≡ perform
            (if leb (2 * (e - v) + 1) size
              then plan_blocks false b v (e - v)
                ++ plan_parity false (p stripe) (offs_of b v (e - v) [])
              else plan_blocks false b (stripe * size) (v - stripe * size)
                ++ plan_blocks false b e (stripe * size + size - e))
            r
  unfolding partial_reads
  partial_reads-plan stripe v e r = elim (Bool-cases (leb (2 * (e - v) + 1) size)) [
    | inl t ↦
        rw (partial_reads, is_subtractive-half size (e - v), t)
          (blocks_then_parity false (p stripe) v (e - v) r)
    | inr t ↦
        rw (partial_reads, is_subtractive-half size (e - v), t)
          (blocks_then false (stripe * size) (v - stripe * size) r
              (λ r'. each_block false blocks_map e (stripe * size + size - e) [] r' >>= λ x. ok x.0)
            ∙ ap (λ f. perform (plan_blocks false b (stripe * size) (v - stripe * size)) r >>= f)
                (fun_ext (only_blocks false e (stripe * size + size - e)))
            ∙ sym (
                perform-append (plan_blocks false b (stripe * size) (v - stripe * size))
                  (plan_blocks false b e (stripe * size + size - e)) r))
  ]

  do_partial_write-plan :
      (stripe v e : ℕ) (r : Raid)
      → do_partial_write size blocks_map parity_map stripe v e r
        ≡ perform (plan_part size b p offsets (stripe, v, e)) r
  unfolding do_partial_write
  do_partial_write-plan stripe v e r =
      rw (partial_reads-plan stripe v e r, perform-append)
        (ap
          (λ f.
            perform
              (if leb (2 * (e - v) + 1) size
                then plan_blocks false b v (e - v)
                  ++ plan_parity false (p stripe) (offs_of b v (e - v) [])
                else plan_blocks false b (stripe * size) (v - stripe * size)
                  ++ plan_blocks false b e (stripe * size + size - e))
              r
            >>= f)
          (fun_ext (blocks_then_parity true (p stripe) v (e - v))))

  each_stripe-plan :
      (n stripe left v : ℕ) (r : Raid)
      → each_stripe size blocks_map parity_map n stripe left v r
        ≡ perform (plan_parts size b p offsets (parts size n stripe left v)) r
  unfolding each_stripe perform
  each_stripe-plan zero stripe left v r = refl
  each_stripe-plan (suc n) stripe left v r =
      let e : ℕ = part_end size stripe v left in
      let rest = parts size n (stripe + 1) (left - (e - v)) e in
      rw (do_partial_write-plan stripe v e r) (
        ap (λ f. perform (plan_part size b p offsets (stripe, v, e)) r >>= f)
          (fun_ext (each_stripe-plan n (stripe + 1) (left - (e - v)) e))
        ∙ sym (
            perform-append (plan_part size b p offsets (stripe, v, e))
              (plan_parts size b p offsets rest) r))

-- RAID 4 and 5, where stripes have at least one block, with a map `b` of blocks and a parity disk `p` for
-- each stripe, for a request of at least one block: whatever the disks have done, a read is an access
-- to each block in order. A write is a partial write for each of the parts of the request, which are
-- one for each stripe that it meets and together its blocks in order; in each part the parity is
-- accessed once for each offset. The old data is read if at most half of the stripe without one block
-- is written, and else the rest of the stripe is.
pub enqueue45_plan :
    (size : ℕ) (bmap : ℕ → Result (ℕ × ℕ)) (pmap : ℕ → Result ℕ) (b : ℕ → ℕ × ℕ) (p : ℕ → ℕ)
    (addr n : ℕ)
    → ((x : ℕ) → bmap x ≡ ok (b x))
    → ((s : ℕ) → pmap s ≡ ok (p s))
    → 0 < size
    → 0 < n
    → ((r : Raid)
        → enqueue45 size bmap pmap false addr n r ≡ perform (plan_blocks false b addr n) r)
      × (l : List (ℕ × ℕ × ℕ)) × (offs : ℕ → ℕ → List ℕ) × IsParts size addr n l
      × IsOffsets b offs
      × ((r : Raid)
          → enqueue45 size bmap pmap true addr n r ≡ perform (plan_parts size b p offs l) r)
unfolding enqueue45
enqueue45_plan size bmap pmap b p addr n same same' ps pn =
    let e : bmap ≡ (λ x. ok (b x)) = fun_ext same in
    let f : pmap ≡ (λ s. ok (p s)) = fun_ext same' in
    let guard : (size == 0) ≡ false = ground arith in
    let k : ℕ = (addr + n - 1) / size + 1 - addr / size in
    (
      λ r. rw e (only_blocks size b p false addr n r),
      parts size k (addr / size) n addr,
      λ v m. offs_of b v m [],
      parts_tile size addr n ps pn,
      λ v m o. ground (arith, offs_of-count b v m o [] (omega arith)),
      λ r. rw (enqueue45, e, f, guard) (each_stripe-plan size b p k (addr / size) n addr r),
    )
