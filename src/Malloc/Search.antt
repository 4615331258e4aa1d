-- ===== src/Malloc/Search.antt =====
-- The search of `malloc`: the block that it chooses is on the list and large enough, it fails only
-- if no block is, and it is the one that the policy's name says, the first of those on a tie.
use Prim.Native.Nat.add
use life.Prelude.{
  ℕ, suc, ◌+◌, ◌-◌, ◌≤◌, ◌<◌, ◌≡◌, refl, sym, true, false, ◌&&◌, Option, none, some, List, [], ◌∷◌,
  ltb, leb, if◌then◌else◌, get_elem?, length, Bool-cases, ◌⊎◌, inl, inr, arith,
}
use life.Malloc.{Block, Policy, first, best, worst, Candidate, better, scan, is_first}

-- The candidate is an element of the list, at its index, and at least `n` large.
pub record Fits (l : List Block) (n : ℕ) (c : Candidate) : Type 0 where
  pub there : get_elem? l c.idx ≡ some (c.addr, c.size)
  pub large : n ≤ c.size

-- The policy likes the candidate at least as much as the block of size `m` at index `j`.
abbrev pub Prefers : Policy → Candidate → ℕ → ℕ → Type 0
Prefers first c j m = c.idx ≤ j
Prefers best c j m = (c.size < m) ⊎ ((c.size ≡ m) × (c.idx ≤ j))
Prefers worst c j m = (m < c.size) ⊎ ((c.size ≡ m) × (c.idx ≤ j))

-- A choice is there, and is liked as much as that block.
abbrev pub Chooses : Policy → Option Candidate → ℕ → ℕ → Type 0
Chooses p none j m = ⊥
Chooses p (some c) j m = Prefers p c j m

abbrev pub AllFit : List Block → ℕ → Option Candidate → Type 0
AllFit l n none = Unit
AllFit l n (some c) = Fits l n c

-- `rest` is the list from index `i` on.
abbrev IsFrom : List Block → ℕ → List Block → Type 0
IsFrom l i rest = (j : ℕ) → get_elem? rest j ≡ get_elem? l (i + j)

IsFrom-tail :
    (l : List Block) (i : ℕ) (b : Block) (rest : List Block)
    → IsFrom l i (b ∷ rest)
    → IsFrom l (i + 1) rest
IsFrom-tail l i b rest h j = let e : i + suc j ≡ i + 1 + j = omega arith in rw e at (h (suc j))

IsFrom-head :
    (l : List Block) (i : ℕ) (b : Block) (rest : List Block)
    → IsFrom l i (b ∷ rest)
    → get_elem? l i ≡ some b
IsFrom-head l i b rest h = let e : i + 0 ≡ i = omega arith in rw e at (sym (h 0))

IsFrom-start : (l : List Block) → IsFrom l 0 l
IsFrom-start l j = rw (add.zero j)

-- What one round of the loop makes of the best block.
abbrev take_better : Policy → ℕ → ℕ → ℕ → Block → Option Candidate → Option Candidate
take_better p hs n i (a, s) found =
    if leb n s && better p hs found s then some (record { idx = i; addr = a; size = s }) else found

take_better-AllFit :
    (p : Policy) (hs n : ℕ) (l : List Block) (i : ℕ) (b : Block) (found : Option Candidate)
    → get_elem? l i ≡ some b
    → AllFit l n found
    → AllFit l n (take_better p hs n i b found)
take_better-AllFit p hs n l i (a, s) found at h =
    elim (Bool-cases (leb n s && better p hs found s)) [
      | inl e ↦ rw e (record { there = at; large = ground arith })
      | inr e ↦ rw e h
    ]

pub scan-AllFit :
    (p : Policy) (hs n : ℕ) (l rest : List Block) (i : ℕ) (found : Option Candidate) (count : ℕ)
    → IsFrom l i rest
    → AllFit l n found
    → AllFit l n (scan p hs n rest i found count).0
unfolding scan
scan-AllFit p hs n l [] i found count from h = h
scan-AllFit p hs n l ((a, s) ∷ rest) i found count from h =
    let h' = take_better-AllFit p hs n l i (a, s) found (IsFrom-head l i (a, s) rest from) h in
    elim (Bool-cases (leb n s && better p hs found s && is_first p)) [
      | inl e ↦ rw e h'
      | inr e ↦ rw e (
          scan-AllFit p hs n l rest (i + 1) (take_better p hs n i (a, s) found) (count + 1)
            (IsFrom-tail l i (a, s) rest from) h')
    ]

-- The choice is liked as much as every large enough block before index `i`; under FIRST there is
-- none yet.
record IsBest (p : Policy) (n : ℕ) (l : List Block) (i : ℕ) (found : Option Candidate)
    : Type 0 where
  best_of : (j a m : ℕ) → j < i → get_elem? l j ≡ some (a, m) → n ≤ m → Chooses p found j m
  not_yet : is_first p ≡ true → found ≡ none
  earlier : (c : Candidate) → found ≡ some c → c.idx < i

take_better-Chooses :
    (p : Policy) (hs n i a s j m : ℕ) (found : Option Candidate)
    → s ≤ hs
    → n ≤ m
    → (is_first p ≡ true → found ≡ none)
    → ((c : Candidate) → found ≡ some c → c.idx < i)
    → (Chooses p found j m) ⊎ ((j ≡ i) × (m ≡ s))
    → Chooses p (take_better p hs n i (a, s) found) j m
unfolding better
take_better-Chooses first hs n i a s j m none small large ny ea h = ground arith
take_better-Chooses best hs n i a s j m none small large ny ea h = ground arith
take_better-Chooses worst hs n i a s j m none small large ny ea h = ground arith
take_better-Chooses first hs n i a s j m (some c) small large ny ea h = ground (arith, ny refl)
take_better-Chooses best hs n i a s j m (some c) small large ny ea h = ground (arith, ea c refl)
take_better-Chooses worst hs n i a s j m (some c) small large ny ea h = ground (arith, ea c refl)

-- a `break` is FIRST's, at the first block that is large enough
take_better_stop :
    (p : Policy) (hs n i a s j m : ℕ) (found : Option Candidate)
    → (leb n s && better p hs found s && is_first p) ≡ true
    → (is_first p ≡ true → found ≡ none)
    → (j < i → Chooses p found j m)
    → Chooses p (take_better p hs n i (a, s) found) j m
unfolding better
take_better_stop first hs n i a s j m found e ny before = elim (Bool-cases (ltb j i)) [
  | inl lt ↦ absurd (rw (ny refl) at (before (ground arith)))
  | inr ge ↦ ground arith
]
take_better_stop best hs n i a s j m found e ny before = ground arith
take_better_stop worst hs n i a s j m found e ny before = ground arith

module _ (p : Policy) (hs n : ℕ) (l : List Block) where
  take_better-IsBest :
      (i a s : ℕ) (found : Option Candidate)
      → get_elem? l i ≡ some (a, s)
      → s ≤ hs
      → (leb n s && better p hs found s && is_first p) ≡ false
      → IsBest p n l i found
      → IsBest p n l (i + 1) (take_better p hs n i (a, s) found)
  take_better-IsBest i a s found at small go b = record {
    best_of = λ j a' m lt at' large.
        take_better-Chooses p hs n i a s j m found small large b.not_yet b.earlier
          (earlier_or_here j a' m lt at' large);
    not_yet = λ f. ground (arith, b.not_yet f);
    earlier = λ c e. ground (arith, b.earlier c);
  }
    where
      earlier_or_here :
          (j a' m : ℕ)
          → j < i + 1
          → get_elem? l j ≡ some (a', m)
          → n ≤ m
          → (Chooses p found j m) ⊎ ((j ≡ i) × (m ≡ s))
      earlier_or_here j a' m lt at' large = elim (Bool-cases (ltb j i)) [
        | inl e ↦ inl (b.best_of j a' m (ground arith) at' large)
        | inr e ↦
            let q : j ≡ i = ground arith in
            inr (q, (let r : get_elem? l i ≡ some (a', m) = rw q at at' in ground arith))
      ]

  scan-Chooses :
      (rest : List Block) (i : ℕ) (found : Option Candidate) (count : ℕ)
      → IsFrom l i rest
      → ((j a m : ℕ) → get_elem? l j ≡ some (a, m) → m ≤ hs)
      → IsBest p n l i found
      → (j a m : ℕ) → get_elem? l j ≡ some (a, m)
      → n ≤ m
      → Chooses p (scan p hs n rest i found count).0 j m
  unfolding scan
  scan-Chooses [] i found count from small b j a m at large = elim (Bool-cases (ltb j i)) [
    | inl e ↦ b.best_of j a m (ground arith) at large
    | inr e ↦ absurd (beyond (ground arith))
  ]
    where
      beyond : i ≤ j → ⊥
      beyond le =
          let q : i + (j - i) ≡ j = omega arith in
          let f : none ≡ get_elem? l j = rw q at (from (j - i)) in cc
  scan-Chooses ((a, s) ∷ rest) i found count from small b j a' m at large =
      elim (Bool-cases (leb n s && better p hs found s && is_first p)) [
        | inl e ↦ rw e (
            take_better_stop p hs n i a s j m found e b.not_yet
              (λ lt. b.best_of j a' m lt at large))
        | inr e ↦ rw e (
            scan-Chooses rest (i + 1) (take_better p hs n i (a, s) found) (count + 1)
              (IsFrom-tail l i (a, s) rest from) small
              (take_better-IsBest i a s found here (small i a s here) e b) j a' m at large)
      ]
    where
      here : get_elem? l i ≡ some (a, s)
      here = IsFrom-head l i (a, s) rest from

-- The choice of the whole search: liked by the policy as much as any block that is large enough,
-- provided that no block is larger than the heap.
pub scan_whole-Chooses :
    (p : Policy) (hs n : ℕ) (l : List Block)
    → ((j a m : ℕ) → get_elem? l j ≡ some (a, m) → m ≤ hs)
    → (j a m : ℕ) → get_elem? l j ≡ some (a, m)
    → n ≤ m
    → Chooses p (scan p hs n l 0 none 0).0 j m
scan_whole-Chooses p hs n l small =
    scan-Chooses p hs n l l 0 none 0 (IsFrom-start l) small (record {
      best_of = λ j a m lt at large. absurd (omega arith);
      not_yet = λ _. refl;
      earlier = λ c e. cc;
    })

pub scan_whole-AllFit :
    (p : Policy) (hs n : ℕ) (l : List Block) → AllFit l n (scan p hs n l 0 none 0).0
scan_whole-AllFit p hs n l = scan-AllFit p hs n l l 0 none 0 (IsFrom-start l) tt

-- BEST and WORST look at every block.
pub scan-count :
    (p : Policy) (hs n : ℕ) (l : List Block) (i : ℕ) (found : Option Candidate) (count : ℕ)
    → is_first p ≡ false
    → (scan p hs n l i found count).1 ≡ count + length l
unfolding scan
scan-count p hs n [] i found count e = omega arith
scan-count p hs n ((a, s) ∷ l) i found count e =
    ground (arith, scan-count p hs n l (i + 1) (take_better p hs n i (a, s) found) (count + 1))
