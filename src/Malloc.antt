-- ===== src/Malloc.antt =====
-- The class `malloc` of ostep-homework-master/vm-freespace/malloc.py: a free list of (address,
-- size) pairs and a dictionary from allocated addresses to sizes.
--
-- The names of policies are constructors here, so the asserts on them hold by the types. Addresses
-- and sizes are natural numbers. A return value of -1 is `none` (malloc) or `false` (free).
pub mod Cover
pub mod Positive
pub mod Search
pub mod Partition
pub mod Safety
pub mod Grants
pub mod Ordered
pub mod Tidy
pub mod Align
pub mod Driver
mod Tests
use life.Prelude.{
  ℕ, ◌+◌, ◌-◌, ◌%◌, Bool, true, false, ◌&&◌, Option, none, some, List, [], ◌∷◌, ◌++◌, ltb, leb,
  ◌==◌, if◌then◌else◌, set, remove_at, lookup, delete, Result, ok, raise, ◌>>=◌, assertion_error,
  index_error, name_error,
}

-- The search policy, `-p`.
pub data Policy : Type 0 where
  first best worst : Policy

-- The order in which freed blocks are put on the list, `-l`.
pub data ListOrder : Type 0 where
  addr_sort size_sort_up size_sort_down insert_front insert_back : ListOrder

-- An address and a size.
abbrev pub Block : Type 0
Block = ℕ × ℕ

-- The fields of the object. `align` is `none` for -1.
pub record Heap : Type 0 where
  pub size : ℕ
  pub header_size : ℕ
  pub freelist : List Block
  pub sizemap : List Block
  pub policy : Policy
  pub return_policy : ListOrder
  pub coalesce : Bool
  pub align : Option ℕ

-- `__init__`, with its assert on the alignment.
unfoldable pub init : ℕ → ℕ → ℕ → Policy → ListOrder → Bool → Option ℕ → Result Heap
init size start header_size policy order coalesce align =
    let h : Heap = record {
      size = size;
      header_size = header_size;
      freelist = (start, size) ∷ [];
      sizemap = [];
      policy = policy;
      return_policy = order;
      coalesce = coalesce;
      align = align;
    } in
    elim align [ none ↦ ok h | some a ↦ if ltb 0 a then ok h else raise assertion_error ]

-- `addToMap`
unfoldable pub add_to_map : ℕ → ℕ → List Block → Result (List Block)
add_to_map addr size sizemap = elim (lookup addr sizemap) [
  | none ↦ ok ((addr, size) ∷ sizemap)
  | some _ ↦ raise assertion_error
]

-- The first lines of `malloc`: the request, rounded up to the alignment.
unfoldable pub aligned : Option ℕ → ℕ → ℕ
aligned none size = size
aligned (some a) size =
    let left = size % a in let diff : ℕ = if left == 0 then 0 else a - left in size + diff

-- The best block up to now: `bestIdx`, `bestAddr`, `bestSize`.
pub record Candidate : Type 0 where
  pub idx : ℕ
  pub addr : ℕ
  pub size : ℕ

-- The comparison of `esize` with `bestSize`. With no candidate `bestSize` is `self.size + 1` for
-- BEST and -1 for WORST, so that every block is larger.
unfoldable pub better : Policy → ℕ → Option Candidate → ℕ → Bool
better first heap_size found esize = true
better best heap_size none esize = ltb esize (heap_size + 1)
better best heap_size (some c) esize = ltb esize c.size
better worst heap_size none esize = true
better worst heap_size (some c) esize = ltb c.size esize

abbrev pub is_first : Policy → Bool
is_first first = true
is_first best = false
is_first worst = false

-- The loop over the free list, from index `i` on, with its `break` under FIRST. It returns the
-- best block and the number of blocks that it has looked at.
unfoldable pub scan : Policy → ℕ → ℕ → List Block → ℕ → Option Candidate → ℕ → Option Candidate × ℕ
unfolding better
scan policy heap_size size [] i found count = (found, count)
scan policy heap_size size ((eaddr, esize) ∷ rest) i found count =
    let fits = leb size esize && better policy heap_size found esize in
    let found' : Option Candidate =
      if fits then some (record { idx = i; addr = eaddr; size = esize }) else found in
    let later = scan policy heap_size size rest (i + 1) found' (count + 1) in
    if fits && is_first policy then (found', count + 1) else later

-- The rest of `malloc`, from the chosen block on: split it, take it whole, or abort (a name that
-- does not exist).
unfoldable pub take_block : Heap → ℕ → Candidate → Result Heap
take_block h size c =
    if ltb size c.size
    then (do
      m ← add_to_map c.addr size h.sizemap
      ok (record h { freelist = set h.freelist c.idx (c.addr + size, c.size - size); sizemap = m }))
    else if c.size == size
    then (do
      m ← add_to_map c.addr size h.sizemap
      ok (record h { freelist = remove_at h.freelist c.idx; sizemap = m }))
    else raise name_error

-- The size that is searched for: aligned, with the header.
unfoldable pub needed : Heap → ℕ → ℕ
needed h size = aligned h.align size + h.header_size

-- `malloc`: the heap, the address if there is one, and the number of blocks looked at.
unfoldable pub malloc : Heap → ℕ → Result (Heap × Option ℕ × ℕ)
malloc h size =
    let n = needed h size in
    let (found, count) = scan h.policy h.size n h.freelist 0 none 0 in
    elim found [
      | none ↦ ok (h, none, count)
      | some c ↦ take_block h n c >>= λ h'. ok (h', some c.addr, count)
    ]

-- `sorted(l, key=..., reverse=...)`, which is stable: `before x y` says that `x` may stand in front
-- of a later `y`.
unfoldable pub insert_sorted : (Block → Block → Bool) → Block → List Block → List Block
insert_sorted before x [] = x ∷ []
insert_sorted before x (y ∷ ys) =
    let rest = insert_sorted before x ys in if before x y then x ∷ y ∷ ys else y ∷ rest

unfoldable pub sorted : (Block → Block → Bool) → List Block → List Block
unfolding insert_sorted
sorted before [] = []
sorted before (x ∷ xs) = insert_sorted before x (sorted before xs)

abbrev pub by_addr : Block → Block → Bool
by_addr x y = leb x.0 y.0

abbrev pub by_size_up : Block → Block → Bool
by_size_up x y = leb x.1 y.1

abbrev pub by_size_down : Block → Block → Bool
by_size_down x y = leb y.1 x.1

-- The `if`/`elif` of `free` over the list order.
unfoldable pub put_back : ListOrder → Block → List Block → List Block
unfolding sorted
put_back insert_back b l = l ++ b ∷ []
put_back insert_front b l = b ∷ l
put_back addr_sort b l = sorted by_addr (l ++ b ∷ [])
put_back size_sort_up b l = sorted by_size_up (l ++ b ∷ [])
put_back size_sort_down b l = sorted by_size_down (l ++ b ∷ [])

-- The loop of the coalescing, with its variables `curr` and `newlist`.
unfoldable pub merge : Block → List Block → List Block → List Block
merge curr newlist [] = newlist ++ curr ∷ []
merge curr newlist ((eaddr, esize) ∷ rest) =
    let joins = eaddr == curr.0 + curr.1 in
    merge (if joins then (curr.0, curr.1 + esize) else (eaddr, esize))
      (if joins then newlist else newlist ++ curr ∷ []) rest

-- The block under `if self.coalesce == True`; an empty list has no first element.
unfoldable pub coalesced : List Block → Result (List Block)
unfolding merge
coalesced [] = raise index_error
coalesced (b ∷ rest) = ok (merge b [] rest)

-- `free`: the heap, and whether the address was allocated.
unfoldable pub free : Heap → ℕ → Result (Heap × Bool)
free h addr = elim (lookup addr h.sizemap) [
  | none ↦ ok (h, false)
  | some size ↦ do
    let l = put_back h.return_policy (addr, size) h.freelist
    l' ← if h.coalesce then coalesced l else ok l
    ok (record h { freelist = l'; sizemap = delete addr h.sizemap }, true)
]
