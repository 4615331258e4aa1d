-- ===== src/X86/Threads.antt =====
-- The classes `process` and `proclist` of x86.py. What a method does to the processor is part of its
-- result.
use life.Prelude.{
  ℕ, zero, suc, ◌+◌, ◌-◌, Bool, true, false, none, some, List, [], ◌∷◌, ◌++◌, leb, ◌==◌,
  if◌then◌else◌, length, get_elem?, set, Result, ok, raise, ◌>>=◌, index_error, system_exit,
  timeout,
}
use life.Prelude.Int.{ℤ, pos}
use life.X86.Reg
use life.X86.Cpu.{Cpu, Conditions, init_condition_codes}

pub record Process : Type 0 where
  pub tid : ℕ
  pub pc : ℤ
  pub regs : ℕ → ℤ
  pub cc : Conditions
  pub done : Bool
  pub stack : ℤ

-- The registers that are given values at the start, in their order.
unfoldable pub set_regs : List (ℕ × ℤ) → (ℕ → ℤ) → ℕ → ℤ
set_regs [] regs r = regs r
set_regs ((reg, value) ∷ l) regs r = set_regs l (λ q. if q == reg then value else regs q) r

-- `process.__init__`
unfoldable pub new_process : ℕ → ℤ → ℤ → List (ℕ × ℤ) → Process
new_process tid pc stackbottom reginit = record {
  tid = tid;
  pc = pc;
  regs = λ r. if r == Reg.sp then stackbottom else set_regs reginit (λ q. pos 0) r;
  cc = init_condition_codes;
  done = false;
  stack = stackbottom;
}

-- `process.save` and `process.restore`
abbrev pub saved : Cpu → Process → Process
saved c p = record p { pc = c.pc; regs = c.registers; cc = c.conditions }

abbrev pub restored : Process → Cpu → Cpu
restored p c = record c { pc = p.pc; registers = p.regs; conditions = p.cc }

pub record ProcList : Type 0 where
  pub plist : List Process
  pub active : ℕ
  pub manual : Bool
  pub procsched : List ℕ
  pub curr : ℕ

-- `l[i]`
unfoldable pub item {ℓ} : {A : Type ℓ} → List A → ℕ → Result A
item l i = elim (get_elem? l i) [ none ↦ raise index_error | some x ↦ ok x ]

abbrev pub empty : ProcList
empty = record { plist = []; active = 0; manual = false; procsched = []; curr = 0 }

unfoldable pub addproc : Process → ProcList → ProcList
addproc p l = record l { active = l.active + 1; plist = l.plist ++ p ∷ [] }

unfoldable pub getnum : ProcList → ℕ
getnum l = length l.plist

unfoldable pub numdone : ProcList → ℕ
numdone l = length l.plist - l.active

-- The index of the current process in `plist`, and the process.
unfoldable pub current : ProcList → Result (ℕ × Process)
current l = do p ← item l.procsched l.curr; q ← item l.plist p; ok (p, q)

unfoldable pub done : ProcList → Result ProcList
done l = do
  (p, q) ← current l
  ok (record l { plist = set l.plist p (record q { done = true }); active = l.active - 1 })

unfoldable pub save : Cpu → ProcList → Result ProcList
save c l = do (p, q) ← current l; ok (record l { plist = set l.plist p (saved c q) })

unfoldable pub restore : ProcList → Cpu → Result Cpu
restore l c = do (p, q) ← current l; ok (restored q c)

-- The index after `curr`, round the list.
unfoldable pub after : ProcList → ℕ
after l = if l.curr + 1 == length l.procsched then 0 else l.curr + 1

-- The loop of `next`, for so many turns.
unfoldable pub next_within : ℕ → ProcList → Result ProcList
next_within zero l = raise timeout
next_within (suc n) l =
    let l' : ProcList = record l { curr = after l } in
    (current l' >>= λ r. let more = next_within n l' in if r.1.done then more else ok l')

-- `next`. After as many turns as the schedule has places it has met them all, and would go on for ever.
unfoldable pub next : ProcList → Result ProcList
next l = next_within (length l.procsched) l

-- The numbers below `n`, from `i` on.
unfoldable pub upto : ℕ → ℕ → List ℕ
upto i zero = []
upto i (suc n) = i ∷ upto (i + 1) n

unfoldable pub is_in : ℕ → List ℕ → Bool
is_in x [] = false
is_in x (y ∷ l) = if y == x then true else is_in x l

-- The loops of `finalize` over a schedule that is given: the test of each number, and `check`.
unfoldable pub all_exist : ℕ → List ℕ → Bool
all_exist n [] = true
all_exist n (p ∷ l) = if leb n p then false else all_exist n l

unfoldable pub distinct : List ℕ → List ℕ → List ℕ
distinct check [] = check
distinct check (p ∷ l) = distinct (if is_in p check then check else check ++ p ∷ []) l

unfoldable pub finalize : List ℕ → ProcList → Cpu → Result (ProcList × Cpu)
finalize [] l c = do
  let l' : ProcList = record l { procsched = l.procsched ++ upto 0 (length l.plist); curr = 0 }
  c' ← restore l' c
  ok (l', c')
finalize (p ∷ ps) l c =
    let l' : ProcList = record l { manual = true; procsched = l.procsched ++ p ∷ ps; curr = 0 } in
    if all_exist (getnum l) (p ∷ ps)
    then if length (distinct [] l'.procsched) == l.active
      then (restore l' c >>= λ c'. ok (l', c'))
      else raise system_exit
    else raise system_exit
