-- ===== src/X86/Run.antt =====
-- The loop of `cpu.run` in x86.py. The k-th draw of `int(random.random() * intfreq)` is `draw k intfreq`.
use life.Prelude.{
  ℕ, zero, suc, ◌+◌, Bool, true, false, ◌||◌, none, some, ◌==◌, if◌then◌else◌, Result, ok, raise,
  ◌>>=◌, key_error, type_error, timeout,
}
use life.Prelude.Int.{ℤ, pos, ◌+ℤ◌, ◌-ℤ◌, ◌==ℤ◌}
use life.X86.Cpu.{Cpu, Instr, num, code, Rc, stop, give_way, go_on, execute}
use life.X86.Threads.{ProcList, current, done, numdone, getnum, next, save, restore}

pub record Machine : Type 0 where
  pub cpu : Cpu
  pub procs : ProcList
  pub interrupt : ℤ
  pub icount : ℕ
  pub drawn : ℕ

-- The instruction at the program counter; to evaluate a number is a TypeError.
unfoldable pub fetch : Cpu → Result Instr
fetch c = elim (c.memory c.pc) [
  | none ↦ raise key_error
  | some x ↦ elim x [ num v ↦ raise type_error | code i ↦ ok i ]
]

abbrev pub is_stop : Rc → Bool
is_stop stop = true
is_stop give_way = false
is_stop go_on = false

abbrev pub gives_way : Rc → Bool
gives_way give_way = true
gives_way stop = false
gives_way go_on = false

-- `procs.next()` and `procs.restore()`
unfoldable pub move_on : Machine → Result Machine
move_on m = do
  procs ← next m.procs
  cpu ← restore procs m.cpu
  ok (record m { cpu = cpu; procs = procs })

-- What a halt does: whether the run ends.
unfoldable pub halted : Machine → Result (Machine × Bool)
halted m = do
  procs ← done m.procs
  let m' : Machine = record m { procs = procs }
  if numdone procs == getnum procs then ok (m', true) else (move_on m' >>= λ m''. ok (m'', false))

module _ (draw : ℕ → ℤ → ℤ) (intfreq : ℤ) (intrand : Bool) where
  -- `self.interrupt = self.setint(intfreq, intrand)`
  unfoldable pub setint : Machine → Machine
  setint m =
      if intrand
      then record m { interrupt = draw m.drawn intfreq +ℤ pos 1; drawn = m.drawn + 1 }
      else record m { interrupt = intfreq }

  -- What is done when the counter has reached 0 or the instruction gives way.
  unfoldable pub switch : Machine → Result Machine
  switch m = do
    let m' = setint m
    procs ← save m'.cpu m'.procs
    move_on (record m' { procs = procs })

  unfoldable pub count_down : Rc → Machine → Result Machine
  count_down rc m =
      let m' : Machine = record m { interrupt = m.interrupt -ℤ pos 1 } in
      if m'.interrupt ==ℤ pos 0 || gives_way rc then switch m' else ok m'

  -- One turn of the loop, and whether the run ends.
  unfoldable pub cycle : Machine → Result (Machine × Bool)
  cycle m = do
    curr ← current m.procs
    i ← fetch m.cpu
    (cpu, rc) ← execute i (record m.cpu { pc = m.cpu.pc +ℤ pos 1 })
    let m1 : Machine = record m { cpu = cpu; icount = m.icount + 1 }
    (m2, ends) ← if is_stop rc then halted m1 else ok (m1, false)
    if ends then ok (m2, true) else (count_down rc m2 >>= λ m3. ok (m3, false))

  -- So many turns of the loop at most.
  unfoldable pub loop : ℕ → Machine → Result Machine
  loop zero m = raise timeout
  loop (suc n) m = (cycle m >>= λ (m', ends). let rest = loop n m' in if ends then ok m' else rest)

-- `run`, for so many turns at most. With a schedule that is given there is an interrupt at each turn.
unfoldable pub run : (ℕ → ℤ → ℤ) → ℕ → ℤ → Bool → ProcList → Cpu → Result Machine
run draw fuel intfreq intrand procs c =
    let m : Machine = record { cpu = c; procs = procs; interrupt = pos 0; icount = 0; drawn = 0 } in
    if procs.manual
    then loop draw (pos 1) false fuel (setint draw (pos 1) false m)
    else loop draw intfreq intrand fuel (setint draw intfreq intrand m)
