-- ===== src/X86/Tests.antt =====
-- Runs of x86.py's machine on small programs, and the theorems applied there.
use life.Prelude.{
  ℕ, zero, suc, ◌<◌, ◌≡◌, refl, ◌⊎◌, true, false, Option, none, some, List, [], ◌∷◌, ◌==◌,
  if◌then◌else◌, get_elem?, length, ◌-◌, ◌*◌, Result, ok, raise, ◌>>=◌, Exception, key_error, arith,
}
use life.Prelude.Int.{ℤ, pos, ◌+ℤ◌, ◌-ℤ◌, ◌*ℤ◌, neg_ℤ, ◌==ℤ◌}
use life.X86.Reg
use life.X86.Cpu
use life.X86.Cpu.{
  Cpu, Instr, Cell, num, code, call, ret, push_r, pop_r, Rc, go_on, load_cell, address, test_all,
  jump_if, grow_stack, shrink_stack, store_top, execute,
}
use life.X86.Assembler.{
  Line, Opcode0, Opcode1, Opcode2, op2, op1, op0, label_line, var_line, Arg, immediate, register,
  label, variable, place, getarg, is_instruction, assemble2, target, assemble1, assemble0, assemble,
  declare, first_pass, second_pass, load,
}
use life.X86.Threads.{
  Process, ProcList, restored, set_regs, new_process, item, addproc, getnum, numdone, current, done,
  save, restore, after, next_within, next, upto, is_in, all_exist, distinct, finalize,
}
use life.X86.Run.{Machine, fetch, move_on, setint, switch, count_down, halted, cycle, loop, run}
use life.X86.Turns.{IsSound, Switched, Raised, undone, switch-Switched, cycle-IsSound}
use life.X86.Start.{finalize-IsSound}
use life.X86.Stack.{lowered, call_then_ret, push_then_pop}
use life.X86.Loaded.{load_jump}

program : Unit {0}
unfolding ◌+ℤ◌ ◌-ℤ◌ ◌*ℤ◌ neg_ℤ Cpu.init load_cell address test_all jump_if grow_stack shrink_stack
    store_top execute getarg is_instruction assemble2 target assemble1 assemble0 assemble declare
    first_pass second_pass load set_regs new_process item addproc getnum numdone current done save
    restore after next_within next upto is_in all_exist distinct finalize fetch move_on setint
    switch count_down halted cycle loop run
program = tt

-- No draw is made.
abbrev no_draw : ℕ → ℤ → ℤ
no_draw k n = pos 0

-- A thread at 1000 with its number in `bx`.
abbrev thread : ℕ → Process
thread k = new_process k (pos 1000) (pos (900 - 100 * k)) ((Reg.bx, pos k) ∷ [])

abbrev threads : List Process → ProcList
threads l = record { plist = l; active = length l; manual = false; procsched = []; curr = 0 }

-- The cell at 100 after a run of two threads on a program, with a kilobyte of memory.
abbrev run_two : List Line → List ℕ → ℤ → Result (Option Cell)
run_two lines sched intfreq = load lines (pos 1000) (Cpu.init 1) >>= λ c.
    (finalize sched (threads (thread 0 ∷ thread 1 ∷ [])) c >>= λ r.
    (run no_draw 60 intfreq false r.0 r.1 >>= λ m. ok (m.cpu.memory (pos 100))))

abbrev ax : Arg
ax = register Reg.ax

-- The variable number 0, which is at 100.
abbrev cell : Arg
cell = variable 0

abbrev racy : List Line
racy =
    var_line 0 none
    ∷ op2 Opcode2.mov cell ax
    ∷ op2 Opcode2.add (immediate (pos 1)) ax
    ∷ op2 Opcode2.mov ax cell
    ∷ op0 Opcode0.halt
    ∷ []

abbrev atomic : List Line
atomic =
    var_line 0 none
    ∷ op2 Opcode2.mov (immediate (pos 1)) ax
    ∷ op2 Opcode2.fetchadd ax cell
    ∷ op0 Opcode0.halt
    ∷ []

-- An update is lost when the threads take turns at every instruction, and none is with `fetchadd`.
races :
    (run_two racy [] (pos 50) ≡ ok (some (num (pos 2))))
    × (run_two racy [] (pos 1) ≡ ok (some (num (pos 1))))
    × (run_two atomic [] (pos 1) ≡ ok (some (num (pos 2))))
unfolding program
races = (refl, refl, refl)

-- A loop that counts to 3, with a jump back to its label 7.
abbrev counting : List Line
counting =
    var_line 0 none
    ∷ label_line 7
    ∷ op2 Opcode2.add (immediate (pos 1)) ax
    ∷ op2 Opcode2.test (immediate (pos 3)) ax
    ∷ op1 Opcode1.jlt (label 7)
    ∷ op2 Opcode2.mov ax cell
    ∷ op0 Opcode0.halt
    ∷ op1 Opcode1.j (label 7)
    ∷ []

counts : run_two counting [] (pos 2) ≡ ok (some (num (pos 3)))
unfolding program
counts = refl

unknown_label : run_two (op1 Opcode1.j (label 7) ∷ []) [] (pos 2) ≡ raise key_error
unfolding program
unknown_label = refl

-- The register `zero` can be written, and then a plain address is another one.
zero_register :
    run_two
      (op2 Opcode2.mov (immediate (pos 5)) (register Reg.zero)
        ∷ op2 Opcode2.mov (immediate (pos 9)) (place (pos 90) Reg.zero Reg.zero (pos 1))
        ∷ op0 Opcode0.halt
        ∷ [])
      []
      (pos 50)
    ≡ ok (some (num (pos 9)))
unfolding program
zero_register = refl

-- A variable may be declared twice, and the second place is the one that is used.
declared_twice :
    run_two
      (var_line 0 none
        ∷ var_line 0 none
        ∷ op2 Opcode2.mov (immediate (pos 9)) cell
        ∷ op0 Opcode0.halt
        ∷ [])
      []
      (pos 50)
    ≡ ok (some (num (pos 0)))
unfolding program
declared_twice = refl

-- Under the schedule 0, 1, 2 the halt of thread 0 gives the turn to thread 2.
halted_skips :
    (do
      c ← load (op0 Opcode0.halt ∷ []) (pos 1000) (Cpu.init 1)
      (l, c') ← finalize (0 ∷ 1 ∷ 2 ∷ []) (threads (thread 0 ∷ thread 1 ∷ thread 2 ∷ [])) c
      (m, ends) ←
          cycle no_draw
            (pos 1)
            false
            (record { cpu = c'; procs = l; interrupt = pos 1; icount = 0; drawn = 0 })
      (p, q) ← current m.procs
      ok p)
    ≡ ok 2
unfolding program
halted_skips = refl

abbrev two : ProcList
two = record {
  plist = thread 0 ∷ thread 1 ∷ [];
  active = 2;
  manual = false;
  procsched = 0 ∷ 1 ∷ [];
  curr = 0;
}

two-exist : (place p : ℕ) → get_elem? (0 ∷ 1 ∷ []) place ≡ some p → p < 2
two-exist zero p e = let f : 0 ≡ p = cc in omega arith
two-exist (suc zero) p e = let f : 1 ≡ p = cc in omega arith
two-exist (suc (suc k)) p e = absurd (cc)

two-covered : (p : ℕ) → p < 2 → (place : ℕ) × (get_elem? (0 ∷ 1 ∷ []) place ≡ some p)
two-covered zero lt = (0, refl)
two-covered (suc zero) lt = (1, refl)
two-covered (suc (suc p)) lt = absurd (omega arith)

two-IsSound : IsSound two
unfolding program
two-IsSound = record {
  list = record { exist = two-exist; covered = two-covered; counted = refl };
  turn = record { index = 0; process = thread 0; scheduled = refl; listed = refl; ready = refl };
}

-- The processor with a program that is loaded.
abbrev loaded : List Line → Cpu
loaded lines = elim (load lines (pos 1000) (Cpu.init 1)) [ ok c ↦ c | raise e ↦ Cpu.init 1 ]

abbrev machine : Machine
machine = record {
  cpu = restored (thread 0) (loaded racy);
  procs = two;
  interrupt = pos 1;
  icount = 0;
  drawn = 0;
}

switch-Switched_example :
    (m' : Machine) × (switch no_draw (pos 1) false machine ≡ ok m')
    × Switched machine.cpu machine.procs m' two-IsSound
switch-Switched_example = switch-Switched no_draw (pos 1) false machine two-IsSound

cycle-IsSound_example :
    ((m' : Machine) × (cycle no_draw (pos 1) false machine ≡ ok (m', true))
      × (undone m'.procs.plist ≡ 0))
    ⊎ ((m' : Machine) × (cycle no_draw (pos 1) false machine ≡ ok (m', false)) × IsSound m'.procs)
    ⊎ ((e : Exception) × (cycle no_draw (pos 1) false machine ≡ raise e) × Raised machine e)
cycle-IsSound_example = cycle-IsSound no_draw (pos 1) false machine two-IsSound

finalize-IsSound_example :
    (l' : ProcList) × (finalize [] (threads (thread 0 ∷ thread 1 ∷ [])) (loaded racy)
      ≡ ok (l', restored (thread 0) (loaded racy)))
    × IsSound l'
    × (l'.plist ≡ thread 0 ∷ thread 1 ∷ [])
finalize-IsSound_example =
    finalize-IsSound (thread 0) (thread 1 ∷ []) (loaded racy) (threads (thread 0 ∷ thread 1 ∷ []))
      refl refl refl (unfold program in (refl, (refl, tt)))

call_then_ret_example :
    (c1 : Cpu) × (execute (call (pos 1003)) machine.cpu ≡ ok (c1, go_on))
    × (c1.pc ≡ pos 1003)
    × ((pc : ℤ)
        → (c2 : Cpu) × (execute ret (record c1 { pc = pc }) ≡ ok (c2, go_on))
          × (c2.pc ≡ machine.cpu.pc)
          × ((r : ℕ) → c2.registers r ≡ machine.cpu.registers r)
          × ((a : ℤ) → (a ==ℤ lowered machine.cpu) ≡ false → c2.memory a ≡ machine.cpu.memory a))
call_then_ret_example = call_then_ret (pos 1003) machine.cpu

push_then_pop_example :
    (c1 : Cpu) × (execute (push_r Reg.bx) machine.cpu ≡ ok (c1, go_on))
    × (c2 : Cpu) × (execute (pop_r Reg.ax) c1 ≡ ok (c2, go_on))
    × (c2.pc ≡ machine.cpu.pc)
    × ((r : ℕ)
        → c2.registers r
          ≡ (if r == Reg.ax then machine.cpu.registers Reg.bx else machine.cpu.registers r))
    × ((a : ℤ) → (a ==ℤ lowered machine.cpu) ≡ false → c2.memory a ≡ machine.cpu.memory a)
push_then_pop_example = push_then_pop Reg.bx Reg.ax machine.cpu refl refl

loaded-counting : load counting (pos 1000) (Cpu.init 1) ≡ ok (loaded counting)
unfolding program
loaded-counting = refl

load_jump_example :
    (loaded counting).memory (pos 1000 +ℤ pos 5) ≡ some (code (Instr.jump (pos 1000 +ℤ pos 0)))
unfolding program
load_jump_example =
    load_jump counting
      (var_line 0 none
        ∷ label_line 7
        ∷ op2 Opcode2.add (immediate (pos 1)) ax
        ∷ op2 Opcode2.test (immediate (pos 3)) ax
        ∷ op1 Opcode1.jlt (label 7)
        ∷ op2 Opcode2.mov ax cell
        ∷ op0 Opcode0.halt
        ∷ [])
      [] (var_line 0 none ∷ [])
      (op2 Opcode2.add (immediate (pos 1)) ax
        ∷ op2 Opcode2.test (immediate (pos 3)) ax
        ∷ op1 Opcode1.jlt (label 7)
        ∷ op2 Opcode2.mov ax cell
        ∷ op0 Opcode0.halt
        ∷ op1 Opcode1.j (label 7)
        ∷ [])
      7 (pos 1000) (Cpu.init 1) (loaded counting) loaded-counting refl refl
      (refl, (refl, (refl, (refl, (refl, (refl, tt))))))
