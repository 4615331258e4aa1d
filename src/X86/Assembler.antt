-- ===== src/X86/Assembler.antt =====
-- `getarg` and `load` of x86.py, on lines whose text is taken apart: names are numbers, and an
-- argument is a value of `Arg`. A line of an opcode has as many arguments as the opcode takes.
use life.Prelude.{
  ℕ, Bool, true, false, Option, none, some, List, [], ◌∷◌, if◌then◌else◌, lookup, insert, Result,
  ok, raise, ◌>>=◌, key_error, system_exit, attribute_error, assertion_error,
}
use life.Prelude.Int.{ℤ, pos, ◌+ℤ◌, ◌*ℤ◌, ltb_ℤ}
use life.X86.Reg
use life.X86.Cpu.{Instr, code, Cpu, store}

-- An argument as it is written: `$10`, `%ax`, `.top`, a variable, or an address
-- `value(reg1,reg2,scale)`, whose missing parts are 0, the register `zero` and 1.
pub data Arg : Type 0 where
  immediate : ℤ → Arg
  register : ℕ → Arg
  label : ℕ → Arg
  variable : ℕ → Arg
  place : (value : ℤ) (reg1 reg2 : ℕ) (scale : ℤ) → Arg

-- What `getarg` returns: a value and its type.
pub data Operand : Type 0 where
  type_immediate : ℤ → Operand
  type_register : ℕ → Operand
  type_label : ℕ → Operand
  type_memory : (value : ℤ) (reg1 reg2 : ℕ) (scale : ℤ) → Operand

abbrev pub Table : Type 0
Table = List (ℕ × ℤ)

unfoldable pub getarg : Table → Arg → Result Operand
getarg vars (immediate v) = ok (type_immediate v)
getarg vars (register r) = ok (type_register r)
getarg vars (label l) = ok (type_label l)
getarg vars (variable x) = elim (lookup x vars) [
  | none ↦ raise system_exit
  | some a ↦ ok (type_memory a Reg.zero Reg.zero (pos 1))
]
getarg vars (place value reg1 reg2 scale) = ok (type_memory value reg1 reg2 scale)

pub data Opcode2 : Type 0 where
  mov lea mul add sub fetchadd xchg test : Opcode2

pub data Opcode1 : Type 0 where
  neg pop push call j jne je jlt jlte jgt jgte : Opcode1

pub data Opcode0 : Type 0 where
  pop ret nop halt yield rdump : Opcode0

-- A line that is not empty, without its comment.
pub data Line : Type 0 where
  var_line : (name : ℕ) (mul : Option ℤ) → Line
  label_line : (name : ℕ) → Line
  op2 : Opcode2 → Arg → Arg → Line
  op1 : Opcode1 → Arg → Line
  op0 : Opcode0 → Line
  mdump_line : ℤ → Line
  illegal : Line

unfoldable pub is_instruction : Line → Bool
is_instruction (var_line name m) = false
is_instruction (label_line name) = false
is_instruction (op2 o a b) = true
is_instruction (op1 o a) = true
is_instruction (op0 o) = true
is_instruction (mdump_line i) = true
is_instruction illegal = true

-- The branches of the main opcode loop for two arguments, by the types of the two.
unfoldable pub assemble2 : Opcode2 → Operand → Operand → Result Instr
assemble2 mov (type_immediate v) (type_register r) = ok (Instr.move_i_to_r v r)
assemble2 mov (type_memory v a b s) (type_register r) = ok (Instr.move_m_to_r v a b s r)
assemble2 mov (type_register r) (type_memory v a b s) = ok (Instr.move_r_to_m r v a b s)
assemble2 mov (type_register q) (type_register r) = ok (Instr.move_r_to_r q r)
assemble2 mov (type_immediate w) (type_memory v a b s) = ok (Instr.move_i_to_m w v a b s)
assemble2 mov _ _ = raise system_exit
assemble2 lea (type_memory v a b s) (type_register r) = ok (Instr.lea_m_to_r v a b s r)
assemble2 lea _ _ = raise system_exit
assemble2 mul (type_immediate v) (type_register r) = ok (Instr.mul_i_to_r v r)
assemble2 mul (type_register q) (type_register r) = ok (Instr.mul_r_to_r q r)
assemble2 mul _ _ = raise system_exit
assemble2 add (type_immediate v) (type_register r) = ok (Instr.add_i_to_r v r)
assemble2 add (type_register q) (type_register r) = ok (Instr.add_r_to_r q r)
assemble2 add _ _ = raise system_exit
assemble2 sub (type_immediate v) (type_register r) = ok (Instr.sub_i_to_r v r)
assemble2 sub (type_register q) (type_register r) = ok (Instr.sub_r_to_r q r)
assemble2 sub _ _ = raise system_exit
assemble2 fetchadd (type_register r) (type_memory v a b s) = ok (Instr.fetchadd r v a b)
assemble2 fetchadd _ (type_memory v a b s) = raise system_exit
assemble2 fetchadd _ (type_label l) = raise assertion_error
assemble2 fetchadd _ _ = raise attribute_error
assemble2 xchg (type_register r) (type_memory v a b s) = ok (Instr.atomic_exchange r v a b)
assemble2 xchg _ (type_memory v a b s) = raise system_exit
assemble2 xchg _ (type_label l) = raise assertion_error
assemble2 xchg _ _ = raise attribute_error
assemble2 test (type_immediate v) (type_register r) = ok (Instr.test_i_r v r)
assemble2 test (type_register q) (type_register r) = ok (Instr.test_r_r q r)
assemble2 test (type_register r) (type_immediate v) = ok (Instr.test_r_i r v)
assemble2 test _ _ = raise system_exit

-- `int(self.labels[targ])`, of an argument that has to be a label.
unfoldable pub target : Table → Operand → Result ℤ
target labels (type_label l) = elim (lookup l labels) [ none ↦ raise key_error | some a ↦ ok a ]
target labels (type_immediate v) = raise system_exit
target labels (type_register r) = raise system_exit
target labels (type_memory v a b s) = raise system_exit

unfoldable pub assemble1 : Table → Opcode1 → Operand → Result Instr
assemble1 labels neg (type_register r) = ok (Instr.neg_r r)
assemble1 labels neg _ = raise system_exit
assemble1 labels pop (type_register r) = ok (Instr.pop_r r)
assemble1 labels pop _ = raise system_exit
assemble1 labels push (type_register r) = ok (Instr.push_r r)
assemble1 labels push (type_memory v a b s) = ok (Instr.push_m v a b s)
assemble1 labels push _ = raise system_exit
assemble1 labels call x = do a ← target labels x; ok (Instr.call a)
assemble1 labels j x = do a ← target labels x; ok (Instr.jump a)
assemble1 labels jne x = do a ← target labels x; ok (Instr.jump_notequal a)
assemble1 labels je x = do a ← target labels x; ok (Instr.jump_equal a)
assemble1 labels jlt x = do a ← target labels x; ok (Instr.jump_lessthan a)
assemble1 labels jlte x = do a ← target labels x; ok (Instr.jump_lessthanorequal a)
assemble1 labels jgt x = do a ← target labels x; ok (Instr.jump_greaterthan a)
assemble1 labels jgte x = do a ← target labels x; ok (Instr.jump_greaterthanorequal a)

unfoldable pub assemble0 : Opcode0 → Instr
assemble0 pop = Instr.pop
assemble0 ret = Instr.ret
assemble0 nop = Instr.nop
assemble0 halt = Instr.halt
assemble0 yield = Instr.iyield
assemble0 rdump = Instr.rdump

unfoldable pub assemble : Table → Table → Line → Result Instr
assemble labels vars (op2 o x y) = do src ← getarg vars x; dst ← getarg vars y; assemble2 o src dst
assemble labels vars (op1 o x) = do y ← getarg vars x; assemble1 labels o y
assemble labels vars (op0 o) = ok (assemble0 o)
assemble labels vars (mdump_line i) = ok (Instr.mdump i)
assemble labels vars illegal = raise system_exit
assemble labels vars (var_line name m) = raise system_exit
assemble labels vars (label_line name) = raise system_exit

-- The first pass over the file, with its variables `pc`, `data` (here `static`), `labels` and `vars`.
pub record Symbols : Type 0 where
  pub pc : ℤ
  pub static : ℤ
  pub labels : Table
  pub vars : Table

unfoldable pub declare : ℤ → Line → Symbols → Result Symbols
declare bpc (var_line name m) s =
    let size = pos 4 *ℤ (elim m [ none ↦ pos 1 | some k ↦ k ]) in
    let t : Symbols = record s { vars = insert name s.static s.vars; static = s.static +ℤ size } in
    if ltb_ℤ t.static bpc then ok t else raise system_exit
declare bpc (label_line name) s = ok (record s { labels = insert name s.pc s.labels })
declare bpc (op2 o x y) s = ok (record s { pc = s.pc +ℤ pos 1 })
declare bpc (op1 o x) s = ok (record s { pc = s.pc +ℤ pos 1 })
declare bpc (op0 o) s = ok (record s { pc = s.pc +ℤ pos 1 })
declare bpc (mdump_line i) s = ok (record s { pc = s.pc +ℤ pos 1 })
declare bpc illegal s = ok (record s { pc = s.pc +ℤ pos 1 })

unfoldable pub first_pass : ℤ → List Line → Symbols → Result Symbols
first_pass bpc [] s = ok s
first_pass bpc (line ∷ lines) s = do s' ← declare bpc line s; first_pass bpc lines s'

-- The second pass, which puts the instructions into memory.
unfoldable pub second_pass : Table → Table → ℤ → List Line → Cpu → Result Cpu
second_pass labels vars pc [] c = ok c
second_pass labels vars pc (line ∷ lines) c =
    let skip = second_pass labels vars pc lines c in
    if is_instruction line
    then (do
      i ← assemble labels vars line
      second_pass labels vars (pc +ℤ pos 1) lines (store pc (code i) c))
    else skip

-- `load`
unfoldable pub load : List Line → ℤ → Cpu → Result Cpu
load lines loadaddr c = do
  s ← first_pass loadaddr lines (record { pc = loadaddr; static = pos 100; labels = []; vars = [] })
  second_pass s.labels s.vars loadaddr lines c
