-- ===== src/X86/Cpu.antt =====
-- The class `cpu` of x86.py: its state and its instructions.
use life.Prelude.{
  ℕ, ◌*◌, ltb, Bool, false, not, Option, none, some, ◌==◌, if◌then◌else◌, Result, ok, raise, ◌>>=◌,
  key_error, outside,
}
use life.X86.Reg
use life.Prelude.Int.{ℤ, pos, negsuc, ◌+ℤ◌, ◌-ℤ◌, ◌*ℤ◌, neg_ℤ, ltb_ℤ, ◌==ℤ◌}

-- The calls that stand for instructions, with the arguments in their order there.
pub data Instr : Type 0 where
  halt iyield nop rdump ret pop : Instr
  mdump : (index : ℤ) → Instr
  move_i_to_r : (src : ℤ) (dst : ℕ) → Instr
  move_i_to_m : (src value : ℤ) (reg1 reg2 : ℕ) (scale : ℤ) → Instr
  move_m_to_r : (value : ℤ) (reg1 reg2 : ℕ) (scale : ℤ) (dst : ℕ) → Instr
  move_r_to_m : (src : ℕ) (value : ℤ) (reg1 reg2 : ℕ) (scale : ℤ) → Instr
  move_r_to_r : (src dst : ℕ) → Instr
  lea_m_to_r : (value : ℤ) (reg1 reg2 : ℕ) (scale : ℤ) (dst : ℕ) → Instr
  add_i_to_r mul_i_to_r sub_i_to_r : (src : ℤ) (dst : ℕ) → Instr
  add_r_to_r mul_r_to_r sub_r_to_r : (src dst : ℕ) → Instr
  neg_r : (src : ℕ) → Instr
  atomic_exchange fetchadd : (src : ℕ) (value : ℤ) (reg1 reg2 : ℕ) → Instr
  test_i_r : (src : ℤ) (dst : ℕ) → Instr
  test_r_i : (src : ℕ) (dst : ℤ) → Instr
  test_r_r : (src dst : ℕ) → Instr
  jump jump_notequal jump_equal jump_lessthan jump_lessthanorequal jump_greaterthan
        jump_greaterthanorequal call :
      (targ : ℤ) → Instr
  push_r pop_r : (reg : ℕ) → Instr
  push_m : (value : ℤ) (reg1 reg2 : ℕ) (scale : ℤ) → Instr

-- What is in a memory cell: a number, or an instruction.
pub data Cell : Type 0 where
  num : ℤ → Cell
  code : Instr → Cell

-- `conditions`
pub record Conditions : Type 0 where
  pub gt : Bool
  pub gte : Bool
  pub lt : Bool
  pub lte : Bool
  pub eq : Bool
  pub neq : Bool

pub record Cpu : Type 0 where
  pub pc : ℤ
  pub registers : ℕ → ℤ
  pub conditions : Conditions
  pub memory : ℤ → Option Cell

abbrev pub init_condition_codes : Conditions
init_condition_codes = record {
  gt = false;
  gte = false;
  lt = false;
  lte = false;
  eq = false;
  neq = false;
}

-- `__init__`, with the size of the memory in KB
unfoldable pub init : ℕ → Cpu
init memory_size = record {
  pc = pos 0;
  registers = λ r. pos 0;
  conditions = init_condition_codes;
  memory = λ a. elim a [
    | pos n ↦ if ltb n (memory_size * 1024) then some (num (pos 0)) else none
    | negsuc n ↦ none
  ];
}

-- `self.registers[reg] = value`, and the same of the memory, where a new address makes a new cell.
abbrev pub set_reg : ℕ → ℤ → Cpu → Cpu
set_reg reg value c = record c { registers = λ r. if r == reg then value else c.registers r }

abbrev pub store : ℤ → Cell → Cpu → Cpu
store a x c = record c { memory = λ b. if b ==ℤ a then some x else c.memory b }

-- `self.memory[a]`, used as a number. A program that uses the text of an instruction as data is outside
-- of the model.
unfoldable pub load_cell : ℤ → Cpu → Result ℤ
load_cell a c = elim (c.memory a) [
  | none ↦ raise key_error
  | some x ↦ elim x [ num v ↦ ok v | code i ↦ raise outside ]
]

-- `value + self.registers[reg1] + (scale * self.registers[reg2])`
unfoldable pub address : ℤ → ℕ → ℕ → ℤ → Cpu → ℤ
address value reg1 reg2 scale c = value +ℤ c.registers reg1 +ℤ scale *ℤ c.registers reg2

-- What an instruction returns: -1, -2, or 0 (or nothing at all).
pub data Rc : Type 0 where
  stop give_way go_on : Rc

unfoldable pub test_all : ℤ → ℤ → Cpu → Cpu
test_all src dst c = record c {
  conditions = record {
    gt = ltb_ℤ src dst;
    gte = not (ltb_ℤ dst src);
    lt = ltb_ℤ dst src;
    lte = not (ltb_ℤ src dst);
    eq = dst ==ℤ src;
    neq = not (dst ==ℤ src);
  };
}

unfoldable pub jump_if : Bool → ℤ → Cpu → Cpu
jump_if taken targ c = if taken then record c { pc = targ } else c

-- `self.registers[self.REG_SP] -= 4`, and `self.memory[self.registers[self.REG_SP]] = value`
unfoldable pub grow_stack : Cpu → Cpu
grow_stack c = set_reg Reg.sp (c.registers Reg.sp -ℤ pos 4) c

unfoldable pub shrink_stack : Cpu → Cpu
shrink_stack c = set_reg Reg.sp (c.registers Reg.sp +ℤ pos 4) c

unfoldable pub store_top : ℤ → Cpu → Cpu
store_top v c = store (c.registers Reg.sp) (num v) c

-- The methods that are evaluated.
unfoldable pub execute : Instr → Cpu → Result (Cpu × Rc)
execute halt c = ok (c, stop)
execute iyield c = ok (c, give_way)
execute nop c = ok (c, go_on)
execute rdump c = ok (c, go_on)
execute (mdump index) c = elim (c.memory index) [ none ↦ raise key_error | some x ↦ ok (c, go_on) ]
execute (move_i_to_r src dst) c = ok (set_reg dst src c, go_on)
execute (move_i_to_m src value reg1 reg2 scale) c =
    ok (store (address value reg1 reg2 scale c) (num src) c, go_on)
execute (move_m_to_r value reg1 reg2 scale dst) c = do
  v ← load_cell (address value reg1 reg2 scale c) c
  ok (set_reg dst v c, go_on)
execute (move_r_to_m src value reg1 reg2 scale) c =
    ok (store (address value reg1 reg2 scale c) (num (c.registers src)) c, go_on)
execute (move_r_to_r src dst) c = ok (set_reg dst (c.registers src) c, go_on)
execute (lea_m_to_r value reg1 reg2 scale dst) c =
    ok (set_reg dst (address value reg1 reg2 scale c) c, go_on)
execute (add_i_to_r src dst) c = ok (set_reg dst (c.registers dst +ℤ src) c, go_on)
execute (add_r_to_r src dst) c = ok (set_reg dst (c.registers dst +ℤ c.registers src) c, go_on)
execute (mul_i_to_r src dst) c = ok (set_reg dst (c.registers dst *ℤ src) c, go_on)
execute (mul_r_to_r src dst) c = ok (set_reg dst (c.registers dst *ℤ c.registers src) c, go_on)
execute (sub_i_to_r src dst) c = ok (set_reg dst (c.registers dst -ℤ src) c, go_on)
execute (sub_r_to_r src dst) c = ok (set_reg dst (c.registers dst -ℤ c.registers src) c, go_on)
execute (neg_r src) c = ok (set_reg src (neg_ℤ (c.registers src)) c, go_on)
execute (atomic_exchange src value reg1 reg2) c = do
  let tmp = value +ℤ c.registers reg1 +ℤ c.registers reg2
  old ← load_cell tmp c
  ok (set_reg src old (store tmp (num (c.registers src)) c), go_on)
execute (fetchadd src value reg1 reg2) c = do
  let tmp = value +ℤ c.registers reg1 +ℤ c.registers reg2
  old ← load_cell tmp c
  ok (set_reg src old (store tmp (num (old +ℤ c.registers src)) c), go_on)
execute (test_i_r src dst) c = ok (test_all src (c.registers dst) c, go_on)
execute (test_r_i src dst) c = ok (test_all (c.registers src) dst c, go_on)
execute (test_r_r src dst) c = ok (test_all (c.registers src) (c.registers dst) c, go_on)
execute (jump targ) c = ok (record c { pc = targ }, go_on)
execute (jump_notequal targ) c = ok (jump_if c.conditions.neq targ c, go_on)
execute (jump_equal targ) c = ok (jump_if c.conditions.eq targ c, go_on)
execute (jump_lessthan targ) c = ok (jump_if c.conditions.lt targ c, go_on)
execute (jump_lessthanorequal targ) c = ok (jump_if c.conditions.lte targ c, go_on)
execute (jump_greaterthan targ) c = ok (jump_if c.conditions.gt targ c, go_on)
execute (jump_greaterthanorequal targ) c = ok (jump_if c.conditions.gte targ c, go_on)
execute (call targ) c = ok (record (store_top c.pc (grow_stack c)) { pc = targ }, go_on)
execute ret c = do
  v ← load_cell (c.registers Reg.sp) c
  ok (shrink_stack (record c { pc = v }), go_on)
execute (push_r reg) c = let c' = grow_stack c in ok (store_top (c'.registers reg) c', go_on)
execute (push_m value reg1 reg2 scale) c =
    let c' = grow_stack c in
    ok (store_top (value +ℤ c'.registers reg1 +ℤ c'.registers reg2 *ℤ scale) c', go_on)
execute pop c = ok (shrink_stack c, go_on)
execute (pop_r dst) c = do
  v ← load_cell (c.registers Reg.sp) c
  ok (shrink_stack (set_reg dst v c), go_on)
