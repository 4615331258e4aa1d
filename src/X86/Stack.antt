-- ===== src/X86/Stack.antt =====
-- The stack instructions of x86.py undo each other.
use life.Prelude.{ℕ, ◌≡◌, refl, inl, inr, false, some, Bool-cases, ◌==◌, if◌then◌else◌, ok, arith}
use life.Prelude.Int.{ℤ, pos, ◌+ℤ◌, ◌-ℤ◌, ◌==ℤ◌, ==ℤ_refl, sub_add_cancel}
use life.X86.Reg
use life.X86.Cpu.{
  Cpu, num, call, ret, push_r, pop_r, go_on, execute, load_cell, grow_stack, shrink_stack,
  store_top, set_reg, store,
}

-- The stack pointer after a push.
abbrev pub lowered : Cpu → ℤ
lowered c = c.registers Reg.sp -ℤ pos 4

load_cell-some : (a v : ℤ) (c : Cpu) → c.memory a ≡ some (num v) → load_cell a c ≡ ok v
unfolding load_cell
load_cell-some a v c e = rw (load_cell, e)

load_cell-store : (a v : ℤ) (c : Cpu) → load_cell a (store a (num v) c) ≡ ok v
load_cell-store a v c = load_cell-some a v (store a (num v) c) (rw (==ℤ_refl a))

-- A call goes to its target. A return, from wherever the program counter then is, goes on where the
-- call stood, and every register is as it was before the call, and every cell but the one below the
-- stack.
pub call_then_ret :
    (targ : ℤ) (c : Cpu)
    → (c1 : Cpu) × (execute (call targ) c ≡ ok (c1, go_on))
      × (c1.pc ≡ targ)
      × ((pc : ℤ)
          → (c2 : Cpu) × (execute ret (record c1 { pc = pc }) ≡ ok (c2, go_on))
            × (c2.pc ≡ c.pc)
            × ((r : ℕ) → c2.registers r ≡ c.registers r)
            × ((a : ℤ) → (a ==ℤ lowered c) ≡ false → c2.memory a ≡ c.memory a))
unfolding execute grow_stack shrink_stack store_top
call_then_ret targ c =
    let c1 : Cpu = record (store (lowered c) (num c.pc) (set_reg Reg.sp (lowered c) c)) {
      pc = targ;
    } in
    (
      c1,
      refl,
      refl,
      λ pc.
          let d : Cpu = record c1 { pc = pc } in
          let e : load_cell (lowered c) d ≡ ok c.pc =
            load_cell-some (lowered c) c.pc d (rw (==ℤ_refl (lowered c))) in
          (
            record (set_reg Reg.sp (lowered c +ℤ pos 4) c1) { pc = c.pc },
            rw e,
            refl,
            λ r. elim (Bool-cases (r == 7)) [
              | inl f ↦
                  let g : r ≡ 7 = ground arith in rw (f, g) (sub_add_cancel (c.registers 7) (pos 4))
              | inr f ↦ rw f
            ],
            λ a f. rw f,
          ),
    )

-- A push of a register and a pop into one, neither the stack pointer: the second has then what the
-- first had, every other register is as it was, and every cell but the one below the stack.
pub push_then_pop :
    (src dst : ℕ) (c : Cpu)
    → (src == Reg.sp) ≡ false
    → (dst == Reg.sp) ≡ false
    → (c1 : Cpu) × (execute (push_r src) c ≡ ok (c1, go_on))
      × (c2 : Cpu) × (execute (pop_r dst) c1 ≡ ok (c2, go_on))
      × (c2.pc ≡ c.pc)
      × ((r : ℕ) → c2.registers r ≡ (if r == dst then c.registers src else c.registers r))
      × ((a : ℤ) → (a ==ℤ lowered c) ≡ false → c2.memory a ≡ c.memory a)
unfolding execute grow_stack shrink_stack store_top
push_then_pop src dst c s d =
    let c1 : Cpu = store (lowered c) (num (c.registers src)) (set_reg Reg.sp (lowered c) c) in
    let s' : (7 == dst) ≡ false = ground arith in
    (
      c1,
      rw s,
      set_reg Reg.sp (lowered c +ℤ pos 4) (set_reg dst (c.registers src) c1),
      rw (load_cell-store (lowered c) (c.registers src) (set_reg Reg.sp (lowered c) c), s'),
      refl,
      λ r. elim (Bool-cases (r == 7)) [
        | inl f ↦
            let g : r ≡ 7 = ground arith in rw (f, g, s') (sub_add_cancel (c.registers 7) (pos 4))
        | inr f ↦ rw f
      ],
      λ a f. rw f,
    )
