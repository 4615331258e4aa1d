-- ===== src/X86/Loaded.antt =====
-- What `load` of x86.py leaves in memory: the instructions one after the other, with each label at the
-- place of the instruction after it.
use life.Prelude.{
  ok_of_bind, ℕ, ◌+◌, ◌≡◌, refl, sym, ap, ◌∙◌, inl, inr, Bool, true, false, some, Bool-cases, List,
  [], ◌∷◌, ◌++◌, All, ◌==◌, if◌then◌else◌, lookup, insert, lookup-insert, ok, ◌>>=◌, arith,
}
use life.Prelude.Int.{ℤ, pos, ◌+ℤ◌, ◌==ℤ◌, ==ℤ_refl}
use native.Mathlib.Nat.{zero-add}
use life.X86.Cpu.{Instr, code, Cpu, store}
use life.X86.Assembler.{
  Table, Line, var_line, label_line, op2, op1, op0, mdump_line, illegal, is_instruction, Symbols,
  declare, first_pass, assemble, second_pass, load, j, label, getarg, assemble1, target,
}

-- How many of the lines are instructions.
abbrev pub count : List Line → ℕ
count [] = 0
count (line ∷ l) = (if is_instruction line then 1 else 0) + count l

abbrev declares : ℕ → Line → Bool
declares name (label_line n) = n == name
declares name (var_line n m) = false
declares name (op2 o x y) = false
declares name (op1 o x) = false
declares name (op0 o) = false
declares name (mdump_line i) = false
declares name illegal = false

-- The lines do not declare the label.
abbrev pub Free : ℕ → List Line → Type 0
Free name l = All (λ line. declares name line ≡ false) l

+ℤ_zero : (a : ℤ) → a +ℤ pos 0 ≡ a
unfolding ◌+ℤ◌
+ℤ_zero a = ground arith

+ℤ_suc : (a : ℤ) (n : ℕ) → a +ℤ pos 1 +ℤ pos n ≡ a +ℤ pos (1 + n)
unfolding ◌+ℤ◌
+ℤ_suc a n = ground arith

+ℤ_add : (a : ℤ) (m n : ℕ) → a +ℤ pos m +ℤ pos n ≡ a +ℤ pos (m + n)
unfolding ◌+ℤ◌
+ℤ_add a m n = ground arith

before_sum : (a : ℤ) (n : ℕ) → (a ==ℤ (a +ℤ pos 1 +ℤ pos n)) ≡ false
unfolding ◌+ℤ◌
before_sum a n = ground arith

module _ (labels vars : Table) where
  second_pass-step :
      (pc : ℤ) (line : Line) (lines : List Line) (c c' : Cpu)
      → is_instruction line ≡ true
      → second_pass labels vars pc (line ∷ lines) c ≡ ok c'
      → (i : Instr) × (assemble labels vars line ≡ ok i)
        × (second_pass labels vars (pc +ℤ pos 1) lines (store pc (code i) c) ≡ ok c')
  unfolding second_pass
  second_pass-step pc line lines c c' s e =
      let e' : (assemble labels vars line >>= λ i.
      second_pass labels vars (pc +ℤ pos 1) lines (store pc (code i) c))
          ≡ ok c' =
        (let f : second_pass labels vars pc (line ∷ lines) c ≡ (
              assemble labels vars line >>= λ i.
              second_pass labels vars (pc +ℤ pos 1) lines (store pc (code i) c)) =
            rw s in
          sym f ∙ e) in
      ok_of_bind (assemble labels vars line) _ e'

  second_pass-skip :
      (pc : ℤ) (line : Line) (lines : List Line) (c : Cpu)
      → is_instruction line ≡ false
      → second_pass labels vars pc (line ∷ lines) c ≡ second_pass labels vars pc lines c
  unfolding second_pass
  second_pass-skip pc line lines c s = rw s

  -- What stands before the lines is not touched.
  second_pass-before :
      (pc : ℤ) (lines : List Line) (c c' : Cpu) (a : ℤ)
      → second_pass labels vars pc lines c ≡ ok c'
      → ((n : ℕ) → (a ==ℤ (pc +ℤ pos n)) ≡ false)
      → c'.memory a ≡ c.memory a
  second_pass-before pc [] c c' a e ne =
      let f : c ≡ c' = (unfold second_pass in cc) in ap (λ (d : Cpu). d.memory a) (sym f)
  second_pass-before pc (line ∷ lines) c c' a e ne = elim (Bool-cases (is_instruction line)) [
    | inr s ↦ second_pass-before pc lines c c' a (sym (second_pass-skip pc line lines c s) ∙ e) ne
    | inl s ↦
        let (i, f, g) = second_pass-step pc line lines c c' s e in
        let ne' : (n : ℕ) → (a ==ℤ (pc +ℤ pos 1 +ℤ pos n)) ≡ false =
          λ n. rw (+ℤ_suc pc n) (ne (1 + n)) in
        let z : (a ==ℤ pc) ≡ false = rw (← (+ℤ_zero pc)) (ne 0) in
        second_pass-before (pc +ℤ pos 1) lines (store pc (code i) c) c' a g ne' ∙ rw z
  ]

  -- The second pass puts the n-th instruction at the n-th place.
  second_pass-at :
      (pc : ℤ) (pre : List Line) (line : Line) (post : List Line) (c c' : Cpu)
      → second_pass labels vars pc (pre ++ line ∷ post) c ≡ ok c'
      → is_instruction line ≡ true
      → (i : Instr) × (assemble labels vars line ≡ ok i)
        × (c'.memory (pc +ℤ pos (count pre)) ≡ some (code i))
  second_pass-at pc [] line post c c' e s =
      let (i, f, g) = second_pass-step pc line post c c' s e in
      (
        i,
        f,
        rw (+ℤ_zero pc) (
            second_pass-before (pc +ℤ pos 1) post (store pc (code i) c) c' pc g (before_sum pc)
            ∙ rw (==ℤ_refl pc)),
      )
  second_pass-at pc (x ∷ pre) line post c c' e s = elim (Bool-cases (is_instruction x)) [
    | inr q ↦
        let (i, f, g) =
          second_pass-at pc pre line post c c'
            (sym (second_pass-skip pc x (pre ++ line ∷ post) c q) ∙ e) s in
        (i, f, rw q (rw zero-add g))
    | inl q ↦
        let (k, f, g) = second_pass-step pc x (pre ++ line ∷ post) c c' q e in
        let (i, h, m) = second_pass-at (pc +ℤ pos 1) pre line post (store pc (code k) c) c' g s in
        (i, h, rw q (rw (← (+ℤ_suc pc (count pre))) m))
  ]

module _ (bpc : ℤ) where
  -- A line of the first pass that does not declare the label keeps it.
  declare-keeps :
      (name : ℕ) (line : Line) (s s' : Symbols)
      → declare bpc line s ≡ ok s'
      → declares name line ≡ false
      → lookup name s'.labels ≡ lookup name s.labels
  unfolding declare
  declare-keeps name (var_line n m) s s' e f = ground arith
  declare-keeps name (label_line n) s s' e f =
      let g : lookup name s'.labels ≡ lookup name (insert n s.pc s.labels) = ground arith in
      g ∙ lookup-insert n name s.pc s.labels ∙ rw f
  declare-keeps name (op2 o x y) s s' e f = ground arith
  declare-keeps name (op1 o x) s s' e f = ground arith
  declare-keeps name (op0 o) s s' e f = ground arith
  declare-keeps name (mdump_line i) s s' e f = ground arith
  declare-keeps name illegal s s' e f = ground arith

  declare-pc :
      (line : Line) (s s' : Symbols)
      → declare bpc line s ≡ ok s'
      → s'.pc ≡ s.pc +ℤ pos (if is_instruction line then 1 else 0)
  unfolding declare is_instruction
  declare-pc (var_line n m) s s' e = rw (+ℤ_zero s.pc) (ground arith)
  declare-pc (label_line n) s s' e = rw (+ℤ_zero s.pc) (ground arith)
  declare-pc (op2 o x y) s s' e = ground arith
  declare-pc (op1 o x) s s' e = ground arith
  declare-pc (op0 o) s s' e = ground arith
  declare-pc (mdump_line i) s s' e = ground arith
  declare-pc illegal s s' e = ground arith

  first_pass-keeps :
      (name : ℕ) (lines : List Line) (s s' : Symbols)
      → first_pass bpc lines s ≡ ok s'
      → Free name lines
      → lookup name s'.labels ≡ lookup name s.labels
  unfolding first_pass
  first_pass-keeps name [] s s' e f =
      let g : s ≡ s' = cc in ap (λ (u : Symbols). lookup name u.labels) (sym g)
  first_pass-keeps name (line ∷ lines) s s' e f =
      let (u, g, h) = ok_of_bind (declare bpc line s) (λ u. first_pass bpc lines u) e in
      first_pass-keeps name lines u s' h f.1 ∙ declare-keeps name line s u g f.0

  first_pass-at :
      (name : ℕ) (pre post : List Line) (s s' : Symbols)
      → first_pass bpc (pre ++ label_line name ∷ post) s ≡ ok s'
      → Free name post
      → lookup name s'.labels ≡ some (s.pc +ℤ pos (count pre))
  unfolding first_pass declare
  first_pass-at name [] post s s' e f =
      let u : Symbols = record s { labels = insert name s.pc s.labels } in
      rw (+ℤ_zero s.pc)
        (first_pass-keeps name post u s' e f ∙ lookup-insert name name s.pc s.labels ∙ ground arith)
  first_pass-at name (x ∷ pre) post s s' e f =
      let (u, g, h) =
        ok_of_bind (declare bpc x s) (λ u. first_pass bpc (pre ++ label_line name ∷ post) u) e in
      first_pass-at name pre post u s' h f
      ∙ ap some
          (rw (declare-pc x s u g) (+ℤ_add s.pc (if is_instruction x then 1 else 0) (count pre)))

assemble_jump :
    (labels vars : Table) (name : ℕ) (a : ℤ) (i : Instr)
    → lookup name labels ≡ some a
    → assemble labels vars (op1 j (label name)) ≡ ok i
    → i ≡ Instr.jump a
unfolding assemble assemble1 getarg target
assemble_jump labels vars name a i e f =
    let g : assemble labels vars (op1 j (label name)) ≡ ok (Instr.jump a) = rw (target, e) in cc

-- Where a program is loaded with no error: a line that jumps to a label has become, at the place of the
-- load address and of the instructions before it, a jump to the place of the load address and of the
-- instructions before the label, if the label is not declared again further down.
pub load_jump :
    (lines pre post pre' post' : List Line) (name : ℕ) (loadaddr : ℤ) (c c' : Cpu)
    → load lines loadaddr c ≡ ok c'
    → lines ≡ pre ++ op1 j (label name) ∷ post
    → lines ≡ pre' ++ label_line name ∷ post'
    → Free name post'
    → c'.memory (loadaddr +ℤ pos (count pre))
      ≡ some (code (Instr.jump (loadaddr +ℤ pos (count pre'))))
unfolding load is_instruction
load_jump lines pre post pre' post' name loadaddr c c' e p q f =
    let start : Symbols = record { pc = loadaddr; static = pos 100; labels = []; vars = [] } in
    let (s, g, h) =
      ok_of_bind (first_pass loadaddr lines start)
        (λ s. second_pass s.labels s.vars loadaddr lines c) e in
    let k = first_pass-at loadaddr name pre' post' start s (rw q at g) f in
    let (i, a, m) =
      second_pass-at s.labels s.vars loadaddr pre (op1 j (label name)) post c c' (rw p at h) refl in
    m ∙ ap (λ (x : Instr). some (code x)) (assemble_jump s.labels s.vars name _ i k a)
