-- ===== src/X86/Turns.antt =====
-- The turns of the threads: the list of processes raises nothing, `next` ends, and what a thread has in
-- the processor comes back when it has its turn again.
use life.Prelude.{
  ℕ, zero, suc, ◌+◌, ◌-◌, ◌≤◌, ◌<◌, ◌≡◌, ◌≢◌, refl, ◌∙◌, ◌⊎◌, inl, inr, Bool, true, false, ◌||◌,
  some, Bool-cases, Result-cases, List, [], ◌∷◌, ltb, ◌==◌, if◌then◌else◌, length, get_elem?, set,
  get_elem?-lt, get_elem?-some, length-set, get_elem?-set, ok, raise, ◌>>=◌, Exception, arith,
}
use life.Prelude.Int.{ℤ, pos, ◌==ℤ◌, ◌+ℤ◌, ◌-ℤ◌}
use life.X86.Cpu.{Cpu, Instr, Rc, execute}
use life.X86.Threads.{
  Process, ProcList, item, saved, restored, getnum, numdone, current, done, save, restore, after,
  next_within, next,
}
use life.X86.Run.{
  Machine, fetch, is_stop, gives_way, move_on, setint, switch, count_down, halted, cycle,
}

-- How many processes are not done.
abbrev pub undone : List Process → ℕ
undone [] = 0
undone (q ∷ l) = (if q.done then 0 else 1) + undone l

-- The place is in the schedule, and the process there is not done.
pub record Runs (sched : List ℕ) (plist : List Process) (place : ℕ) : Type 0 where
  pub index : ℕ
  pub process : Process
  pub scheduled : get_elem? sched place ≡ some index
  pub listed : get_elem? plist index ≡ some process
  pub ready : process.done ≡ false

-- The schedule has existing processes only, each at some place, and `active` counts those not done.
pub record IsList (sched : List ℕ) (plist : List Process) (active : ℕ) : Type 0 where
  pub exist : (place p : ℕ) → get_elem? sched place ≡ some p → p < length plist
  pub covered : (p : ℕ) → p < length plist → (place : ℕ) × (get_elem? sched place ≡ some p)
  pub counted : active ≡ undone plist

-- And the current process can run.
pub record IsSound (l : ProcList) : Type 0 where
  pub list : IsList l.procsched l.plist l.active
  pub turn : Runs l.procsched l.plist l.curr

undone-set :
    (l : List Process) (i : ℕ) (q r : Process)
    → get_elem? l i ≡ some q
    → undone (set l i r) + (if q.done then 0 else 1) ≡ undone l + (if r.done then 0 else 1)
undone-set [] i q r e = absurd (cc)
undone-set (y ∷ l) zero q r e = let f : y ≡ q = cc in rw f (omega arith)
undone-set (y ∷ l) (suc i) q r e = omega (arith, undone-set l i q r e)

undone-some :
    (l : List Process)
    → 0 < undone l
    → (i : ℕ) × (q : Process) × (get_elem? l i ≡ some q) × (q.done ≡ false)
undone-some [] lt = absurd (omega arith)
undone-some (y ∷ l) lt = elim (Bool-cases y.done) [
  | inr f ↦ (0, y, refl, f)
  | inl t ↦ let (i, q, e, f) = undone-some l (ground arith) in (suc i, q, e, f)
]

pub current-ok :
    (l : ProcList) (p : ℕ) (q : Process)
    → get_elem? l.procsched l.curr ≡ some p
    → get_elem? l.plist p ≡ some q
    → current l ≡ ok (p, q)
unfolding current item
current-ok l p q e f = rw (current, item, e, f)

-- How many turns of `next` lead from the current place to another one.
abbrev distance : ProcList → ℕ → ℕ
distance l j = if ltb l.curr j then j - l.curr else j + length l.procsched - l.curr

next_within-Runs :
    (n : ℕ) (l : ProcList) (j : ℕ)
    → IsList l.procsched l.plist l.active
    → l.curr < length l.procsched
    → Runs l.procsched l.plist j
    → distance l j ≤ n
    → (k : ℕ) × (next_within n l ≡ ok (record l { curr = k })) × Runs l.procsched l.plist k
unfolding next_within after
next_within-Runs zero l j h lt r le =
    absurd (ground (arith, get_elem?-lt l.procsched j r.index r.scheduled))
next_within-Runs (suc n) l j h lt r le =
    let a : ℕ = after l in
    let l' : ProcList = record l { curr = a } in
    let a_lt : a < length l.procsched = ground arith in
    let (p, e) = get_elem?-some l.procsched a a_lt in
    let (q, f) = get_elem?-some l.plist p (h.exist a p e) in
    let c = current-ok l' p q e f in
    elim (Bool-cases q.done) [
      | inr g ↦
          (a, rw (c, g), record { index = p; process = q; scheduled = e; listed = f; ready = g })
      | inl g ↦
          let ne : a ≢ j = λ s.
            (let e' : get_elem? l.procsched j ≡ some p = rw (← s) e in
              let s1 : p ≡ r.index = cc in
              let f' : get_elem? l.plist r.index ≡ some q = rw (← s1) f in
              let s2 : q ≡ r.process = cc in let g' : r.process.done ≡ true = rw (← s2) g in cc) in
          let (k, x, y) =
            next_within-Runs n l' j h a_lt r
              (ground (arith, get_elem?-lt l.procsched j r.index r.scheduled)) in
          (k, rw (c, g) x, y)
    ]

-- The list of processes with the current place at one that is not done.
pub next-Runs :
    (l : ProcList)
    → IsList l.procsched l.plist l.active
    → l.curr < length l.procsched
    → 0 < undone l.plist
    → (k : ℕ) × (next l ≡ ok (record l { curr = k })) × Runs l.procsched l.plist k
unfolding next
next-Runs l h lt left =
    let (i, q, e, f) = undone-some l.plist left in
    let (j, s) = h.covered i (get_elem?-lt l.plist i q e) in
    next_within-Runs (length l.procsched) l j h lt
      (record { index = i; process = q; scheduled = s; listed = e; ready = f })
      (ground (arith, get_elem?-lt l.procsched j i s))

set-IsList :
    (sched : List ℕ) (plist : List Process) (active active' p : ℕ) (q r : Process)
    → IsList sched plist active
    → get_elem? plist p ≡ some q
    → active' ≡ undone (set plist p r)
    → IsList sched (set plist p r) active'
set-IsList sched plist active active' p q r h e f = record {
  exist = λ place i s. omega (arith, h.exist place i s, length-set plist p r);
  covered = λ i lt. h.covered i (omega (arith, length-set plist p r));
  counted = f;
}

-- `next` and `restore` bring another process into the processor.
move_on-Runs :
    (m : Machine)
    → IsList m.procs.procsched m.procs.plist m.procs.active
    → m.procs.curr < length m.procs.procsched
    → 0 < undone m.procs.plist
    → (k : ℕ) × (r : Runs m.procs.procsched m.procs.plist k) × (move_on m
        ≡ ok (record m { cpu = restored r.process m.cpu; procs = record m.procs { curr = k } }))
unfolding move_on restore
move_on-Runs m h lt left =
    let (k, e, r) = next-Runs m.procs h lt left in
    let c = current-ok (record m.procs { curr = k }) r.index r.process r.scheduled r.listed in
    (k, r, rw (e, c))

undone-le : (l : List Process) → undone l ≤ length l
undone-le [] = omega arith
undone-le (y ∷ l) = ground (arith, undone-le l)

-- A switch of the processor `c` from the process that runs in `l`.
pub record Switched (c : Cpu) (l : ProcList) (m' : Machine) (before : IsSound l) : Type 0 where
  pub sound : IsSound m'.procs
  pub others : (i : ℕ) → i ≢ before.turn.index → get_elem? m'.procs.plist i ≡ get_elem? l.plist i
  pub kept :
      get_elem? m'.procs.plist before.turn.index
      ≡ some (record before.turn.process { pc = c.pc; regs = c.registers; cc = c.conditions })
  pub back : m'.cpu ≡ record c {
    pc = sound.turn.process.pc;
    registers = sound.turn.process.regs;
    conditions = sound.turn.process.cc;
  }

save-Switched :
    (m : Machine) (h : IsSound m.procs)
    → (m' : Machine) × ((save m.cpu m.procs >>= λ procs. move_on (record m { procs = procs }))
        ≡ ok m')
      × Switched m.cpu m.procs m' h
unfolding save
save-Switched m h =
    let r = h.turn in
    let p = m.procs in
    let plist' : List Process = set p.plist r.index (saved m.cpu r.process) in
    let procs' : ProcList = record p { plist = plist' } in
    let n : Machine = record m { procs = procs' } in
    let lt : r.index < length p.plist = get_elem?-lt p.plist r.index r.process r.listed in
    let count = undone-set p.plist r.index r.process (saved m.cpu r.process) r.listed in
    let left = undone-set p.plist r.index r.process (record r.process { done = true }) r.listed in
    let k : IsList p.procsched plist' p.active =
      set-IsList p.procsched p.plist p.active p.active r.index r.process (saved m.cpu r.process)
        h.list r.listed (ground (arith, h.list.counted, count)) in
    let (j, s, e) =
      move_on-Runs n k (get_elem?-lt p.procsched p.curr r.index r.scheduled)
        (ground (arith, count, left, r.ready)) in
    let c = current-ok p r.index r.process r.scheduled r.listed in
    (
      record n { cpu = restored s.process m.cpu; procs = record procs' { curr = j } },
      rw c e,
      record {
        sound = record { list = k; turn = s };
        others = λ i ne. get_elem?-set p.plist r.index i (saved m.cpu r.process) lt ∙ ground arith;
        kept = get_elem?-set p.plist r.index r.index (saved m.cpu r.process) lt ∙ ground arith;
        back = refl;
      },
    )

-- When the processor switches on an interrupt or a yield, nothing is raised and `next` ends. The
-- process that ran is saved as it was in the processor, no other process is changed, and the
-- processor has what was saved of the new one, with the same memory.
pub switch-Switched :
    (draw : ℕ → ℤ → ℤ) (intfreq : ℤ) (intrand : Bool) (m : Machine) (h : IsSound m.procs)
    → (m' : Machine) × (switch draw intfreq intrand m ≡ ok m') × Switched m.cpu m.procs m' h
unfolding switch setint
switch-Switched draw intfreq true m h = save-Switched (setint draw intfreq true m) h
switch-Switched draw intfreq false m h = save-Switched (setint draw intfreq false m) h

-- What a turn of the loop comes to: the run ends with every process done, it goes on, or the
-- instruction raises.
abbrev pub Raised : Machine → Exception → Type 0
Raised m e =
    (fetch m.cpu ≡ raise e)
    ⊎ (i : Instr) × (fetch m.cpu ≡ ok i)
      × (execute i (record m.cpu { pc = m.cpu.pc +ℤ pos 1 }) ≡ raise e)

halted-Outcome :
    (m : Machine)
    → IsSound m.procs
    → ((m' : Machine) × (halted m ≡ ok (m', true)) × (undone m'.procs.plist ≡ 0))
      ⊎ ((m' : Machine) × (halted m ≡ ok (m', false)) × IsSound m'.procs)
unfolding halted done numdone getnum
halted-Outcome m h =
    let r = h.turn in
    let p = m.procs in
    let q : Process = record r.process { done = true } in
    let plist' : List Process = set p.plist r.index q in
    let procs' : ProcList = record p { plist = plist'; active = p.active - 1 } in
    let count = undone-set p.plist r.index r.process q r.listed in
    let less : undone plist' + 1 ≡ undone p.plist = ground (arith, count, r.ready) in
    let k : IsList p.procsched plist' (p.active - 1) =
      set-IsList p.procsched p.plist p.active (p.active - 1) r.index r.process q h.list r.listed
        (omega (arith, less, h.list.counted)) in
    let c = current-ok p r.index r.process r.scheduled r.listed in
    elim (Bool-cases (length plist' - (p.active - 1) == length plist')) [
      | inl f ↦ inl (
        record m { procs = procs' },
        rw (c, f),
        ground (
          arith,
          k.counted,
          undone-le plist',
          undone-le p.plist,
          length-set p.plist r.index q,
          less,
        ),
      )
      | inr f ↦
          let (j, s, e) =
            move_on-Runs (record m { procs = procs' }) k
              (get_elem?-lt p.procsched p.curr r.index r.scheduled) (ground (arith, k.counted)) in
          inr (
            record m { cpu = restored s.process m.cpu; procs = record procs' { curr = j } },
            rw (c, f, e),
            record { list = k; turn = s },
          )
    ]

module _ (draw : ℕ → ℤ → ℤ) (intfreq : ℤ) (intrand : Bool) where
  count_down-IsSound :
      (rc : Rc) (m : Machine)
      → IsSound m.procs
      → (m' : Machine) × (count_down draw intfreq intrand rc m ≡ ok m') × IsSound m'.procs
  unfolding count_down
  count_down-IsSound rc m h =
      let n : Machine = record m { interrupt = m.interrupt -ℤ pos 1 } in
      let (m', e, s) = switch-Switched draw intfreq intrand n h in
      elim (Bool-cases (n.interrupt ==ℤ pos 0 || gives_way rc)) [
        | inl f ↦ (m', rw f e, s.sound)
        | inr f ↦ (n, rw f refl, h)
      ]

  -- A turn of the loop, where each process is at a place of the schedule, the places hold processes,
  -- `active` counts those that are not done and the current one is not done. Either every process
  -- is done and the run ends, or it goes on and the list is in order again, or the turn raises what
  -- the instruction raises: the list raises nothing, and `next` ends.
  pub cycle-IsSound :
      (m : Machine)
      → IsSound m.procs
      → ((m' : Machine) × (cycle draw intfreq intrand m ≡ ok (m', true))
          × (undone m'.procs.plist ≡ 0))
        ⊎ ((m' : Machine) × (cycle draw intfreq intrand m ≡ ok (m', false)) × IsSound m'.procs)
        ⊎ ((e : Exception) × (cycle draw intfreq intrand m ≡ raise e) × Raised m e)
  unfolding cycle
  cycle-IsSound m h =
      let r = h.turn in
      let c = current-ok m.procs r.index r.process r.scheduled r.listed in
      elim (Result-cases (fetch m.cpu)) [
        | inr (e, f) ↦ inr (inr (e, rw (c, f), inl f))
        | inl (i, f) ↦ elim (Result-cases (execute i (record m.cpu { pc = m.cpu.pc +ℤ pos 1 }))) [
          | inr (e, g) ↦ inr (inr (e, rw (c, f, g), inr (i, f, g)))
          | inl ((cpu, rc), g) ↦
              let m1 : Machine = record m { cpu = cpu; icount = m.icount + 1 } in
              elim (Bool-cases (is_stop rc)) [
                | inr s ↦
                    let (m3, k, o) = count_down-IsSound rc m1 h in
                    inr (inl (m3, rw (c, f, g, s, k), o))
                | inl s ↦ elim (halted-Outcome m1 h) [
                  | inl (m2, k, z) ↦ inl (m2, rw (c, f, g, s, k), z)
                  | inr (m2, k, o) ↦
                      let (m3, k', o') = count_down-IsSound rc m2 o in
                      inr (inl (m3, rw (c, f, g, s, k, k'), o'))
                ]
              ]
        ]
      ]
