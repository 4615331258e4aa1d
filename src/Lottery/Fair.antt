-- ===== src/Lottery/Fair.antt =====
-- Each turn of lottery.py runs the job that holds the winning ticket, and the jobs end.
use life.Prelude.{
  ℕ, zero, suc, ◌+◌, ◌-◌, ◌%◌, ◌≤◌, ◌<◌, ◌≡◌, refl, sym, ◌∙◌, inl, inr, false, Bool-cases, some,
  List, [], ◌∷◌, length, All, set, get_elem?, get_elem?-lt, get_elem?-set, leb, ltb, ◌==◌, lt→ltb,
  if◌then◌else◌, ok, arith,
}
use native.Mathlib.Nat.{mod-lt}
use life.Lottery.{
  Job, State, choose, find_winner, account, turn, solve, number_jobs, run_total, ticket_total,
  start,
}

-- A sum over the jobs.
abbrev pub total : (Job → ℕ) → List Job → ℕ
total f [] = 0
total f (j ∷ l) = f j + total f l

abbrev pub is_active : Job → ℕ
is_active j = if j.runtime == 0 then 0 else 1

-- The jobs are numbered from `k` on, and those that are done have no tickets, the others some.
abbrev pub IsTable : ℕ → List Job → Type 0
IsTable k [] = Unit
IsTable k (j ∷ l) = (j.job ≡ k) × ((j.runtime == 0) ≡ (j.tickets == 0)) × IsTable (k + 1) l

pub record IsSound (s : State) : Type 0 where
  pub table : IsTable 0 s.joblist
  pub tickets : s.tick_total ≡ total (λ j. j.tickets) s.joblist
  pub active : s.jobs ≡ total is_active s.joblist

total-set :
    (f : Job → ℕ) (l : List Job) (i : ℕ) (j x : Job)
    → get_elem? l i ≡ some j
    → total f (set l i x) + f j ≡ total f l + f x
total-set f [] i j x e = absurd (cc)
total-set f (y ∷ l) zero j x e = let t : y ≡ j = cc in rw t (omega arith)
total-set f (y ∷ l) (suc i) j x e = omega (arith, total-set f l i j x e)

IsTable-job :
    (k : ℕ) (l : List Job) (i : ℕ) (j : Job)
    → IsTable k l
    → get_elem? l i ≡ some j
    → (j.job ≡ k + i) × ((j.runtime == 0) ≡ (j.tickets == 0))
IsTable-job k [] i j h e = absurd (cc)
IsTable-job k (y ∷ l) zero j (a, b, h) e = let t : y ≡ j = cc in rw (← t) (omega (arith, a), b)
IsTable-job k (y ∷ l) (suc i) j (a, b, h) e =
    let (c, d) = IsTable-job (k + 1) l i j h e in (omega (arith, c), d)

set-IsTable :
    (k : ℕ) (l : List Job) (i : ℕ) (x : Job)
    → IsTable k l
    → x.job ≡ k + i
    → ((x.runtime == 0) ≡ (x.tickets == 0))
    → IsTable k (set l i x)
set-IsTable k [] i x h e f = tt
set-IsTable k (y ∷ l) zero x (a, b, h) e f = (omega (arith, e), f, h)
set-IsTable k (y ∷ l) (suc i) x (a, b, h) e f =
    (a, b, set-IsTable (k + 1) l i x h (omega (arith, e)) f)

-- How many tickets the jobs before place `i` have.
abbrev pub before : ℕ → List Job → ℕ
before zero l = 0
before (suc i) [] = 0
before (suc i) (j ∷ l) = j.tickets + before i l

choose_lem :
    (current winner : ℕ) (l : List Job)
    → current ≤ winner
    → winner < current + total (λ j. j.tickets) l
    → (i : ℕ) × (j : Job) × (choose current winner l ≡ some j)
      × (get_elem? l i ≡ some j)
      × (current + before i l ≤ winner)
      × (winner < current + before i l + j.tickets)
unfolding choose
choose_lem current winner [] le lt = absurd (omega arith)
choose_lem current winner (j ∷ l) le lt = elim (Bool-cases (ltb winner (current + j.tickets))) [
  | inl s ↦ (0, j, rw s refl, refl, omega arith, ground arith)
  | inr s ↦
      let (i, x, e, f, a, b) =
        choose_lem (current + j.tickets) winner l (ground arith) (omega arith) in
      (suc i, x, rw s e, f, omega arith, omega arith)
]

-- What a turn comes to: a job that holds the ticket `winner` has run for the quantum at most, and no other
-- has changed.
pub record Turned (quantum winner : ℕ) (s s' : State) : Type 0 where
  pub index : ℕ
  pub job : Job
  pub is_at : get_elem? s.joblist index ≡ some job
  pub not_below : before index s.joblist ≤ winner
  pub not_above : winner < before index s.joblist + job.tickets
  pub active : 0 < job.runtime
  pub less :
      total (λ j. j.runtime) s'.joblist + (if leb quantum job.runtime then quantum else job.runtime)
      ≡ total (λ j. j.runtime) s.joblist
  pub others : (i : ℕ) → (i == index) ≡ false → get_elem? s'.joblist i ≡ get_elem? s.joblist i
  pub sound : IsSound s'

active-tickets :
    (k : ℕ) (l : List Job) → IsTable k l → 0 < total is_active l → 0 < total (λ j. j.tickets) l
active-tickets k [] h lt = absurd (omega arith)
active-tickets k (j ∷ l) (a, b, h) lt = elim (Bool-cases (j.runtime == 0)) [
  | inl s ↦ omega (arith, active-tickets (k + 1) l h (ground arith))
  | inr s ↦ let c : (j.tickets == 0) ≡ false = (let b' = (rw s at b) in cc) in ground arith
]

module _ (quantum : ℕ) where
  account_lem :
      (s : State) (winner i : ℕ) (j : Job)
      → IsSound s
      → get_elem? s.joblist i ≡ some j
      → before i s.joblist ≤ winner
      → winner < before i s.joblist + j.tickets
      → (s' : State) × (account quantum j s ≡ ok s') × Turned quantum winner s s'
  unfolding account
  account_lem s winner i j h e le lt =
      let (number, even) = IsTable-job 0 s.joblist i j h.table e in
      let number' : j.job ≡ i = omega (arith, number) in
      let in_list = get_elem?-lt s.joblist i j e in
      let in_list' = lt→ltb i (length s.joblist) in_list in
      let left : ℕ = if leb quantum j.runtime then j.runtime - quantum else 0 in
      let tix : ℕ = if left == 0 then 0 else j.tickets in
      let x : Job = record { job = j.job; runtime = left; tickets = tix } in
      let runs : (j.runtime == 0) ≡ false = rw even (ground arith) in
      (
        record {
          joblist = set s.joblist i x;
          tick_total = if left == 0 then s.tick_total - j.tickets else s.tick_total;
          jobs = if left == 0 then s.jobs - 1 else s.jobs;
          clock = s.clock + quantum;
          last = some x;
        },
        rw (account, number', in_list') refl,
        record {
          index = i;
          job = j;
          is_at = e;
          not_below = le;
          not_above = lt;
          active = ground arith;
          less = ground (arith, total-set (λ j. j.runtime) s.joblist i j x e);
          others = λ k ne. get_elem?-set s.joblist i k x in_list ∙ ground arith;
          sound = record {
            table = set-IsTable 0 s.joblist i x h.table (omega (arith, number)) (ground arith);
            tickets = ground (arith, total-set (λ j. j.tickets) s.joblist i j x e, h.tickets);
            active = ground (arith, total-set is_active s.joblist i j x e, h.active);
          };
        },
      )

  -- In a state where the jobs are numbered in order, each has tickets exactly if it has run time left, the
  -- ticket total is the sum of the tickets and `jobs` the number of jobs with run time, and some job is
  -- left: a turn raises nothing. The number that is drawn, modulo the total, is a ticket of one job, which
  -- has run time left and runs for the quantum at most; no other job changes, and the state is of that
  -- kind again.
  pub turn_lem :
      (r : ℕ) (s : State)
      → IsSound s
      → 0 < s.jobs
      → (s' : State) × (turn quantum r s ≡ ok s') × Turned quantum (r % s.tick_total) s s'
  unfolding turn find_winner
  turn_lem r s h lt =
      let pos = active-tickets 0 s.joblist h.table (omega (arith, h.active)) in
      let some_left : 0 < s.tick_total = omega (arith, h.tickets) in
      let test : (s.tick_total == 0) ≡ false = ground arith in
      let m = mod-lt r some_left in
      let (i, j, e, f, a, b) =
        choose_lem 0 (r % s.tick_total) s.joblist (omega arith) (omega (arith, h.tickets)) in
      let (s', g, t) = account_lem s (r % s.tick_total) i j h f (omega arith) (omega arith) in
      (s', rw (turn, test, find_winner, e) g, t)

  some_runtime : (l : List Job) → 0 < total is_active l → 0 < total (λ j. j.runtime) l
  some_runtime [] lt = absurd (omega arith)
  some_runtime (j ∷ l) lt = ground (arith, some_runtime l)

  no_active : (l : List Job) → total is_active l ≡ 0 → total (λ j. j.runtime) l ≡ 0
  no_active [] e = refl
  no_active (j ∷ l) e = ground (arith, no_active l)

  -- From such a state, with a quantum of 1 at least and as many numbers as the jobs have run time, the loop
  -- raises nothing and every job runs to its end.
  pub solve_ends :
      0 < quantum
      → (rs : List ℕ) (s : State) → IsSound s
      → 0 < s.jobs
      → total (λ j. j.runtime) s.joblist ≤ length rs
      → (s' : State) × (solve quantum rs s ≡ ok s')
        × (s'.jobs ≡ 0)
        × (total (λ j. j.runtime) s'.joblist ≡ 0)
        × IsSound s'
  unfolding solve
  solve_ends pos [] s h lt le = absurd (omega (arith, some_runtime s.joblist, h.active))
  solve_ends pos (r ∷ rs) s h lt le =
      let (s', e, t) = turn_lem r s h lt in
      elim (Bool-cases (s'.jobs == 0)) [
        | inl f ↦
            let z : s'.jobs ≡ 0 = ground arith in
            (s', rw (e, f) refl, z, no_active s'.joblist (omega (arith, t.sound.active)), t.sound)
        | inr f ↦
            let (s2, g, z, w, h') =
              solve_ends pos rs s' t.sound (ground arith) (ground (arith, t.less, t.active)) in
            (s2, rw (e, f) g, z, w, h')
      ]

number_jobs-IsTable :
    (k : ℕ) (l : List (ℕ × ℕ)) → All (λ e. (0 < e.0) × (0 < e.1)) l → IsTable k (number_jobs k l)
unfolding number_jobs
number_jobs-IsTable k [] h = tt
number_jobs-IsTable k ((runtime, tickets) ∷ l) (h, rest) =
    (refl, ground arith, number_jobs-IsTable (k + 1) l rest)

number_jobs-sums :
    (k : ℕ) (l : List (ℕ × ℕ))
    → All (λ e. (0 < e.0) × (0 < e.1)) l
    → (total (λ j. j.runtime) (number_jobs k l) ≡ run_total l)
      × (total (λ j. j.tickets) (number_jobs k l) ≡ ticket_total l)
      × (total is_active (number_jobs k l) ≡ length (number_jobs k l))
unfolding number_jobs run_total ticket_total
number_jobs-sums k [] h = (refl, refl, refl)
number_jobs-sums k ((runtime, tickets) ∷ l) (h, rest) =
    let (a, b, c) = number_jobs-sums (k + 1) l rest in
    let active : (runtime == 0) ≡ false = ground arith in
    (omega arith, omega arith, rw active (omega arith))

-- A list of at least one job in which each job has run time and at least one ticket, like those that the
-- program draws itself, and a quantum of 1 at least: with a number for each unit of run time, as many as
-- the program draws, the loop raises nothing, and at its end no job is left and none has run time.
pub start_ends :
    (quantum : ℕ) (entries : List (ℕ × ℕ)) (rs : List ℕ)
    → 0 < quantum
    → 0 < length entries
    → All (λ e. (0 < e.0) × (0 < e.1)) entries
    → length rs ≡ run_total entries
    → (s' : State) × (solve quantum rs (start entries) ≡ ok s')
      × (s'.jobs ≡ 0)
      × (total (λ j. j.runtime) s'.joblist ≡ 0)
unfolding start number_jobs
start_ends quantum [] rs pos some_job h same = absurd (omega arith)
start_ends quantum (e ∷ l) rs pos some_job h same =
    let (a, b, c) = number_jobs-sums 0 (e ∷ l) h in
    let sound : IsSound (start (e ∷ l)) = record {
      table = number_jobs-IsTable 0 (e ∷ l) h;
      tickets = sym b;
      active = sym c;
    } in
    let (s', f, z, w, k) =
      solve_ends quantum pos rs (start (e ∷ l)) sound (omega arith) (omega arith) in
    (s', f, z, w)
