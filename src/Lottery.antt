-- ===== src/Lottery.antt =====
-- The lottery scheduler of ostep-homework-master/cpu-sched-lottery/lottery.py: the loop that solves a
-- list of jobs. The run times and tickets of the jobs and the numbers that are drawn are arguments.
use life.Prelude.{
  ℕ, zero, suc, ◌+◌, ◌-◌, ◌%◌, Option, none, some, List, [], ◌∷◌, length, set, leb, ltb, ◌==◌,
  if◌then◌else◌, Result, ok, raise, ◌>>=◌, zero_division_error, name_error, index_error,
}
pub mod Fair
pub mod Tests

pub record Job : Type 0 where
  pub job : ℕ
  pub runtime : ℕ
  pub tickets : ℕ

-- The variables of the loop; `last` are `wjob`, `wrun` and `wtix`, which stay from one turn to the next.
pub record State : Type 0 where
  pub joblist : List Job
  pub tick_total : ℕ
  pub jobs : ℕ
  pub clock : ℕ
  pub last : Option Job

-- The job list and its sums, from the run time and the tickets of each job.
unfoldable pub number_jobs : ℕ → List (ℕ × ℕ) → List Job
number_jobs jobnum [] = []
number_jobs jobnum ((runtime, tickets) ∷ l) =
    record { job = jobnum; runtime = runtime; tickets = tickets } ∷ number_jobs (jobnum + 1) l

unfoldable pub run_total : List (ℕ × ℕ) → ℕ
run_total [] = 0
run_total ((runtime, tickets) ∷ l) = runtime + run_total l

unfoldable pub ticket_total : List (ℕ × ℕ) → ℕ
ticket_total [] = 0
ticket_total ((runtime, tickets) ∷ l) = tickets + ticket_total l

-- The variables before the loop.
unfoldable pub start : List (ℕ × ℕ) → State
start l = record {
  joblist = number_jobs 0 l;
  tick_total = ticket_total l;
  jobs = length (number_jobs 0 l);
  clock = 0;
  last = none;
}

-- The loop over the jobs that looks for the winner.
unfoldable pub choose : ℕ → ℕ → List Job → Option Job
choose current winner [] = none
choose current winner (j ∷ l) =
    if ltb winner (current + j.tickets) then some j else choose (current + j.tickets) winner l

unfoldable pub find_winner : ℕ → State → Option Job
find_winner winner s = elim (choose 0 winner s.joblist) [ none ↦ s.last | some j ↦ some j ]

-- The accounting of a turn.
unfoldable pub account : ℕ → Job → State → Result State
account quantum j s =
    let left : ℕ = if leb quantum j.runtime then j.runtime - quantum else 0 in
    let tix : ℕ = if left == 0 then 0 else j.tickets in
    let j' : Job = record { job = j.job; runtime = left; tickets = tix } in
    let s' : State = record {
      joblist = set s.joblist j.job j';
      tick_total = if left == 0 then s.tick_total - j.tickets else s.tick_total;
      jobs = if left == 0 then s.jobs - 1 else s.jobs;
      clock = s.clock + quantum;
      last = some j';
    } in
    if ltb j.job (length s.joblist) then ok s' else raise index_error

unfoldable pub turn : ℕ → ℕ → State → Result State
turn quantum r s =
    if s.tick_total == 0
    then raise zero_division_error
    else elim (find_winner (r % s.tick_total) s) [
      | none ↦ raise name_error
      | some j ↦ account quantum j s
    ]

-- A turn for each number that is drawn, until no job is left.
unfoldable pub solve : ℕ → List ℕ → State → Result State
solve quantum [] s = ok s
solve quantum (r ∷ rs) s = turn quantum r s >>= λ s'.
    (let rest = solve quantum rs s' in if s'.jobs == 0 then ok s' else rest)
