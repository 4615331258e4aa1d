-- ===== src/Lottery/Tests.antt =====
-- Runs of lottery.py on small job lists, and the theorems applied there.
use life.Prelude.{
  ℕ, ◌%◌, ◌≡◌, refl, List, [], ◌∷◌, Result, ok, raise, ◌>>=◌, zero_division_error, arith,
}
use life.Lottery.{
  State, choose, find_winner, account, turn, solve, number_jobs, run_total, ticket_total, start,
}
use life.Lottery.Fair.{IsSound, Turned, total, turn_lem, start_ends}

workload : Unit {0}
unfolding choose find_winner account turn solve number_jobs run_total ticket_total start
workload = tt

-- The clock and the jobs that are left after the last turn.
abbrev outcome : ℕ → List ℕ → State → Result (ℕ × ℕ)
outcome quantum rs s = solve quantum rs s >>= λ s'. ok (s'.clock, s'.jobs)

abbrev two_jobs : State
two_jobs = start ((2, 75) ∷ (1, 25) ∷ [])

both_end : outcome 1 (110 ∷ 280 ∷ 74 ∷ []) two_jobs ≡ ok (3, 0)
unfolding workload
both_end = refl

-- A job without tickets never runs, and once the others have ended there is no winner to draw.
no_tickets : outcome 1 (3 ∷ 4 ∷ []) (start ((1, 5) ∷ (1, 0) ∷ [])) ≡ raise zero_division_error
unfolding workload
no_tickets = refl

two_jobs-IsSound : IsSound two_jobs
unfolding workload
two_jobs-IsSound = record { table = (refl, refl, (refl, refl, tt)); tickets = refl; active = refl }

turn_lem_example :
    (s' : State) × (turn 1 280 two_jobs ≡ ok s') × Turned 1 (280 % two_jobs.tick_total) two_jobs s'
turn_lem_example = turn_lem 1 280 two_jobs two_jobs-IsSound (unfold workload in omega arith)

start_ends_example :
    (s' : State) × (solve 1 (110 ∷ 280 ∷ 74 ∷ []) two_jobs ≡ ok s')
    × (s'.jobs ≡ 0)
    × (total (λ j. j.runtime) s'.joblist ≡ 0)
start_ends_example =
    start_ends 1 ((2, 75) ∷ (1, 25) ∷ []) (110 ∷ 280 ∷ 74 ∷ []) (omega arith) (omega arith)
      ((omega arith, omega arith), ((omega arith, omega arith), tt)) (unfold workload in refl)
