-- ===== src/Jobs/Tests.antt =====
-- The theorem about the job manager at concrete commands.
use operating_systems_iitkgp.Base.{ℕ, refl, List, Option, ◌≡◌, [], ◌∷◌, some, ◌>>=◌}
use operating_systems_iitkgp.Jobs.{
  command, run_job, pick_job, set_status, set_new_process, kill, ended, Signal, sigint,
  signal_handler, run_new, resume, quit, stopped, signaled, Outcome, running, commands,
  start_manager,
}
use operating_systems_iitkgp.Jobs.Table.{Good, manager_serves}

-- Two jobs are stopped, and one of them is resumed.
manager_serves_example :
    (o : Outcome) × ((start_manager 40 40 >>= λ m.
    commands
      (running m)
      (run_new (some 41) stopped ∷ run_new (some 42) stopped ∷ resume 1 signaled ∷ quit ∷ []))
      ≡ some o)
    × Good o
manager_serves_example =
    manager_serves 40 40
      (run_new (some 41) stopped ∷ run_new (some 42) stopped ∷ resume 1 signaled ∷ quit ∷ [])

-- A job that is stopped and then killed still gets the signals of the prompt.
abbrev after_kill : Option Outcome
after_kill =
    start_manager 40 40 >>= λ m. commands (running m) (run_new (some 41) stopped ∷ kill 1 ∷ [])

abbrev sent_by : Outcome → List (ℕ × Signal)
sent_by (running m) = signal_handler m sigint
sent_by (ended m) = []

kill_then_signal : (after_kill >>= λ o. some (sent_by o)) ≡ some ((41, sigint) ∷ [])
unfolding start_manager commands set_new_process command run_job pick_job set_status
kill_then_signal = refl
