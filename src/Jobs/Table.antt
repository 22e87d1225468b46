-- ===== src/Jobs/Table.antt =====
-- The process table is never overrun, and no job is left suspended.
use operating_systems_iitkgp.Base.{
  ℕ, zero, suc, ◌+◌, ◌≤◌, ◌<◌, ◌≡◌, refl, ap, ◌∙◌, inl, inr, true, List, [], ◌∷◌, Option, none,
  some, arith, ltb, ◌==◌, ◌>>=◌, length, get_elem?, get_elem?-lt, get_elem?-set_self, ◌⊎◌,
  get_elem?-some, set, length-set, Bool-cases,
}
use operating_systems_iitkgp.Jobs.{
  Signal, send_to, signal_handler, Process, Manager, WaitStatus, Command, help, print, run_new,
  resume, kill, quit, invalid, Outcome, running, ended, new_process_status, set_new_process,
  kill_jobs, kill_remaining_jobs, suspended, offered, set_status, pick_job, run_job, command,
  commands, start_manager,
}

pub record InTable (m : Manager) : Type 0 where
  pub size : length m.table ≡ 11
  pub used : m.job_id ≤ 11

-- The handler sends a signal to nobody, or to a job of the table that has been killed.
abbrev pub OnlyKilled : Manager → Type 0
OnlyKilled m =
    (signo : Signal)
    → (signal_handler m signo ≡ [])
      ⊎ ((i : ℕ) × (x : Process) × (get_elem? m.table i ≡ some x)
          × (x.status ≡ 4)
          × (signal_handler m signo ≡ (x.pid, signo) ∷ []))

-- No job of the table is suspended.
abbrev pub NoneSuspended : Manager → Type 0
NoneSuspended m = suspended 0 m.job_id m.table ≡ []

abbrev pub Good : Outcome → Type 0
Good (running m) = InTable m × OnlyKilled m
Good (ended m) = InTable m × NoneSuspended m

length-kill_jobs : (k : ℕ) (xs : List Process) → length (kill_jobs k xs) ≡ length xs
length-kill_jobs zero xs = refl
length-kill_jobs (suc k) [] = refl
length-kill_jobs (suc k) (x ∷ xs) = ap suc (length-kill_jobs k xs)

suspended-kill_jobs : (i k : ℕ) (xs : List Process) → suspended i k (kill_jobs k xs) ≡ []
suspended-kill_jobs i zero xs = refl
suspended-kill_jobs i (suc k) [] = refl
suspended-kill_jobs i (suc k) (x ∷ xs) = ground (arith, suspended-kill_jobs (i + 1) k xs)

kill_remaining_jobs_lem :
    (m : Manager)
    → InTable m
    → InTable (kill_remaining_jobs m) × NoneSuspended (kill_remaining_jobs m)
kill_remaining_jobs_lem m v = (
  record { size = length-kill_jobs m.job_id m.table ∙ v.size; used = v.used },
  suspended-kill_jobs 0 m.job_id m.table,
)

-- A number that is offered is the position of a suspended job.
offered-lt : (op i k : ℕ) (xs : List Process) → offered op (suspended i k xs) ≡ true → op < i + k
offered-lt op i zero xs h = cc
offered-lt op i (suc k) [] h = cc
offered-lt op i (suc k) (x ∷ xs) h = ground (arith, offered-lt op (i + 1) k xs)

abbrev Served : Option Outcome → Type 0
Served r = (o : Outcome) × (r ≡ some o) × Good o

-- What a picked job leaves behind.
abbrev Leaves : ℕ → (ℕ → Option ℕ) → Type 0
Leaves status left =
    ((pid : ℕ) → left pid ≡ none) ⊎ ((status ≡ 4) × ((pid : ℕ) → left pid ≡ some pid))

pick_job-Served :
    (m : Manager) (op status : ℕ) (left : ℕ → Option ℕ)
    → InTable m × OnlyKilled m
    → Leaves status left
    → Served (pick_job m op status left)
unfolding pick_job set_status
pick_job-Served m op status left (v, k) leaves =
    elim (Bool-cases (offered op (suspended 0 m.job_id m.table))) [
      | inl there ↦
          let (x, e) =
            get_elem?-some m.table op
              (omega (arith, offered-lt op 0 m.job_id m.table there, v.size, v.used)) in
          let y : Process = record x { status = status } in
          (
            running (record m { table = set m.table op y; running_job_pid = left x.pid }),
            rw (there, e) refl,
            (
              record { size = length-set m.table op y ∙ v.size; used = v.used },
              λ signo. elim leaves [
                | inl none_left ↦ inl (ap (λ p. send_to p signo) (none_left x.pid))
                | inr (killed, its_own) ↦ inr (
                  op,
                  y,
                  get_elem?-set_self m.table op y (get_elem?-lt m.table op e),
                  killed,
                  ap (λ p. send_to p signo) (its_own x.pid),
                )
              ],
            ),
          )
      | inr missing ↦ (running m, rw missing refl, (v, k))
    ]

run_job-Served :
    (m : Manager) (pid : Option ℕ) (w : WaitStatus) → InTable m → Served (run_job m pid w)
unfolding run_job set_new_process
run_job-Served m none w v = elim (Bool-cases (m.job_id == 11)) [
  | inl full ↦ (ended (kill_remaining_jobs m), rw full refl, kill_remaining_jobs_lem m v)
  | inr room ↦
      let m' : Manager = record m { running_job_pid = none } in
      (
        ended (kill_remaining_jobs m'),
        rw room refl,
        kill_remaining_jobs_lem m' (record { size = v.size; used = v.used }),
      )
]
run_job-Served m (some pid) w v = elim (Bool-cases (m.job_id == 11)) [
  | inl full ↦ (ended (kill_remaining_jobs m), rw full refl, kill_remaining_jobs_lem m v)
  | inr room ↦
      let fits : ltb m.job_id (length m.table) ≡ true = ground (arith, v.size, v.used) in
      let new : Process = record { pid = pid; pgid = pid; status = new_process_status w } in
      (
        running (record m {
          table = set m.table m.job_id new;
          job_id = m.job_id + 1;
          running_job_pid = none;
        }),
        rw (room, fits) refl,
        (
          record { size = length-set m.table m.job_id new ∙ v.size; used = ground (arith, v.used) },
          λ signo. inl refl,
        ),
      )
]

command-Served : (m : Manager) (c : Command) → InTable m × OnlyKilled m → Served (command m c)
unfolding command
command-Served m help v = (running m, refl, v)
command-Served m print v = (running m, refl, v)
command-Served m (run_new pid w) v = run_job-Served m pid w v.0
command-Served m (resume op w) v =
    pick_job-Served m op (new_process_status w) (λ pid. none) v (inl (λ pid. refl))
command-Served m (kill op) v = pick_job-Served m op 4 (λ pid. some pid) v (inr (refl, λ pid. refl))
command-Served m quit v = (ended (kill_remaining_jobs m), refl, kill_remaining_jobs_lem m v.0)
command-Served m invalid v = (running m, refl, v)

commands-Served : (o : Outcome) (cs : List Command) → Good o → Served (commands o cs)
unfolding commands
commands-Served (ended m) cs g = (ended m, refl, g)
commands-Served (running m) [] g = (running m, refl, g)
commands-Served (running m) (c ∷ cs) g =
    let (o, e, good) = command-Served m c g in rw e (commands-Served o cs good)

-- From its start, the manager serves every sequence of commands, whatever `fork` and `waitpid`
-- return, without an access beyond its process table of 11 entries. Between two commands its handler
-- sends a signal to nobody, or to a job of the table that has been killed. When it has ended, by 'q',
-- with a full table or after a `fork` that failed, no job is suspended.
pub manager_serves :
    (pid pgid : ℕ) (cs : List Command)
    → (o : Outcome) × ((start_manager pid pgid >>= λ m. commands (running m) cs) ≡ some o) × Good o
unfolding start_manager set_new_process
manager_serves pid pgid cs =
    commands-Served (running _) cs (record { size = refl; used = omega arith }, λ signo. inl refl)
