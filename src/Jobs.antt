-- ===== src/Jobs.antt =====
-- Assignment 2/mgr.c: the job manager. A command comes with what it needs from outside: the pid that
-- `fork` returns, the status that `waitpid` reports, the number that the user picks. Names of jobs and
-- prints are left out. A write beyond the process table is `none`.
pub mod Table
mod Tests
use operating_systems_iitkgp.Base.{
  ℕ, zero, suc, ◌+◌, Bool, true, false, ◌||◌, List, [], ◌∷◌, Option, none, some, ltb, ◌==◌,
  if◌then◌else◌, ◌>>=◌, length, get_elem?, set, replicate,
}

-- `process`. The status is 0 for the manager itself, 1 finished, 2 terminated, 3 suspended, 4 killed.
pub record Process : Type 0 where
  pub pid : ℕ
  pub pgid : ℕ
  pub status : ℕ

-- `PT`, `job_id` and `running_job_pid`, where `none` stands for -1.
pub record Manager : Type 0 where
  pub table : List Process
  pub job_id : ℕ
  pub running_job_pid : Option ℕ

pub data Signal : Type 0 where
  sigint sigtstp : Signal

-- The signals that the handler sends, and to whom.
abbrev pub send_to : Option ℕ → Signal → List (ℕ × Signal)
send_to none signo = []
send_to (some pid) signo = (pid, signo) ∷ []

abbrev pub signal_handler : Manager → Signal → List (ℕ × Signal)
signal_handler m signo = send_to m.running_job_pid signo

-- How the child that `waitpid` waited for ended or stopped.
pub data WaitStatus : Type 0 where
  exited : WaitStatus
  signaled : WaitStatus
  stopped : WaitStatus
  other : WaitStatus

abbrev pub new_process_status : WaitStatus → ℕ
new_process_status exited = 1
new_process_status signaled = 2
new_process_status stopped = 3
new_process_status other = 0

-- A negative number that the user picks is none of the numbers offered: it is left out.
pub data Command : Type 0 where
  help : Command
  print : Command
  run_new : Option ℕ → WaitStatus → Command
  resume : ℕ → WaitStatus → Command
  kill : ℕ → Command
  quit : Command
  invalid : Command

-- A command leaves the manager running, or ends it.
pub data Outcome : Type 0 where
  running : Manager → Outcome
  ended : Manager → Outcome

pub set_new_process : Manager → Process → Option Manager
set_new_process m x =
    if ltb m.job_id (length m.table)
    then some (record m { table = set m.table m.job_id x; job_id = m.job_id + 1 })
    else none

abbrev kill_job : Process → Process
kill_job x = if x.status == 3 then record x { status = 4 } else x

-- The loop of `kill_remaining_jobs`, over the first `k` entries.
abbrev pub kill_jobs : ℕ → List Process → List Process
kill_jobs zero xs = xs
kill_jobs (suc k) [] = []
kill_jobs (suc k) (x ∷ xs) = kill_job x ∷ kill_jobs k xs

abbrev pub kill_remaining_jobs : Manager → Manager
kill_remaining_jobs m = record m { table = kill_jobs m.job_id m.table }

-- The positions of the suspended jobs among the first `k` entries, of which the first is at `i`.
abbrev pub suspended : ℕ → ℕ → List Process → List ℕ
suspended i zero xs = []
suspended i (suc k) [] = []
suspended i (suc k) (x ∷ xs) =
    let rest = suspended (i + 1) k xs in if x.status == 3 then i ∷ rest else rest

-- The search for the number in `temp`.
abbrev pub offered : ℕ → List ℕ → Bool
offered op [] = false
offered op (i ∷ temp) = i == op || offered op temp

-- `PT[op_num].status = ...`, and what `running_job_pid` is then.
pub set_status : Manager → ℕ → ℕ → (ℕ → Option ℕ) → Option Manager
set_status m op status left = do
  x ← get_elem? m.table op
  some (record m {
    table = set m.table op (record x { status = status });
    running_job_pid = left x.pid;
  })

-- The branches 'c' and 'k' after the number is read, which set another status at the end. The first
-- resets `running_job_pid`, the second leaves it at the pid of the job.
pub pick_job : Manager → ℕ → ℕ → (ℕ → Option ℕ) → Option Outcome
pick_job m op status left =
    let changed = set_status m op status left >>= λ m'. some (running m') in
    if offered op (suspended 0 m.job_id m.table) then changed else some (running m)

-- The branch 'r'. `none` for the pid is a `fork` that fails.
pub run_job : Manager → Option ℕ → WaitStatus → Option Outcome
run_job m none w =
    if m.job_id == 11
    then some (ended (kill_remaining_jobs m))
    else some (ended (kill_remaining_jobs (record m { running_job_pid = none })))
run_job m (some pid) w =
    let new : Process = record { pid = pid; pgid = pid; status = new_process_status w } in
    let added =
      set_new_process (record m { running_job_pid = none }) new >>= λ m'. some (running m') in
    if m.job_id == 11 then some (ended (kill_remaining_jobs m)) else added

-- One round of the loop of `main`.
pub command : Manager → Command → Option Outcome
command m help = some (running m)
command m print = some (running m)
command m (run_new pid w) = run_job m pid w
command m (resume op w) = pick_job m op (new_process_status w) (λ pid. none)
command m (kill op) = pick_job m op 4 (λ pid. some pid)
command m quit = some (ended (kill_remaining_jobs m))
command m invalid = some (running m)

-- The loop, over the commands that the user gives.
pub commands : Outcome → List Command → Option Outcome
commands (ended m) cs = some (ended m)
commands (running m) [] = some (running m)
commands (running m) (c ∷ cs) = command m c >>= λ o. commands o cs

-- The table is zero at first, and its first entry becomes the manager itself.
pub start_manager : ℕ → ℕ → Option Manager
start_manager pid pgid =
    set_new_process
      (record {
        table = replicate 11 (record { pid = 0; pgid = 0; status = 0 });
        job_id = 0;
        running_job_pid = none;
      })
      (record { pid = pid; pgid = pgid; status = 0 })
