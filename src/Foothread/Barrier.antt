-- ===== src/Foothread/Barrier.antt =====
-- Assignment 7/foothread.c: `foothread_barrier_wait`, one access to the barrier at a time. The threads
-- take their steps in any order. A semaphore is its value: `sem_wait` waits until it is positive.
-- The counts of arrivals and returns in a thread are not in the code: they say how often the thread
-- has done `count++`, and how often its call has returned.
pub mod Weights
pub mod Numbers
pub mod Phases
pub mod Steps
pub mod Meeting
pub mod Awake
pub mod Moves
pub mod Turnstiles
pub mod Progress
mod Tests
use operating_systems_iitkgp.Base.{
  ℕ, zero, suc, ◌+◌, ◌-◌, ◌<◌, ◌≡◌, ◌≢◌, Bool, true, List, some, get_elem?, set, replicate,
}

-- `foothread_barrier_t`
pub record Barrier : Type 0 where
  pub is_live : Bool
  pub n : ℕ
  pub count : ℕ
  pub mutex : ℕ
  pub sem1 : ℕ
  pub sem2 : ℕ

abbrev pub barrier_init : ℕ → Barrier
barrier_init n = record { is_live = true; n = n; count = 0; mutex = 1; sem1 = 0; sem2 = 1 }

-- Where a thread stands: before the access that is named.
pub data Pc : Type 0 where
  idle : Pc  -- outside, or about to call
  enter : Pc  -- sem_wait(mutex)
  counting : Pc  -- count++
  counted : Pc  -- count == n
  closing : Pc  -- sem_wait(sem2)
  opening : Pc  -- sem_post(sem1)
  arrived : Pc  -- sem_post(mutex)
  first : Pc  -- sem_wait(sem1)
  passed : Pc  -- sem_post(sem1)
  leave : Pc  -- sem_wait(mutex)
  uncounting : Pc  -- count--
  uncounted : Pc  -- count == 0
  emptying : Pc  -- sem_wait(sem1)
  reopening : Pc  -- sem_post(sem2)
  left : Pc  -- sem_post(mutex)
  second : Pc  -- sem_wait(sem2)
  through : Pc  -- sem_post(sem2), and return

-- One step of a thread. A call on a barrier that is not live ends the process, and is no step.
pub data Move (m : Barrier) : Pc → Barrier → Pc → Type 0 where
  call : m.is_live ≡ true → Move m idle m enter
  lock : 0 < m.mutex → Move m enter (record m { mutex = m.mutex - 1 }) counting
  count_up : Move m counting (record m { count = m.count + 1 }) counted
  is_last : m.count ≡ m.n → Move m counted m closing
  not_last : m.count ≢ m.n → Move m counted m arrived
  take_second : 0 < m.sem2 → Move m closing (record m { sem2 = m.sem2 - 1 }) opening
  open_first : Move m opening (record m { sem1 = m.sem1 + 1 }) arrived
  unlock : Move m arrived (record m { mutex = m.mutex + 1 }) first
  pass_first : 0 < m.sem1 → Move m first (record m { sem1 = m.sem1 - 1 }) passed
  pass_on_first : Move m passed (record m { sem1 = m.sem1 + 1 }) leave
  lock_again : 0 < m.mutex → Move m leave (record m { mutex = m.mutex - 1 }) uncounting
  count_down : Move m uncounting (record m { count = m.count - 1 }) uncounted
  is_empty : m.count ≡ 0 → Move m uncounted m emptying
  not_empty : m.count ≢ 0 → Move m uncounted m left
  take_first : 0 < m.sem1 → Move m emptying (record m { sem1 = m.sem1 - 1 }) reopening
  open_second : Move m reopening (record m { sem2 = m.sem2 + 1 }) left
  unlock_again : Move m left (record m { mutex = m.mutex + 1 }) second
  pass_second : 0 < m.sem2 → Move m second (record m { sem2 = m.sem2 - 1 }) through
  pass_on_second : Move m through (record m { sem2 = m.sem2 + 1 }) idle

pub record Thread : Type 0 where
  pub pc : Pc
  pub arrivals : ℕ
  pub returns : ℕ

abbrev pub arrives_at : Pc → ℕ
arrives_at counted = 1
arrives_at _ = 0

abbrev pub returns_at : Pc → ℕ
returns_at idle = 1
returns_at _ = 0

-- The thread after a step to `p`: the counts grow with `count++` and with the return.
abbrev pub advance : Thread → Pc → Thread
advance x p = record {
  pc = p;
  arrivals = x.arrivals + arrives_at p;
  returns = x.returns + returns_at p;
}

pub record System : Type 0 where
  pub barrier : Barrier
  pub threads : List Thread

-- Some thread takes a step.
pub data Step (s : System) : System → Type 0 where
  pick :
      {x : Thread} {m : Barrier} {p : Pc} (i : ℕ)
      → get_elem? s.threads i ≡ some x
      → Move s.barrier x.pc m p
      → Step s (record { barrier = m; threads = set s.threads i (advance x p) })

-- What `n` threads reach that share a barrier for `n` threads.
pub data Reach (n : ℕ) : System → Type 0 where
  begin : Reach n (record {
    barrier = barrier_init n;
    threads = replicate n (record { pc = idle; arrivals = 0; returns = 0 });
  })
  step : {s t : System} → Reach n s → Step s t → Reach n t
