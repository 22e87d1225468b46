-- ===== src/Foothread/Mutex.antt =====
-- Assignment 7/foothread.c: `foothread_mutex_lock` and `foothread_mutex_unlock`, one access after the
-- other, by the threads of one process, in any order. The tests of an unlock are one step: while the
-- holder unlocks, only it writes what they read. Those of a stray unlock, by a thread that does not hold
-- the mutex, are one step too. A semaphore is its value.
pub mod Exclusion
mod Tests
use operating_systems_iitkgp.Base.{
  ℕ, suc, ◌+◌, ◌-◌, ◌<◌, ◌≡◌, ◌≢◌, ◌⊎◌, Bool, true, false, List, some, get_elem?, set, replicate,
}

-- `foothread_mutex_t`. What `owner_pid` and `owner_tid` hold before the first lock is not set.
pub record Mutex : Type 0 where
  pub is_live : Bool
  pub is_locked : Bool
  pub owner_pid : ℕ
  pub owner_tid : ℕ
  pub sem : ℕ

abbrev pub mutex_init : Mutex → Mutex
mutex_init m = record m { is_live = true; is_locked = false; sem = 1 }

-- What a thread of the process `pid` does next.
pub data Place : Type 0 where
  idle : Place
  waiting : Place  -- sem_wait
  got : Place  -- is_locked = 1
  marked : Place  -- owner_pid = getpid()
  signed : Place  -- owner_tid = gettid()
  holding : Place  -- returned from the lock
  checked : Place  -- is_locked = 0
  posting : Place  -- sem_post
  exited : Place  -- a test has failed: exit(EXIT_FAILURE)
  stray_checked : Place  -- is_locked = 0, in an unlock by a thread that does not hold the mutex
  stray_posting : Place  -- sem_post there

-- One step of the thread `tid` in a lock, or in an unlock of what it has locked.
pub data Own (pid tid : ℕ) (m : Mutex) : Place → Mutex → Place → Type 0 where
  lock : m.is_live ≡ true → Own pid tid m idle m waiting
  lock_fails : m.is_live ≡ false → Own pid tid m idle m exited
  acquire : 0 < m.sem → Own pid tid m waiting (record m { sem = m.sem - 1 }) got
  mark : Own pid tid m got (record m { is_locked = true }) marked
  sign_pid : Own pid tid m marked (record m { owner_pid = pid }) signed
  sign_tid : Own pid tid m signed (record m { owner_tid = tid }) holding
  unlock :
      m.is_live ≡ true
      → m.is_locked ≡ true
      → m.owner_pid ≡ pid
      → m.owner_tid ≡ tid
      → Own pid tid m holding m checked
  unlock_fails :
      (m.is_live ≡ false) ⊎ (m.is_locked ≡ false) ⊎ (m.owner_pid ≢ pid) ⊎ (m.owner_tid ≢ tid)
      → Own pid tid m holding m exited
  clear : Own pid tid m checked (record m { is_locked = false }) posting
  post : Own pid tid m posting (record m { sem = m.sem + 1 }) idle

-- One step in an unlock of a mutex that the thread does not hold, with the tests above, or in a lock of
-- one that it holds, in which it then waits.
pub data Stray (pid tid : ℕ) (m : Mutex) : Place → Mutex → Place → Type 0 where
  stray_unlock :
      m.is_live ≡ true
      → m.is_locked ≡ true
      → m.owner_pid ≡ pid
      → m.owner_tid ≡ tid
      → Stray pid tid m idle m stray_checked
  stray_fails :
      (m.is_live ≡ false) ⊎ (m.is_locked ≡ false) ⊎ (m.owner_pid ≢ pid) ⊎ (m.owner_tid ≢ tid)
      → Stray pid tid m idle m exited
  relock : m.is_live ≡ true → Stray pid tid m holding m waiting
  relock_fails : m.is_live ≡ false → Stray pid tid m holding m exited
  stray_clear : Stray pid tid m stray_checked (record m { is_locked = false }) stray_posting
  stray_post : Stray pid tid m stray_posting (record m { sem = m.sem + 1 }) idle

-- One step of the thread `tid`.
pub data Move (pid tid : ℕ) (m : Mutex) (p : Place) (m' : Mutex) (q : Place) : Type 0 where
  own : Own pid tid m p m' q → Move pid tid m p m' q
  stray : Stray pid tid m p m' q → Move pid tid m p m' q

pub record System : Type 0 where
  pub mutex : Mutex
  pub threads : List Place

-- The thread at position `i` takes a step. Thread ids are the positions.
pub data Step (pid : ℕ) (s : System) : System → Type 0 where
  pick :
      {p q : Place} {m : Mutex} (i : ℕ)
      → get_elem? s.threads i ≡ some p
      → Move pid i s.mutex p m q
      → Step pid s (record { mutex = m; threads = set s.threads i q })

-- What `n` threads reach from an initialised mutex.
pub data Reach (pid n : ℕ) : System → Type 0 where
  begin : (m : Mutex) → Reach pid n (record { mutex = mutex_init m; threads = replicate n idle })
  step : {s t : System} → Reach pid n s → Step pid s t → Reach pid n t

-- A run in which no thread locks the mutex while it holds it, or unlocks it while it does not.
pub data IsOrderly {pid n : ℕ} : (s : System) → Reach pid n s → Type 0 where
  begun :
      (m : Mutex)
      → IsOrderly (record { mutex = mutex_init m; threads = replicate n idle }) (begin m)
  stepped :
      {s : System} {r : Reach pid n s} {p q : Place} {m : Mutex} (i : ℕ)
      → IsOrderly s r
      → (e : get_elem? s.threads i ≡ some p) → (mv : Own pid i s.mutex p m q)
      → IsOrderly (record { mutex = m; threads = set s.threads i q }) (step r (pick i e (own mv)))
