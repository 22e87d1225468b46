-- ===== src/Foothread/Manager.antt =====
-- Assignment 7/foothread.c: the table of threads, attributes, and the end of threads. A call that
-- changes the table runs under `manager_mutex` and is one step; the main thread, in foothread_exit,
-- takes a step for each round of its loop. What `malloc` and `clone` return is an argument. Stacks and
-- the functions that threads run are left out.
pub mod Joining
pub mod Creation
pub mod Waits
mod Tests
use operating_systems_iitkgp.Base.{
  ℕ, zero, suc, ◌+◌, ◌-◌, ◌≡◌, Bool, true, false, ◌&&◌, ◌||◌, not, List, [], ◌∷◌, ◌++◌, Option,
  none, some, ltb, ◌==◌, if◌then◌else◌, ◌>>=◌, length, get_elem?, set,
}

abbrev pub joinable : ℕ
joinable = 26

abbrev pub detached : ℕ
detached = 27

abbrev pub threads_max : ℕ
threads_max = 100

pub record Attr : Type 0 where
  pub join_type : ℕ
  pub stack_size : ℕ

abbrev pub default_attr : Attr
default_attr = record { join_type = detached; stack_size = 2097152 }

-- `none` is NULL.
pub attr_setjointype : Option Attr → ℕ → Option Attr
attr_setjointype none join_type = none
attr_setjointype (some attr) join_type =
    if join_type == joinable || join_type == detached
    then some (record attr { join_type = join_type })
    else some attr

pub attr_setstacksize : Option Attr → ℕ → Option Attr
attr_setstacksize none stack_size = none
attr_setstacksize (some attr) stack_size = some (record attr { stack_size = stack_size })

-- An entry of the table below `count`. `exits` counts the posts of its semaphore; the program does not
-- keep it.
pub record Slot : Type 0 where
  pub pid : ℕ
  pub tid : ℕ
  pub attr : Attr
  pub sem : ℕ
  pub live : ℕ
  pub exits : ℕ

pub record Manager : Type 0 where
  pub init_done : Bool
  pub slots : List Slot

abbrev pub initialised : Manager → Manager
initialised m = if m.init_done then m else record { init_done = true; slots = [] }

abbrev pub valid_attr : Option Attr → Bool
valid_attr none = true
valid_attr (some attr) = attr.join_type == joinable || attr.join_type == detached

abbrev pub attr_of : Option Attr → Attr
attr_of none = default_attr
attr_of (some attr) = attr

-- `thread` says that the first argument is not NULL, `stack` that the stack could be allocated, and
-- `clone` is the new thread. `none` is the end of the process by an error.
pub create : ℕ → Bool → Option Attr → Bool → Option ℕ → Manager → Option Manager
create pid thread attr stack clone m =
    let m1 : Manager = initialised m in
    if not thread
    then none
    else if not (valid_attr attr)
    then none
    else if not stack
    then none
    else if length m1.slots == threads_max
    then none
    else elim clone [
      | none ↦ none
      | some tid ↦ some (record m1 {
        slots =
            m1.slots
            ++ record { pid = pid; tid = tid; attr = attr_of attr; sem = 0; live = 1; exits = 0 }
              ∷ [];
      })
    ]

-- The loop of a thread other than the main one.
pub post : ℕ → ℕ → List Slot → List Slot
post pid tid [] = []
post pid tid (s ∷ slots) =
    let rest = post pid tid slots in
    if s.live == 0
    then s ∷ rest
    else if s.pid == pid && s.tid == tid
    then record s { sem = s.sem + 1; exits = s.exits + 1 } ∷ slots
    else s ∷ rest

pub exit_child : ℕ → ℕ → Manager → Option Manager
unfolding post
exit_child pid tid m =
    if m.init_done then some (record m { slots = post pid tid m.slots }) else none

-- The main thread: before foothread_exit, in its loop at `i` below `maxt`, and at the end. `first` is
-- the number of threads when it called it.
pub data Main : Type 0 where
  runs : Main
  joins : (first i maxt : ℕ) → Main
  ended : (first i : ℕ) → Main

-- A round for a slot. `none` says that the main thread waits.
pub join_slot : ℕ → ℕ → ℕ → ℕ → Manager → Slot → Option (Manager × Main)
join_slot pid first i maxt m s =
    if s.live == 0
    then some (m, joins first (suc i) maxt)
    else if s.pid == pid && s.attr.join_type == joinable
    then (if s.sem == 0
        then none
        else some (
          record m { slots = set m.slots i (record s { sem = s.sem - 1; live = 0 }) },
          joins first (suc i) (length m.slots),
        ))
    else some (m, joins first (suc i) (length m.slots))

pub main_step : ℕ → Manager → Main → Option (Manager × Main)
unfolding join_slot
main_step pid m runs =
    if m.init_done then some (m, joins (length m.slots) 0 (length m.slots)) else none
main_step pid m (joins first i maxt) =
    if ltb i maxt
    then (do s ← get_elem? m.slots i; join_slot pid first i maxt m s)
    else some (m, ended first i)
main_step pid m (ended first i) = none

-- What the threads of the process `pid` reach, in any order of their calls.
pub data Reach (pid : ℕ) : Manager → Main → Type 0 where
  start : Reach pid (record { init_done = false; slots = [] }) runs
  creates :
      {m m' : Manager} {main : Main} (thread : Bool) (attr : Option Attr) (stack : Bool)
      (clone : Option ℕ)
      → Reach pid m main
      → create pid thread attr stack clone m ≡ some m'
      → Reach pid m' main
  exits_child :
      {m m' : Manager} {main : Main} (tid : ℕ)
      → Reach pid m main
      → exit_child pid tid m ≡ some m'
      → Reach pid m' main
  steps :
      {m m' : Manager} {main main' : Main}
      → Reach pid m main
      → main_step pid m main ≡ some (m', main')
      → Reach pid m' main'
