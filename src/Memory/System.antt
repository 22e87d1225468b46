-- ===== src/Memory/System.antt =====
-- Assignment 8: process.c and sched.c with the memory management unit. The scheduler wakes one
-- process at a time and waits for a message of the unit, so a process runs alone from there to its
-- next page fault or to its end. Processes start at any time. Messages to a process that has not
-- asked for them do not occur, and what is printed is left out.
pub mod Turns
pub mod Strings
pub mod Rounds
mod Tests
use operating_systems_iitkgp.Base.{
  ℕ, zero, suc, ◌+◌, ◌-◌, ◌<◌, ◌≡◌, List, [], ◌∷◌, ◌++◌, Option, none, some, ◌==◌, if◌then◌else◌,
  ◌>>=◌, length,
}
use operating_systems_iitkgp.Base.Int.{ℤ, pos, negsuc}
use operating_systems_iitkgp.Memory.Mmu.{
  Mmu, Sent, to_process, to_sched, Outcome, running, exited, fault, serve,
}
use operating_systems_iitkgp.Memory.Refstr.{next_page}

-- What a process finds on queue 3: the first message of its type.
abbrev pub answer : ℕ → List Sent → Option ℤ
answer pid [] = none
answer pid (to_process q frame ∷ sent) = if q == pid then some frame else answer pid sent
answer pid (to_sched mtype q ∷ sent) = answer pid sent

-- What the scheduler finds on queue 2.
abbrev pub notes : List Sent → List (ℕ × ℕ)
notes [] = []
notes (to_process q frame ∷ sent) = notes sent
notes (to_sched mtype q ∷ sent) = (mtype, q) ∷ notes sent

-- A process that has run until it waits for the scheduler, with what is left of its reference string,
-- or until it has ended (`none`), and the messages to the scheduler.
pub record Turn (S : Type 0) : Type 0 where
  pub mmu : Mmu
  pub waiting : Option S
  pub told : List (ℕ × ℕ)

module _ {S : Type 0} where
  abbrev pub tell : List (ℕ × ℕ) → Option (Turn S) → Option (Turn S)
  tell before none = none
  tell before (some t) = some (record t { told = before ++ t.told })

  -- The tests on `msg3.page_frame`: -2 is an illegal page, -1 a page fault after which the same page
  -- is asked for again, and all else a frame. With no answer the process waits for ever.
  abbrev pub take_answer :
      S → (Mmu → Option (Turn S)) → Mmu → List Sent → Option ℤ → Option (Turn S)
  take_answer s more m sent none = none
  take_answer s more m sent (some (pos frame)) = tell (notes sent) (more m)
  take_answer s more m sent (some (negsuc zero)) =
      some (record { mmu = m; waiting = some s; told = notes sent })
  take_answer s more m sent (some (negsuc (suc zero))) =
      some (record { mmu = m; waiting = none; told = notes sent })
  take_answer s more m sent (some (negsuc (suc (suc n)))) = tell (notes sent) (more m)

  -- A page is asked for.
  abbrev pub ask : ℕ → S → (Mmu → Option (Turn S)) → Outcome → Option (Turn S)
  ask pid s more (running m sent) = take_answer s more m sent (answer pid sent)
  ask pid s more exited = none
  ask pid s more fault = none

  -- The message -9, and the end of the process.
  abbrev pub leave : Outcome → Option (Turn S)
  leave (running m sent) = some (record { mmu = m; waiting = none; told = notes sent })
  leave exited = none
  leave fault = none

-- The loop of process.c from the place `i` of its reference string, on fuel.
pub run_process : ℕ → ℕ → List ℕ → Mmu → Option (Turn (List ℕ))
run_process fuel pid [] m = leave (serve m pid (negsuc 8))
run_process zero pid (c ∷ s) m = none
run_process (suc fuel) pid (c ∷ s) m = do
  (page, rest) ← next_page 0 (c ∷ s)
  ask pid (c ∷ s) (run_process fuel pid rest) (serve m pid (pos page))

-- The same over the page numbers that are left.
pub run_pages : ℕ → List ℕ → Mmu → Option (Turn (List ℕ))
run_pages pid [] m = leave (serve m pid (negsuc 8))
run_pages pid (page ∷ pages) m =
    ask pid (page ∷ pages) (run_pages pid pages) (serve m pid (pos page))

-- The scheduler: how many processes it waits for, and the ready queue (the messages of type 1 on
-- queue 1), each with the string from which its process goes on.
pub record System : Type 0 where
  pub k : ℕ
  pub mmu : Mmu
  pub ready : List (ℕ × List ℕ)

-- One round of `while (k > 0)`, after the process has run: a message of type 1 puts the process at
-- the end of the queue, and one of type 2 counts it.
pub take_note : ℕ → List (ℕ × List ℕ) → ℕ → Turn (List ℕ) → Option System
take_note k ready pid t = elim t.told [
  | [] ↦ none
  | (mtype, q) ∷ rest ↦ elim t.waiting [
    | some s ↦
        if mtype == 1
        then some (record { k = k; mmu = t.mmu; ready = ready ++ (q, s) ∷ [] })
        else if mtype == 2
        then some (record { k = k - 1; mmu = t.mmu; ready = ready })
        else some (record { k = k; mmu = t.mmu; ready = ready })
    | none ↦
        if mtype == 1
        then none
        else if mtype == 2
        then some (record { k = k - 1; mmu = t.mmu; ready = ready })
        else some (record { k = k; mmu = t.mmu; ready = ready })
  ]
]

-- The front of the queue is woken. With an empty queue the scheduler waits.
pub schedule : System → Option System
unfolding take_note
schedule s = elim s.ready [
  | [] ↦ none
  | (pid, refstr) ∷ ready ↦ run_process (length refstr) pid refstr s.mmu >>= take_note s.k ready pid
]
