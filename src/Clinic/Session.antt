-- ===== src/Clinic/Session.antt =====
-- Assignment 6/session.c: the loop of `main`. The threads are not modelled: whenever the loop hands
-- over to one it waits for it (for `patient_done`, for `doc_state`, by `pthread_join`) before it goes
-- on, so what they do to the variables below is written where the loop waits. Prints are left out.
-- A read or a write beyond an array is `none`.
pub mod Invariant
pub mod Arrivals
pub mod Counts
pub mod Visits
pub mod Rounds
pub mod Ending
mod Tests
use operating_systems_iitkgp.Base.{
  ℕ, zero, suc, ◌+◌, ◌-◌, ◌≤◌, ◌<◌, Bool, true, false, not, ◌&&◌, List, [], ◌∷◌, Option, none, some,
  ltb, leb, ◌==◌, if◌then◌else◌, ◌>>=◌, length, get_elem?, set, replicate,
}
use operating_systems_iitkgp.Base.Int.{ℤ, pos, negsuc, ◌+ℤ◌}
use operating_systems_iitkgp.Clinic.Event.{Event}
use operating_systems_iitkgp.Clinic.EventQueue.{
  EventQueue, empty_q, nextevent, delevent, addevent, init_eq,
}

-- The visitors of one kind: those who came (`patient_cnt`), those who wait (`patient_wait`), those
-- who were let in (`patient_curr`), and the array of their events (`patientQ`).
pub record Line : Type 0 where
  pub cnt : ℕ
  pub wait : ℕ
  pub curr : ℕ
  pub events : List Event

pub record Session : Type 0 where
  pub patients : Line
  pub reporters : Line
  pub salesreps : Line
  pub curr_time : ℤ
  pub doc_free : Bool
  pub doc_session_end : Bool
  pub queue : EventQueue

abbrev pub patient_quota : ℕ
patient_quota = 25

abbrev pub salesrep_quota : ℕ
salesrep_quota = 3

-- `visitor_done` and `temp`: the doctor is free. The duration is not set, and never read.
abbrev pub doctor_event : ℤ → Event
doctor_event time = record { type = b'D'; time = time; duration = pos 0 }

-- The end of a visitor's branch: the visitor waits, and the event is stored.
abbrev stay : Line → Event → Option Line
stay l x =
    if ltb (l.cnt - 1) (length l.events)
    then some (record l { wait = l.wait + 1; events = set l.events (l.cnt - 1) x })
    else none

-- What an event does before the second part of the loop: `next` skips that part (`continue`).
pub data Arrival : Type 0 where
  next : Session → Arrival
  onward : Session → Arrival
  overflow : Arrival

-- 'D': the doctor is free, and leaves when all visitors that the quotas admit have been let in and
-- no reporter waits. The main thread then sets `doc_session_end` and joins the doctor.
pub doctor_arrives : Session → Arrival
doctor_arrives s =
    if s.patients.curr == patient_quota
      && s.salesreps.curr == salesrep_quota
      && s.reporters.wait == 0
    then next (record s { doc_session_end = true; doc_free = false })
    else onward (record s { doc_free = true })

abbrev or_overflow : Option Line → (Line → Arrival) → Arrival
or_overflow none k = overflow
or_overflow (some l) k = k l

pub patient_arrives : Session → Event → Arrival
patient_arrives s x =
    let l = record (s.patients) { cnt = s.patients.cnt + 1 } in
    if s.doc_session_end
    then next (record s { patients = l })
    else if ltb patient_quota l.cnt
    then next (record s { patients = l })
    else or_overflow (stay l x) λ l'. onward (record s { patients = l' })

-- There is no quota of reporters.
pub reporter_arrives : Session → Event → Arrival
reporter_arrives s x =
    let l = record (s.reporters) { cnt = s.reporters.cnt + 1 } in
    if s.doc_session_end
    then next (record s { reporters = l })
    else or_overflow (stay l x) λ l'. onward (record s { reporters = l' })

pub salesrep_arrives : Session → Event → Arrival
salesrep_arrives s x =
    let l = record (s.salesreps) { cnt = s.salesreps.cnt + 1 } in
    if s.doc_session_end
    then next (record s { salesreps = l })
    else if ltb salesrep_quota l.cnt
    then next (record s { salesreps = l })
    else or_overflow (stay l x) λ l'. onward (record s { salesreps = l' })

-- The branches on the type of the event. One of another type goes on to the second part.
pub arrives : Session → Event → Arrival
arrives s x =
    if x.type == b'D'
    then doctor_arrives s
    else if x.type == b'P'
    then patient_arrives s x
    else if x.type == b'R'
    then reporter_arrives s x
    else if x.type == b'S'
    then salesrep_arrives s x
    else onward s

-- The first of the line goes in: `wait` falls, the doctor takes the visitor, `curr` grows, and the
-- visitor's thread ends.
abbrev admitted : Line → Line
admitted l = record l { wait = l.wait - 1; curr = l.curr + 1 }

pub visit_reporter : Session → Option Session
visit_reporter s = do
  visitor ← get_elem? s.reporters.events s.reporters.curr
  queue ← addevent s.queue (doctor_event (s.curr_time +ℤ visitor.duration))
  some (record s { reporters = admitted s.reporters; doc_free = false; queue = queue })

pub visit_patient : Session → Option Session
visit_patient s = do
  visitor ← get_elem? s.patients.events s.patients.curr
  queue ← addevent s.queue (doctor_event (s.curr_time +ℤ visitor.duration))
  some (record s { patients = admitted s.patients; doc_free = false; queue = queue })

pub visit_salesrep : Session → Option Session
visit_salesrep s = do
  visitor ← get_elem? s.salesreps.events s.salesreps.curr
  queue ← addevent s.queue (doctor_event (s.curr_time +ℤ visitor.duration))
  some (record s { salesreps = admitted s.salesreps; doc_free = false; queue = queue })

-- The second part of the loop: a free doctor takes a reporter, else a patient, else a sales
-- representative.
pub serve_next : Session → Option Session
serve_next s =
    if s.doc_free && not s.doc_session_end
    then if ltb 0 s.reporters.wait
      then visit_reporter s
      else if ltb 0 s.patients.wait
      then visit_patient s
      else if ltb 0 s.salesreps.wait
      then visit_salesrep s
      else some s
    else some s

abbrev finish : Arrival → Option Session
finish (next s) = some s
finish (onward s) = serve_next s
finish overflow = none

-- One round of `while (!emptyQ(E))`.
pub round : Session → Option Session
round s = do
  x ← nextevent s.queue
  queue ← delevent s.queue
  finish (arrives (record s { curr_time = x.time; queue = queue }) x)

-- The loop. With no fuel left it is `none`.
pub run : ℕ → Session → Option Session
run zero s = none
run (suc fuel) s = let more = round s >>= run fuel in if empty_q s.queue then some s else more

-- The arrays `patientQ`, `reporterQ` and `salesrepQ` are not initialised: `blank` stands for what
-- they hold. `curr_time` starts at -1e9.
pub start : Event → EventQueue → Option Session
start blank e = do
  queue ← addevent e (doctor_event (pos 0))
  some (record {
    patients = record { cnt = 0; wait = 0; curr = 0; events = replicate 25 blank };
    reporters = record { cnt = 0; wait = 0; curr = 0; events = replicate 100 blank };
    salesreps = record { cnt = 0; wait = 0; curr = 0; events = replicate 3 blank };
    curr_time = negsuc 999999999;
    doc_free = false;
    doc_session_end = false;
    queue = queue;
  })
