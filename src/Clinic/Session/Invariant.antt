-- ===== src/Clinic/Session/Invariant.antt =====
-- The invariant of the loop of `main`: the lines of visitors, and one event for a busy doctor.
use operating_systems_iitkgp.Base.{
  ℕ, ◌+◌, ◌-◌, ◌*◌, ◌≤◌, ◌<◌, ◌≡◌, refl, ◌∙◌, ◌⊎◌, Bool, true, false, some, arith, ◌==◌,
  if◌then◌else◌, length, set, length-set,
}
use operating_systems_iitkgp.Clinic.Event.{Event}
use operating_systems_iitkgp.Clinic.EventQueue.Operations.{IsValid, weigh}
use operating_systems_iitkgp.Clinic.Session.{
  Line, Session, Arrival, next, onward, overflow, patient_quota, salesrep_quota, stay,
}

abbrev pub is_doctor : Event → ℕ
is_doctor x = if x.type == b'D' then 1 else 0

abbrev pub is_visitor : Event → ℕ
is_visitor x = if x.type == b'D' then 0 else 1

abbrev pub is_reporter : Event → ℕ
is_reporter x = if x.type == b'R' then 1 else 0

abbrev pub is_patient : Event → ℕ
is_patient x = if x.type == b'P' then 1 else 0

abbrev pub is_salesrep : Event → ℕ
is_salesrep x = if x.type == b'S' then 1 else 0

-- The patients, the reporters and the sales representatives that came.
abbrev pub came : Session → ℕ × ℕ × ℕ
came s = (s.patients.cnt, s.reporters.cnt, s.salesreps.cnt)

-- Those that came and those that are expected, of each kind.
abbrev pub tally : Session → ℕ × ℕ × ℕ
tally s = (
  s.patients.cnt + weigh is_patient s.queue,
  s.reporters.cnt + weigh is_reporter s.queue,
  s.salesreps.cnt + weigh is_salesrep s.queue,
)

abbrev pub flag : Bool → ℕ
flag true = 1
flag false = 0

abbrev pub reporter_slots : ℕ
reporter_slots = 100

-- A line of which `quota` visitors at most are let in, in an array of that size. While the session
-- lasts, all who came within the quota wait or have been let in.
pub record InLine (quota : ℕ) (ended : Bool) (l : Line) : Type 0 where
  pub size : length l.events ≡ quota
  pub fits : l.curr + l.wait ≤ quota
  pub came : l.curr + l.wait ≤ l.cnt
  pub below : ended ≡ false → l.cnt ≤ quota → l.curr + l.wait ≡ l.cnt
  pub above : ended ≡ false → quota ≤ l.cnt → l.curr + l.wait ≡ quota

-- In the middle of a round. A doctor who is neither free nor gone has one event in the queue.
pub record IsBalanced (s : Session) : Type 0 where
  pub queue : IsValid s.queue
  pub patients : InLine patient_quota s.doc_session_end s.patients
  pub reporters : InLine reporter_slots s.doc_session_end s.reporters
  pub salesreps : InLine salesrep_quota s.doc_session_end s.salesreps
  pub expected : s.reporters.cnt + weigh is_reporter s.queue ≤ reporter_slots
  pub doctor : weigh is_doctor s.queue + flag s.doc_free + flag s.doc_session_end ≡ 1
  pub closed :
      s.doc_session_end ≡ true
      → (s.patients.curr ≡ patient_quota)
        × (s.salesreps.curr ≡ salesrep_quota)
        × (s.reporters.wait ≡ 0)

-- No visitor waits while the doctor is free.
abbrev pub IsIdle : Session → Type 0
IsIdle s =
    s.doc_free ≡ true
    → s.doc_session_end ≡ false
    → (s.patients.wait ≡ 0) × (s.reporters.wait ≡ 0) × (s.salesreps.wait ≡ 0)

-- Between two rounds.
pub record IsSound (s : Session) : Type 0 where
  pub balanced : IsBalanced s
  pub idle : IsIdle s

-- The work that is left: it falls with every round.
abbrev pub work : Session → ℕ
work s =
    3 * weigh is_visitor s.queue
    + weigh is_doctor s.queue
    + 2 * (s.patients.wait + s.reporters.wait + s.salesreps.wait)

-- The state after `delevent` has taken the event `x` from the queue, before the event is handled.
pub record Taken (x : Event) (s : Session) : Type 0 where
  pub queue : IsValid s.queue
  pub patients : InLine patient_quota s.doc_session_end s.patients
  pub reporters : InLine reporter_slots s.doc_session_end s.reporters
  pub salesreps : InLine salesrep_quota s.doc_session_end s.salesreps
  pub expected : s.reporters.cnt + weigh is_reporter s.queue + is_reporter x ≤ reporter_slots
  pub doctor : weigh is_doctor s.queue + is_doctor x + flag s.doc_free + flag s.doc_session_end ≡ 1
  pub closed :
      s.doc_session_end ≡ true
      → (s.patients.curr ≡ patient_quota)
        × (s.salesreps.curr ≡ salesrep_quota)
        × (s.reporters.wait ≡ 0)
  pub idle : IsIdle s

-- The first part of a round leaves a sound state, or goes on in a balanced one, with the same queue
-- and no more work than there was with the event `x`.
abbrev pub Handled : Event → Session → Arrival → Type 0
Handled x s (next t) =
    IsSound t × (t.queue ≡ s.queue) × (work t < work s + 3 * is_visitor x + is_doctor x)
Handled x s (onward t) =
    IsBalanced t × (t.queue ≡ s.queue) × (work t < work s + 3 * is_visitor x + is_doctor x)
Handled x s overflow = ⊥

-- The first part of a round counts the visitor of the event `x`.
abbrev pub Counted : Event → Session → Arrival → Type 0
Counted x s (next t) = came t ≡ (
  s.patients.cnt + is_patient x,
  s.reporters.cnt + is_reporter x,
  s.salesreps.cnt + is_salesrep x,
)
Counted x s (onward t) = came t ≡ (
  s.patients.cnt + is_patient x,
  s.reporters.cnt + is_reporter x,
  s.salesreps.cnt + is_salesrep x,
)
Counted x s overflow = Unit

-- One more visitor came, and left at once.
pub InLine-leave :
    (quota : ℕ) (ended : Bool) (l : Line)
    → InLine quota ended l
    → (ended ≡ true) ⊎ (quota ≤ l.cnt)
    → InLine quota ended (record l { cnt = l.cnt + 1 })
InLine-leave quota ended l v why = record {
  size = v.size;
  fits = v.fits;
  came = omega (arith, v.came);
  below = λ e h. ground (arith, v.above);
  above = λ e h. ground (arith, v.above);
}

-- One more visitor came, and waits.
pub InLine-stay :
    (quota : ℕ) (ended : Bool) (l : Line) (x : Event)
    → InLine quota ended l
    → ended ≡ false
    → l.cnt < quota
    → (l' : Line) × (stay (record l { cnt = l.cnt + 1 }) x ≡ some l')
      × InLine quota ended l'
      × (l'.wait ≡ l.wait + 1)
      × (l'.cnt ≡ l.cnt + 1)
      × (l'.curr ≡ l.curr)
InLine-stay quota ended l x v e h = (
  record {
    cnt = l.cnt + 1;
    wait = l.wait + 1;
    curr = l.curr;
    events = set l.events (l.cnt + 1 - 1) x;
  },
  ground (arith, v.size),
  record {
    size = length-set l.events (l.cnt + 1 - 1) x ∙ v.size;
    fits = ground (arith, v.below);
    came = omega (arith, v.came);
    below = λ o k. ground (arith, v.below);
    above = λ o k. ground (arith, v.below);
  },
  refl,
  refl,
  refl,
)

pub InLine-end : (quota : ℕ) (l : Line) (ended : Bool) → InLine quota ended l → InLine quota true l
InLine-end quota l ended v = record {
  size = v.size;
  fits = v.fits;
  came = v.came;
  below = λ e. cc;
  above = λ e. cc;
}
