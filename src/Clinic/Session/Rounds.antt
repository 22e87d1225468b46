-- ===== src/Clinic/Session/Rounds.antt =====
-- Rounds of the loop of `main`.
use operating_systems_iitkgp.Base.{
  ap, ◌∙◌, ℕ, ◌+◌, ◌*◌, ◌≤◌, ◌<◌, ◌≡◌, refl, sym, subst, Option, some, arith, length,
}
use operating_systems_iitkgp.Clinic.Event.{Event}
use operating_systems_iitkgp.Clinic.EventQueue.{EventQueue}
use operating_systems_iitkgp.Clinic.EventQueue.Operations.{weigh, delevent_lem}
use operating_systems_iitkgp.Clinic.Session.{
  Session, Arrival, next, onward, overflow, arrives, finish, round,
}
use operating_systems_iitkgp.Clinic.Session.Invariant.{
  is_doctor, is_visitor, is_patient, is_reporter, is_salesrep, came, tally, Counted, IsSound, work,
  Taken, Handled,
}
use operating_systems_iitkgp.Clinic.Session.Arrivals.{arrives-Handled}
use operating_systems_iitkgp.Clinic.Session.Counts.{arrives-Counted}
use operating_systems_iitkgp.Clinic.Session.Visits.{serve_next-Visited}

-- A round ends in a sound state, with less work to do.
pub record Stepped (s : Session) (r : Option Session) : Type 0 where
  pub after : Session
  pub eq : r ≡ some after
  pub sound : IsSound after
  pub less : work after < work s
  pub counts : tally after ≡ tally s

-- The event `x` was in the queue of the state `s0`, and is not in that of `s`.
abbrev Expected : Event → Session → Session → Type 0
Expected x s s0 = (w : Event → ℕ) → weigh w s.queue + w x ≡ weigh w s0.queue

-- A visitor that was expected has come.
tally-Counted :
    (x : Event) (s0 s t : Session)
    → came s ≡ came s0
    → t.queue ≡ s.queue
    → Counted x s (next t)
    → Expected x s s0
    → tally t ≡ tally s0
tally-Counted x s0 s t old queue counted expected =
    let p : t.patients.cnt + weigh is_patient t.queue
        ≡ s0.patients.cnt + weigh is_patient s0.queue =
      rw queue (omega (arith, ap (λ c. c.0) counted, ap (λ c. c.0) old, expected is_patient)) in
    let r : t.reporters.cnt + weigh is_reporter t.queue
        ≡ s0.reporters.cnt + weigh is_reporter s0.queue =
      rw queue (omega (arith, ap (λ c. c.1) counted, ap (λ c. c.1) old, expected is_reporter)) in
    let v : t.salesreps.cnt + weigh is_salesrep t.queue
        ≡ s0.salesreps.cnt + weigh is_salesrep s0.queue =
      rw queue (omega (arith, ap (λ c. c.2) counted, ap (λ c. c.2) old, expected is_salesrep)) in
    rw (p, r, v) refl

finish-Stepped :
    (x : Event) (s0 s : Session) (a : Arrival)
    → Handled x s a
    → s.queue.n < length s.queue.q
    → work s + 3 * is_visitor x + is_doctor x ≤ work s0
    → came s ≡ came s0
    → Counted x s a
    → Expected x s s0
    → Stepped s0 (finish a)
finish-Stepped x s0 s (next t) h room w old c e = record {
  after = t;
  eq = refl;
  sound = h.0;
  less = omega (arith, h.2);
  counts = tally-Counted x s0 s t old h.1 c e;
}
finish-Stepped x s0 s (onward t) h room w old c e =
    let v =
      serve_next-Visited t h.0 (subst (λ (q : EventQueue). q.n < length q.q) (sym h.1) room) in
    record {
      after = v.after;
      eq = v.eq;
      sound = v.sound;
      less = omega (arith, h.2, v.less);
      counts = v.counts ∙ tally-Counted x s0 s t old h.1 c e;
    }
finish-Stepped x s0 s overflow h room w old c e = absurd h

-- In a sound state with an event left, a round of the loop stays within its arrays, and ends in a
-- sound state with less work to do. Of each kind of visitor, as many have come or are in the queue as
-- before.
pub round-Stepped : (s : Session) → IsSound s → 0 < s.queue.n → Stepped s (round s)
unfolding round
round-Stepped s v left =
    let b = v.balanced in
    let (x, q, first, taken, valid, count, size, same, _) = delevent_lem s.queue b.queue left in
    let s1 : Session = record s { curr_time = x.time; queue = q } in
    let t : Taken x s1 = record {
      queue = valid;
      patients = b.patients;
      reporters = b.reporters;
      salesreps = b.salesreps;
      expected = omega (arith, b.expected, same is_reporter);
      doctor = omega (arith, b.doctor, same is_doctor);
      closed = b.closed;
      idle = v.idle;
    } in
    rw (first, taken)
      (finish-Stepped x s s1 (arrives s1 x) (arrives-Handled x s1 t) (omega (arith, b.queue.room))
        (omega (arith, same is_visitor, same is_doctor)) refl (arrives-Counted x s1)
        (λ w. omega (arith, same w)))
