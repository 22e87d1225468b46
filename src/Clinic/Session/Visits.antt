-- ===== src/Clinic/Session/Visits.antt =====
-- The second part of a round: who is let in, and that all stays in order.
use operating_systems_iitkgp.Base.{
  ℕ, ◌+◌, ◌≤◌, ◌<◌, ◌≡◌, refl, inl, inr, Bool, true, false, not, ◌&&◌, Option, some, arith, ltb,
  length, get_elem?-some, Bool-cases,
}
use operating_systems_iitkgp.Base.Int.{◌+ℤ◌}
use operating_systems_iitkgp.Clinic.EventQueue.Operations.{weigh, addevent_lem}
use operating_systems_iitkgp.Clinic.Session.{
  Line, Session, patient_quota, salesrep_quota, admitted, doctor_event, visit_patient,
  visit_reporter, visit_salesrep, serve_next,
}
use operating_systems_iitkgp.Clinic.Session.Invariant.{
  is_doctor, is_visitor, is_reporter, reporter_slots, InLine, IsBalanced, IsIdle, IsSound, work,
  is_patient, is_salesrep, tally,
}

pub InLine-admit :
    (quota : ℕ) (ended : Bool) (l : Line)
    → InLine quota ended l
    → 0 < l.wait
    → InLine quota ended (admitted l)
InLine-admit quota ended l v h = record {
  size = v.size;
  fits = omega (arith, v.fits);
  came = omega (arith, v.came);
  below = λ e k. omega (arith, v.below e k);
  above = λ e k. omega (arith, v.above e k);
}

-- The second part of a round ends in a sound state, whose array of events is as long as before and
-- has room for the one more event at most that it holds.
pub record Visited (s : Session) (r : Option Session) : Type 0 where
  pub after : Session
  pub eq : r ≡ some after
  pub sound : IsSound after
  pub less : work after ≤ work s
  pub size : length after.queue.q ≡ length s.queue.q
  pub room : after.queue.n ≤ s.queue.n + 1
  pub counts : tally after ≡ tally s

-- The event of a doctor counts for no kind of visitor.
same_tally :
    (s : Session) (p r v : ℕ)
    → p ≡ weigh is_patient s.queue + 0
    → r ≡ weigh is_reporter s.queue + 0
    → v ≡ weigh is_salesrep s.queue + 0
    → ◌≡◌ {A = ℕ × ℕ × ℕ} (s.patients.cnt + p, s.reporters.cnt + r, s.salesreps.cnt + v) (tally s)
same_tally s p r v e f g =
    let e' : p ≡ weigh is_patient s.queue = omega (arith, e) in
    let f' : r ≡ weigh is_reporter s.queue = omega (arith, f) in
    let g' : v ≡ weigh is_salesrep s.queue = omega (arith, g) in rw (e', f', g') refl

module _ (s : Session) (b : IsBalanced s) (room : s.queue.n < length s.queue.q)
    (free : s.doc_free ≡ true) (lasts : s.doc_session_end ≡ false) where
  visit_reporter-Visited : 0 < s.reporters.wait → Visited s (visit_reporter s)
  unfolding visit_reporter
  visit_reporter-Visited h =
      let (visitor, here) =
        get_elem?-some s.reporters.events s.reporters.curr
          (omega (arith, b.reporters.size, b.reporters.fits)) in
      let busy = doctor_event (s.curr_time +ℤ visitor.duration) in
      let (q, eq, valid, count, size, same) = addevent_lem s.queue busy b.queue room in
      record {
        after = record s { reporters = admitted s.reporters; doc_free = false; queue = q };
        eq = rw (here, eq) refl;
        sound = record {
          balanced = record {
            queue = valid;
            patients = b.patients;
            reporters = InLine-admit reporter_slots s.doc_session_end s.reporters b.reporters h;
            salesreps = b.salesreps;
            expected = ground (arith, b.expected, same is_reporter);
            doctor = ground (arith, b.doctor, same is_doctor);
            closed = λ e. cc;
          };
          idle = λ f e. cc;
        };
        less = ground (arith, same is_visitor, same is_doctor);
        size = size;
        room = omega (arith, count);
        counts =
            same_tally s (weigh is_patient q) (weigh is_reporter q) (weigh is_salesrep q)
              (same is_patient) (same is_reporter) (same is_salesrep);
      }

  visit_patient-Visited : 0 < s.patients.wait → Visited s (visit_patient s)
  unfolding visit_patient
  visit_patient-Visited h =
      let (visitor, here) =
        get_elem?-some s.patients.events s.patients.curr
          (omega (arith, b.patients.size, b.patients.fits)) in
      let busy = doctor_event (s.curr_time +ℤ visitor.duration) in
      let (q, eq, valid, count, size, same) = addevent_lem s.queue busy b.queue room in
      record {
        after = record s { patients = admitted s.patients; doc_free = false; queue = q };
        eq = rw (here, eq) refl;
        sound = record {
          balanced = record {
            queue = valid;
            patients = InLine-admit patient_quota s.doc_session_end s.patients b.patients h;
            reporters = b.reporters;
            salesreps = b.salesreps;
            expected = ground (arith, b.expected, same is_reporter);
            doctor = ground (arith, b.doctor, same is_doctor);
            closed = λ e. cc;
          };
          idle = λ f e. cc;
        };
        less = ground (arith, same is_visitor, same is_doctor);
        size = size;
        room = omega (arith, count);
        counts =
            same_tally s (weigh is_patient q) (weigh is_reporter q) (weigh is_salesrep q)
              (same is_patient) (same is_reporter) (same is_salesrep);
      }

  visit_salesrep-Visited : 0 < s.salesreps.wait → Visited s (visit_salesrep s)
  unfolding visit_salesrep
  visit_salesrep-Visited h =
      let (visitor, here) =
        get_elem?-some s.salesreps.events s.salesreps.curr
          (omega (arith, b.salesreps.size, b.salesreps.fits)) in
      let busy = doctor_event (s.curr_time +ℤ visitor.duration) in
      let (q, eq, valid, count, size, same) = addevent_lem s.queue busy b.queue room in
      record {
        after = record s { salesreps = admitted s.salesreps; doc_free = false; queue = q };
        eq = rw (here, eq) refl;
        sound = record {
          balanced = record {
            queue = valid;
            patients = b.patients;
            reporters = b.reporters;
            salesreps = InLine-admit salesrep_quota s.doc_session_end s.salesreps b.salesreps h;
            expected = ground (arith, b.expected, same is_reporter);
            doctor = ground (arith, b.doctor, same is_doctor);
            closed = λ e. cc;
          };
          idle = λ f e. cc;
        };
        less = ground (arith, same is_visitor, same is_doctor);
        size = size;
        room = omega (arith, count);
        counts =
            same_tally s (weigh is_patient q) (weigh is_reporter q) (weigh is_salesrep q)
              (same is_patient) (same is_reporter) (same is_salesrep);
      }

stays-Visited : (s : Session) → IsBalanced s → IsIdle s → Visited s (some s)
stays-Visited s b idle = record {
  after = s;
  eq = refl;
  sound = record { balanced = b; idle = idle };
  less = omega arith;
  size = refl;
  room = omega arith;
  counts = refl;
}

pub serve_next-Visited :
    (s : Session) → IsBalanced s → s.queue.n < length s.queue.q → Visited s (serve_next s)
unfolding serve_next
serve_next-Visited s b room = elim (Bool-cases (s.doc_free && not s.doc_session_end)) [
  | inr busy ↦ rw busy (stays-Visited s b (λ f e. ground arith))
  | inl ready ↦
      let free : s.doc_free ≡ true = ground arith in
      let lasts : s.doc_session_end ≡ false = ground arith in
      elim (Bool-cases (ltb 0 s.reporters.wait)) [
        | inl r ↦ rw (ready, r) (visit_reporter-Visited s b room free lasts (ground arith))
        | inr r ↦ elim (Bool-cases (ltb 0 s.patients.wait)) [
          | inl p ↦ rw (ready, r, p) (visit_patient-Visited s b room free lasts (ground arith))
          | inr p ↦ elim (Bool-cases (ltb 0 s.salesreps.wait)) [
            | inl sr ↦
                rw (ready, r, p, sr) (visit_salesrep-Visited s b room free lasts (ground arith))
            | inr sr ↦ rw (ready, r, p, sr) (stays-Visited s b (λ f e. ground arith))
          ]
        ]
      ]
]
