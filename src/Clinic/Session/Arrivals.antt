-- ===== src/Clinic/Session/Arrivals.antt =====
-- The first part of a round: what each type of event does.
use operating_systems_iitkgp.Base.{
  ◌+◌, ◌≤◌, ◌≡◌, refl, sym, subst, inl, inr, true, false, ◌&&◌, arith, ltb, ◌==◌, Bool-cases,
}
use operating_systems_iitkgp.Clinic.Event.{Event}
use operating_systems_iitkgp.Clinic.Session.{
  Line, Session, next, onward, patient_quota, salesrep_quota, doctor_arrives, patient_arrives,
  reporter_arrives, salesrep_arrives, arrives,
}
use operating_systems_iitkgp.Clinic.Session.Invariant.{
  is_doctor, is_reporter, reporter_slots, InLine, IsBalanced, Taken, Handled, InLine-leave,
  InLine-stay, InLine-end,
}

-- An event of no doctor changes one line, and keeps who was let in.
module _ (x : Event) (s : Session) (t : Taken x s) (d : (x.type == b'D') ≡ false) where
  with_patients :
      (l : Line)
      → InLine patient_quota s.doc_session_end l
      → l.curr ≡ s.patients.curr
      → IsBalanced (record s { patients = l })
  with_patients l v same = record {
    queue = t.queue;
    patients = v;
    reporters = t.reporters;
    salesreps = t.salesreps;
    expected = omega (arith, t.expected);
    doctor = ground (arith, t.doctor);
    closed = λ e. ground (arith, t.closed e);
  }

  with_salesreps :
      (l : Line)
      → InLine salesrep_quota s.doc_session_end l
      → l.curr ≡ s.salesreps.curr
      → IsBalanced (record s { salesreps = l })
  with_salesreps l v same = record {
    queue = t.queue;
    patients = t.patients;
    reporters = t.reporters;
    salesreps = v;
    expected = omega (arith, t.expected);
    doctor = ground (arith, t.doctor);
    closed = λ e. ground (arith, t.closed e);
  }

  with_reporters :
      (l : Line)
      → InLine reporter_slots s.doc_session_end l
      → l.cnt ≤ s.reporters.cnt + is_reporter x
      → (s.doc_session_end ≡ true → l.wait ≡ s.reporters.wait)
      → IsBalanced (record s { reporters = l })
  with_reporters l v count same = record {
    queue = t.queue;
    patients = t.patients;
    reporters = v;
    salesreps = t.salesreps;
    expected = omega (arith, t.expected);
    doctor = ground (arith, t.doctor);
    closed = λ e. ground (arith, t.closed e, same e);
  }

  none_of_these : IsBalanced s
  none_of_these = record {
    queue = t.queue;
    patients = t.patients;
    reporters = t.reporters;
    salesreps = t.salesreps;
    expected = omega (arith, t.expected);
    doctor = ground (arith, t.doctor);
    closed = t.closed;
  }

  patient-Handled : Handled x s (patient_arrives s x)
  unfolding patient_arrives
  patient-Handled =
      let gone : Line = record (s.patients) { cnt = s.patients.cnt + 1 } in
      elim (Bool-cases s.doc_session_end) [
        | inl ended ↦
            let eq : patient_arrives s x ≡ next (record s { patients = gone }) = ground arith in
            let v =
              InLine-leave patient_quota s.doc_session_end s.patients t.patients (inl ended) in
            subst (Handled x s) (sym eq)
              (record { balanced = with_patients gone v refl; idle = t.idle }, refl, ground arith)
        | inr lasts ↦ elim (Bool-cases (ltb patient_quota (s.patients.cnt + 1))) [
          | inl many ↦
              let eq : patient_arrives s x ≡ next (record s { patients = gone }) = ground arith in
              let v =
                InLine-leave patient_quota s.doc_session_end s.patients t.patients
                  (inr (ground arith)) in
              subst (Handled x s) (sym eq)
                (record { balanced = with_patients gone v refl; idle = t.idle }, refl, ground arith)
          | inr few ↦
              let (l, stays, v, wait, cnt, curr) =
                InLine-stay patient_quota s.doc_session_end s.patients x t.patients lasts
                  (ground arith) in
              let eq : patient_arrives s x ≡ onward (record s { patients = l }) =
                ground (arith, stays) in
              subst (Handled x s) (sym eq) (with_patients l v curr, refl, ground arith)
        ]
      ]

  salesrep-Handled : Handled x s (salesrep_arrives s x)
  unfolding salesrep_arrives
  salesrep-Handled =
      let gone : Line = record (s.salesreps) { cnt = s.salesreps.cnt + 1 } in
      elim (Bool-cases s.doc_session_end) [
        | inl ended ↦
            let eq : salesrep_arrives s x ≡ next (record s { salesreps = gone }) = ground arith in
            let v =
              InLine-leave salesrep_quota s.doc_session_end s.salesreps t.salesreps (inl ended) in
            subst (Handled x s) (sym eq)
              (record { balanced = with_salesreps gone v refl; idle = t.idle }, refl, ground arith)
        | inr lasts ↦ elim (Bool-cases (ltb salesrep_quota (s.salesreps.cnt + 1))) [
          | inl many ↦
              let eq : salesrep_arrives s x ≡ next (record s { salesreps = gone }) = ground arith in
              let v =
                InLine-leave salesrep_quota s.doc_session_end s.salesreps t.salesreps
                  (inr (ground arith)) in
              subst (Handled x s) (sym eq) (
                record { balanced = with_salesreps gone v refl; idle = t.idle },
                refl,
                ground arith,
              )
          | inr few ↦
              let (l, stays, v, wait, cnt, curr) =
                InLine-stay salesrep_quota s.doc_session_end s.salesreps x t.salesreps lasts
                  (ground arith) in
              let eq : salesrep_arrives s x ≡ onward (record s { salesreps = l }) =
                ground (arith, stays) in
              subst (Handled x s) (sym eq) (with_salesreps l v curr, refl, ground arith)
        ]
      ]

  reporter-Handled : (x.type == b'R') ≡ true → Handled x s (reporter_arrives s x)
  unfolding reporter_arrives
  reporter-Handled r =
      let gone : Line = record (s.reporters) { cnt = s.reporters.cnt + 1 } in
      let one : is_reporter x ≡ 1 = ground arith in
      elim (Bool-cases s.doc_session_end) [
        | inl ended ↦
            let eq : reporter_arrives s x ≡ next (record s { reporters = gone }) = ground arith in
            let v =
              InLine-leave reporter_slots s.doc_session_end s.reporters t.reporters (inl ended) in
            subst (Handled x s) (sym eq) (
              record {
                balanced = with_reporters gone v (omega (arith, one)) (λ e. refl);
                idle = t.idle;
              },
              refl,
              ground arith,
            )
        | inr lasts ↦
            let (l, stays, v, wait, cnt, curr) =
              InLine-stay reporter_slots s.doc_session_end s.reporters x t.reporters lasts
                (omega (arith, one, t.expected)) in
            let eq : reporter_arrives s x ≡ onward (record s { reporters = l }) =
              ground (arith, stays) in
            subst (Handled x s) (sym eq)
              (with_reporters l v (omega (arith, one, cnt)) (λ e. cc), refl, ground arith)
      ]

doctor-Handled :
    (x : Event) (s : Session) → Taken x s → (x.type == b'D') ≡ true → Handled x s (doctor_arrives s)
unfolding doctor_arrives
doctor-Handled x s t d =
    let one : is_doctor x ≡ 1 = ground arith in
    let busy : s.doc_free ≡ false = ground (arith, t.doctor) in
    let lasts : s.doc_session_end ≡ false = ground (arith, t.doctor) in
    elim (Bool-cases (
      s.patients.curr == patient_quota
      && s.salesreps.curr == salesrep_quota
      && s.reporters.wait == 0)) [
        | inl over ↦
            let eq : doctor_arrives s
                ≡ next (record s { doc_session_end = true; doc_free = false }) =
              ground arith in
            subst (Handled x s) (sym eq) (
              record {
                balanced = record {
                  queue = t.queue;
                  patients = InLine-end patient_quota s.patients s.doc_session_end t.patients;
                  reporters = InLine-end reporter_slots s.reporters s.doc_session_end t.reporters;
                  salesreps = InLine-end salesrep_quota s.salesreps s.doc_session_end t.salesreps;
                  expected = omega (arith, t.expected);
                  doctor = ground (arith, t.doctor);
                  closed = λ e. ground arith;
                };
                idle = λ f e. cc;
              },
              refl,
              ground arith,
            )
        | inr more ↦
            let eq : doctor_arrives s ≡ onward (record s { doc_free = true }) = ground arith in
            subst (Handled x s) (sym eq) (
              record {
                queue = t.queue;
                patients = t.patients;
                reporters = t.reporters;
                salesreps = t.salesreps;
                expected = omega (arith, t.expected);
                doctor = ground (arith, t.doctor);
                closed = t.closed;
              },
              refl,
              ground arith,
            )
      ]

pub arrives-Handled : (x : Event) (s : Session) → Taken x s → Handled x s (arrives s x)
unfolding arrives
arrives-Handled x s t = elim (Bool-cases (x.type == b'D')) [
  | inl d ↦ rw d (doctor-Handled x s t d)
  | inr d ↦ elim (Bool-cases (x.type == b'P')) [
    | inl p ↦ rw (d, p) (patient-Handled x s t d)
    | inr p ↦ elim (Bool-cases (x.type == b'R')) [
      | inl r ↦ rw (d, p, r) (reporter-Handled x s t d r)
      | inr r ↦ elim (Bool-cases (x.type == b'S')) [
        | inl sr ↦ rw (d, p, r, sr) (salesrep-Handled x s t d)
        | inr other ↦ rw (d, p, r, other) (none_of_these x s t d, refl, ground arith)
      ]
    ]
  ]
]
