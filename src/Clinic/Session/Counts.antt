-- ===== src/Clinic/Session/Counts.antt =====
-- The first part of a round: each visitor is counted.
use native.Mathlib.Numerals.{unary_clauses}
use operating_systems_iitkgp.Base.{
  ◌+◌, ◌≡◌, refl, inl, inr, true, false, arith, ltb, ◌-◌, ◌&&◌, ◌==◌, length, Bool-cases,
}
use operating_systems_iitkgp.Clinic.Event.{Event}
use operating_systems_iitkgp.Clinic.Session.{
  Session, patient_quota, salesrep_quota, doctor_arrives, patient_arrives, reporter_arrives,
  salesrep_arrives, arrives,
}
use operating_systems_iitkgp.Clinic.Session.Invariant.{
  is_patient, is_reporter, is_salesrep, came, Counted,
}

-- No visitor comes.
none_came :
    (x : Event) (s : Session)
    → (x.type == b'P') ≡ false
    → (x.type == b'R') ≡ false
    → (x.type == b'S') ≡ false
    → came s ≡ (
      s.patients.cnt + is_patient x,
      s.reporters.cnt + is_reporter x,
      s.salesreps.cnt + is_salesrep x,
    )
none_came x s p r v = rw (p, r, v) (simp unary_clauses refl)

patient-Counted :
    (x : Event) (s : Session) → (x.type == b'P') ≡ true → Counted x s (patient_arrives s x)
unfolding patient_arrives
patient-Counted x s p =
    let r : (x.type == b'R') ≡ false = ground arith in
    let v : (x.type == b'S') ≡ false = ground arith in
    elim (Bool-cases s.doc_session_end) [
      | inl ended ↦ rw (ended, p, r, v) (simp unary_clauses refl)
      | inr lasts ↦ elim (Bool-cases (ltb patient_quota (s.patients.cnt + 1))) [
        | inl many ↦ rw (lasts, many, p, r, v) (simp unary_clauses refl)
        | inr few ↦ elim (Bool-cases (ltb (s.patients.cnt + 1 - 1) (length s.patients.events))) [
          | inl room ↦ rw (lasts, few, room, p, r, v) (simp unary_clauses refl)
          | inr full ↦ rw (lasts, few, full) tt
        ]
      ]
    ]

salesrep-Counted :
    (x : Event) (s : Session) → (x.type == b'S') ≡ true → Counted x s (salesrep_arrives s x)
unfolding salesrep_arrives
salesrep-Counted x s v =
    let r : (x.type == b'R') ≡ false = ground arith in
    let p : (x.type == b'P') ≡ false = ground arith in
    elim (Bool-cases s.doc_session_end) [
      | inl ended ↦ rw (ended, p, r, v) (simp unary_clauses refl)
      | inr lasts ↦ elim (Bool-cases (ltb salesrep_quota (s.salesreps.cnt + 1))) [
        | inl many ↦ rw (lasts, many, p, r, v) (simp unary_clauses refl)
        | inr few ↦ elim (Bool-cases (ltb (s.salesreps.cnt + 1 - 1) (length s.salesreps.events))) [
          | inl room ↦ rw (lasts, few, room, p, r, v) (simp unary_clauses refl)
          | inr full ↦ rw (lasts, few, full) tt
        ]
      ]
    ]

reporter-Counted :
    (x : Event) (s : Session) → (x.type == b'R') ≡ true → Counted x s (reporter_arrives s x)
unfolding reporter_arrives
reporter-Counted x s r =
    let v : (x.type == b'S') ≡ false = ground arith in
    let p : (x.type == b'P') ≡ false = ground arith in
    elim (Bool-cases s.doc_session_end) [
      | inl ended ↦ rw (ended, p, r, v) (simp unary_clauses refl)
      | inr lasts ↦ elim (Bool-cases (ltb (s.reporters.cnt + 1 - 1) (length s.reporters.events))) [
        | inl room ↦ rw (lasts, room, p, r, v) (simp unary_clauses refl)
        | inr full ↦ rw (lasts, full) tt
      ]
    ]

doctor-Counted :
    (x : Event) (s : Session) → (x.type == b'D') ≡ true → Counted x s (doctor_arrives s)
unfolding doctor_arrives
doctor-Counted x s d =
    let p : (x.type == b'P') ≡ false = ground arith in
    let r : (x.type == b'R') ≡ false = ground arith in
    let v : (x.type == b'S') ≡ false = ground arith in
    elim (Bool-cases (
      s.patients.curr == patient_quota
      && s.salesreps.curr == salesrep_quota
      && s.reporters.wait == 0)) [
        | inl over ↦ rw (over, p, r, v) (simp unary_clauses refl)
        | inr more ↦ rw (more, p, r, v) (simp unary_clauses refl)
      ]

pub arrives-Counted : (x : Event) (s : Session) → Counted x s (arrives s x)
unfolding arrives
arrives-Counted x s = elim (Bool-cases (x.type == b'D')) [
  | inl d ↦ rw d (doctor-Counted x s d)
  | inr d ↦ elim (Bool-cases (x.type == b'P')) [
    | inl p ↦ rw (d, p) (patient-Counted x s p)
    | inr p ↦ elim (Bool-cases (x.type == b'R')) [
      | inl r ↦ rw (d, p, r) (reporter-Counted x s r)
      | inr r ↦ elim (Bool-cases (x.type == b'S')) [
        | inl v ↦ rw (d, p, r, v) (salesrep-Counted x s v)
        | inr v ↦ rw (d, p, r, v) (none_came x s p r v)
      ]
    ]
  ]
]
