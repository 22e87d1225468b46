-- ===== src/Clinic/Session/Ending.antt =====
-- The whole loop of `main`, from the file on: it ends, and nobody who was admitted is left.
use native.Mathlib.Numerals.{unary_clauses}
use operating_systems_iitkgp.Base.{
  ◌∙◌, ℕ, zero, suc, ◌+◌, ◌≤◌, ◌<◌, ◌≡◌, refl, sym, ◌⊎◌, inl, inr, Bool, true, false, List, [], ◌∷◌,
  ◌++◌, some, arith, dec_le, min, ◌==◌, ◌>>=◌, length, replicate, length-replicate, Bool-cases,
  total, All, All-map,
}
use operating_systems_iitkgp.Base.Int.{pos, negsuc}
use operating_systems_iitkgp.Clinic.Event.{Event}
use operating_systems_iitkgp.Clinic.EventQueue.{EventQueue, capacity, empty_q, init_eq}
use operating_systems_iitkgp.Clinic.EventQueue.Operations.{IsValid, weigh, addevent_lem}
use operating_systems_iitkgp.Clinic.EventQueue.Initial.{init_eq_lem}
use operating_systems_iitkgp.Clinic.Session.{
  Line, Session, patient_quota, salesrep_quota, doctor_event, run, start,
}
use operating_systems_iitkgp.Clinic.Session.Invariant.{
  is_doctor, is_patient, is_reporter, is_salesrep, came, tally, reporter_slots, InLine, IsSound,
  work,
}
use operating_systems_iitkgp.Clinic.Session.Rounds.{round-Stepped}

-- The end of the loop.
pub record Over (s : Session) : Type 0 where
  pub sound : IsSound s
  pub no_events : s.queue.n ≡ 0
  pub none_waits : (s.patients.wait ≡ 0) × (s.reporters.wait ≡ 0) × (s.salesreps.wait ≡ 0)
  pub patients : s.patients.curr ≡ min s.patients.cnt patient_quota
  pub salesreps : s.salesreps.curr ≡ min s.salesreps.cnt salesrep_quota
  pub reporters : s.doc_session_end ≡ false → s.reporters.curr ≡ s.reporters.cnt

in_quota :
    (quota : ℕ) (ended : Bool) (l : Line)
    → InLine quota ended l
    → l.wait ≡ 0
    → (ended ≡ false) ⊎ (l.curr ≡ quota)
    → l.curr ≡ min l.cnt quota
in_quota quota ended l v none_left (inl lasts) = elim (dec_le l.cnt quota) [
  | yes few ↦ omega (arith, v.below lasts few)
  | no many ↦ omega (arith, v.above lasts (omega arith))
]
in_quota quota ended l v none_left (inr all_in) = omega (arith, v.came)

end_of_line :
    (s : Session)
    → IsSound s
    → s.queue.n ≡ 0
    → (s.patients.wait ≡ 0)
      × (s.reporters.wait ≡ 0)
      × (s.salesreps.wait ≡ 0)
      × ((s.doc_session_end ≡ false) ⊎ (s.patients.curr ≡ patient_quota))
      × ((s.doc_session_end ≡ false) ⊎ (s.salesreps.curr ≡ salesrep_quota))
end_of_line s v none_left =
    let b = v.balanced in
    let no_doctor : weigh is_doctor s.queue ≡ 0 = rw none_left refl in
    elim (Bool-cases s.doc_session_end) [
      | inl ended ↦
          let c = b.closed ended in
          (
            omega (arith, c.0, b.patients.fits),
            c.2,
            omega (arith, c.1, b.salesreps.fits),
            inr c.0,
            inr c.1,
          )
      | inr lasts ↦
          let free : s.doc_free ≡ true = ground (arith, b.doctor, no_doctor) in
          let i = v.idle free lasts in (i.0, i.1, i.2, inl lasts, inl lasts)
    ]

over : (s : Session) → IsSound s → s.queue.n ≡ 0 → Over s
over s v none_left =
    let b = v.balanced in
    let (p, r, sr, patients_in, salesreps_in) = end_of_line s v none_left in
    record {
      sound = v;
      no_events = none_left;
      none_waits = (p, r, sr);
      patients = in_quota patient_quota s.doc_session_end s.patients b.patients p patients_in;
      salesreps = in_quota salesrep_quota s.doc_session_end s.salesreps b.salesreps sr salesreps_in;
      reporters = λ lasts. omega (arith, r, b.reporters.below lasts, b.expected);
    }

-- From a sound state the loop ends, with as many rounds as there is work at most.
pub run-Over :
    (fuel : ℕ) (s : Session)
    → IsSound s
    → work s < fuel
    → (t : Session) × (run fuel s ≡ some t) × Over t × (tally t ≡ tally s)
unfolding run empty_q
run-Over zero s v h = absurd (omega arith)
run-Over (suc fuel) s v h = elim (Bool-cases (s.queue.n == 0)) [
  | inl done ↦ (s, rw done refl, over s v (ground arith), refl)
  | inr more ↦
      let r = round-Stepped s v (ground arith) in
      let (t, eq, o, counts) = run-Over fuel r.after r.sound (omega (arith, r.less)) in
      (t, rw (more, r.eq) eq, o, counts ∙ r.counts)
]

abbrev pub IsArrival : Event → Type 0
IsArrival x = ((x.type == b'E') ≡ false) × ((x.type == b'D') ≡ false)

pub empty_line :
    (k : ℕ) (blank : Event)
    → InLine k false (record { cnt = 0; wait = 0; curr = 0; events = replicate k blank })
empty_line k blank = record {
  size = length-replicate k blank;
  fits = omega arith;
  came = omega arith;
  below = λ e h. omega arith;
  above = λ e h. omega arith;
}

start-IsSound :
    (blank : Event) (e : EventQueue)
    → IsValid e
    → e.n < length e.q
    → weigh is_doctor e ≡ 0
    → weigh is_reporter e ≤ reporter_slots
    → (s : Session) × (start blank e ≡ some s)
      × IsSound s
      × (tally s ≡ (weigh is_patient e, weigh is_reporter e, weigh is_salesrep e))
unfolding start
start-IsSound blank e v room no_doctor few =
    let (q, eq, valid, count, size, same) = addevent_lem e (doctor_event (pos 0)) v room in
    (
      record {
        patients = record { cnt = 0; wait = 0; curr = 0; events = replicate 25 blank };
        reporters = record { cnt = 0; wait = 0; curr = 0; events = replicate 100 blank };
        salesreps = record { cnt = 0; wait = 0; curr = 0; events = replicate 3 blank };
        curr_time = negsuc 999999999;
        doc_free = false;
        doc_session_end = false;
        queue = q;
      },
      rw eq refl,
      record {
        balanced = record {
          queue = valid;
          patients = empty_line 25 blank;
          reporters = empty_line 100 blank;
          salesreps = empty_line 3 blank;
          expected = ground (arith, same is_reporter);
          doctor = ground (arith, same is_doctor);
          closed = λ c. cc;
        };
        idle = λ f. cc;
      },
      let p : 0 + weigh is_patient q ≡ weigh is_patient e = omega (arith, same is_patient) in
          let r : 0 + weigh is_reporter q ≡ weigh is_reporter e = omega (arith, same is_reporter) in
          let v : 0 + weigh is_salesrep q ≡ weigh is_salesrep e = omega (arith, same is_salesrep) in
          rw (p, r, v) refl,
    )

total-is_doctor : (file : List Event) → All IsArrival file → total is_doctor file ≡ 0
total-is_doctor [] a = refl
total-is_doctor (x ∷ file) a = ground (arith, total-is_doctor file a.1)

-- The events of each kind in a file.
abbrev pub arrivals : List Event → ℕ × ℕ × ℕ
arrivals file = (total is_patient file, total is_reporter file, total is_salesrep file)

came-Over : (s : Session) → s.queue.n ≡ 0 → tally s ≡ came s
came-Over s none_left =
    let p : weigh is_patient s.queue ≡ 0 = rw none_left refl in
    let r : weigh is_reporter s.queue ≡ 0 = rw none_left refl in
    let v : weigh is_salesrep s.queue ≡ 0 = rw none_left refl in simp (p, r, v, unary_clauses) refl

-- Let the file hold at most 127 arrivals, at most 100 of them of reporters, and a line of type 'E'.
-- Then the program reads it into the queue, adds the doctor and runs the loop to its end, without a
-- read or a write beyond an array. In the end no event is left and no visitor waits, and of each kind
-- of visitor as many came as the file has arrivals. The number of patients let in is 25, or the number
-- in the file if it is smaller; that of sales representatives is 3, or the number in the file if it is
-- smaller; and all reporters have been let in, unless the doctor left.
pub session_ends :
    (blank : Event) (file rest : List Event) (last : Event)
    → All IsArrival file
    → (last.type == b'E') ≡ true
    → length file < capacity
    → total is_reporter file ≤ reporter_slots
    → (fuel : ℕ) × (t : Session) × ((init_eq blank (file ++ last ∷ rest)
          >>= start blank
          >>= run fuel)
        ≡ some t)
      × Over t
      × (came t ≡ arrivals file)
session_ends blank file rest last a end few reporters =
    let (e, read, valid, count, size, same) =
      init_eq_lem blank file rest last (All-map IsArrival _ (λ x h. h.0) file a) end
        (omega arith) in
    let (s, started, sound, queued) =
      start-IsSound blank e valid (omega arith)
        (omega (arith, same is_doctor, total-is_doctor file a)) (omega (arith, same is_reporter)) in
    let (t, ran, o, counts) = run-Over (work s + 1) s sound (omega arith) in
    let read_all : ◌≡◌ {A = ℕ × ℕ × ℕ}
        (weigh is_patient e, weigh is_reporter e, weigh is_salesrep e) (arrivals file) =
      rw (same is_patient, same is_reporter, same is_salesrep) refl in
    (
      work s + 1,
      t,
      rw (read, started) ran,
      o,
      sym (came-Over t o.no_events) ∙ counts ∙ queued ∙ read_all,
    )
