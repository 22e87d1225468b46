-- ===== src/Clinic/Session/Tests.antt =====
-- The theorems about the loop of Assignment 6/session.c at concrete inputs.
use operating_systems_iitkgp.Base.{
  ℕ, ◌≡◌, refl, false, [], ◌∷◌, ◌++◌, some, arith, ◌>>=◌, replicate,
}
use operating_systems_iitkgp.Base.Int.{pos, negsuc}
use operating_systems_iitkgp.Clinic.Event.{Event}
use operating_systems_iitkgp.Clinic.EventQueue.{init_eq}
use operating_systems_iitkgp.Clinic.Session.{Session, start, round, run}
use operating_systems_iitkgp.Clinic.Session.Invariant.{came, IsSound}
use operating_systems_iitkgp.Clinic.Session.Rounds.{Stepped, round-Stepped}
use operating_systems_iitkgp.Clinic.Session.Ending.{Over, session_ends, empty_line}

abbrev patient : Event
patient = record { type = b'P'; time = negsuc 29; duration = pos 10 }

abbrev reporter : Event
reporter = record { type = b'R'; time = pos 5; duration = pos 7 }

abbrev salesrep : Event
salesrep = record { type = b'S'; time = pos 5; duration = pos 3 }

abbrev final : Event
final = record { type = b'E'; time = pos 0; duration = pos 0 }

session_ends_example :
    (fuel : ℕ) × (t : Session) × ((init_eq final
          ((salesrep ∷ reporter ∷ patient ∷ []) ++ final ∷ [])
        >>= start final
        >>= run fuel)
      ≡ some t)
    × Over t
    × (came t ≡ (1, 1, 1))
session_ends_example =
    session_ends final (salesrep ∷ reporter ∷ patient ∷ []) [] final
      ((refl, refl), ((refl, refl), ((refl, refl), tt))) refl (omega arith) (omega arith)

-- No visitor came yet, and the event of the doctor is in the queue.
abbrev opening : Session
opening = record {
  patients = record { cnt = 0; wait = 0; curr = 0; events = replicate 25 final };
  reporters = record { cnt = 0; wait = 0; curr = 0; events = replicate 100 final };
  salesreps = record { cnt = 0; wait = 0; curr = 0; events = replicate 3 final };
  curr_time = pos 0;
  doc_free = false;
  doc_session_end = false;
  queue = record { n = 1; q = record { type = b'D'; time = pos 0; duration = pos 0 } ∷ final ∷ [] };
}

opening-IsSound : IsSound opening
opening-IsSound = record {
  balanced = record {
    queue = record { room = omega arith; heap = λ c p l. absurd (omega arith) };
    patients = empty_line 25 final;
    reporters = empty_line 100 final;
    salesreps = empty_line 3 final;
    expected = omega arith;
    doctor = refl;
    closed = λ c. cc;
  };
  idle = λ f. cc;
}

round-Stepped_example : Stepped opening (round opening)
round-Stepped_example = round-Stepped opening opening-IsSound (omega arith)
