-- ===== src/Clinic/EventQueue/Tests.antt =====
-- The theorems about Assignment 6/event.c at concrete inputs, and runs of its functions.
use operating_systems_iitkgp.Base.{
  ℕ, ◌+◌, ◌<◌, ◌≡◌, refl, [], ◌∷◌, ◌++◌, some, arith, length, get_elem?, total, ◌>>=◌,
}
use operating_systems_iitkgp.Base.Int.{pos, negsuc}
use operating_systems_iitkgp.Clinic.Event.{
  Event, DueFirst, eventcmp, goes_first, later_by, earlier_by, rank,
}
use operating_systems_iitkgp.Clinic.EventQueue.{
  EventQueue, capacity, swap, in_order, sift_up, sift_down, child, addevent, delevent, nextevent,
  init_eq,
}
use operating_systems_iitkgp.Clinic.EventQueue.Order.{at}
use operating_systems_iitkgp.Clinic.EventQueue.Operations.{
  IsValid, weigh, addevent_lem, delevent_lem,
}
use operating_systems_iitkgp.Clinic.EventQueue.Initial.{init_eq_lem}

abbrev patient : Event
patient = record { type = b'P'; time = negsuc 29; duration = pos 10 }

abbrev reporter : Event
reporter = record { type = b'R'; time = pos 5; duration = pos 7 }

abbrev salesrep : Event
salesrep = record { type = b'S'; time = pos 5; duration = pos 3 }

-- Two events, in an array of three.
abbrev sample : EventQueue
sample = record { n = 2; q = patient ∷ salesrep ∷ patient ∷ [] }

sample-IsValid : IsValid sample
unfolding at later_by earlier_by rank
sample-IsValid = record {
  room = omega arith;
  heap = λ c p l. let one : c ≡ 1 = omega arith in rw one (omega arith);
}

addevent_example :
    (e' : EventQueue) × (addevent sample reporter ≡ some e')
    × IsValid e'
    × (e'.n ≡ sample.n + 1)
    × (length e'.q ≡ length sample.q)
    × ((w : Event → ℕ) → weigh w e' ≡ weigh w sample + w reporter)
addevent_example = addevent_lem sample reporter sample-IsValid (omega arith)

delevent_example :
    (x : Event) × (e' : EventQueue) × (nextevent sample ≡ some x)
    × (delevent sample ≡ some e')
    × IsValid e'
    × (e'.n + 1 ≡ sample.n)
    × (length e'.q ≡ length sample.q)
    × ((w : Event → ℕ) → weigh w e' + w x ≡ weigh w sample)
    × ((i : ℕ) (y : Event) → i < sample.n → get_elem? sample.q i ≡ some y → DueFirst x y)
delevent_example = delevent_lem sample sample-IsValid (omega arith)

abbrev final : Event
final = record { type = b'E'; time = pos 0; duration = pos 0 }

init_eq_example :
    (e : EventQueue) × (init_eq final ((salesrep ∷ reporter ∷ patient ∷ []) ++ final ∷ []) ≡ some e)
    × IsValid e
    × (e.n ≡ length (salesrep ∷ reporter ∷ patient ∷ []))
    × (length e.q ≡ capacity)
    × ((w : Event → ℕ) → weigh w e ≡ total w (salesrep ∷ reporter ∷ patient ∷ []))
init_eq_example =
    init_eq_lem final (salesrep ∷ reporter ∷ patient ∷ []) [] final (refl, (refl, (refl, tt))) refl
      (omega arith)

-- The reporter is let in before the sales representative who came at the same time.
reporter_first : (addevent sample reporter >>= delevent >>= nextevent) ≡ some reporter
unfolding addevent sift_up in_order goes_first eventcmp swap delevent sift_down child nextevent
reporter_first = refl
