-- ===== src/Clinic/EventQueue/Operations.antt =====
-- What `addevent`, `delevent` and `nextevent` do to the events in the queue.
use operating_systems_iitkgp.Base.{
  ℕ, zero, suc, ◌+◌, ◌-◌, ◌≤◌, ◌<◌, ◌≡◌, refl, ◌∙◌, inl, inr, List, none, some, arith, ◌==◌,
  if◌then◌else◌, length, get_elem?, set, length-set, get_elem?-set_self, Bool-cases, lt→ltb,
}
use operating_systems_iitkgp.Base.Rows.{sum_rows, sum_rows-suc, sum_rows-set, sum_rows-set_above}
use operating_systems_iitkgp.Clinic.Event.{Event, NotAfter, DueFirst, NotAfter-DueFirst}
use operating_systems_iitkgp.Clinic.EventQueue.{EventQueue, parent, addevent, delevent, nextevent}
use operating_systems_iitkgp.Clinic.EventQueue.Order.{at, at-set, get_elem?-at}
use operating_systems_iitkgp.Clinic.EventQueue.Up.{IsHeap, sift_up-last}
use operating_systems_iitkgp.Clinic.EventQueue.Down.{DownInv, sift_down-Sunk}

pub record IsValid (e : EventQueue) : Type 0 where
  pub room : e.n ≤ length e.q
  pub heap : IsHeap e.n e.q

-- The sum of a weight over the events in the queue: two queues hold the same events, as often, when
-- the sums of all weights agree.
abbrev pub weigh : (Event → ℕ) → EventQueue → ℕ
weigh w e = sum_rows w e.n e.q

pub weigh-append :
    (w : Event → ℕ) (n : ℕ) (q : List Event) (x : Event)
    → n < length q
    → sum_rows w (suc n) (set q n x) ≡ sum_rows w n q + w x
weigh-append w n q x h =
    omega (
      arith,
      sum_rows-suc w n (set q n x) (get_elem?-set_self q n x h),
      sum_rows-set_above w n q n x,
    )

weigh-remove :
    (w : Event → ℕ) (k : ℕ) (q : List Event)
    → k < length q
    → sum_rows w k (set q 0 (at q k)) + w (at q 0) ≡ sum_rows w (suc k) q
weigh-remove w zero q h = omega (arith, sum_rows-suc w 0 q (get_elem?-at q 0 h))
weigh-remove w (suc k) q h = omega (
  arith,
  sum_rows-suc w (suc k) q (get_elem?-at q (suc k) h),
  sum_rows-set w (suc k) q 0 (at q (suc k)) (omega arith) (get_elem?-at q 0 (omega arith)),
)

weigh-remove_last :
    (w : Event → ℕ) (n : ℕ) (q : List Event)
    → 0 < n
    → n ≤ length q
    → sum_rows w (n - 1) (set q 0 (at q (n - 1))) + w (at q 0) ≡ sum_rows w n q
weigh-remove_last w zero q h l = absurd (omega arith)
weigh-remove_last w (suc k) q h l =
    let one : suc k - 1 ≡ k = omega arith in rw one (weigh-remove w k q l)

-- While the array has room, `addevent` returns: the queue is a valid one in an array of the same
-- size, and holds the events that it held and the new one.
pub addevent_lem :
    (e : EventQueue) (x : Event)
    → IsValid e
    → e.n < length e.q
    → (e' : EventQueue) × (addevent e x ≡ some e')
      × IsValid e'
      × (e'.n ≡ e.n + 1)
      × (length e'.q ≡ length e.q)
      × ((w : Event → ℕ) → weigh w e' ≡ weigh w e + w x)
unfolding addevent
addevent_lem e x v room =
    let q0 : List Event = set e.q e.n x in
    let heap : IsHeap e.n q0 = λ c p l.
      ground (arith, at-set e.q e.n c x room, at-set e.q e.n (parent c) x room, v.heap c) in
    let s = sift_up-last e.n q0 (rw (length-set e.q e.n x) room) heap in
    (
      record { n = e.n + 1; q = s.array },
      rw (lt→ltb e.n (length e.q) room, s.eq) refl,
      record {
        room = ground (arith, s.size, length-set e.q e.n x);
        heap = λ c p l. s.heap c p (omega arith);
      },
      refl,
      s.size ∙ length-set e.q e.n x,
      λ w.
          let one : e.n + 1 ≡ suc e.n = omega arith in
          rw one (s.same w ∙ weigh-append w e.n e.q x room),
    )

-- When the array is full, `addevent` writes beyond it.
pub addevent_overflow : (e : EventQueue) (x : Event) → length e.q ≤ e.n → addevent e x ≡ none
unfolding addevent
addevent_overflow e x full = ground arith

root_first :
    (k n : ℕ) (q : List Event) → IsHeap n q → (i : ℕ) → i < k → i < n → NotAfter (at q 0) (at q i)
root_first zero n q h i f l = absurd (omega arith)
root_first (suc k) n q h i f l = elim (Bool-cases (i == 0)) [
  | inl top ↦ ground arith
  | inr below ↦ ground (arith, h i, root_first k n q h (parent i))
]

-- In a valid queue that is not empty `nextevent` yields an event that is due no later than any in
-- the queue, and `delevent` returns a valid queue, in an array of the same size, that holds the
-- other events.
pub delevent_lem :
    (e : EventQueue)
    → IsValid e
    → 0 < e.n
    → (x : Event) × (e' : EventQueue) × (nextevent e ≡ some x)
      × (delevent e ≡ some e')
      × IsValid e'
      × (e'.n + 1 ≡ e.n)
      × (length e'.q ≡ length e.q)
      × ((w : Event → ℕ) → weigh w e' + w x ≡ weigh w e)
      × ((i : ℕ) (y : Event) → i < e.n → get_elem? e.q i ≡ some y → DueFirst x y)
unfolding delevent nextevent
delevent_lem e v some_left =
    let last : Event = at e.q (e.n - 1) in
    let q0 : List Event = set e.q 0 last in
    let room = v.room in
    let at0 : (j : ℕ) → at q0 j ≡ (if 0 == j then last else at e.q j) =
      λ j. at-set e.q 0 j last (omega arith) in
    let d : DownInv 0 (e.n - 1) q0 0 = record {
      edges = λ c p l from ne. ground (arith, at0 c, at0 (parent c), v.heap c);
      bridged = λ c p l up from eq. absurd (omega arith);
    } in
    let s =
      sift_down-Sunk e.n 0 (e.n - 1) q0 0 (omega arith) (omega arith)
        (rw (length-set e.q 0 last) (omega arith)) d in
    (
      at e.q 0,
      record { n = e.n - 1; q = s.array },
      ground (arith, get_elem?-at e.q 0),
      rw (lt→ltb 0 e.n some_left, get_elem?-at e.q (e.n - 1) (omega arith), s.eq) refl,
      record {
        room = ground (arith, s.size, length-set e.q 0 last);
        heap = λ c p l. s.heap c p l (omega arith);
      },
      omega arith,
      s.size ∙ length-set e.q 0 last,
      λ w. omega (arith, s.same w, weigh-remove_last w e.n e.q),
      λ i y l here.
          (NotAfter-DueFirst (at e.q 0) y).0
            (ground (arith, get_elem?-at e.q i, root_first e.n e.n e.q v.heap i)),
    )
