-- ===== src/Clinic/EventQueue.antt =====
-- Assignment 6/event.c: the queue of events, a binary heap in an array of 128 entries. A read or a
-- write beyond the array is `none`, and so is a loop that the model's fuel does not see to its end.
pub mod Order
pub mod Up
pub mod Down
pub mod Operations
pub mod Initial
mod Tests
use operating_systems_iitkgp.Base.{
  ℕ, zero, suc, ◌+◌, ◌-◌, ◌*◌, ◌/◌, Bool, List, [], ◌∷◌, Option, none, some, ltb, leb, ◌==◌, ◌||◌,
  if◌then◌else◌, ◌>>=◌, length, get_elem?, set, replicate,
}
use operating_systems_iitkgp.Base.Int.{pos}
use operating_systems_iitkgp.Clinic.Event.{Event, goes_first}

-- `eventQ`. The array is as long as its allocation, and its first `n` entries are in use.
pub record EventQueue : Type 0 where
  pub n : ℕ
  pub q : List Event

abbrev pub capacity : ℕ
capacity = 128

unfoldable pub empty_q : EventQueue → Bool
empty_q e = e.n == 0

abbrev pub parent : ℕ → ℕ
parent i = (i - 1) / 2

-- `t = Q[i]; Q[i] = Q[j]; Q[j] = t;`
pub swap : List Event → ℕ → ℕ → Option (List Event)
swap q i j = do a ← get_elem? q i; b ← get_elem? q j; some (set (set q i b) j a)

-- The test `eventcmp(Q[i], Q[j]) < 0`.
pub in_order : List Event → ℕ → ℕ → Option Bool
in_order q i j = do a ← get_elem? q i; b ← get_elem? q j; some (goes_first a b)

-- The loop of `addevent`.
pub sift_up : ℕ → List Event → ℕ → Option (List Event)
sift_up zero q i = none
sift_up (suc fuel) q i =
    let rise = swap q i (parent i) >>= λ q'. sift_up fuel q' (parent i) in
    let step = in_order q (parent i) i >>= λ done. if done then some q else rise in
    if i == 0 then some q else step

-- `m = ((r == n) || (eventcmp(Q[l], Q[r]) < 0)) ? l : r`
pub child : ℕ → List Event → ℕ → Option ℕ
child n q i =
    let l = 2 * i + 1 in
    let r = 2 * i + 2 in
    let compared = in_order q l r >>= λ left. some (if left then l else r) in
    if r == n then some l else compared

-- The loop that `initEQ` and `delevent` share, on the first `n` entries.
pub sift_down : ℕ → ℕ → List Event → ℕ → Option (List Event)
sift_down zero n q i = none
sift_down (suc fuel) n q i =
    let step = child n q i >>= λ m. in_order q i m >>= λ done.
    if done then some q else (swap q i m >>= λ q'. sift_down fuel n q' m) in
    if leb n (2 * i + 1) then some q else step

pub addevent : EventQueue → Event → Option EventQueue
addevent e x =
    if ltb e.n (length e.q)
    then (sift_up (e.n + 1) (set e.q e.n x) e.n >>= λ q. some (record { n = e.n + 1; q = q }))
    else none

pub delevent : EventQueue → Option EventQueue
delevent e =
    let moved = do
      last ← get_elem? e.q (e.n - 1)
      let q = set e.q 0 last
      q' ← sift_down e.n (e.n - 1) q 0
      some (record { n = e.n - 1; q = q' })
    in if ltb 0 e.n then moved else some e

-- The event of type 'E' says that the queue is empty.
abbrev pub end_event : Event
end_event = record { type = b'E'; time = pos 0; duration = pos 0 }

pub nextevent : EventQueue → Option Event
nextevent e = if e.n == 0 then some end_event else get_elem? e.q 0

-- The loop of `initEQ` that fills the array, over what `fscanf` reads from one line after the
-- other. A file with no line of type 'E' is read for ever: `none`.
pub read_events : List Event → EventQueue → Option EventQueue
read_events [] e = none
read_events (x ∷ file) e =
    let more = read_events file (record { n = e.n + 1; q = set e.q e.n x }) in
    if x.type == b'E' then some e else if ltb e.n (length e.q) then more else none

-- `for (j = n / 2 - 1; j >= 0; --j)`
pub heapify : ℕ → ℕ → List Event → Option (List Event)
heapify zero n q = some q
heapify (suc j) n q = sift_down (n + 1) n q j >>= heapify j n

-- `blank` is what `malloc` leaves in the array.
pub init_eq : Event → List Event → Option EventQueue
init_eq blank file = do
  e ← read_events file (record { n = 0; q = replicate capacity blank })
  q ← heapify (e.n / 2) e.n e.q
  some (record e { q = q })
