-- ===== src/Clinic/EventQueue/Up.antt =====
-- The loop of `addevent`: a new entry rises until the heap is in order.
use operating_systems_iitkgp.Base.{
  ℕ, zero, suc, ◌+◌, ◌≤◌, ◌<◌, ◌≡◌, ◌≢◌, refl, ◌∙◌, inl, inr, false, List, Option, some, arith,
  ◌==◌, if◌then◌else◌, length, Bool-cases,
}
use operating_systems_iitkgp.Base.Rows.{sum_rows}
use operating_systems_iitkgp.Clinic.Event.{
  Event, goes_first, NotAfter, goes_first-NotAfter, not_first-NotAfter,
}
use operating_systems_iitkgp.Clinic.EventQueue.{parent, sift_up}
use operating_systems_iitkgp.Clinic.EventQueue.Order.{
  at, swapped, length-swapped, swap-swapped, in_order-at, at-swapped, sum_rows-swapped,
}

-- No entry is due before its parent.
abbrev pub IsHeap : ℕ → List Event → Type 0
IsHeap n q = (c : ℕ) → 0 < c → c < n → NotAfter (at q (parent c)) (at q c)

-- The loop ended with an array of the same length, whose first `n` entries are those of `q` in
-- another order (so say the sums of all weights), and form a heap.
pub record Sorted (n : ℕ) (q : List Event) (r : Option (List Event)) : Type 0 where
  pub array : List Event
  pub eq : r ≡ some array
  pub size : length array ≡ length q
  pub same : (w : Event → ℕ) → sum_rows w n array ≡ sum_rows w n q
  pub heap : IsHeap n array

-- Only the edge above `i` may be out of order.
record UpInv (n : ℕ) (q : List Event) (i : ℕ) : Type 0 where
  edges : (c : ℕ) → 0 < c → c < n → c ≢ i → NotAfter (at q (parent c)) (at q c)
  bridged : (c : ℕ) → 0 < c → c < n → 0 < i → parent c ≡ i → NotAfter (at q (parent i)) (at q c)

pub Sorted-trans :
    (n : ℕ) (q q' : List Event) (r : Option (List Event))
    → length q' ≡ length q
    → ((w : Event → ℕ) → sum_rows w n q' ≡ sum_rows w n q)
    → Sorted n q' r
    → Sorted n q r
Sorted-trans n q q' r size same s = record {
  array = s.array;
  eq = s.eq;
  size = s.size ∙ size;
  same = λ w. s.same w ∙ same w;
  heap = s.heap;
}

module _ (n : ℕ) (q : List Event) (i : ℕ) (v : UpInv n q i) (pos : 0 < i) (hi : i < n)
    (room : n ≤ length q) where
  moved :
      (c : ℕ)
      → at (swapped q i (parent i)) c
        ≡ (if parent i == c then at q i else if i == c then at q (parent i) else at q c)
  moved c = at-swapped q i (parent i) (omega arith) (omega arith) c

  swapped-UpInv :
      goes_first (at q (parent i)) (at q i) ≡ false → UpInv n (swapped q i (parent i)) (parent i)
  swapped-UpInv late =
      let below = not_first-NotAfter (at q (parent i)) (at q i) late in
      record {
        edges = λ c p l ne. ground (arith, moved c, moved (parent c), v.edges c, v.bridged c);
        bridged = λ c p l up e.
            ground (arith, moved c, moved (parent (parent i)), v.edges c, v.edges (parent i));
      }

pub unchanged : (n : ℕ) (q : List Event) → IsHeap n q → Sorted n q (some q)
unchanged n q h = record { array = q; eq = refl; size = refl; same = λ w. refl; heap = h }

up_done :
    (n : ℕ) (q : List Event) (i : ℕ)
    → UpInv n q i
    → NotAfter (at q (parent i)) (at q i)
    → IsHeap n q
up_done n q i v order c p l = ground (arith, v.edges c)

sift_up-Sorted :
    (fuel n : ℕ) (q : List Event) (i : ℕ)
    → i < fuel
    → i < n
    → n ≤ length q
    → UpInv n q i
    → Sorted n q (sift_up fuel q i)
unfolding sift_up
sift_up-Sorted zero n q i f h room v = absurd (omega arith)
sift_up-Sorted (suc fuel) n q i f h room v = elim (Bool-cases (i == 0)) [
  | inl top ↦ rw top (unchanged n q (λ c p l. v.edges c p l (ground arith)))
  | inr below ↦
      let pos : 0 < i = ground arith in
      let hi : i < length q = omega arith in
      let hp : parent i < length q = omega arith in
      elim (Bool-cases (goes_first (at q (parent i)) (at q i))) [
        | inl done ↦
            let order = goes_first-NotAfter (at q (parent i)) (at q i) done in
            rw (below, in_order-at q (parent i) i hp hi, done)
              (unchanged n q (up_done n q i v order))
        | inr late ↦
            rw (below, in_order-at q (parent i) i hp hi, late, swap-swapped q i (parent i) hi hp)
              (Sorted-trans n q (swapped q i (parent i)) _ (length-swapped q i (parent i))
                (λ w. sum_rows-swapped q i (parent i) hi hp w n h (omega arith))
                (sift_up-Sorted fuel n (swapped q i (parent i)) (parent i) (omega arith)
                  (omega arith) (rw (length-swapped q i (parent i)) room)
                  (swapped-UpInv n q i v pos h room late)))
      ]
]

-- The entry in the last place of a heap rises until the heap is in order.
pub sift_up-last :
    (n : ℕ) (q : List Event)
    → suc n ≤ length q
    → IsHeap n q
    → Sorted (suc n) q (sift_up (n + 1) q n)
sift_up-last n q room heap =
    sift_up-Sorted (n + 1) (suc n) q n (omega arith) (omega arith) room (record {
      edges = λ c p l ne. heap c p (omega arith);
      bridged = λ c p l up e. absurd (omega arith);
    })
