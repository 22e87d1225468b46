-- ===== src/Clinic/EventQueue/Order.antt =====
-- The order of the heap, entries of the array by index, and what a swap does to them.
use operating_systems_iitkgp.Base.{
  ℕ, zero, suc, ◌<◌, ◌≡◌, refl, ap, ◌∙◌, List, [], ◌∷◌, some, arith, ◌==◌, if◌then◌else◌, length,
  get_elem?, set, length-set,
}
use operating_systems_iitkgp.Base.Rows.{sum_rows, sum_rows-set}
use operating_systems_iitkgp.Clinic.Event.{Event, goes_first}
use operating_systems_iitkgp.Clinic.EventQueue.{end_event, swap, in_order}

-- An entry of the array; beyond the array it is `end_event`.
unfoldable pub at : List Event → ℕ → Event
at [] i = end_event
at (x ∷ q) zero = x
at (x ∷ q) (suc i) = at q i

pub get_elem?-at : (q : List Event) (i : ℕ) → i < length q → get_elem? q i ≡ some (at q i)
unfolding at
get_elem?-at [] i h = absurd (omega arith)
get_elem?-at (x ∷ q) zero h = refl
get_elem?-at (x ∷ q) (suc i) h = get_elem?-at q i (omega arith)

pub at-set :
    (q : List Event) (i j : ℕ) (v : Event)
    → i < length q
    → at (set q i v) j ≡ (if i == j then v else at q j)
unfolding at
at-set [] i j v h = absurd (omega arith)
at-set (x ∷ q) zero zero v h = refl
at-set (x ∷ q) zero (suc j) v h = ground arith
at-set (x ∷ q) (suc i) zero v h = ground arith
at-set (x ∷ q) (suc i) (suc j) v h = ground (arith, at-set q i j v)

pub swapped : List Event → ℕ → ℕ → List Event
swapped q i j = set (set q i (at q j)) j (at q i)

pub length-swapped : (q : List Event) (i j : ℕ) → length (swapped q i j) ≡ length q
unfolding swapped
length-swapped q i j = length-set (set q i (at q j)) j (at q i) ∙ length-set q i (at q j)

module _ (q : List Event) (i j : ℕ) (hi : i < length q) (hj : j < length q) where
  pub swap-swapped : swap q i j ≡ some (swapped q i j)
  unfolding swap swapped
  swap-swapped = rw (get_elem?-at q i hi, get_elem?-at q j hj) refl

  pub in_order-at : in_order q i j ≡ some (goes_first (at q i) (at q j))
  unfolding in_order
  in_order-at = rw (get_elem?-at q i hi, get_elem?-at q j hj) refl

  pub at-swapped :
      (c : ℕ)
      → at (swapped q i j) c ≡ (if j == c then at q i else if i == c then at q j else at q c)
  unfolding swapped
  at-swapped c =
      at-set (set q i (at q j)) j c (at q i) (rw length-set hj)
      ∙ ap (λ x. if j == c then at q i else x) (at-set q i c (at q j) hi)

  -- A swap within the first `n` entries changes no sum over them.
  pub sum_rows-swapped :
      (w : Event → ℕ) (n : ℕ) → i < n → j < n → sum_rows w n (swapped q i j) ≡ sum_rows w n q
  unfolding swapped
  sum_rows-swapped w n li lj =
      let first = sum_rows-set w n q i (at q j) li (get_elem?-at q i hi) in
      let second =
        sum_rows-set w n (set q i (at q j)) j (at q i) lj (get_elem?-at _ j (rw length-set hj)) in
      ground (arith, first, second, at-set q i j (at q j) hi)
