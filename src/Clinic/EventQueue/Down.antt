-- ===== src/Clinic/EventQueue/Down.antt =====
-- The loop that `delevent` and `initEQ` share: an entry sinks until the heap below it is in order.
use operating_systems_iitkgp.Base.{
  ℕ, zero, suc, ◌+◌, ◌-◌, ◌*◌, ◌≤◌, ◌<◌, ◌≡◌, ◌≢◌, refl, ◌∙◌, ◌⊎◌, inl, inr, List, Option, some,
  arith, leb, ◌==◌, if◌then◌else◌, length, Bool-cases,
}
use operating_systems_iitkgp.Base.Rows.{sum_rows}
use operating_systems_iitkgp.Clinic.Event.{
  Event, goes_first, NotAfter, goes_first-NotAfter, not_first-NotAfter,
}
use operating_systems_iitkgp.Clinic.EventQueue.{parent, child, sift_down}
use operating_systems_iitkgp.Clinic.EventQueue.Order.{
  at, swapped, length-swapped, swap-swapped, in_order-at, at-swapped, sum_rows-swapped,
}

-- The entries from `lo` on are not due before their parents.
abbrev pub IsHeapFrom : ℕ → ℕ → List Event → Type 0
IsHeapFrom lo n q = (c : ℕ) → 0 < c → c < n → lo ≤ parent c → NotAfter (at q (parent c)) (at q c)

pub record Sunk (lo n : ℕ) (q : List Event) (r : Option (List Event)) : Type 0 where
  pub array : List Event
  pub eq : r ≡ some array
  pub size : length array ≡ length q
  pub same : (w : Event → ℕ) → sum_rows w n array ≡ sum_rows w n q
  pub heap : IsHeapFrom lo n array

-- Only the edges below `i` may be out of order.
pub record DownInv (lo n : ℕ) (q : List Event) (i : ℕ) : Type 0 where
  pub edges :
      (c : ℕ) → 0 < c → c < n → lo ≤ parent c → parent c ≢ i → NotAfter (at q (parent c)) (at q c)
  pub bridged :
      (c : ℕ)
      → 0 < c
      → c < n
      → 0 < i
      → lo ≤ parent i
      → parent c ≡ i
      → NotAfter (at q (parent i)) (at q c)

-- `m` is the child of `i` that is due first.
record FirstChild (n : ℕ) (q : List Event) (i m : ℕ) : Type 0 where
  inside : m < n
  below : (m ≡ 2 * i + 1) ⊎ (m ≡ 2 * i + 2)
  first : (c : ℕ) → 0 < c → c < n → parent c ≡ i → NotAfter (at q m) (at q c)

children : (c i : ℕ) → 0 < c → parent c ≡ i → (c ≡ 2 * i + 1) ⊎ (c ≡ 2 * i + 2)
children c i p e = grind arith

child-FirstChild :
    (n : ℕ) (q : List Event) (i : ℕ)
    → 2 * i + 1 < n
    → n ≤ length q
    → (m : ℕ) × (child n q i ≡ some m) × FirstChild n q i m
unfolding child
child-FirstChild n q i h room = elim (Bool-cases (2 * i + 2 == n)) [
  | inl last ↦ (
    2 * i + 1,
    rw last refl,
    record { inside = h; below = inl refl; first = λ c p l e. ground (arith, children c i p e) },
  )
  | inr both ↦
      let hl : 2 * i + 1 < length q = omega arith in
      let hr : 2 * i + 2 < length q = ground arith in
      let compared = in_order-at q (2 * i + 1) (2 * i + 2) hl hr in
      elim (Bool-cases (goes_first (at q (2 * i + 1)) (at q (2 * i + 2)))) [
        | inl left ↦
            let order = goes_first-NotAfter _ _ left in
            (
              2 * i + 1,
              rw (both, compared, left) refl,
              record {
                inside = h;
                below = inl refl;
                first = λ c p l e. ground (arith, children c i p e);
              },
            )
        | inr right ↦
            let order = not_first-NotAfter _ _ right in
            (
              2 * i + 2,
              rw (both, compared, right) refl,
              record {
                inside = ground arith;
                below = inr refl;
                first = λ c p l e. ground (arith, children c i p e);
              },
            )
      ]
]

module _ (lo n : ℕ) (q : List Event) (i m : ℕ) (v : DownInv lo n q i) (f : FirstChild n q i m)
    (low : lo ≤ i) (room : n ≤ length q) where
  up : parent m ≡ i
  up = ground (arith, f.below)

  moved :
      (c : ℕ)
      → at (swapped q i m) c ≡ (if m == c then at q i else if i == c then at q m else at q c)
  moved c = at-swapped q i m (omega (arith, f.inside, f.below)) (omega (arith, f.inside)) c

  swapped-DownInv : NotAfter (at q m) (at q i) → DownInv lo n (swapped q i m) m
  swapped-DownInv late = record {
    edges = λ c p l from ne.
        ground (arith, up, f.below, moved c, moved (parent c), v.edges c, v.bridged m, f.first c);
    bridged = λ c p l pos from e. ground (arith, up, f.below, moved c, moved (parent m), v.edges c);
  }

  settled : NotAfter (at q i) (at q m) → IsHeapFrom lo n q
  settled order c p l from = ground (arith, v.edges c, f.first c)

Sunk-trans :
    (lo n : ℕ) (q q' : List Event) (r : Option (List Event))
    → length q' ≡ length q
    → ((w : Event → ℕ) → sum_rows w n q' ≡ sum_rows w n q)
    → Sunk lo n q' r
    → Sunk lo n q r
Sunk-trans lo n q q' r size same s = record {
  array = s.array;
  eq = s.eq;
  size = s.size ∙ size;
  same = λ w. s.same w ∙ same w;
  heap = s.heap;
}

kept : (lo n : ℕ) (q : List Event) → IsHeapFrom lo n q → Sunk lo n q (some q)
kept lo n q h = record { array = q; eq = refl; size = refl; same = λ w. refl; heap = h }

pub sift_down-Sunk :
    (fuel lo n : ℕ) (q : List Event) (i : ℕ)
    → n - i < fuel
    → lo ≤ i
    → n ≤ length q
    → DownInv lo n q i
    → Sunk lo n q (sift_down fuel n q i)
unfolding sift_down
sift_down-Sunk zero lo n q i f low room v = absurd (omega arith)
sift_down-Sunk (suc fuel) lo n q i f low room v = elim (Bool-cases (leb n (2 * i + 1))) [
  | inl leaf ↦
      rw leaf
        (kept lo n q (λ c p l from. v.edges c p l from (λ e. ground (arith, children c i p e))))
  | inr inner ↦
      let (m, eq, first) = child-FirstChild n q i (ground arith) room in
      let hi : i < length q = omega (arith, first.inside, first.below) in
      let hm : m < length q = omega (arith, first.inside) in
      elim (Bool-cases (goes_first (at q i) (at q m))) [
        | inl done ↦
            rw (inner, eq, in_order-at q i m hi hm, done)
              (kept lo n q (settled lo n q i m v first low room (goes_first-NotAfter _ _ done)))
        | inr late ↦
            rw (inner, eq, in_order-at q i m hi hm, late, swap-swapped q i m hi hm)
              (Sunk-trans lo n q (swapped q i m) _ (length-swapped q i m)
                (λ w.
                  sum_rows-swapped q i m hi hm w n (omega (arith, first.inside, first.below))
                    first.inside)
                (sift_down-Sunk fuel lo n (swapped q i m) m
                  (omega (arith, first.inside, first.below)) (omega (arith, first.below))
                  (rw (length-swapped q i m) room)
                  (swapped-DownInv lo n q i m v first low room (not_first-NotAfter _ _ late))))
      ]
]
