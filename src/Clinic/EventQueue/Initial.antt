-- ===== src/Clinic/EventQueue/Initial.antt =====
-- `initEQ`: the events of the file, made into a heap.
use operating_systems_iitkgp.Base.{
  ℕ, zero, suc, ◌+◌, ◌/◌, ◌≤◌, ◌≡◌, refl, ap, ◌∙◌, true, false, List, [], ◌∷◌, ◌++◌, some, arith,
  ltb, ◌==◌, length, replicate, set, length-set, length-replicate, All, total,
}
use operating_systems_iitkgp.Base.Rows.{sum_rows}
use operating_systems_iitkgp.Clinic.Event.{Event}
use operating_systems_iitkgp.Clinic.EventQueue.{EventQueue, capacity, heapify, read_events, init_eq}
use operating_systems_iitkgp.Clinic.EventQueue.Down.{Sunk, IsHeapFrom, sift_down-Sunk}
use operating_systems_iitkgp.Clinic.EventQueue.Operations.{IsValid, weigh, weigh-append}

heapify-Sunk :
    (j n : ℕ) (q : List Event)
    → j ≤ n
    → n ≤ length q
    → IsHeapFrom j n q
    → Sunk 0 n q (heapify j n q)
unfolding heapify
heapify-Sunk zero n q h room heap = record {
  array = q;
  eq = refl;
  size = refl;
  same = λ w. refl;
  heap = heap;
}
heapify-Sunk (suc j) n q h room heap =
    let s = sift_down-Sunk (n + 1) j n q j (omega arith) (omega arith) room (record {
      edges = λ c p l from ne. heap c p l (omega arith);
      bridged = λ c p l up from e. absurd (omega arith);
    }) in
    let t = heapify-Sunk j n s.array (omega arith) (omega (arith, s.size)) s.heap in
    rw s.eq (record {
      array = t.array;
      eq = t.eq;
      size = t.size ∙ s.size;
      same = λ w. t.same w ∙ s.same w;
      heap = t.heap;
    })

-- The lines of the file, up to one of type 'E'.
abbrev IsArrival : Event → Type 0
IsArrival x = (x.type == b'E') ≡ false

read_events_lem :
    (file rest : List Event) (last : Event) (e : EventQueue)
    → All IsArrival file
    → (last.type == b'E') ≡ true
    → e.n + length file ≤ length e.q
    → (e' : EventQueue) × (read_events (file ++ last ∷ rest) e ≡ some e')
      × (e'.n ≡ e.n + length file)
      × (length e'.q ≡ length e.q)
      × ((w : Event → ℕ) → weigh w e' ≡ weigh w e + total w file)
unfolding read_events
read_events_lem [] rest last e a end room = (e, rw end refl, omega arith, refl, λ w. omega arith)
read_events_lem (x ∷ file) rest last e a end room =
    let e0 : EventQueue = record { n = e.n + 1; q = set e.q e.n x } in
    let (e', eq, count, size, same) =
      read_events_lem file rest last e0 a.1 end (omega (arith, length-set {0} e.q e.n x)) in
    let fits : ltb e.n (length e.q) ≡ true = ground arith in
    (
      e',
      rw (a.0, fits) eq,
      omega (arith, count),
      size ∙ length-set e.q e.n x,
      λ w.
          let one : e.n + 1 ≡ suc e.n = omega arith in
          omega
            (arith, same w, weigh-append w e.n e.q x, ap (λ k. sum_rows w k (set e.q e.n x)) one),
    )

-- For a file of at most 128 events and a line of type 'E', `initEQ` returns a valid queue in an
-- array of 128 entries, which holds the events of the file, as often as they stand there.
pub init_eq_lem :
    (blank : Event) (file rest : List Event) (last : Event)
    → All IsArrival file
    → (last.type == b'E') ≡ true
    → length file ≤ capacity
    → (e : EventQueue) × (init_eq blank (file ++ last ∷ rest) ≡ some e)
      × IsValid e
      × (e.n ≡ length file)
      × (length e.q ≡ capacity)
      × ((w : Event → ℕ) → weigh w e ≡ total w file)
unfolding init_eq
init_eq_lem blank file rest last a end few =
    let (e, eq, count, size, same) =
      read_events_lem file rest last (record { n = 0; q = replicate capacity blank }) a end
        (omega (arith, length-replicate {0} capacity blank)) in
    let s =
      heapify-Sunk (e.n / 2) e.n e.q (omega arith)
        (omega (arith, size, count, length-replicate {0} capacity blank))
        (λ c p l from. absurd (omega arith)) in
    (
      record { n = e.n; q = s.array },
      rw (eq, s.eq) refl,
      record {
        room = omega (arith, s.size, size, count, length-replicate {0} capacity blank);
        heap = λ c p l. s.heap c p l (omega arith);
      },
      omega (arith, count),
      s.size ∙ size,
      λ w. s.same w ∙ omega (arith, same w),
    )
