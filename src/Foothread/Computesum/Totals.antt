-- ===== src/Foothread/Computesum/Totals.antt =====
-- What computesum.c prints.
use mathlib.Core.Option.{some-injective}
use operating_systems_iitkgp.Base.{
  ℕ, zero, suc, ◌≤◌, ◌<◌, ◌≡◌, ◌≢◌, refl, sym, ap, subst, ◌∙◌, inl, inr, true, false, List, none,
  some, arith, ◌==◌, get_elem?, get_elem?-unmap, total, total-zero, total-part, total-one,
  total-cong, total-map, Bool-cases, same_step,
}
use operating_systems_iitkgp.Foothread.Computesum.{
  Fixed, Place, arrives, waits_children, computes, adds, notifies, waits_parent, exited, Node, Main,
  before, waits, printed, Tree, main_at, run_main, start_tree, Reach, start, threads, mains,
}
use operating_systems_iitkgp.Foothread.Computesum.Weights.{
  entered, passed, computed, added, arrived, arrival, held, given, leaf_value, finish, main_arrived,
  Shape, fixed_of,
}
use operating_systems_iitkgp.Foothread.Computesum.Local.{fixed_at, root_unique}
use operating_systems_iitkgp.Foothread.Computesum.Steps.{Kept}
use operating_systems_iitkgp.Foothread.Computesum.Parents.{arrived_passed}
use operating_systems_iitkgp.Foothread.Computesum.Threads.{compute_sum-Kept}

-- No thread has started.
abbrev pub IsFresh : List Node → Type 0
IsFresh nodes =
    (i : ℕ) (v : Node)
    → get_elem? nodes i ≡ some v
    → (v.place ≡ arrives) × (v.sum ≡ 0) × (v.count ≡ 0)

arrived_all : (p : Place) → arrived p ≡ true → (added p ≡ true) × (computed p ≡ true)
arrived_all arrives h = cc
arrived_all waits_children h = cc
arrived_all computes h = cc
arrived_all adds h = cc
arrived_all notifies h = cc
arrived_all waits_parent h = (refl, refl)
arrived_all exited h = (refl, refl)

main_arrived_le : (m : Main) → main_arrived m ≤ 1
main_arrived_le before = omega arith
main_arrived_le waits = omega arith
main_arrived_le (printed x) = omega arith

abbrev printed_value : Main → ℕ
printed_value before = 0
printed_value waits = 0
printed_value (printed x) = x

finish_parts : (v : Node) → 0 < finish v → (v.fixed.parent ≡ v.fixed.id) × (arrived v.place ≡ true)
finish_parts v h = elim (Bool-cases (v.fixed.parent == v.fixed.id)) [
  | inr z ↦ absurd (ground (arith, z))
  | inl y ↦ elim (Bool-cases (arrived v.place)) [
    | inl a ↦ (ground arith, a)
    | inr z ↦ absurd (ground (arith, y, z))
  ]
]

module _ (fs : List Fixed) (shape : Shape fs) where
  module _ (s : Tree) (v : Kept fs s) (r : Node) (at_r : get_elem? s.nodes shape.root ≡ some r)
      (ended : arrived r.place ≡ true) where
    -- The children of a vertex that has passed its barrier have arrived there.
    below_passed :
        (i : ℕ) (x : Node)
        → get_elem? s.nodes i ≡ some x
        → i ≢ shape.root
        → ((y : Node) → get_elem? s.nodes x.fixed.parent ≡ some y → passed y.place ≡ true)
        → arrived x.place ≡ true
    below_passed i x at ne up =
        let (g, at_g, apart, lower) = shape.up i x.fixed (fixed_at fs shape s i x v.shape at) ne in
        let (y, at_y, is) =
          get_elem?-unmap (λ w. w.fixed) s.nodes x.fixed.parent
            (ap (λ k. get_elem? k x.fixed.parent) v.shape ∙ at_g) in
        v.gathered x.fixed.parent i y x at_y at (up y at_y) refl (λ q. apart (sym q))

    all_passed :
        (fuel i : ℕ) (x : Node)
        → shape.rank i < fuel
        → get_elem? s.nodes i ≡ some x
        → passed x.place ≡ true
    all_passed zero i x low at = absurd (omega arith)
    all_passed (suc fuel) i x low at = elim (Bool-cases (i == shape.root)) [
      | inl b ↦
          let e : shape.root ≡ i = ground arith in
          let same : r ≡ x = some-injective r x (sym at_r ∙ ap (λ k. get_elem? s.nodes k) e ∙ at) in
          arrived_passed x.place (ap (λ w. arrived w.place) (sym same) ∙ ended)
      | inr b ↦
          let ne : i ≢ shape.root = λ q. ground arith in
          let (g, at_g, apart, lower) =
            shape.up i x.fixed (fixed_at fs shape s i x v.shape at) ne in
          arrived_passed x.place
            (below_passed i x at ne (λ y at_y. all_passed fuel x.fixed.parent y (omega arith) at_y))
    ]

    others_arrived :
        (i : ℕ) (x : Node) → get_elem? s.nodes i ≡ some x → i ≢ shape.root → arrived x.place ≡ true
    others_arrived i x at ne =
        below_passed i x at ne (λ y at_y.
          all_passed (suc (shape.rank x.fixed.parent)) x.fixed.parent y (omega arith) at_y)

    all_arrived : (i : ℕ) (x : Node) → get_elem? s.nodes i ≡ some x → arrived x.place ≡ true
    all_arrived i x at = elim (Bool-cases (i == shape.root)) [
      | inl b ↦
          let e : shape.root ≡ i = ground arith in
          let same : r ≡ x = some-injective r x (sym at_r ∙ ap (λ k. get_elem? s.nodes k) e ∙ at) in
          ap (λ w. arrived w.place) (sym same) ∙ ended
      | inr b ↦ others_arrived i x at (λ q. ground arith)
    ]

    -- Everything has come to the root.
    gathered_all : r.sum ≡ total leaf_value fs
    gathered_all =
        let (r', there, self) = shape.root_self in
        let at_fixed = fixed_at fs shape s shape.root r v.shape at_r in
        let is_root : r.fixed.parent ≡ r.fixed.id =
          ap (λ f. f.parent) (some-injective r.fixed r' (sym at_fixed ∙ there))
          ∙ self
          ∙ sym (shape.ids shape.root r.fixed at_fixed) in
        let kept : held r ≡ r.sum = ground arith in
        let alone : total held s.nodes ≡ held r =
          total-one held s.nodes shape.root r at_r (λ j y at_y ne.
            let (g, at_g, apart, lower) =
              shape.up j y.fixed (fixed_at fs shape s j y v.shape at_y) ne in
            let id_is = shape.ids j y.fixed (fixed_at fs shape s j y v.shape at_y) in
            let all_done = (arrived_all y.place (others_arrived j y at_y ne)).0 in ground arith) in
        let everything : total given s.nodes ≡ total (λ w. leaf_value w.fixed) s.nodes =
          total-cong given (λ w. leaf_value w.fixed) s.nodes
            (λ j y at_y.
              let all_done = (arrived_all y.place (all_arrived j y at_y)).1 in
              rw (all_done) refl) in
        let named = total-map leaf_value (λ w. w.fixed) s.nodes in
        let renamed = ap (total leaf_value) v.shape in
        omega (arith, kept, alone, v.conserved, everything, named, renamed)

  -- Both have arrived at the last barrier.
  done_right : (s : Tree) → Kept fs s → s.done ≡ 2 → s.total_sum ≡ total leaf_value fs
  done_right s v full =
      let some_there : 0 < total finish s.nodes =
        omega (arith, v.finished, full, main_arrived_le s.main) in
      let (i, r, at, p) = total-part finish s.nodes some_there in
      let x = shape.ids i r.fixed (fixed_at fs shape s i r v.shape at) in
      let (self, ended) = finish_parts r p in
      let here : i ≡ shape.root =
        root_unique fs shape i r.fixed (fixed_at fs shape s i r v.shape at) (self ∙ x) in
      v.summed i r at (self ∙ x) ended
      ∙ gathered_all s v r (subst (λ k. get_elem? s.nodes k ≡ some r) here at) ended

  main_at-Kept :
      (s s' : Tree) (m : Main) → s.main ≡ m → Kept fs s → main_at s m ≡ some s' → Kept fs s'
  unfolding main_at
  main_at-Kept s s' before e v h = same_step (Kept fs) _ s' refl h (record {
    shape = v.shape;
    counts = v.counts;
    gathered = v.gathered;
    empty = v.empty;
    conserved = v.conserved;
    summed = v.summed;
    finished = omega (arith, v.finished, ap main_arrived e);
    right = λ x q. cc;
  })
  main_at-Kept s s' waits e v h = elim (Bool-cases (s.done == 2)) [
    | inr z ↦ let stays : main_at s waits ≡ none = rw (z) refl in cc
    | inl y ↦
        let went : main_at s waits ≡ some (record s { main = printed s.total_sum }) = rw (y) refl in
        same_step (Kept fs) _ s' went h (record {
          shape = v.shape;
          counts = v.counts;
          gathered = v.gathered;
          empty = v.empty;
          conserved = v.conserved;
          summed = v.summed;
          finished = omega (arith, v.finished, ap main_arrived e);
          right = λ x q. sym (ap printed_value q) ∙ done_right s v (ground arith);
        })
  ]
  main_at-Kept s s' (printed x) e v h = cc

  run_main-Kept : (s s' : Tree) → Kept fs s → run_main s ≡ some s' → Kept fs s'
  unfolding run_main
  run_main-Kept s s' v h = main_at-Kept s s' s.main refl v h

  start-Kept :
      (nodes : List Node) → fixed_of nodes ≡ fs → IsFresh nodes → Kept fs (start_tree nodes)
  start-Kept nodes same fresh =
      let unarrived : (i k : ℕ) (w : Node) → get_elem? nodes k ≡ some w → arrival i w ≡ 0 =
        λ i k w h.
          let (p, _, _) = fresh k w h in
          let a = ap entered p in let b = ap arrived p in ground arith in
      record {
        shape = same;
        counts = λ i v h.
            let (_, _, c) = fresh i v h in
            omega (arith, c, total-zero (arrival i) nodes (unarrived i));
        gathered = λ i j v u h k q e ne.
            let (p, _, _) = fresh i v h in let no : passed v.place ≡ false = ap passed p in cc;
        empty = λ i v h c k. (fresh i v h).1;
        conserved = omega (
          arith,
          total-zero held nodes (λ k w h. let (_, z, _) = fresh k w h in ground arith),
          total-zero given nodes
              (λ k w h. let (p, _, _) = fresh k w h in let no = ap computed p in ground arith),
        );
        summed = λ i v h e a.
            let (p, _, _) = fresh i v h in let no : arrived v.place ≡ false = ap arrived p in cc;
        finished = omega (
          arith,
          total-zero finish nodes
              (λ k w h. let (p, _, _) = fresh k w h in let no = ap arrived p in ground arith),
        );
        right = λ x q. cc;
      }

pub Reach-Kept :
    (nodes : List Node) (k : ℕ) (s : Tree)
    → Shape (fixed_of nodes)
    → IsFresh nodes
    → Reach nodes k s
    → Kept (fixed_of nodes) s
Reach-Kept nodes _ _ shape fresh start = start-Kept (fixed_of nodes) shape nodes refl fresh
Reach-Kept nodes _ _ shape fresh (threads i r h) =
    compute_sum-Kept (fixed_of nodes) shape _ _ i (Reach-Kept nodes _ _ shape fresh r) h
Reach-Kept nodes _ s' shape fresh (mains {k} {s} r h) =
    run_main-Kept (fixed_of nodes) shape s s' (Reach-Kept nodes k s shape fresh r) h

-- In any order of the steps of the threads and the main thread: what the main thread prints is the sum
-- of the numbers entered for the leaves.
pub printed_sum :
    (nodes : List Node) (k : ℕ) (s : Tree) (x : ℕ)
    → Shape (fixed_of nodes)
    → IsFresh nodes
    → Reach nodes k s
    → s.main ≡ printed x
    → x ≡ total leaf_value (fixed_of nodes)
printed_sum nodes k s x shape fresh r h = (Reach-Kept nodes k s shape fresh r).right x h
