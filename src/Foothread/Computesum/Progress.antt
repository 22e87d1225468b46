-- ===== src/Foothread/Computesum/Progress.antt =====
-- The threads of computesum.c do not wait for each other in a circle.
use mathlib.Core.Option.{some-injective}
use operating_systems_iitkgp.Base.Int.{int_max}
use operating_systems_iitkgp.Base.{
  ltb, total_mono, total-map, add-le-total, ℕ, zero, suc, ◌+◌, ◌≤◌, ◌<◌, ◌≡◌, ◌≢◌, refl, sym, ap,
  ◌∙◌, ◌⊎◌, inl, inr, true, false, List, some, arith, ◌==◌, get_elem?, get_elem?-unmap, set, total,
  total-one, total-short, le-total, Bool-cases,
}
use operating_systems_iitkgp.Foothread.Computesum.{
  Fixed, Place, arrives, waits_children, computes, adds, notifies, waits_parent, exited, Node, Main,
  before, waits, printed, Tree, moved, add, notify, step_at, compute_sum, main_at, run_main, Reach,
}
use operating_systems_iitkgp.Foothread.Computesum.Weights.{
  entered, arrived, arrival, child_of, itself, held, given, leaf_value, finish, main_arrived, Shape,
  fixed_of,
}
use operating_systems_iitkgp.Foothread.Computesum.Local.{fixed_at}
use operating_systems_iitkgp.Foothread.Computesum.Parents.{added_passed, not_passed}
use operating_systems_iitkgp.Foothread.Computesum.Steps.{id_is, Kept, vertex, everyone}
use operating_systems_iitkgp.Foothread.Computesum.Totals.{IsFresh, Reach-Kept}

abbrev CanMove : Tree → Type 0
CanMove s =
    ((s' : Tree) × (run_main s ≡ some s')) ⊎ ((i : ℕ) × (s' : Tree) × (compute_sum s i ≡ some s'))

module _ (fs : List Fixed) (shape : Shape fs) (small : total leaf_value fs ≤ int_max) (s : Tree)
    (v : Kept fs s) where
  moves :
      (i : ℕ) (x : Node) (s' : Tree)
      → get_elem? s.nodes i ≡ some x
      → step_at s i x x.place ≡ some s'
      → CanMove s
  unfolding compute_sum
  moves i x s' at h = inr (i, s', rw (at) h)

  parent_there :
      (i : ℕ) (x : Node)
      → get_elem? s.nodes i ≡ some x
      → x.fixed.parent ≢ i
      → (u : Node) × (get_elem? s.nodes x.fixed.parent ≡ some u)
  parent_there i x at ne =
      let at_fixed = fixed_at fs shape s i x v.shape at in
      let apart : i ≢ shape.root = λ e.
        let (r, at_r, self) = shape.root_self in
        let same : r ≡ x.fixed =
          some-injective r x.fixed (sym at_r ∙ ap (get_elem? fs) (sym e) ∙ at_fixed) in
        ne (ap (λ f. f.parent) (sym same) ∙ self ∙ sym e) in
      let (g, at_g, _, _) = shape.up i x.fixed at_fixed apart in
      let (u, at_u, _) =
        get_elem?-unmap (λ w. w.fixed) s.nodes x.fixed.parent
          (ap (λ k. get_elem? k x.fixed.parent) v.shape ∙ at_g) in
      (u, at_u)

  -- What two vertices hold together is part of the sum of the leaves.
  sums_fit :
      (i : ℕ) (f : Fixed) (a b : ℕ) (u : Node)
      → get_elem? s.nodes i ≡ some (vertex f adds a b)
      → get_elem? s.nodes f.parent ≡ some u
      → f.parent ≢ i
      → u.sum + a ≤ int_max
  sums_fit i f a b u at at_u ne =
      let own = id_is fs shape s v i f a b {p = adds} at in
      let mine : held (vertex f adds a b) ≡ a = ground arith in
      let waiting = added_passed u.place (not_passed fs shape s v i f a b u at_u ne adds at refl) in
      let theirs : held u ≡ u.sum = ground arith in
      let all : total given s.nodes ≤ total (λ w. leaf_value w.fixed) s.nodes =
        total_mono given (λ w. leaf_value w.fixed) s.nodes (λ j y at_y. ground arith) in
      let named = total-map leaf_value (λ w. w.fixed) s.nodes in
      let renamed = ap (total leaf_value) v.shape in
      let both : held u + held (vertex f adds a b) ≤ total held s.nodes =
        elim (Bool-cases (ltb i f.parent)) [
          | inl y ↦
              let low : i < f.parent = ground arith in
              omega (arith, add-le-total held s.nodes i f.parent low at at_u)
          | inr z ↦
              let high : ¬ (i ≡ f.parent) = λ e. ne (sym e) in
              let low : f.parent < i = ground arith in
              omega (arith, add-le-total held s.nodes f.parent i low at_u at)
        ] in
      omega (arith, mine, theirs, all, named, renamed, both, v.conserved, small)

  -- Somebody has not arrived at a barrier that is not full.
  missing :
      (i : ℕ) (f : Fixed) (a b : ℕ)
      → get_elem? s.nodes i ≡ some (vertex f waits_children a b)
      → b ≢ f.num_child + 1
      → (j : ℕ) × (u : Node) × (get_elem? s.nodes j ≡ some u)
        × (u.fixed.parent ≡ i)
        × (j ≢ i)
        × (arrived u.place ≡ false)
  missing i f a b at ne =
      let x : Node = vertex f waits_children a b in
      let all : Node → ℕ = λ w. child_of i w.fixed + itself i w.fixed in
      let le : (k : ℕ) (w : Node) → get_elem? s.nodes k ≡ some w → arrival i w ≤ all w =
        λ k w h. ground arith in
      let (j, u, at_u, p) = total-short (arrival i) all s.nodes le (λ e.
        ne (omega (arith, e, everyone fs shape s v i f a b waits_children at, v.counts i x at))) in
      let own = shape.ids j u.fixed (fixed_at fs shape s j u v.shape at_u) in
      elim (Bool-cases (j == i)) [
        | inl y ↦
            let e : j ≡ i = ground arith in
            let same : u ≡ x = some-injective u x (sym at_u ∙ ap (get_elem? s.nodes) e ∙ at) in
            let there : entered u.place ≡ true = ap (λ w. entered w.place) same in
            absurd (ground (arith, p))
        | inr z ↦
            let apart : j ≢ i = λ e. ground arith in
            elim (Bool-cases (u.fixed.parent == i)) [
              | inr w ↦ absurd (ground (arith, p))
              | inl w ↦ elim (Bool-cases (arrived u.place)) [
                | inl b ↦ absurd (ground (arith, p))
                | inr out ↦ (j, u, at_u, ground arith, apart, out)
              ]
            ]
      ]

  -- A thread before its last wait moves, or another thread that it waits for.
  place_moves :
      (i : ℕ) (f : Fixed) (a b : ℕ) (p : Place)
      → get_elem? s.nodes i ≡ some (vertex f p a b)
      → arrived p ≡ false
      → ((j : ℕ) (u : Node)
          → get_elem? s.nodes j ≡ some u
          → u.fixed.parent ≡ i
          → j ≢ i
          → arrived u.place ≡ false
          → CanMove s)
      → CanMove s
  unfolding step_at
  place_moves i f a b arrives at out next = moves i (vertex f arrives a b) _ at refl
  place_moves i f a b waits_children at out next = elim (Bool-cases (b == f.num_child + 1)) [
    | inl y ↦
        moves i (vertex f waits_children a b) (moved s i (vertex f waits_children a b) computes) at
          (rw (y) refl)
    | inr z ↦
        let (j, u, at_u, mine, ne, out') = missing i f a b at (λ e. ground arith) in
        next j u at_u mine ne out'
  ]
  place_moves i f a b computes at out next = elim (Bool-cases (f.num_child == 0)) [
    | inl y ↦
        moves i (vertex f computes a b)
          (record s { nodes = set s.nodes i (vertex f adds f.value b) }) at (rw (y) refl)
    | inr z ↦
        moves i (vertex f computes a b) (moved s i (vertex f computes a b) adds) at (rw (z) refl)
  ]
  place_moves i f a b adds at out next = elim (Bool-cases (f.parent == i)) [
    | inl y ↦ moves i (vertex f adds a b) (moved s i (vertex f adds a b) notifies) at (rw (y) refl)
    | inr z ↦
        let ne : f.parent ≢ i = λ e. ground arith in
        let (u, at_u) = parent_there i (vertex f adds a b) at ne in
        let fits : ltb int_max (u.sum + a) ≡ false =
          let low = sums_fit i f a b u at at_u ne in ground arith in
        moves i (vertex f adds a b) (record s { nodes = add s i (vertex f adds a b) u }) at
          (rw (z, at_u, fits) refl)
  ]
  place_moves i f a b notifies at out next = elim (Bool-cases (f.parent == i)) [
    | inl y ↦
        moves i (vertex f notifies a b)
          (record (moved s i (vertex f notifies a b) waits_parent) {
            total_sum = a;
            done = s.done + 1;
          })
          at (rw (y) refl)
    | inr z ↦
        let (u, at_u) = parent_there i (vertex f notifies a b) at (λ e. ground arith) in
        moves i (vertex f notifies a b) (record s { nodes = notify s i (vertex f notifies a b) u })
          at (rw (z, at_u) refl)
  ]
  place_moves i f a b waits_parent at out next = cc
  place_moves i f a b exited at out next = cc

  unarrived_moves :
      (fuel i : ℕ) (x : Node)
      → get_elem? s.nodes i ≡ some x
      → arrived x.place ≡ false
      → total (λ f. shape.rank f.id) fs < shape.rank i + fuel
      → CanMove s
  unarrived_moves zero i x at out enough =
      let at_fixed = fixed_at fs shape s i x v.shape at in
      let high = le-total (λ f. shape.rank f.id) fs i at_fixed in
      let same = ap shape.rank (shape.ids i x.fixed at_fixed) in
      absurd (omega (arith, high, same, enough))
  unarrived_moves (suc fuel) i x at out enough =
      place_moves i x.fixed x.sum x.count x.place at out (λ j u at_u mine ne out'.
        let at_fixed = fixed_at fs shape s j u v.shape at_u in
        let apart : j ≢ shape.root = λ e.
          let (r, at_r, self) = shape.root_self in
          let same : r ≡ u.fixed =
            some-injective r u.fixed (sym at_r ∙ ap (get_elem? fs) (sym e) ∙ at_fixed) in
          ne (e ∙ sym self ∙ ap (λ f. f.parent) same ∙ mine) in
        let (_, _, _, lower) = shape.up j u.fixed at_fixed apart in
        let same = ap shape.rank mine in
        unarrived_moves fuel j u at_u out' (omega (arith, enough, lower, same)))

  -- When the root has arrived at the last barrier, so have both.
  both_arrived :
      (r : Node)
      → get_elem? s.nodes shape.root ≡ some r
      → arrived r.place ≡ true
      → total finish s.nodes ≡ 1
  both_arrived r at ended =
      let at_fixed = fixed_at fs shape s shape.root r v.shape at in
      let (r', there, self) = shape.root_self in
      let is_root : r.fixed.parent ≡ r.fixed.id =
        ap (λ f. f.parent) (some-injective r.fixed r' (sym at_fixed ∙ there))
        ∙ self
        ∙ sym (shape.ids shape.root r.fixed at_fixed) in
      let alone : total finish s.nodes ≡ finish r =
        total-one finish s.nodes shape.root r at (λ j y at_y ne.
          let (g, at_g, apart, lower) =
            shape.up j y.fixed (fixed_at fs shape s j y v.shape at_y) ne in
          let id_is = shape.ids j y.fixed (fixed_at fs shape s j y v.shape at_y) in ground arith) in
      alone ∙ ground arith

  main_moves : (m : Main) → s.main ≡ m → ((x : ℕ) → m ≢ printed x) → CanMove s
  unfolding run_main main_at
  main_moves before e n = inl (_, ap (main_at s) e)
  main_moves (printed x) e n = absurd (n x refl)
  main_moves waits e n =
      let (r', at_fixed, self) = shape.root_self in
      let (r, at, _) =
        get_elem?-unmap (λ w. w.fixed) s.nodes shape.root
          (ap (λ k. get_elem? k shape.root) v.shape ∙ at_fixed) in
      elim (Bool-cases (arrived r.place)) [
        | inl ended ↦
            let full : s.done ≡ 2 =
              omega (arith, v.finished, both_arrived r at ended, ap main_arrived e) in
            let went : main_at s waits ≡ some (record s { main = printed s.total_sum }) =
              ground arith in
            inl (_, ap (main_at s) e ∙ went)
        | inr out ↦
            unarrived_moves (suc (total (λ f. shape.rank f.id) fs)) shape.root r at out
              (omega arith)
      ]

-- Until the main thread has printed, it or a thread can take a step.
pub sum_goes_on :
    (nodes : List Node) (k : ℕ) (s : Tree)
    → Shape (fixed_of nodes)
    → total leaf_value (fixed_of nodes) ≤ int_max
    → IsFresh nodes
    → Reach nodes k s
    → ((x : ℕ) → s.main ≢ printed x)
    → CanMove s
sum_goes_on nodes k s shape small fresh r n =
    main_moves (fixed_of nodes) shape small s (Reach-Kept nodes k s shape fresh r) s.main refl n
