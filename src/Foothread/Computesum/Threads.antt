-- ===== src/Foothread/Computesum/Threads.antt =====
-- Every step of a thread of computesum.c keeps the invariant.
use operating_systems_iitkgp.Base.Int.{int_max}
use operating_systems_iitkgp.Base.{
  ltb, ℕ, ◌+◌, ◌≡◌, refl, sym, ◌∙◌, inl, inr, true, false, List, none, some, arith, ◌==◌, get_elem?,
  set, ◌⊎◌, Bool-cases, Option-cases, same_step,
}
use operating_systems_iitkgp.Foothread.Computesum.{
  Fixed, Place, arrives, waits_children, computes, adds, notifies, waits_parent, exited, Node, Tree,
  moved, add, notify, step_at, compute_sum,
}
use operating_systems_iitkgp.Foothread.Computesum.Weights.{Shape}
use operating_systems_iitkgp.Foothread.Computesum.Steps.{
  Kept, vertex, arrives-Kept, passes-Kept, leaf-Kept, inner-Kept,
}
use operating_systems_iitkgp.Foothread.Computesum.Parents.{
  root_adds-Kept, root_notifies-Kept, exits-Kept, adds-Kept, notifies-Kept,
}

module _ (fs : List Fixed) (shape : Shape fs) where
  waits_children_step :
      (s s' : Tree) (i : ℕ) (f : Fixed) (a b : ℕ)
      → Kept fs s
      → get_elem? s.nodes i ≡ some (vertex f waits_children a b)
      → step_at s i (vertex f waits_children a b) waits_children ≡ some s'
      → Kept fs s'
  unfolding step_at
  waits_children_step s s' i f a b v at h = elim (Bool-cases (b == f.num_child + 1)) [
    | inl y ↦
        let went : step_at s i (vertex f waits_children a b) waits_children
            ≡ some (moved s i (vertex f waits_children a b) computes) =
          rw (y) refl in
        same_step (Kept fs) _ s' went h (passes-Kept fs shape s v i f a b at (ground arith))
    | inr z ↦
        let stays : step_at s i (vertex f waits_children a b) waits_children ≡ none = rw (z) refl in
        cc
  ]

  computes_step :
      (s s' : Tree) (i : ℕ) (f : Fixed) (a b : ℕ)
      → Kept fs s
      → get_elem? s.nodes i ≡ some (vertex f computes a b)
      → step_at s i (vertex f computes a b) computes ≡ some s'
      → Kept fs s'
  unfolding step_at
  computes_step s s' i f a b v at h = elim (Bool-cases (f.num_child == 0)) [
    | inl y ↦
        let went : step_at s i (vertex f computes a b) computes
            ≡ some (record s { nodes = set s.nodes i (vertex f adds f.value b) }) =
          rw (y) refl in
        same_step (Kept fs) _ s' went h (leaf-Kept fs shape s v i f a b at (ground arith))
    | inr z ↦
        let went : step_at s i (vertex f computes a b) computes
            ≡ some (moved s i (vertex f computes a b) adds) =
          rw (z) refl in
        same_step (Kept fs) _ s' went h (inner-Kept fs shape s v i f a b at (λ q. ground arith))
  ]

  adds_step :
      (s s' : Tree) (i : ℕ) (f : Fixed) (a b : ℕ)
      → Kept fs s
      → get_elem? s.nodes i ≡ some (vertex f adds a b)
      → step_at s i (vertex f adds a b) adds ≡ some s'
      → Kept fs s'
  unfolding step_at
  adds_step s s' i f a b v at h = elim (Bool-cases (f.parent == i)) [
    | inl y ↦
        let went : step_at s i (vertex f adds a b) adds
            ≡ some (moved s i (vertex f adds a b) notifies) =
          rw (y) refl in
        same_step (Kept fs) _ s' went h (root_adds-Kept fs shape s v i f a b at (ground arith))
    | inr z ↦ elim (Option-cases (get_elem? s.nodes f.parent)) [
      | inl gone ↦ let stays : step_at s i (vertex f adds a b) adds ≡ none = rw (z, gone) refl in cc
      | inr (u, at_u) ↦ elim (Bool-cases (ltb int_max (u.sum + a))) [
        | inl over ↦
            let stays : step_at s i (vertex f adds a b) adds ≡ none = rw (z, at_u, over) refl in cc
        | inr fits ↦
            let went : step_at s i (vertex f adds a b) adds
                ≡ some (record s { nodes = add s i (vertex f adds a b) u }) =
              rw (z, at_u, fits) refl in
            same_step (Kept fs) _ s' went h
              (adds-Kept fs shape s v i f a b u at_u (λ q. ground arith) at)
      ]
    ]
  ]

  notifies_step :
      (s s' : Tree) (i : ℕ) (f : Fixed) (a b : ℕ)
      → Kept fs s
      → get_elem? s.nodes i ≡ some (vertex f notifies a b)
      → step_at s i (vertex f notifies a b) notifies ≡ some s'
      → Kept fs s'
  unfolding step_at
  notifies_step s s' i f a b v at h = elim (Bool-cases (f.parent == i)) [
    | inl y ↦
        let went : step_at s i (vertex f notifies a b) notifies
            ≡ some (record (moved s i (vertex f notifies a b) waits_parent) {
              total_sum = a;
              done = s.done + 1;
            }) =
          rw (y) refl in
        same_step (Kept fs) _ s' went h (root_notifies-Kept fs shape s v i f a b at (ground arith))
    | inr z ↦ elim (Option-cases (get_elem? s.nodes f.parent)) [
      | inl gone ↦
          let stays : step_at s i (vertex f notifies a b) notifies ≡ none = rw (z, gone) refl in cc
      | inr (u, at_u) ↦
          let went : step_at s i (vertex f notifies a b) notifies
              ≡ some (record s { nodes = notify s i (vertex f notifies a b) u }) =
            rw (z, at_u) refl in
          same_step (Kept fs) _ s' went h
            (notifies-Kept fs shape s v i f a b u at_u (λ q. ground arith) at)
    ]
  ]

  waits_parent_step :
      (s s' : Tree) (i : ℕ) (f : Fixed) (a b : ℕ)
      → Kept fs s
      → get_elem? s.nodes i ≡ some (vertex f waits_parent a b)
      → step_at s i (vertex f waits_parent a b) waits_parent ≡ some s'
      → Kept fs s'
  unfolding step_at
  waits_parent_step s s' i f a b v at h =
      goes (Bool-cases (f.parent == i)) (Bool-cases (s.done == 2))
    where
      x : Node
      x = vertex f waits_parent a b

      left : step_at s i x waits_parent ≡ some (moved s i x exited) → Kept fs s'
      left went = same_step (Kept fs) _ s' went h (exits-Kept fs shape s v i f a b at)

      goes :
          (f.parent == i ≡ true) ⊎ (f.parent == i ≡ false)
          → (s.done == 2 ≡ true) ⊎ (s.done == 2 ≡ false)
          → Kept fs s'
      goes (inl y) (inl full) = left (rw (y, full) refl)
      goes (inl y) (inr z) = let stays : step_at s i x waits_parent ≡ none = rw (y, z) refl in cc
      goes (inr z) d = elim (Option-cases (get_elem? s.nodes f.parent)) [
        | inl gone ↦ let stays : step_at s i x waits_parent ≡ none = rw (z, gone) refl in cc
        | inr (u, at_u) ↦ elim (Bool-cases (u.count == u.fixed.num_child + 1)) [
          | inl full ↦ left (rw (z, at_u, full) refl)
          | inr w ↦ let stays : step_at s i x waits_parent ≡ none = rw (z, at_u, w) refl in cc
        ]
      ]

  step_at-Kept :
      (s s' : Tree) (i : ℕ) (f : Fixed) (a b : ℕ) (p : Place)
      → Kept fs s
      → get_elem? s.nodes i ≡ some (vertex f p a b)
      → step_at s i (vertex f p a b) p ≡ some s'
      → Kept fs s'
  unfolding step_at
  step_at-Kept s s' i f a b arrives v at h =
      same_step (Kept fs) _ s' refl h (arrives-Kept fs shape s v i f a b at)
  step_at-Kept s s' i f a b waits_children v at h = waits_children_step s s' i f a b v at h
  step_at-Kept s s' i f a b computes v at h = computes_step s s' i f a b v at h
  step_at-Kept s s' i f a b adds v at h = adds_step s s' i f a b v at h
  step_at-Kept s s' i f a b notifies v at h = notifies_step s s' i f a b v at h
  step_at-Kept s s' i f a b waits_parent v at h = waits_parent_step s s' i f a b v at h
  step_at-Kept s s' i f a b exited v at h = cc

  pub compute_sum-Kept : (s s' : Tree) (i : ℕ) → Kept fs s → compute_sum s i ≡ some s' → Kept fs s'
  unfolding compute_sum
  compute_sum-Kept s s' i v h = elim (Option-cases (get_elem? s.nodes i)) [
    | inl z ↦ let stays : compute_sum s i ≡ none = rw (z) refl in cc
    | inr (x, at) ↦
        let went : compute_sum s i ≡ step_at s i x x.place = rw (at) refl in
        step_at-Kept s s' i x.fixed x.sum x.count x.place v at (sym went ∙ h)
  ]
