-- ===== src/Foothread/Computesum/Parents.antt =====
-- The steps of a thread of computesum.c that touch the vertex of its parent.
use operating_systems_iitkgp.Base.{
  ℕ, ◌+◌, ◌≡◌, ◌≢◌, refl, sym, ◌∙◌, inl, inr, true, false, List, some, arith, ◌==◌, if◌then◌else◌,
  get_elem?, get_elem?-set_ne, set, le-total, Bool-cases,
}
use operating_systems_iitkgp.Foothread.Computesum.{
  Fixed, Place, arrives, waits_children, computes, adds, notifies, waits_parent, exited, Node, Tree,
  moved, add, notify,
}
use operating_systems_iitkgp.Foothread.Computesum.Weights.{
  passed, added, arrived, child_of, Shape, Inv,
}
use operating_systems_iitkgp.Foothread.Computesum.Local.{local, fixed_at}
use operating_systems_iitkgp.Foothread.Computesum.Steps.{nothing, Kept, vertex, id_is}

pub added_passed : (p : Place) → passed p ≡ false → added p ≡ false
added_passed arrives h = refl
added_passed waits_children h = refl
added_passed computes h = refl
added_passed adds h = refl
added_passed notifies h = cc
added_passed waits_parent h = cc
added_passed exited h = cc

pub arrived_passed : (p : Place) → arrived p ≡ true → passed p ≡ true
arrived_passed arrives h = cc
arrived_passed waits_children h = cc
arrived_passed computes h = cc
arrived_passed adds h = cc
arrived_passed notifies h = cc
arrived_passed waits_parent h = refl
arrived_passed exited h = refl

module _ (fs : List Fixed) (shape : Shape fs) (s : Tree) (v : Kept fs s) (i : ℕ) (f : Fixed)
    (a b : ℕ) where
  abbrev x : Place → Node
  x p = vertex f p a b

  abbrev children :
      (p : Place)
      → get_elem? s.nodes i ≡ some (x p)
      → passed p ≡ true
      → (j : ℕ) (u : Node) → get_elem? s.nodes j ≡ some u
      → u.fixed.parent ≡ i
      → j ≢ i
      → arrived u.place ≡ true
  children p at h j u k = v.gathered i j (x p) u at k h

  pub root_adds-Kept :
      get_elem? s.nodes i ≡ some (x adds) → f.parent ≡ i → Kept fs (moved s i (x adds) notifies)
  root_adds-Kept at root =
      let own = id_is fs shape s v i f a b {p = adds} at in
      local fs shape nothing nothing 0 0 s v i (x adds) at notifies a b s.total_sum s.done
        (λ j ne. ground arith) (ground arith) (λ h. children adds at refl) (λ h. cc) (λ c. cc)
        (ground arith) (λ e h. cc) (inl refl) (ground arith)

  pub root_notifies-Kept :
      get_elem? s.nodes i ≡ some (x notifies)
      → f.parent ≡ i
      → Kept fs (record (moved s i (x notifies) waits_parent) { total_sum = a; done = s.done + 1 })
  root_notifies-Kept at root =
      let own = id_is fs shape s v i f a b {p = notifies} at in
      local fs shape nothing nothing 0 0 s v i (x notifies) at waits_parent a b a (s.done + 1)
        (λ j ne. ground arith) (ground arith) (λ h. children notifies at refl) (λ h. refl) (λ c. cc)
        (ground arith) (λ e h. refl) (inr root) (ground arith)

  pub exits-Kept :
      get_elem? s.nodes i ≡ some (x waits_parent) → Kept fs (moved s i (x waits_parent) exited)
  exits-Kept at =
      local fs shape nothing nothing 0 0 s v i (x waits_parent) at exited a b s.total_sum s.done
        (λ j ne. ground arith) (ground arith) (λ h. children waits_parent at refl) (λ h. refl)
        (λ c. cc) (ground arith) (λ e h. v.summed i (x waits_parent) at e refl) (inl refl)
        (ground arith)

  module _ (u : Node) (at_u : get_elem? s.nodes f.parent ≡ some u) (ne : f.parent ≢ i) where
    abbrev bumped : ℕ → ℕ → Tree
    bumped sum count = record s {
      nodes = set s.nodes f.parent (record u { sum = sum; count = count });
    }

    still_here :
        (p : Place) (sum count : ℕ)
        → get_elem? s.nodes i ≡ some (x p)
        → get_elem? ((bumped sum count).nodes) i ≡ some (x p)
    still_here p sum count at = get_elem?-set_ne s.nodes f.parent i _ ne ∙ at

    -- The parent has not passed its barrier while a child has not arrived there.
    pub not_passed :
        (p : Place) → get_elem? s.nodes i ≡ some (x p) → arrived p ≡ false → passed u.place ≡ false
    not_passed p at out = elim (Bool-cases (passed u.place)) [
      | inl y ↦ let in_there = v.gathered f.parent i u (x p) at_u at y refl (λ q. ne (sym q)) in cc
      | inr z ↦ z
    ]

    -- A vertex with a child is no leaf.
    has_child : (p : Place) → get_elem? s.nodes i ≡ some (x p) → u.fixed.num_child ≢ 0
    has_child p at none_there =
        let own = id_is fs shape s v i f a b {p = p} at in
        let kids = shape.kids f.parent u.fixed (fixed_at fs shape s f.parent u v.shape at_u) in
        let part = le-total (child_of f.parent) fs i (fixed_at fs shape s i (x p) v.shape at) in
        let one : child_of f.parent f ≡ 1 = ground arith in
        omega (arith, kids, part, one, none_there)

    pub adds-Kept :
        get_elem? s.nodes i ≡ some (x adds) → Kept fs (record s { nodes = add s i (x adds) u })
    unfolding add
    adds-Kept at =
        let own = id_is fs shape s v i f a b {p = adds} at in
        let waiting = not_passed adds at refl in
        let unadded = added_passed u.place waiting in
        let first : Inv fs nothing a (bumped (u.sum + a) u.count) =
          local fs shape nothing nothing 0 a s v f.parent u at_u u.place (u.sum + a) u.count
            s.total_sum s.done (λ j e. omega arith) (omega arith)
            (λ h j w k. v.gathered f.parent j u w at_u k h) (λ h. h)
            (λ c k. absurd (has_child adds at k)) (ground arith)
            (λ e h. let y = arrived_passed u.place h in cc) (inl refl) (omega arith) in
        local fs shape nothing nothing a 0 (bumped (u.sum + a) u.count) first i (x adds)
          (still_here adds (u.sum + a) u.count at) notifies a b s.total_sum s.done
          (λ j e. ground arith) (ground arith)
          (λ h j w k. first.gathered i j (x adds) w (still_here adds (u.sum + a) u.count at) k refl)
          (λ h. cc) (λ c. cc) (ground arith) (λ e h. cc) (inl refl) (ground arith)

    pub notifies-Kept :
        get_elem? s.nodes i ≡ some (x notifies)
        → Kept fs (record s { nodes = notify s i (x notifies) u })
    unfolding notify
    notifies-Kept at =
        let own = id_is fs shape s v i f a b {p = notifies} at in
        let ahead : ℕ → ℕ = λ j. if f.parent == j then 1 else 0 in
        let first : Inv fs ahead 0 (bumped u.sum (u.count + 1)) =
          local fs shape nothing ahead 0 0 s v f.parent u at_u u.place u.sum (u.count + 1)
            s.total_sum s.done (λ j e. ground arith) (ground arith)
            (λ h j w k. v.gathered f.parent j u w at_u k h) (λ h. h)
            (λ c k. v.empty f.parent u at_u c k) (omega arith) (λ e h. v.summed f.parent u at_u e h)
            (inl refl) (omega arith) in
        local fs shape ahead nothing 0 0 (bumped u.sum (u.count + 1)) first i (x notifies)
          (still_here notifies u.sum (u.count + 1) at) waits_parent a b s.total_sum s.done
          (λ j e. ground arith) (ground arith)
          (λ h j w k.
            first.gathered i j (x notifies) w (still_here notifies u.sum (u.count + 1) at) k refl)
          (λ h. refl) (λ c. cc) (ground arith) (λ e h. absurd (ne e)) (inl refl) (ground arith)
