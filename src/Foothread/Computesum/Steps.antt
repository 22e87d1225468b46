-- ===== src/Foothread/Computesum/Steps.antt =====
-- The steps of a thread of computesum.c that touch its own vertex only.
use operating_systems_iitkgp.Base.{
  ℕ, ◌+◌, ◌≤◌, ◌≡◌, ◌≢◌, refl, sym, ap, ◌∙◌, inl, inr, true, List, some, arith, get_elem?, set,
  total, total-tight, total-one, total-map, total-add, Bool-cases,
}
use operating_systems_iitkgp.Foothread.Computesum.{
  Fixed, Place, arrives, waits_children, computes, adds, Node, Tree, moved,
}
use operating_systems_iitkgp.Foothread.Computesum.Weights.{
  arrived, arrival, child_of, itself, Shape, Inv,
}
use operating_systems_iitkgp.Foothread.Computesum.Local.{local, fixed_at}

abbrev pub nothing : ℕ → ℕ
nothing j = 0

abbrev pub Kept : List Fixed → Tree → Type 0
Kept fs s = Inv fs nothing 0 s

abbrev pub vertex : Fixed → Place → ℕ → ℕ → Node
vertex f place sum count = record { fixed = f; place = place; sum = sum; count = count }

module _ (fs : List Fixed) (shape : Shape fs) (s : Tree) (v : Kept fs s) (i : ℕ) (f : Fixed)
    (a b : ℕ) where
  abbrev pub Here : Place → Type 0
  Here p = get_elem? s.nodes i ≡ some (vertex f p a b)

  pub id_is : {p : Place} → Here p → f.id ≡ i
  id_is {p} at = shape.ids i f (fixed_at fs shape s i (vertex f p a b) v.shape at)

  pub arrives-Kept :
      Here arrives
      → Kept fs (record s { nodes = set s.nodes i (vertex f waits_children a (b + 1)) })
  arrives-Kept at =
      let own = id_is at in
      local fs shape nothing nothing 0 0 s v i (vertex f arrives a b) at waits_children a (b + 1)
        s.total_sum s.done (λ j ne. ground arith) (ground arith) (λ h. cc) (λ h. cc)
        (λ c k. v.empty i (vertex f arrives a b) at refl k) (ground arith) (λ e h. cc) (inl refl)
        (ground arith)

  -- The vertex and its children: all that arrive at its barrier.
  pub everyone :
      (p : Place)
      → Here p
      → total (λ w. child_of i w.fixed + itself i w.fixed) s.nodes ≡ f.num_child + 1
  everyone p at =
      let x : Node = vertex f p a b in
      let kids : f.num_child ≡ total (λ w. child_of i w.fixed) s.nodes =
        shape.kids i f (fixed_at fs shape s i x v.shape at)
        ∙ ap (total (child_of i)) (sym v.shape)
        ∙ total-map (child_of i) (λ w. w.fixed) s.nodes in
      let own : itself i f ≡ 1 = let e = id_is {p = p} at in ground arith in
      let one : total (λ w. itself i w.fixed) s.nodes ≡ itself i f =
        total-one (λ w. itself i w.fixed) s.nodes i x at
          (λ k w h apart.
            let e = shape.ids k w.fixed (fixed_at fs shape s k w v.shape h) in ground arith) in
      let split = total-add (λ w. child_of i w.fixed) (λ w. itself i w.fixed) s.nodes in
      omega (arith, split, one, own, kids)

  -- All have arrived at the barrier.
  passing-children :
      Here waits_children
      → b ≡ f.num_child + 1
      → (j : ℕ) (u : Node) → get_elem? s.nodes j ≡ some u
      → u.fixed.parent ≡ i
      → j ≢ i
      → arrived u.place ≡ true
  passing-children at full j u at_u mine ne =
      let all : Node → ℕ = λ w. child_of i w.fixed + itself i w.fixed in
      let le : (k : ℕ) (w : Node) → get_elem? s.nodes k ≡ some w → arrival i w ≤ all w =
        λ k w h. ground arith in
      let same : arrival i u ≡ all u =
        total-tight (arrival i) all s.nodes j u le
          (omega
            (arith, everyone waits_children at, full, v.counts i (vertex f waits_children a b) at))
          at_u in
      let other = shape.ids j u.fixed (fixed_at fs shape s j u v.shape at_u) in
      elim (Bool-cases (arrived u.place)) [ inl y ↦ y | inr z ↦ absurd (ground (arith, same, z)) ]

  pub passes-Kept :
      Here waits_children
      → b ≡ f.num_child + 1
      → Kept fs (moved s i (vertex f waits_children a b) computes)
  passes-Kept at full =
      local fs shape nothing nothing 0 0 s v i (vertex f waits_children a b) at computes a b
        s.total_sum s.done (λ j ne. ground arith) (ground arith) (λ h. passing-children at full)
        (λ h. cc) (λ c k. v.empty i (vertex f waits_children a b) at refl k) (ground arith)
        (λ e h. cc) (inl refl) (ground arith)

  -- A leaf, and another vertex.
  pub leaf-Kept :
      Here computes
      → f.num_child ≡ 0
      → Kept fs (record s { nodes = set s.nodes i (vertex f adds f.value b) })
  leaf-Kept at leaf =
      let own = id_is at in
      let empty_yet : a ≡ 0 = v.empty i (vertex f computes a b) at refl leaf in
      local fs shape nothing nothing 0 0 s v i (vertex f computes a b) at adds f.value b s.total_sum
        s.done (λ j ne. ground arith) (ground arith)
        (λ h j u k. v.gathered i j (vertex f computes a b) u at k refl) (λ h. cc) (λ c. cc)
        (ground arith) (λ e h. cc) (inl refl) (ground arith)

  pub inner-Kept :
      Here computes → f.num_child ≢ 0 → Kept fs (moved s i (vertex f computes a b) adds)
  inner-Kept at inner =
      local fs shape nothing nothing 0 0 s v i (vertex f computes a b) at adds a b s.total_sum
        s.done (λ j ne. ground arith) (ground arith)
        (λ h j u k. v.gathered i j (vertex f computes a b) u at k refl) (λ h. cc) (λ c. cc)
        (ground arith) (λ e h. cc) (inl refl) (ground arith)
