-- ===== src/Foothread/Computesum/Local.antt =====
-- A change to one vertex keeps the invariant of computesum.c.
use mathlib.Core.Option.{some-injective}
use operating_systems_iitkgp.Base.{
  ℕ, ◌+◌, ◌≡◌, ◌≢◌, refl, sym, ap, subst, ◌∙◌, ◌⊎◌, inl, inr, true, false, List, some, arith, ◌==◌,
  get_elem?, get_elem?-lt, get_elem?-map, get_elem?-set_self, get_elem?-set_ne, set, map-set_same,
  total, total-set, Bool-cases,
}
use operating_systems_iitkgp.Foothread.Computesum.{Fixed, Place, Node, Tree}
use operating_systems_iitkgp.Foothread.Computesum.Weights.{
  passed, computed, arrived, arrival, held, given, finish, Shape, fixed_of, Inv,
}

-- What a read of an array after a write finds.
pub get_elem?-set_cases {ℓ} :
    {A : Type ℓ} (xs : List A) (i j : ℕ) (x' y : A) {x : A}
    → get_elem? xs i ≡ some x
    → get_elem? (set xs i x') j ≡ some y
    → ((i ≡ j) × (x' ≡ y)) ⊎ ((j ≢ i) × (get_elem? xs j ≡ some y))
get_elem?-set_cases xs i j x' y at h = elim (Bool-cases (i == j)) [
  | inl b ↦
      let e : i ≡ j = ground arith in
      inl (
        e,
        some-injective x' y (
            sym (get_elem?-set_self xs i x' (get_elem?-lt xs i at))
            ∙ ap (λ k. get_elem? (set xs i x') k) e
            ∙ h),
      )
  | inr b ↦
      let e : i ≢ j = λ q. ground arith in
      inr ((λ q. e (sym q)), sym (get_elem?-set_ne xs i j x' e) ∙ h)
]

module _ (fs : List Fixed) (shape : Shape fs) where
  pub fixed_at :
      (s : Tree) (i : ℕ) (x : Node)
      → fixed_of s.nodes ≡ fs
      → get_elem? s.nodes i ≡ some x
      → get_elem? fs i ≡ some x.fixed
  fixed_at s i x same at =
      ap (λ k. get_elem? k i) (sym same) ∙ get_elem?-map (λ v. v.fixed) s.nodes i at

  -- There is one root only.
  pub root_unique : (i : ℕ) (f : Fixed) → get_elem? fs i ≡ some f → f.parent ≡ i → i ≡ shape.root
  root_unique i f at e = elim (Bool-cases (i == shape.root)) [
    | inl b ↦ ground arith
    | inr b ↦
        let ne : i ≢ shape.root = λ q. ground arith in
        let (g, there, apart, lower) = shape.up i f at ne in absurd (apart e)
  ]

  module _ (ahead ahead' : ℕ → ℕ) (extra extra' : ℕ) (s : Tree) (v : Inv fs ahead extra s) (i : ℕ)
      (x : Node) (at : get_elem? s.nodes i ≡ some x) where
    pub local :
        (place : Place) (sum count total_sum done : ℕ)
        → ((j : ℕ)
            → j ≢ i
            → arrival j (record x { place = place; sum = sum; count = count }) + ahead' j
              ≡ arrival j x + ahead j)
        → count + arrival i x + ahead i
          ≡ x.count + arrival i (record x { place = place; sum = sum; count = count }) + ahead' i
        → (passed place ≡ true
            → (j : ℕ) (u : Node) → get_elem? s.nodes j ≡ some u
            → u.fixed.parent ≡ i
            → j ≢ i
            → arrived u.place ≡ true)
        → (arrived x.place ≡ true → arrived place ≡ true)
        → (computed place ≡ false → x.fixed.num_child ≡ 0 → sum ≡ 0)
        → held (record x { place = place; sum = sum; count = count }) + given x + extra
          ≡ held x + given (record x { place = place; sum = sum; count = count }) + extra'
        → (x.fixed.parent ≡ i → arrived place ≡ true → total_sum ≡ sum)
        → (total_sum ≡ s.total_sum) ⊎ (x.fixed.parent ≡ i)
        → done + finish x ≡ s.done + finish (record x { place = place; sum = sum; count = count })
        → Inv fs ahead' extra' (record s {
          nodes = set s.nodes i (record x { place = place; sum = sum; count = count });
          total_sum = total_sum;
          done = done;
        })
    local place sum count total_sum done others own children still zero_sum conserved summed sums
          finished =
        let x' : Node = record x { place = place; sum = sum; count = count } in
        record {
          shape = map-set_same (λ y. y.fixed) s.nodes i x' at refl ∙ v.shape;
          counts = λ j y h. elim (get_elem?-set_cases s.nodes i j x' y at h) [
            | inl (e, is) ↦
                let base : count ≡ total (arrival i) (set s.nodes i x') + ahead' i =
                  omega (arith, total-set (arrival i) s.nodes i x' at, own, v.counts i x at) in
                subst (λ k. y.count ≡ total (arrival k) (set s.nodes i x') + ahead' k) e
                  (ap (λ z. z.count) (sym is) ∙ base)
            | inr (e, old) ↦
                omega (arith, total-set (arrival j) s.nodes i x' at, others j e, v.counts j y old)
          ];
          gathered = λ j k y z at_j at_k p q ne.
              elim (get_elem?-set_cases s.nodes i j x' y at at_j) [
                | inl (e, is) ↦ elim (get_elem?-set_cases s.nodes i k x' z at at_k) [
                  | inl (f, is') ↦ absurd (ne (sym f ∙ e))
                  | inr (f, old) ↦ children (ap (λ w. passed w.place) is ∙ p) k z old (q ∙ sym e) f
                ]
                | inr (e, old) ↦ elim (get_elem?-set_cases s.nodes i k x' z at at_k) [
                  | inl (f, is') ↦
                      ap (λ w. arrived w.place) (sym is')
                      ∙ still (
                          v.gathered j i y x old at p (ap (λ w. w.fixed.parent) is' ∙ q)
                            (λ w. e (sym w)))
                  | inr (f, old') ↦ v.gathered j k y z old old' p q ne
                ]
              ];
          empty = λ j y h c k. elim (get_elem?-set_cases s.nodes i j x' y at h) [
            | inl (e, is) ↦
                ap (λ z. z.sum) (sym is)
                ∙ zero_sum (ap (λ z. computed z.place) is ∙ c) (ap (λ z. z.fixed.num_child) is ∙ k)
            | inr (e, old) ↦ v.empty j y old c k
          ];
          conserved = omega (
            arith,
            total-set held s.nodes i x' at,
            total-set given s.nodes i x' at,
            conserved,
            v.conserved,
          );
          summed = λ j y h q a. elim (get_elem?-set_cases s.nodes i j x' y at h) [
            | inl (e, is) ↦
                summed (ap (λ z. z.fixed.parent) is ∙ q ∙ sym e) (ap (λ z. arrived z.place) is ∙ a)
                ∙ ap (λ z. z.sum) is
            | inr (e, old) ↦ elim sums [
              | inl same ↦ same ∙ v.summed j y old q a
              | inr root ↦ absurd (
                  e (
                    root_unique j y.fixed (fixed_at s j y v.shape old) q
                    ∙ sym (root_unique i x.fixed (fixed_at s i x v.shape at) root)))
            ]
          ];
          finished = omega (arith, v.finished, finished, total-set finish s.nodes i x' at);
          right = v.right;
        }
