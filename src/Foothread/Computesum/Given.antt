-- ===== src/Foothread/Computesum/Given.antt =====
-- What computesum.c has read is the tree that gentree.c has made.
use mathlib.Core.Option.{some-injective}
use operating_systems_iitkgp.Base.{
  ltb, none, false, ◌≤◌, refl, inl, inr, Bool-cases, ℕ, zero, suc, ◌+◌, ◌<◌, ◌≡◌, ◌≢◌, refl, sym,
  ap, subst, ◌∙◌, List, [], ◌∷◌, some, arith, ◌==◌, if◌then◌else◌, length, length-map, get_elem?,
  get_elem?-lt, get_elem?-some, get_elem?-unmap, total, inl, inr, Bool-cases,
}
use operating_systems_iitkgp.Foothread.Gentree.{lines, IsTree}
use operating_systems_iitkgp.Foothread.Computesum.{load_tree, max_nodes, Fixed, Node, blank, blanks}
use operating_systems_iitkgp.Foothread.Computesum.Weights.{child_of, Shape, fixed_of, leaf_value}
use operating_systems_iitkgp.Foothread.Computesum.Totals.{IsFresh}
use operating_systems_iitkgp.Foothread.Computesum.Reading.{
  child_line, IsRead, AllRead, read_lines-AllRead,
}

length-blanks : (value : ℕ → ℕ) (k i : ℕ) → length (blanks value k i) ≡ k
unfolding blanks
length-blanks value zero i = refl
length-blanks value (suc k) i = ap suc (length-blanks value k (suc i))

get_elem?-blanks :
    (value : ℕ → ℕ) (k i j : ℕ) {x : Node}
    → get_elem? (blanks value k i) j ≡ some x
    → x ≡ blank (i + j) (value (i + j))
unfolding blanks
get_elem?-blanks value zero i j h = cc
get_elem?-blanks value (suc k) i zero {x} h =
    let e : i ≡ i + 0 = omega arith in
    sym (some-injective (blank i (value i)) x h) ∙ ap (λ n. blank n (value n)) e
get_elem?-blanks value (suc k) i (suc j) h =
    let e : suc i + j ≡ i + suc j = omega arith in
    get_elem?-blanks value k (suc i) j h ∙ ap (λ n. blank n (value n)) e

-- What is counted over the vertices read and over the lines.
total-lines :
    (g : Fixed → ℕ) (h : ℕ × ℕ → ℕ) (k : ℕ) (fs : List Fixed) (q : List ℕ)
    → length fs ≡ length q
    → ((j : ℕ) (f : Fixed) (p : ℕ)
        → get_elem? fs j ≡ some f
        → get_elem? q j ≡ some p
        → g f ≡ h (k + j, p))
    → total g fs ≡ total h (lines k q)
unfolding lines
total-lines g h k [] [] size at = refl
total-lines g h k [] (p ∷ q) size at = absurd (omega arith)
total-lines g h k (f ∷ fs) [] size at = absurd (omega arith)
total-lines g h k (f ∷ fs) (p ∷ q) size at =
    let here : k + 0 ≡ k = omega arith in
    let one : g f ≡ h (k, p) = at 0 f p refl refl ∙ ap (λ m. h (m, p)) here in
    let rest = total-lines g h (suc k) fs q (omega arith) (λ j f' p' x y.
      let e : k + suc j ≡ suc k + j = omega arith in
      at (suc j) f' p' x y ∙ ap (λ m. h (m, p')) e) in
    omega (arith, one, rest)

-- The value of a vertex that is nobody's parent.
abbrev leaf_at : (ℕ → ℕ) → List ℕ → ℕ → ℕ
leaf_at value q i = if total (child_line i) (lines 0 q) == 0 then value i else 0

-- The sum of the values of the vertices that are nobody's parent.
unfoldable pub leaf_sum : (ℕ → ℕ) → List ℕ → ℕ
leaf_sum value q = total (λ (i, p). leaf_at value q i) (lines 0 q)

-- Only a tree that the arrays have room for is read.
pub load_tree-fits :
    (value : ℕ → ℕ) (n : ℕ) (q : List ℕ) (nodes : List Node)
    → load_tree value n (lines 0 q) ≡ some nodes
    → n ≤ max_nodes
unfolding load_tree
load_tree-fits value n q nodes h = elim (Bool-cases (ltb max_nodes n)) [
  | inl over ↦ let no : load_tree value n (lines 0 q) ≡ none = rw (over) refl in cc
  | inr fits ↦ ground arith
]

module _ (n : ℕ) (q : List ℕ) (t : IsTree n q) (value : ℕ → ℕ) where
  parent_below : (i p : ℕ) → get_elem? q i ≡ some p → p < n
  parent_below i p at =
      let low : i < n = omega (arith, get_elem?-lt q i at, t.size) in
      elim (Bool-cases (i == t.root)) [
        | inl y ↦
            let e : i ≡ t.root = ground arith in
            let same : t.root ≡ p =
              some-injective t.root p (sym t.root_self.1 ∙ ap (get_elem? q) (sym e) ∙ at) in
            subst (λ v. v < n) same t.root_self.0
        | inr z ↦
            let ne : i ≢ t.root = λ e. ground arith in
            let (p', at', low', _, _) = t.up i low ne in
            subst (λ v. v < n) (some-injective p' p (sym at' ∙ at)) low'
      ]

  pub read_tree :
      n ≤ max_nodes
      → (nodes : List Node) × (load_tree value n (lines 0 q) ≡ some nodes)
        × (length nodes ≡ n)
        × AllRead value q n [] nodes
  unfolding load_tree
  read_tree few =
      let room : ltb max_nodes n ≡ false = ground arith in
      let size : length (blanks value n 0) ≡ n = length-blanks value n 0 in
      let all : AllRead value q 0 q (blanks value n 0) = λ i x h.
        let is : x ≡ blank (0 + i) (value (0 + i)) = get_elem?-blanks value n 0 i h in
        subst (IsRead value q 0 q i) (sym is) (record {
          fresh = (refl, refl, refl);
          id_is = omega arith;
          value_is = ap value (omega arith);
          parent_is = λ low. absurd (omega arith);
          kids = omega arith;
        }) in
      let (nodes, eq, same, read) =
        read_lines-AllRead value q 0 q (blanks value n 0) all
          (λ j p h.
            let e : j ≡ 0 + j = omega arith in
            (ap (get_elem? q) (sym e) ∙ h, omega (arith, parent_below j p h, size)))
          (omega (arith, size, t.size)) in
      (nodes, rw (room) eq, same ∙ size, subst (λ m. AllRead value q m [] nodes) size read)

  module _ (nodes : List Node) (size : length nodes ≡ n) (all : AllRead value q n [] nodes) where
    fixed_read :
        (i : ℕ) (f : Fixed)
        → get_elem? (fixed_of nodes) i ≡ some f
        → (f.id ≡ i)
          × (get_elem? q i ≡ some f.parent)
          × (f.num_child ≡ total (child_line i) (lines 0 q))
    unfolding lines
    fixed_read i f at =
        let (x, there, is) = get_elem?-unmap (λ v. v.fixed) nodes i at in
        let r = all i x there in
        (
          ap (λ g. g.id) (sym is) ∙ r.id_is,
          r.parent_is (omega (arith, get_elem?-lt nodes i there, size))
              ∙ ap (λ g. some g.parent) is,
          omega (arith, r.kids, ap (λ g. g.num_child) is),
        )

    pub read-Shape : Shape (fixed_of nodes)
    read-Shape = record {
      ids = λ i f at. (fixed_read i f at).0;
      kids = λ i f at.
          (fixed_read i f at).2
          ∙ sym (
              total-lines (child_of i) (child_line i) 0 (fixed_of nodes) q
                (length-map (λ v. v.fixed) nodes ∙ size ∙ sym t.size)
                (λ j g p h y.
                  let (x, y', _) = fixed_read j g h in
                  let e : g.parent ≡ p = some-injective g.parent p (sym y' ∙ y) in ground arith));
      root = t.root;
      rank = t.rank;
      root_self =
          (let (x, at) =
              get_elem?-some (fixed_of nodes) t.root
                (omega (arith, t.root_self.0, size, length-map (λ v. v.fixed) nodes)) in
            let (_, par, _) = fixed_read t.root x at in
            (x, at, some-injective x.parent t.root (sym par ∙ t.root_self.1)));
      up = λ i f at ne.
          let (_, par, _) = fixed_read i f at in
          let low : i < n =
            omega
              (arith, get_elem?-lt (fixed_of nodes) i at, length-map (λ v. v.fixed) nodes, size) in
          let (p, at', low', apart, lower) = t.up i low ne in
          let same : p ≡ f.parent = some-injective p f.parent (sym at' ∙ par) in
          let (g, at_g) =
            get_elem?-some (fixed_of nodes) p
              (omega (arith, low', size, length-map (λ v. v.fixed) nodes)) in
          (
            g,
            ap (get_elem? (fixed_of nodes)) (sym same) ∙ at_g,
            λ e. apart (same ∙ e),
            subst (λ m. t.rank m < t.rank i) same lower,
          );
    }

    pub read-IsFresh : IsFresh nodes
    read-IsFresh k x h = (all k x h).fresh

    pub read-leaf_sum : total leaf_value (fixed_of nodes) ≡ leaf_sum value q
    unfolding leaf_sum
    read-leaf_sum =
        total-lines leaf_value _ 0 (fixed_of nodes) q
          (length-map (λ v. v.fixed) nodes ∙ size ∙ sym t.size)
          (λ j g p h y.
            let (x, at, is) = get_elem?-unmap (λ v. v.fixed) nodes j h in
            let v : g.value ≡ value j = ap (λ f. f.value) (sym is) ∙ (all j x at).value_is in
            let (_, _, kids) = fixed_read j g h in
            let e : j ≡ 0 + j = omega arith in
            let here : leaf_value g ≡ leaf_at value q j = ground arith in
            here ∙ ap (leaf_at value q) e)
