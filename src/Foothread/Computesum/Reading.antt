-- ===== src/Foothread/Computesum/Reading.antt =====
-- computesum.c reads the tree that gentree.c has written.
use operating_systems_iitkgp.Base.{
  ℕ, suc, ◌+◌, ◌<◌, ◌≡◌, ◌≢◌, refl, sym, ap, subst, ◌∙◌, inl, inr, List, [], ◌∷◌, some, arith, ◌==◌,
  if◌then◌else◌, length, length-set, get_elem?, get_elem?-some, set, total, Bool-cases,
}
use operating_systems_iitkgp.Foothread.Gentree.{lines}
use operating_systems_iitkgp.Foothread.Computesum.{arrives, Node, read_line, read_lines}
use operating_systems_iitkgp.Foothread.Computesum.Local.{get_elem?-set_cases}

-- A line of a child of `i`.
abbrev pub child_line : ℕ → ℕ × ℕ → ℕ
child_line i (node, par) = if node == i then 0 else if par == i then 1 else 0

-- A vertex when the lines before `k` have been read, and `rest` is left.
pub record IsRead (value : ℕ → ℕ) (q : List ℕ) (k : ℕ) (rest : List ℕ) (i : ℕ) (x : Node)
    : Type 0 where
  pub fresh : (x.place ≡ arrives) × (x.sum ≡ 0) × (x.count ≡ 0)
  pub id_is : x.fixed.id ≡ i
  pub value_is : x.fixed.value ≡ value i
  pub parent_is : i < k → get_elem? q i ≡ some x.fixed.parent
  pub kids :
      x.fixed.num_child + total (child_line i) (lines k rest) ≡ total (child_line i) (lines 0 q)

abbrev pub AllRead : (ℕ → ℕ) → List ℕ → ℕ → List ℕ → List Node → Type 0
AllRead value q k rest nodes =
    (i : ℕ) (x : Node) → get_elem? nodes i ≡ some x → IsRead value q k rest i x

abbrev parented : Node → ℕ → Node
parented v par = record v { fixed = record v.fixed { parent = par } }

abbrev with_child : Node → Node
with_child u = record u { fixed = record u.fixed { num_child = u.fixed.num_child + 1 } }

-- Within the reading of a line: the parent is there, the child is not counted yet.
record IsHalf (value : ℕ → ℕ) (q : List ℕ) (k par : ℕ) (rest : List ℕ) (i : ℕ) (x : Node)
    : Type 0 where
  fresh : (x.place ≡ arrives) × (x.sum ≡ 0) × (x.count ≡ 0)
  id_is : x.fixed.id ≡ i
  value_is : x.fixed.value ≡ value i
  parent_is : i < suc k → get_elem? q i ≡ some x.fixed.parent
  kids :
      x.fixed.num_child + (child_line i (k, par) + total (child_line i) (lines (suc k) rest))
      ≡ total (child_line i) (lines 0 q)

module _ (value : ℕ → ℕ) (q : List ℕ) (k par : ℕ) (rest : List ℕ) (nodes : List Node) where
  half :
      (v : Node)
      → AllRead value q k (par ∷ rest) nodes
      → get_elem? q k ≡ some par
      → get_elem? nodes k ≡ some v
      → (i : ℕ) (x : Node) → get_elem? (set nodes k (parented v par)) i ≡ some x
      → IsHalf value q k par rest i x
  unfolding lines
  half v all at_k at_v i x h = elim (get_elem?-set_cases nodes k i _ x at_v h) [
    | inl (e, is) ↦
        let r = all k v at_v in
        let new : IsHalf value q k par rest k (parented v par) = record {
          fresh = r.fresh;
          id_is = r.id_is;
          value_is = r.value_is;
          parent_is = λ low. at_k;
          kids = r.kids;
        } in
        subst (IsHalf value q k par rest i) is
          (subst (λ j. IsHalf value q k par rest j (parented v par)) e new)
    | inr (ne, old) ↦
        let r = all i x old in
        record {
          fresh = r.fresh;
          id_is = r.id_is;
          value_is = r.value_is;
          parent_is = λ low. r.parent_is (omega arith);
          kids = r.kids;
        }
  ]

  -- The root's line counts no child.
  IsRead-root :
      (i : ℕ) (x : Node) → IsHalf value q k par rest i x → k ≡ par → IsRead value q (suc k) rest i x
  IsRead-root i x r e =
      let none_there : child_line i (k, par) ≡ 0 = ground arith in
      record {
        fresh = r.fresh;
        id_is = r.id_is;
        value_is = r.value_is;
        parent_is = r.parent_is;
        kids = omega (arith, r.kids, none_there);
      }

  AllRead-child :
      (u : Node) (one : List Node)
      → ((i : ℕ) (x : Node) → get_elem? one i ≡ some x → IsHalf value q k par rest i x)
      → k ≢ par
      → get_elem? one par ≡ some u
      → AllRead value q (suc k) rest (set one par (with_child u))
  AllRead-child u one all ne at_u i x h = elim (get_elem?-set_cases one par i _ x at_u h) [
    | inl (e, is) ↦
        let r = all par u at_u in
        let one_there : child_line par (k, par) ≡ 1 = ground arith in
        let new : IsRead value q (suc k) rest par (with_child u) = record {
          fresh = r.fresh;
          id_is = r.id_is;
          value_is = r.value_is;
          parent_is = r.parent_is;
          kids = omega (arith, r.kids, one_there);
        } in
        subst (IsRead value q (suc k) rest i) is
          (subst (λ j. IsRead value q (suc k) rest j (with_child u)) e new)
    | inr (apart, old) ↦
        let r = all i x old in
        let none_there : child_line i (k, par) ≡ 0 = ground arith in
        record {
          fresh = r.fresh;
          id_is = r.id_is;
          value_is = r.value_is;
          parent_is = r.parent_is;
          kids = omega (arith, r.kids, none_there);
        }
  ]

  read_line-AllRead :
      AllRead value q k (par ∷ rest) nodes
      → get_elem? q k ≡ some par
      → k < length nodes
      → par < length nodes
      → (next : List Node) × (read_line k par nodes ≡ some next)
        × (length next ≡ length nodes)
        × AllRead value q (suc k) rest next
  unfolding read_line
  read_line-AllRead all at_k low low_par =
      let (v, at_v) = get_elem?-some nodes k low in
      let one : List Node = set nodes k (parented v par) in
      let size : length one ≡ length nodes = length-set nodes k _ in
      let (u, at_u) = get_elem?-some one par (omega (arith, size)) in
      let halves = half v all at_k at_v in
      elim (Bool-cases (k == par)) [
        | inl y ↦
            let root : k ≡ par = ground arith in
            (one, rw (at_v, at_u, y) refl, size, λ i x h. IsRead-root i x (halves i x h) root)
        | inr z ↦
            let ne : k ≢ par = λ e. ground arith in
            (
              set one par (with_child u),
              rw (at_v, at_u, z) refl,
              length-set one par _ ∙ size,
              AllRead-child u one halves ne at_u,
            )
      ]

pub read_lines-AllRead :
    (value : ℕ → ℕ) (q : List ℕ) (k : ℕ) (rest : List ℕ) (nodes : List Node)
    → AllRead value q k rest nodes
    → ((j p : ℕ) → get_elem? rest j ≡ some p → (get_elem? q (k + j) ≡ some p) × (p < length nodes))
    → length nodes ≡ k + length rest
    → (next : List Node) × (read_lines (lines k rest) nodes ≡ some next)
      × (length next ≡ length nodes)
      × AllRead value q (length nodes) [] next
unfolding read_lines lines
read_lines-AllRead value q k [] nodes all at size =
    let e : k ≡ length nodes = omega arith in
    (nodes, refl, refl, subst (λ n. AllRead value q n [] nodes) e all)
read_lines-AllRead value q k (par ∷ rest) nodes all at size =
    let (at_k, low_par) = at 0 par refl in
    let here : k + 0 ≡ k = omega arith in
    let (one, eq, same, all') =
      read_line-AllRead value q k par rest nodes all (ap (get_elem? q) (sym here) ∙ at_k)
        (omega arith) low_par in
    let (next, ran, same', all'') =
      read_lines-AllRead value q (suc k) rest one all'
        (λ j p h.
          let (x, y) = at (suc j) p h in
          let e : suc k + j ≡ k + suc j = omega arith in (ap (get_elem? q) e ∙ x, omega arith))
        (omega arith) in
    (next, rw (eq) ran, same' ∙ same, subst (λ n. AllRead value q n [] next) same all'')
