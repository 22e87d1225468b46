-- ===== src/Foothread/Gentree/Laws.antt =====
-- gentree.c makes a tree.
use mathlib.Core.Option.{some-injective}
use operating_systems_iitkgp.Base.{
  ℕ, zero, suc, ◌+◌, ◌-◌, ◌%◌, ◌≤◌, ◌<◌, ◌≡◌, ◌≢◌, refl, sym, ap, subst, ◌∙◌, ◌⊎◌, inl, inr, List,
  some, arith, ◌==◌, length, length-set, get_elem?, get_elem?-lt, get_elem?-some,
  get_elem?-set_self, get_elem?-set_ne, set, Bool-cases,
}
use operating_systems_iitkgp.Shuffle.Laws.{
  IsPermutation, shuffle-IsPermutation, place_of, place_of-IsPermutation, IsPermutation-place,
  below,
}
use operating_systems_iitkgp.Foothread.Gentree.{num_children, attach, grow, gentree, IsTree}

-- At least one child for the last vertex that can have any, and never too many.
num_children-bounds :
    (draw nextchild nextparent r : ℕ)
    → (num_children draw nextchild nextparent (suc r) ≤ suc r)
      × ((nextchild ≡ nextparent) → 0 < num_children draw nextchild nextparent (suc r))
unfolding num_children
num_children-bounds draw nextchild nextparent r =
    let few : draw % 5 < 5 = omega arith in
    let fewer : draw % suc r < suc r = omega arith in (ground arith, λ e. ground arith)

module _ (n : ℕ) (perm : List ℕ) (ip : IsPermutation n perm) where
  -- The vertex at a place has its parent at an earlier place, or is the root.
  abbrev Placed : List ℕ → ℕ → Type 0
  Placed p c =
      (v : ℕ)
      → get_elem? perm c ≡ some v
      → (d : ℕ) × (q : ℕ) × (get_elem? perm d ≡ some q)
        × (get_elem? p v ≡ some q)
        × (((c ≡ 0) × (d ≡ 0)) ⊎ (d < c))

  abbrev Grown : List ℕ → ℕ → Type 0
  Grown p nextchild = (length p ≡ n) × ((c : ℕ) → c ≤ nextchild → Placed p c)

  apart : (c d u v : ℕ) → get_elem? perm c ≡ some u → get_elem? perm d ≡ some v → c ≢ d → u ≢ v
  apart c d u v at_c at_d ne e = ne (
      sym (place_of-IsPermutation n perm c u ip at_c)
      ∙ ap (λ x. place_of x 0 perm) e
      ∙ place_of-IsPermutation n perm d v ip at_d)

  attach-Grown :
      (t nextchild nextparent : ℕ) (p : List ℕ)
      → Grown p nextchild
      → nextparent ≤ nextchild
      → nextchild + t < n
      → (q : List ℕ) × (attach perm t nextchild nextparent p ≡ some q) × Grown q (nextchild + t)
  unfolding attach
  attach-Grown zero nextchild nextparent p g low room =
      let e : nextchild ≡ nextchild + 0 = omega arith in (p, refl, subst (Grown p) e g)
  attach-Grown (suc t) nextchild nextparent p (size, placed) low room =
      let (child, at_child) = get_elem?-some perm (suc nextchild) (omega (arith, ip.size)) in
      let (parent, at_parent) = get_elem?-some perm nextparent (omega (arith, ip.size)) in
      let (old, at_old) =
        get_elem?-some p child
          (omega (arith, size, below n perm ip (suc nextchild) child at_child)) in
      let p' : List ℕ = set p child parent in
      let new : (c : ℕ) → c ≤ suc nextchild → Placed p' c = λ c h v at.
        elim (Bool-cases (c == suc nextchild)) [
          | inl y ↦
              let e : c ≡ suc nextchild = ground arith in
              let same : child ≡ v =
                some-injective child v (sym at_child ∙ ap (λ k. get_elem? perm k) (sym e) ∙ at) in
              (
                nextparent,
                parent,
                at_parent,
                ap (λ k. get_elem? p' k) (sym same)
                    ∙ get_elem?-set_self p child parent (get_elem?-lt p child at_old),
                inr (omega arith),
              )
          | inr z ↦
              let ne : suc nextchild ≢ c = λ q. ground arith in
              let (d, q, at_d, at_v, order) = placed c (ground arith) v at in
              (
                d,
                q,
                at_d,
                get_elem?-set_ne p child v parent (apart (suc nextchild) c child v at_child at ne)
                    ∙ at_v,
                order,
              )
        ] in
      let (q, eq, g) =
        attach-Grown t (suc nextchild) nextparent p' (length-set p child parent ∙ size, new)
          (omega arith) (omega arith) in
      let e : suc nextchild + t ≡ nextchild + suc t = omega arith in
      (q, rw (at_child, at_parent, at_old) eq, subst (Grown q) e g)

  grow-Grown :
      (draw_t : ℕ → ℕ) (fuel nextchild nextparent remaining : ℕ) (p : List ℕ)
      → Grown p nextchild
      → nextparent ≤ nextchild
      → nextchild + remaining + 1 ≡ n
      → n ≤ fuel + nextparent + 1
      → (q : List ℕ) × (grow perm draw_t fuel nextchild nextparent remaining p ≡ some q)
        × Grown q (n - 1)
  unfolding grow
  grow-Grown draw_t fuel nextchild nextparent zero p g low room enough =
      let e : nextchild ≡ n - 1 = omega arith in (p, refl, subst (Grown p) e g)
  grow-Grown draw_t zero nextchild nextparent (suc r) p g low room enough = absurd (omega arith)
  grow-Grown draw_t (suc fuel) nextchild nextparent (suc r) p g low room enough =
      let t : ℕ = num_children (draw_t nextparent) nextchild nextparent (suc r) in
      let (few, some_child) = num_children-bounds (draw_t nextparent) nextchild nextparent r in
      let (next, eq, g') = attach-Grown t nextchild nextparent p g low (omega arith) in
      let low' : suc nextparent ≤ nextchild + t = elim (Bool-cases (nextchild == nextparent)) [
        | inl y ↦ omega (arith, some_child (ground arith))
        | inr z ↦ let ne : nextchild ≢ nextparent = λ q. ground arith in omega arith
      ] in
      let (q, done, g'') =
        grow-Grown draw_t fuel (nextchild + t) (suc nextparent) (suc r - t) next g' low'
          (omega arith) (omega arith) in
      (q, rw (eq) done, g'')

  Grown-IsTree :
      (p : List ℕ) (root : ℕ) → get_elem? perm 0 ≡ some root → Grown p (n - 1) → IsTree n p
  Grown-IsTree p root at_root (size, placed) =
      let (d, q, at_d, at_v, order) = placed 0 (omega arith) root at_root in
      let first : d ≡ 0 = elim order [ inl (e, f) ↦ f | inr low ↦ absurd (omega arith) ] in
      let same : q ≡ root =
        some-injective q root (sym at_d ∙ ap (λ k. get_elem? perm k) first ∙ at_root) in
      record {
        size = size;
        root = root;
        rank = λ v. place_of v 0 perm;
        root_self = (below n perm ip 0 root at_root, at_v ∙ ap some same);
        up = λ i low ne.
            let (c, at_c) = IsPermutation-place n perm i ip low in
            let inside : c ≤ n - 1 = omega (arith, get_elem?-lt perm c at_c, ip.size) in
            let (e, r, at_e, at_i, before) = placed c inside i at_c in
            let lower : e < c = elim before [
              | inl (z, _) ↦
                  absurd
                    (ne (some-injective i root (sym at_c ∙ ap (λ k. get_elem? perm k) z ∙ at_root)))
              | inr low ↦ low
            ] in
            (
              r,
              at_i,
              below n perm ip e r at_e,
              apart e c r i at_e at_c (λ z. omega arith),
              omega (
                arith,
                lower,
                place_of-IsPermutation n perm e r ip at_e,
                place_of-IsPermutation n perm c i ip at_c,
              ),
            );
      }

-- For at least one vertex, and whatever `rand()` returns and P held before: gentree.c ends, within its
-- arrays and for the fuel given, and its array of parents is a tree.
pub gentree-IsTree :
    (draw draw_t : ℕ → ℕ) (n : ℕ) (p : List ℕ)
    → 0 < n
    → length p ≡ n
    → (q : List ℕ) × (gentree draw draw_t n p ≡ some q) × IsTree n q
unfolding gentree
gentree-IsTree draw draw_t n p h size =
    let (perm, eq, ip) = shuffle-IsPermutation draw n in
    let (root, at_root) = get_elem?-some perm 0 (omega (arith, ip.size)) in
    let (old, at_old) =
      get_elem?-some p root (omega (arith, size, below n perm ip 0 root at_root)) in
    let p0 : List ℕ = set p root root in
    let first : (c : ℕ) → c ≤ 0 → Placed n perm ip p0 c = λ c low v at.
      let e : c ≡ 0 = omega arith in
      let same : root ≡ v =
        some-injective root v (sym at_root ∙ ap (λ k. get_elem? perm k) (sym e) ∙ at) in
      (
        0,
        root,
        at_root,
        ap (λ k. get_elem? p0 k) (sym same)
            ∙ get_elem?-set_self p root root (get_elem?-lt p root at_old),
        inl (e, refl),
      ) in
    let (q, ran, grown) =
      grow-Grown n perm ip draw_t n 0 0 (n - 1) p0 (length-set p root root ∙ size, first)
        (omega arith) (omega arith) (omega arith) in
    (q, rw (eq, at_root, at_old) ran, Grown-IsTree n perm ip q root at_root grown)
