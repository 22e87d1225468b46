-- ===== src/Foothread/Computesum/Whole.antt =====
-- computesum.c on the tree that gentree.c has made.
use mathlib.Core.Option.{some-injective}
use operating_systems_iitkgp.Base.Int.{int_max}
use operating_systems_iitkgp.Base.{
  ◌*◌, ◌⊎◌, ℕ, ◌+◌, ◌<◌, ◌≡◌, ◌≤◌, ◌≢◌, refl, sym, subst, ◌∙◌, List, some, arith, length, inl, inr,
}
use operating_systems_iitkgp.Foothread.Gentree.{lines, IsTree, gentree}
use operating_systems_iitkgp.Foothread.Gentree.Laws.{gentree-IsTree}
use operating_systems_iitkgp.Foothread.Computesum.{
  run_main, compute_sum, Node, load_tree, max_nodes, Tree, Reach, Main, before, waits, printed,
}
use operating_systems_iitkgp.Foothread.Computesum.Totals.{printed_sum}
use operating_systems_iitkgp.Foothread.Computesum.Measure.{Reach-left}
use operating_systems_iitkgp.Foothread.Computesum.Progress.{sum_goes_on}
use operating_systems_iitkgp.Foothread.Computesum.Given.{
  leaf_sum, read_tree, read-Shape, read-IsFresh, read-leaf_sum, load_tree-fits,
}

-- For a tree whose lines have been read, which then has at most MAX_NODES vertices, in any order of the
-- steps of the threads and the main thread, as long as no number entered is negative and no sum goes
-- beyond INT_MAX: what the main thread prints is the sum of what is entered at the leaves of the tree.
pub tree_sum :
    (n : ℕ) (q : List ℕ) (value : ℕ → ℕ) (nodes : List Node) (k : ℕ) (s : Tree) (x : ℕ)
    → IsTree n q
    → load_tree value n (lines 0 q) ≡ some nodes
    → Reach nodes k s
    → s.main ≡ printed x
    → x ≡ leaf_sum value q
tree_sum n q value nodes k s x t read r h =
    let (nodes', read', size, all) = read_tree n q t value (load_tree-fits value n q nodes read) in
    let same : nodes' ≡ nodes = some-injective nodes' nodes (sym read' ∙ read) in
    let r' : Reach nodes' k s = subst (λ v. Reach v k s) (sym same) r in
    printed_sum nodes' k s x (read-Shape n q t value nodes' size all)
      (read-IsFresh n q t value nodes' size all) r' h
    ∙ read-leaf_sum n q t value nodes' size all

-- Whether the main thread has printed.
printed_or_not : (m : Main) → ((x : ℕ) × (m ≡ printed x)) ⊎ ((x : ℕ) → m ≢ printed x)
printed_or_not before = inr (λ x e. cc)
printed_or_not waits = inr (λ x e. cc)
printed_or_not (printed x) = inl (x, refl)

-- Whatever `rand()` returns and P held before, for at least one vertex and at most MAX_NODES: gentree.c
-- ends, within its arrays and for the fuel given, with the parents of a tree, and computesum.c reads the
-- lines that it writes, within its own arrays.
pub gentree-load_tree :
    (draw draw_t : ℕ → ℕ) (n : ℕ) (p : List ℕ) (value : ℕ → ℕ)
    → 0 < n
    → n ≤ max_nodes
    → length p ≡ n
    → (q : List ℕ) × (nodes : List Node) × (gentree draw draw_t n p ≡ some q)
      × IsTree n q
      × (load_tree value n (lines 0 q) ≡ some nodes)
      × (length nodes ≡ n)
gentree-load_tree draw draw_t n p value some_there few room =
    let (q, made, t) = gentree-IsTree draw draw_t n p some_there room in
    let (nodes, read, size, all) = read_tree n q t value few in (q, nodes, made, t, read, size)

-- Whatever `rand()` returns to gentree.c, for at least one vertex and no more than computesum.c has read
-- into its MAX_NODES entries, when no number entered is negative and the sum of the leaves is at most
-- INT_MAX: no order of the steps of computesum.c has more than six for each vertex and two for the main
-- thread, and until the main thread has printed, it or the thread of a vertex can take another one.
pub tree_ends :
    (draw draw_t : ℕ → ℕ) (n : ℕ) (p q : List ℕ) (value : ℕ → ℕ) (nodes : List Node) (k : ℕ)
    (s : Tree)
    → 0 < n
    → length p ≡ n
    → gentree draw draw_t n p ≡ some q
    → load_tree value n (lines 0 q) ≡ some nodes
    → leaf_sum value q ≤ int_max
    → Reach nodes k s
    → (k ≤ 6 * n + 2)
      × (((x : ℕ) × (s.main ≡ printed x))
          ⊎ (((s' : Tree) × (run_main s ≡ some s'))
              ⊎ ((i : ℕ) × (s' : Tree) × (compute_sum s i ≡ some s'))))
tree_ends draw draw_t n p q value nodes k s some_there room made read small r =
    let (q', made', t') = gentree-IsTree draw draw_t n p some_there room in
    let t : IsTree n q = subst (IsTree n) (some-injective q' q (sym made' ∙ made)) t' in
    let (nodes', read', size, all) = read_tree n q t value (load_tree-fits value n q nodes read) in
    let same : nodes' ≡ nodes = some-injective nodes' nodes (sym read' ∙ read) in
    let r' : Reach nodes' k s = subst (λ v. Reach v k s) (sym same) r in
    let fresh = read-IsFresh n q t value nodes' size all in
    (
      omega (arith, Reach-left nodes' k s fresh r', size),
      elim (printed_or_not s.main) [
        | inl done ↦ inl done
        | inr on ↦ inr (
            sum_goes_on nodes' k s (read-Shape n q t value nodes' size all)
              (omega (arith, small, read-leaf_sum n q t value nodes' size all)) fresh r' on)
      ],
    )
