-- ===== src/Foothread/Computesum/Tests.antt =====
-- The theorems about computesum.c at a concrete run: a root with two leaves.
use mathlib.Core.Option.{some-injective}
use operating_systems_iitkgp.Base.{
  ◌*◌, ◌≤◌, ◌+◌, length, ℕ, zero, suc, ◌<◌, ◌==◌, if◌then◌else◌, ◌≡◌, ◌≢◌, refl, sym, subst, ◌∙◌,
  ◌⊎◌, inl, inr, List, [], ◌∷◌, Option, none, some, arith, ◌>>=◌, get_elem?, Option-cases,
}
use operating_systems_iitkgp.Foothread.Gentree.{lines, gentree, IsTree}
use operating_systems_iitkgp.Shuffle.{shuffle}
use operating_systems_iitkgp.Foothread.Computesum.{
  arrives, waits_children, exited, Node, blanks, read_lines, load_tree, printed, Tree, start_tree,
  compute_sum, run_main, Reach, start, threads, mains,
}
use operating_systems_iitkgp.Foothread.Computesum.Given.{leaf_sum}
use operating_systems_iitkgp.Foothread.Computesum.Whole.{tree_sum, tree_ends, gentree-load_tree}

-- A step of the thread of a vertex, or of the main thread (`none`), and several of them.
abbrev act : Tree → Option ℕ → Option Tree
act s none = run_main s
act s (some i) = compute_sum s i

abbrev acts : List (Option ℕ) → Tree → Option Tree
acts [] s = some s
acts (x ∷ xs) s = act s x >>= acts xs

act-Reach :
    (nodes : List Node) (k : ℕ) (s s' : Tree) (x : Option ℕ)
    → Reach nodes k s
    → act s x ≡ some s'
    → Reach nodes (suc k) s'
act-Reach nodes k s s' none r h = mains r h
act-Reach nodes k s s' (some i) r h = threads i r h

acts-Reach :
    (nodes : List Node) (xs : List (Option ℕ)) (k : ℕ) (s s' : Tree)
    → Reach nodes k s
    → acts xs s ≡ some s'
    → Reach nodes (length xs + k) s'
acts-Reach nodes [] k s s' r h =
    let e : k ≡ 0 + k = omega arith in
    subst (λ m. Reach nodes m s') e (subst (Reach nodes k) (some-injective s s' h) r)
acts-Reach nodes (x ∷ xs) k s s' r h = elim (Option-cases (act s x)) [
  | inl z ↦ let stays : acts (x ∷ xs) s ≡ none = rw (z) refl in cc
  | inr (m, z) ↦
      let went : acts (x ∷ xs) s ≡ acts xs m = rw (z) refl in
      let e : length xs + suc k ≡ length (x ∷ xs) + k = omega arith in
      subst (λ n. Reach nodes n s') e
        (acts-Reach nodes xs (suc k) m s' (act-Reach nodes k s m x r z) (sym went ∙ h))
]

-- Vertex 1 is the parent of all.
abbrev parents : List ℕ
parents = 1 ∷ 1 ∷ 1 ∷ []

abbrev entered_for : ℕ → ℕ
entered_for zero = 5
entered_for (suc i) = 7

up_at :
    (i : ℕ)
    → i < 3
    → i ≢ 1
    → (q : ℕ) × (get_elem? parents i ≡ some q)
      × (q < 3)
      × (q ≢ i)
      × ((if q == 1 then 0 else 1) < (if i == 1 then 0 else 1))
up_at zero h n = (1, refl, omega arith, (λ e. omega (arith, e)), omega arith)
up_at (suc zero) h n = absurd (n refl)
up_at (suc (suc zero)) h n = (1, refl, omega arith, (λ e. omega (arith, e)), omega arith)
up_at (suc (suc (suc i))) h n = absurd (omega arith)

parents-IsTree : IsTree 3 parents
parents-IsTree = record {
  size = refl;
  root = 1;
  rank = λ i. if i == 1 then 0 else 1;
  root_self = (omega arith, refl);
  up = up_at;
}

abbrev vertex : ℕ → ℕ → ℕ → Node
vertex id num_child value = record {
  fixed = record { id = id; parent = 1; num_child = num_child; value = value };
  place = arrives;
  sum = 0;
  count = 0;
}

abbrev family : List Node
family = vertex 0 0 5 ∷ vertex 1 2 7 ∷ vertex 2 0 7 ∷ []

read_run : load_tree entered_for 3 (lines 0 parents) ≡ some family
unfolding load_tree read_lines lines blanks
read_run = refl

made_run : gentree (λ i. if i == 0 then 1 else 0) (λ i. 1) 3 (9 ∷ 9 ∷ 9 ∷ []) ≡ some parents
unfolding gentree shuffle
made_run = refl

-- The root arrives first and waits, the leaves take turns, and everybody leaves.
abbrev turns : List (Option ℕ)
turns =
    some 1
    ∷ some 2
    ∷ some 0
    ∷ none
    ∷ some 2
    ∷ some 0
    ∷ some 2
    ∷ some 0
    ∷ some 0
    ∷ some 2
    ∷ some 0
    ∷ some 2
    ∷ some 1
    ∷ some 1
    ∷ some 1
    ∷ some 1
    ∷ some 1
    ∷ none
    ∷ some 0
    ∷ some 2
    ∷ []

abbrev end_of : ℕ → ℕ → ℕ → ℕ → ℕ → Node
end_of id num_child value sum count = record {
  fixed = record { id = id; parent = 1; num_child = num_child; value = value };
  place = exited;
  sum = sum;
  count = count;
}

abbrev ended : Tree
ended = record {
  nodes = end_of 0 0 5 5 1 ∷ end_of 1 2 7 12 3 ∷ end_of 2 0 7 7 1 ∷ [];
  total_sum = 12;
  done = 2;
  main = printed 12;
}

acts_run : acts turns (start_tree family) ≡ some ended
unfolding compute_sum run_main
acts_run = refl

tree_sum_example : 12 ≡ leaf_sum entered_for parents
tree_sum_example =
    tree_sum 3 parents entered_for family 20 ended 12 parents-IsTree read_run
      (acts-Reach family turns 0 (start_tree family) ended start acts_run) refl

-- The root waits for its children.
abbrev early : Tree
early = record (start_tree family) {
  nodes =
      vertex 0 0 5
      ∷ record (vertex 1 2 7) { place = waits_children; count = 1 }
      ∷ vertex 2 0 7
      ∷ [];
}

early_run : acts (some 1 ∷ []) (start_tree family) ≡ some early
unfolding compute_sum
early_run = refl

leaves : leaf_sum entered_for parents ≡ 12
unfolding leaf_sum lines
leaves = refl

tree_ends_example :
    (1 ≤ 6 * 3 + 2)
    × (((x : ℕ) × (early.main ≡ printed x))
        ⊎ (((s' : Tree) × (run_main early ≡ some s'))
            ⊎ ((i : ℕ) × (s' : Tree) × (compute_sum early i ≡ some s'))))
tree_ends_example =
    tree_ends (λ i. if i == 0 then 1 else 0) (λ i. 1) 3 (9 ∷ 9 ∷ 9 ∷ []) parents entered_for family
      1 early (omega arith) refl made_run read_run (omega (arith, leaves))
      (acts-Reach family (some 1 ∷ []) 0 (start_tree family) early start early_run)

gentree-load_tree_example :
    (q : List ℕ) × (nodes : List Node) × (gentree
        (λ i. if i == 0 then 1 else 0)
        (λ i. 1)
        3
        (9 ∷ 9 ∷ 9 ∷ [])
      ≡ some q)
    × IsTree 3 q
    × (load_tree entered_for 3 (lines 0 q) ≡ some nodes)
    × (length nodes ≡ 3)
gentree-load_tree_example =
    gentree-load_tree (λ i. if i == 0 then 1 else 0) (λ i. 1) 3 (9 ∷ 9 ∷ 9 ∷ []) entered_for
      (omega arith) (omega arith) refl
