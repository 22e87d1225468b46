-- ===== src/Foothread/Computesum.antt =====
-- Assignment 7/computesum.c: one thread for each vertex of a tree adds up the numbers at the leaves. A
-- step is one call of a barrier, or one section under the mutexes. Each barrier is used once, and lets
-- its threads pass when as many have arrived as it was initialised with. `value` is what the user enters
-- for a leaf, and is not negative. A sum beyond INT_MAX, and a tree with more vertices than the arrays have entries, is
-- `none`. The end of the threads is foothread_exit.
pub mod Weights
pub mod Local
pub mod Steps
pub mod Parents
pub mod Threads
pub mod Totals
pub mod Reading
pub mod Measure
pub mod Progress
pub mod Given
pub mod Whole
mod Tests
use operating_systems_iitkgp.Base.Int.{int_max}
use operating_systems_iitkgp.Base.{
  ltb, ℕ, zero, suc, ◌+◌, ◌≡◌, Bool, true, false, List, [], ◌∷◌, Option, none, some, ◌==◌,
  if◌then◌else◌, ◌>>=◌, get_elem?, set,
}

-- What the arrays hold for a vertex once the tree has been read, and what will be entered for it.
pub record Fixed : Type 0 where
  pub id : ℕ
  pub parent : ℕ
  pub num_child : ℕ
  pub value : ℕ

-- The next call of a thread: the barrier of its vertex (arriving, and passing), the section on its own
-- sum, that on its parent's, the barrier of the parent or the last one (arriving, and passing).
pub data Place : Type 0 where
  arrives waits_children computes adds notifies waits_parent exited : Place

-- `count` is how many have arrived at the barrier of the vertex.
pub record Node : Type 0 where
  pub fixed : Fixed
  pub place : Place
  pub sum : ℕ
  pub count : ℕ

-- The main thread before `computation_done`, in it, and after the print.
pub data Main : Type 0 where
  before waits : Main
  printed : ℕ → Main

pub record Tree : Type 0 where
  pub nodes : List Node
  pub total_sum : ℕ
  pub done : ℕ
  pub main : Main

abbrev pub blank : ℕ → ℕ → Node
blank id value = record {
  fixed = record { id = id; parent = 0; num_child = 0; value = value };
  place = arrives;
  sum = 0;
  count = 0;
}

-- The vertices from `i` on, before the tree is read.
pub blanks : (ℕ → ℕ) → ℕ → ℕ → List Node
blanks value zero i = []
blanks value (suc k) i = blank i (value i) ∷ blanks value k (suc i)

-- A line of tree.txt. A vertex beyond the arrays is `none`.
pub read_line : ℕ → ℕ → List Node → Option (List Node)
read_line node par nodes = do
  v ← get_elem? nodes node
  let next : List Node = set nodes node (record v { fixed = record v.fixed { parent = par } })
  u ← get_elem? next par
  some (
      if node == par
      then next
      else set next par (record u { fixed = record u.fixed { num_child = u.fixed.num_child + 1 } }))

pub read_lines : List (ℕ × ℕ) → List Node → Option (List Node)
unfolding read_line
read_lines [] nodes = some nodes
read_lines ((node, par) ∷ lines) nodes = do next ← read_line node par nodes; read_lines lines next

-- The arrays have MAX_NODES entries. Of those from `n` on nothing is used.
abbrev pub max_nodes : ℕ
max_nodes = 100

pub load_tree : (ℕ → ℕ) → ℕ → List (ℕ × ℕ) → Option (List Node)
unfolding blanks read_lines
load_tree value n lines = if ltb max_nodes n then none else read_lines lines (blanks value n 0)

module _ (s : Tree) (i : ℕ) (v : Node) where
  abbrev pub moved : Place → Tree
  moved place = record s { nodes = set s.nodes i (record v { place = place }) }

  -- `sum[parent_id] += sum[node_id]`, for a vertex that is not the root.
  pub add : Node → List Node
  add u =
      set (set s.nodes v.fixed.parent (record u { sum = u.sum + v.sum })) i
        (record v { place = notifies })

  -- The arrival at the barrier of the parent.
  pub notify : Node → List Node
  notify u =
      set (set s.nodes v.fixed.parent (record u { count = u.count + 1 })) i
        (record v { place = waits_parent })

  -- A step of the thread of vertex `i`. `none` says that it waits, or that a sum has overflowed.
  pub step_at : Place → Option Tree
  unfolding add notify
  step_at arrives = some (record s {
    nodes = set s.nodes i (record v { place = waits_children; count = v.count + 1 });
  })
  step_at waits_children = if v.count == v.fixed.num_child + 1 then some (moved computes) else none
  step_at computes =
      if v.fixed.num_child == 0
      then some
          (record s { nodes = set s.nodes i (record v { place = adds; sum = v.fixed.value }) })
      else some (moved adds)
  step_at adds = if v.fixed.parent == i then some (moved notifies) else (do
    u ← get_elem? s.nodes v.fixed.parent
    if ltb int_max (u.sum + v.sum) then none else some (record s { nodes = add u }))
  step_at notifies =
      if v.fixed.parent == i
      then some (record (moved waits_parent) { total_sum = v.sum; done = s.done + 1 })
      else (do u ← get_elem? s.nodes v.fixed.parent; some (record s { nodes = notify u }))
  step_at waits_parent =
      if v.fixed.parent == i then (if s.done == 2 then some (moved exited) else none) else (do
        u ← get_elem? s.nodes v.fixed.parent
        if u.count == u.fixed.num_child + 1 then some (moved exited) else none)
  step_at exited = none

pub compute_sum : Tree → ℕ → Option Tree
unfolding step_at
compute_sum s i = do v ← get_elem? s.nodes i; step_at s i v v.place

-- The main thread, from the call of `foothread_barrier_wait(&computation_done)` on.
pub main_at : Tree → Main → Option Tree
main_at s before = some (record s { done = s.done + 1; main = waits })
main_at s waits = if s.done == 2 then some (record s { main = printed s.total_sum }) else none
main_at s (printed x) = none

pub run_main : Tree → Option Tree
unfolding main_at
run_main s = main_at s s.main

abbrev pub start_tree : List Node → Tree
start_tree nodes = record { nodes = nodes; total_sum = 0; done = 0; main = before }

-- What the threads reach from the vertices read, in any order of their steps, with the number of steps.
pub data Reach (nodes : List Node) : ℕ → Tree → Type 0 where
  start : Reach nodes 0 (start_tree nodes)
  threads :
      {k : ℕ} {s s' : Tree} (i : ℕ)
      → Reach nodes k s
      → compute_sum s i ≡ some s'
      → Reach nodes (suc k) s'
  mains : {k : ℕ} {s s' : Tree} → Reach nodes k s → run_main s ≡ some s' → Reach nodes (suc k) s'
