-- ===== src/Foothread/Computesum/Weights.antt =====
-- What is counted about the threads of computesum.c, and the shape of the tree.
use operating_systems_iitkgp.Base.{
  ℕ, ◌+◌, ◌<◌, ◌≡◌, ◌≢◌, Bool, true, false, List, some, ◌==◌, if◌then◌else◌, get_elem?, total, map,
}
use operating_systems_iitkgp.Foothread.Computesum.{
  Fixed, Place, arrives, waits_children, computes, notifies, waits_parent, exited, Node, Main,
  before, waits, printed, Tree,
}

-- Past the arrival at the own barrier, past that barrier, past the section on the own sum, past that on
-- the parent's, past the arrival at the parent's barrier.
abbrev pub entered : Place → Bool
entered arrives = false
entered _ = true

abbrev pub passed : Place → Bool
passed arrives = false
passed waits_children = false
passed _ = true

abbrev pub computed : Place → Bool
computed arrives = false
computed waits_children = false
computed computes = false
computed _ = true

abbrev pub added : Place → Bool
added notifies = true
added waits_parent = true
added exited = true
added _ = false

abbrev pub arrived : Place → Bool
arrived waits_parent = true
arrived exited = true
arrived _ = false

-- An arrival at the barrier of vertex `p`: by the vertex itself or by a child.
abbrev pub arrival : ℕ → Node → ℕ
arrival p v =
    if v.fixed.id == p
    then (if entered v.place then 1 else 0)
    else if v.fixed.parent == p
    then (if arrived v.place then 1 else 0)
    else 0

abbrev pub child_of : ℕ → Fixed → ℕ
child_of p f = if f.id == p then 0 else if f.parent == p then 1 else 0

abbrev pub itself : ℕ → Fixed → ℕ
itself p f = if f.id == p then 1 else 0

-- The sum that a thread has still to hand on. The root keeps its own.
abbrev pub held : Node → ℕ
held v = if v.fixed.parent == v.fixed.id then v.sum else if added v.place then 0 else v.sum

-- The number at a leaf, and what of it has been entered.
abbrev pub leaf_value : Fixed → ℕ
leaf_value f = if f.num_child == 0 then f.value else 0

abbrev pub given : Node → ℕ
given v = if computed v.place then leaf_value v.fixed else 0

-- An arrival at `computation_done`.
abbrev pub finish : Node → ℕ
finish v = if v.fixed.parent == v.fixed.id then (if arrived v.place then 1 else 0) else 0

abbrev pub main_arrived : Main → ℕ
main_arrived before = 0
main_arrived waits = 1
main_arrived (printed x) = 1

-- The vertices of a tree: each knows its number and how many children it has, and from each one the
-- parents lead to the root.
pub record Shape (fs : List Fixed) : Type 0 where
  pub ids : (i : ℕ) (f : Fixed) → get_elem? fs i ≡ some f → f.id ≡ i
  pub kids : (i : ℕ) (f : Fixed) → get_elem? fs i ≡ some f → f.num_child ≡ total (child_of i) fs
  pub root : ℕ
  pub rank : ℕ → ℕ
  pub root_self : (r : Fixed) × (get_elem? fs root ≡ some r) × (r.parent ≡ root)
  pub up :
      (i : ℕ) (f : Fixed)
      → get_elem? fs i ≡ some f
      → i ≢ root
      → (g : Fixed) × (get_elem? fs f.parent ≡ some g) × (f.parent ≢ i) × (rank f.parent < rank i)

abbrev pub fixed_of : List Node → List Fixed
fixed_of nodes = map (λ v. v.fixed) nodes

-- `ahead` and `extra` are 0 between steps: within a step, the count of a barrier may be ahead of its
-- arrivals, and a sum may stand for two.
pub record Inv (fs : List Fixed) (ahead : ℕ → ℕ) (extra : ℕ) (s : Tree) : Type 0 where
  pub shape : fixed_of s.nodes ≡ fs
  pub counts :
      (i : ℕ) (v : Node)
      → get_elem? s.nodes i ≡ some v
      → v.count ≡ total (arrival i) s.nodes + ahead i
  pub gathered :
      (i j : ℕ) (v u : Node)
      → get_elem? s.nodes i ≡ some v
      → get_elem? s.nodes j ≡ some u
      → passed v.place ≡ true
      → u.fixed.parent ≡ i
      → j ≢ i
      → arrived u.place ≡ true
  pub empty :
      (i : ℕ) (v : Node)
      → get_elem? s.nodes i ≡ some v
      → computed v.place ≡ false
      → v.fixed.num_child ≡ 0
      → v.sum ≡ 0
  pub conserved : total held s.nodes ≡ total given s.nodes + extra
  pub summed :
      (i : ℕ) (v : Node)
      → get_elem? s.nodes i ≡ some v
      → v.fixed.parent ≡ i
      → arrived v.place ≡ true
      → s.total_sum ≡ v.sum
  pub finished : s.done ≡ total finish s.nodes + main_arrived s.main
  pub right : (x : ℕ) → s.main ≡ printed x → x ≡ total leaf_value fs
