-- ===== src/Foothread/Gentree.antt =====
-- Assignment 7/gentree.c: the random tree that computesum.c reads, as the array P of parents. `draw` is
-- `rand()` in the shuffle and `draw_t` in the loop, by round. P holds anything when it is allocated. An
-- access beyond an array is `none`. The file holds n and the lines of `i` and `P[i]`.
pub mod Laws
mod Tests
use operating_systems_iitkgp.Base.{
  ℕ, zero, suc, ◌+◌, ◌-◌, ◌%◌, ◌<◌, ◌≡◌, ◌≢◌, List, [], ◌∷◌, Option, none, some, ltb, ◌==◌,
  if◌then◌else◌, ◌>>=◌, length, get_elem?, set,
}
use operating_systems_iitkgp.Shuffle.{shuffle}

-- How many children the next parent gets.
pub num_children : ℕ → ℕ → ℕ → ℕ → ℕ
num_children draw nextchild nextparent remaining =
    if ltb 5 remaining
    then (if nextchild == nextparent then 1 + draw % 5 else draw % 5)
    else (if nextchild == nextparent then 1 + draw % remaining else draw % remaining)

module _ (perm : List ℕ) where
  -- `for (i=0; i<t; ++i) { ++nextchild; P[PERM[nextchild]] = PERM[nextparent]; }`
  pub attach : ℕ → ℕ → ℕ → List ℕ → Option (List ℕ)
  attach zero nextchild nextparent p = some p
  attach (suc t) nextchild nextparent p = do
    child ← get_elem? perm (suc nextchild)
    parent ← get_elem? perm nextparent
    old ← get_elem? p child
    attach t (suc nextchild) nextparent (set p child parent)

  -- `while (remaining > 0)`, on fuel.
  pub grow : (ℕ → ℕ) → ℕ → ℕ → ℕ → ℕ → List ℕ → Option (List ℕ)
  unfolding num_children attach
  grow draw_t fuel nextchild nextparent zero p = some p
  grow draw_t zero nextchild nextparent (suc r) p = none
  grow draw_t (suc fuel) nextchild nextparent (suc r) p = do
    next ←
        attach (num_children (draw_t nextparent) nextchild nextparent (suc r)) nextchild nextparent
          p
    grow draw_t fuel (nextchild + num_children (draw_t nextparent) nextchild nextparent (suc r))
        (suc nextparent) (suc r - num_children (draw_t nextparent) nextchild nextparent (suc r))
        next

unfoldable pub gentree : (ℕ → ℕ) → (ℕ → ℕ) → ℕ → List ℕ → Option (List ℕ)
unfolding grow
gentree draw draw_t n p = do
  perm ← shuffle draw n
  root ← get_elem? perm 0
  old ← get_elem? p root
  grow perm draw_t n 0 0 (n - 1) (set p root root)

-- The lines of tree.txt, from vertex `i` on.
unfoldable pub lines : ℕ → List ℕ → List (ℕ × ℕ)
lines i [] = []
lines i (parent ∷ p) = (i, parent) ∷ lines (suc i) p

-- Every vertex below n has a parent below n. The root is its own; every other parent is of lower rank.
pub record IsTree (n : ℕ) (parent : List ℕ) : Type 0 where
  pub size : length parent ≡ n
  pub root : ℕ
  pub rank : ℕ → ℕ
  pub root_self : (root < n) × (get_elem? parent root ≡ some root)
  pub up :
      (i : ℕ)
      → i < n
      → i ≢ root
      → (q : ℕ) × (get_elem? parent i ≡ some q) × (q < n) × (q ≢ i) × (rank q < rank i)
