-- ===== src/Graph/Generator.antt =====
-- Assignment 5/gengraph.c: the random graph that the boss reads. `draw` is `rand()` in the shuffle, and
-- `edge i j` the outcome of the test against `p` for the places i < j. The matrix holds anything when it
-- is allocated. A write beyond it changes nothing; the entries of PERM are below n.
pub mod Ranks
pub mod Acyclic
mod Tests
use operating_systems_iitkgp.Base.{
  ℕ, zero, suc, Bool, false, List, [], ◌∷◌, Option, none, some, ◌>>=◌, set,
}
use operating_systems_iitkgp.Shuffle.{shuffle}

pub set_entry : List (List Bool) → ℕ → ℕ → Bool → List (List Bool)
set_entry [] u v b = []
set_entry (row ∷ a) zero v b = set row v b ∷ a
set_entry (row ∷ a) (suc u) v b = row ∷ set_entry a u v b

module _ (edge : ℕ → ℕ → Bool) where
  -- The loop over j, where `u` is PERM[i] and `vs` is PERM from `j` on.
  pub fill_row : ℕ → ℕ → ℕ → List ℕ → List (List Bool) → List (List Bool)
  fill_row i u j [] a = a
  fill_row i u j (v ∷ vs) a =
      fill_row i u (suc j) vs (set_entry (set_entry a u v (edge i j)) v u false)

  -- The loop over i, where `us` is PERM from `i` on.
  pub fill_rows : ℕ → List ℕ → List (List Bool) → List (List Bool)
  unfolding fill_row
  fill_rows i [] a = a
  fill_rows i (u ∷ us) a = fill_rows (suc i) us (fill_row i u (suc i) us (set_entry a i i false))

pub gengraph : (ℕ → ℕ) → (ℕ → ℕ → Bool) → ℕ → List (List Bool) → Option (List (List Bool))
unfolding fill_rows
gengraph draw edge n a = do perm ← shuffle draw n; some (fill_rows edge 0 perm a)
