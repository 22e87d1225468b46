-- ===== src/Shuffle.antt =====
-- The shuffle at the start of "Assignment 5/gengraph.c" and of "Assignment 7/gentree.c": the loop that
-- fills PERM with 0, 1, ... and the loop that swaps each entry with one that is not before it. `draw i`
-- is the value of `rand()` in round i.
pub mod Laws
use operating_systems_iitkgp.Base.{
  ℕ, zero, suc, ◌+◌, ◌-◌, ◌%◌, List, [], ◌∷◌, Option, none, some, ◌>>=◌, get_elem?, set,
}

-- `for (i=0; i<n; ++i) PERM[i] = i`, the entries from `i` on.
pub identity : ℕ → ℕ → List ℕ
identity zero i = []
identity (suc k) i = i ∷ identity k (suc i)

-- `t = PERM[i]; PERM[i] = PERM[j]; PERM[j] = t`. An access beyond PERM is `none`.
pub exchange : List ℕ → ℕ → ℕ → Option (List ℕ)
exchange perm i j = do t ← get_elem? perm i; u ← get_elem? perm j; some (set (set perm i u) j t)

-- The rounds from `i` on, of which `k` are left.
pub swap_rounds : (ℕ → ℕ) → ℕ → ℕ → List ℕ → Option (List ℕ)
unfolding exchange
swap_rounds draw zero i perm = some perm
swap_rounds draw (suc k) i perm = do
  next ← exchange perm i (i + draw i % suc k)
  swap_rounds draw k (suc i) next

unfoldable pub shuffle : (ℕ → ℕ) → ℕ → Option (List ℕ)
unfolding identity swap_rounds
shuffle draw n = swap_rounds draw n 0 (identity n 0)
