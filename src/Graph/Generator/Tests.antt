-- ===== src/Graph/Generator/Tests.antt =====
-- The theorems about gengraph.c at a concrete run.
use operating_systems_iitkgp.Base.{
  ℕ, ◌≡◌, refl, Bool, true, false, List, [], ◌∷◌, some, length, ◌==◌,
}
use operating_systems_iitkgp.Graph.Acyclic.{Acyclic}
use operating_systems_iitkgp.Shuffle.{shuffle}
use operating_systems_iitkgp.Graph.Generator.{set_entry, gengraph}
use operating_systems_iitkgp.Graph.Generator.Acyclic.{gengraph-Acyclic}

-- What the matrix holds before.
abbrev dirty : List (List Bool)
dirty = (true ∷ true ∷ true ∷ []) ∷ (false ∷ true ∷ true ∷ []) ∷ (true ∷ true ∷ true ∷ []) ∷ []

abbrev edges : ℕ → ℕ → Bool
edges i j = j == 2

abbrev matrix : List (List Bool)
matrix =
    (false ∷ false ∷ false ∷ []) ∷ (true ∷ false ∷ false ∷ []) ∷ (true ∷ false ∷ false ∷ []) ∷ []

gengraph_run : gengraph (λ i. 1) edges 3 dirty ≡ some matrix
unfolding gengraph shuffle set_entry
gengraph_run = refl

gengraph-Acyclic_example :
    (b : List (List Bool)) × (rank : ℕ → ℕ) × (gengraph (λ i. 1) edges 3 dirty ≡ some b)
    × (length b ≡ 3)
    × Acyclic b rank
gengraph-Acyclic_example =
    gengraph-Acyclic (λ i. 1) edges 3 dirty (refl, (refl, (refl, (refl, tt))))
