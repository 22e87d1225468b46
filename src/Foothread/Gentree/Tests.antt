-- ===== src/Foothread/Gentree/Tests.antt =====
-- gentree.c at a concrete run.
use operating_systems_iitkgp.Base.{ℕ, ◌≡◌, refl, List, [], ◌∷◌, some}
use operating_systems_iitkgp.Shuffle.{shuffle}
use operating_systems_iitkgp.Foothread.Gentree.{gentree}

-- What P holds before.
abbrev dirty : List ℕ
dirty = 9 ∷ 9 ∷ 9 ∷ 9 ∷ []

gentree_run : gentree (λ i. 1) (λ i. 0) 4 dirty ≡ some (3 ∷ 1 ∷ 1 ∷ 2 ∷ [])
unfolding gentree shuffle
gentree_run = refl
