-- ===== src/Graph/Generator/Acyclic.antt =====
-- The graph that gengraph.c makes has no cycle, so that the workers sort it.
use mathlib.Core.Option.{some-injective}
use operating_systems_iitkgp.Base.{
  ℕ, zero, suc, ◌+◌, ◌<◌, ◌≡◌, ◌≢◌, refl, sym, ap, subst, ◌∙◌, ◌⊎◌, inl, inr, Bool, false, List, [],
  ◌∷◌, some, arith, ltb, length, length-set, get_elem?, get_elem?-lt, All, All-get, Bool-cases,
}
use operating_systems_iitkgp.Shuffle.Laws.{
  IsPermutation, shuffle-IsPermutation, place_of, place_of-IsPermutation, IsPermutation-place,
}
use operating_systems_iitkgp.Graph.{Team, Reach, done, lead, work}
use operating_systems_iitkgp.Graph.Check.{bit}
use operating_systems_iitkgp.Graph.Acyclic.{Acyclic}
use operating_systems_iitkgp.Graph.Progress.{sorting_goes_on}
use operating_systems_iitkgp.Graph.Generator.{set_entry, fill_row, fill_rows, gengraph}
use operating_systems_iitkgp.Graph.Generator.Ranks.{
  Upwards, Increasing, fill_rows-pair, fill_rows-diagonal,
}

-- n rows of n entries.
abbrev pub Square : ℕ → List (List Bool) → Type 0
Square n a = (length a ≡ n) × All (λ row. length row ≡ n) a

set_entry-Square :
    (n x y : ℕ) (b : Bool) (a : List (List Bool))
    → All (λ row. length row ≡ n) a
    → (length (set_entry a x y b) ≡ length a) × All (λ row. length row ≡ n) (set_entry a x y b)
unfolding set_entry
set_entry-Square n x y b [] h = (refl, tt)
set_entry-Square n zero y b (row ∷ a) (h, k) = (refl, (length-set row y b ∙ h, k))
set_entry-Square n (suc x) y b (row ∷ a) (h, k) =
    let (e, f) = set_entry-Square n x y b a k in (ap suc e, (h, f))

entry-Square :
    (n x y : ℕ) (b : Bool) (a : List (List Bool)) → Square n a → Square n (set_entry a x y b)
entry-Square n x y b a (h, k) = let (e, f) = set_entry-Square n x y b a k in (e ∙ h, f)

module _ (edge : ℕ → ℕ → Bool) (n : ℕ) where
  fill_row-Square :
      (i u j : ℕ) (vs : List ℕ) (a : List (List Bool))
      → Square n a
      → Square n (fill_row edge i u j vs a)
  unfolding fill_row
  fill_row-Square i u j [] a h = h
  fill_row-Square i u j (v ∷ vs) a h =
      fill_row-Square i u (suc j) vs _
        (entry-Square n v u false _ (entry-Square n u v (edge i j) a h))

  fill_rows-Square :
      (i : ℕ) (us : List ℕ) (a : List (List Bool)) → Square n a → Square n (fill_rows edge i us a)
  unfolding fill_rows
  fill_rows-Square i [] a h = h
  fill_rows-Square i (u ∷ us) a h =
      fill_rows-Square (suc i) us _
        (fill_row-Square i u (suc i) us _ (entry-Square n i i false a h))

above_all :
    (rank : ℕ → ℕ) (us : List ℕ) (i u : ℕ)
    → rank u < i
    → ((j v : ℕ) → get_elem? us j ≡ some v → rank v ≡ i + j)
    → All (λ v. rank u < rank v) us
above_all rank [] i u h at = tt
above_all rank (x ∷ us) i u h at = (
  omega (arith, at 0 x refl),
  above_all rank us (suc i) u (omega arith) (λ j v k. at (suc j) v k ∙ omega arith),
)

Increasing-places :
    (rank : ℕ → ℕ) (us : List ℕ) (i : ℕ)
    → ((j v : ℕ) → get_elem? us j ≡ some v → rank v ≡ i + j)
    → Increasing rank us
Increasing-places rank [] i at = tt
Increasing-places rank (u ∷ us) i at =
    let next : (j v : ℕ) → get_elem? us j ≡ some v → rank v ≡ suc i + j =
      λ j v k. at (suc j) v k ∙ omega arith in
    (
      above_all rank us (suc i) u (omega (arith, at 0 u refl)) next,
      Increasing-places rank us (suc i) next,
    )

bit-lt : (row : List Bool) (j : ℕ) → 0 < bit row j → j < length row
bit-lt [] j h = absurd (omega arith)
bit-lt (b ∷ row) zero h = omega arith
bit-lt (b ∷ row) (suc j) h = omega (arith, bit-lt row j h)

-- All pairs of vertices have been written.
fill_rows-Upwards :
    (edge : ℕ → ℕ → Bool) (n : ℕ) (perm : List ℕ) (a : List (List Bool)) (s t : ℕ)
    → IsPermutation n perm
    → s < n
    → t < n
    → Upwards (λ v. place_of v 0 perm) (fill_rows edge 0 perm a) s t
fill_rows-Upwards edge n perm a s t p below_s below_t =
    let rank : ℕ → ℕ = λ v. place_of v 0 perm in
    let up =
      Increasing-places rank perm 0
        (λ j v at. place_of-IsPermutation n perm j v p at ∙ omega arith) in
    let (k, at_k) = IsPermutation-place n perm s p below_s in
    let (l, at_l) = IsPermutation-place n perm t p below_t in
    elim (Bool-cases (ltb k l)) [
      | inl y ↦ (fill_rows-pair rank edge 0 k l s t perm a up (ground arith) at_k at_l).0
      | inr z ↦ elim (Bool-cases (ltb l k)) [
        | inl y ↦ (fill_rows-pair rank edge 0 l k t s perm a up (ground arith) at_l at_k).1
        | inr w ↦
            let e : k ≡ l = ground arith in
            let same : s ≡ t =
              some-injective s t (sym at_k ∙ ap (λ i. get_elem? perm i) e ∙ at_l) in
            let b : List (List Bool) = fill_rows edge 0 perm a in
            let here : 0 + s ≡ s = omega arith in
            subst (λ x. Upwards rank b s x) same
              (subst (λ x. Upwards rank b x x) here
                (fill_rows-diagonal rank edge 0 s perm a up (omega (arith, p.size))))
      ]
    ]

module _ (draw : ℕ → ℕ) (edge : ℕ → ℕ → Bool) (n : ℕ) (a : List (List Bool)) (h : Square n a) where
  -- Whatever `rand()` returns, and whatever the n times n matrix held before: gengraph.c makes a matrix
  -- of that size of a graph without cycles, in which the edges go up in some rank of the vertices.
  pub gengraph-Acyclic :
      (b : List (List Bool)) × (rank : ℕ → ℕ) × (gengraph draw edge n a ≡ some b)
      × (length b ≡ n)
      × Acyclic b rank
  unfolding gengraph
  gengraph-Acyclic =
      let (perm, eq, p) = shuffle-IsPermutation draw n in
      let b : List (List Bool) = fill_rows edge 0 perm a in
      let (size, rows) = fill_rows-Square edge n 0 perm a h in
      (
        b,
        (λ v. place_of v 0 perm),
        rw (eq) refl,
        size,
        record {
          within = λ i row at. omega (arith, All-get (λ r. length r ≡ n) b i rows at, size);
          upwards = λ i j row at edge_there.
              fill_rows-Upwards edge n perm a i j p (omega (arith, get_elem?-lt b i at, size))
                (omega (arith, bit-lt row j edge_there, All-get (λ r. length r ≡ n) b i rows at))
                row at edge_there;
        },
      )

  -- The workers sort it: until the boss has left its loop, somebody can take a step.
  pub gengraph_sorts :
      (b : List (List Bool)) (s : Team)
      → gengraph draw edge n a ≡ some b
      → Reach b s
      → s.boss ≢ done
      → ((s' : Team) × (lead s ≡ some s')) ⊎ ((i : ℕ) × (s' : Team) × (work s i ≡ some s'))
  gengraph_sorts b s eq r on =
      let (c, rank, eq', size, up) = gengraph-Acyclic in
      let same : c ≡ b = some-injective c b (sym eq' ∙ eq) in
      sorting_goes_on b rank s (subst (λ x. Acyclic x rank) same up) r on
