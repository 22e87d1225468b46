-- ===== src/Shuffle/Laws.antt =====
-- The shuffle makes a permutation.
use mathlib.Core.Option.{some-injective}
use operating_systems_iitkgp.Base.{
  ℕ, zero, suc, ◌+◌, ◌%◌, ◌≤◌, ◌<◌, ◌≡◌, ◌≢◌, refl, sym, ap, ◌∙◌, inl, inr, List, [], ◌∷◌, some,
  arith, ltb, ◌==◌, if◌then◌else◌, length, length-set, get_elem?, get_elem?-lt, get_elem?-some,
  get_elem?-set_self, get_elem?-set_ne, set, total, total-set, le-total, Bool-cases,
}
use operating_systems_iitkgp.Shuffle.{identity, exchange, swap_rounds, shuffle}

-- The numbers below `n`, each once: every number has as much weight as among them.
pub record IsPermutation (n : ℕ) (perm : List ℕ) : Type 0 where
  pub size : length perm ≡ n
  pub same : (w : ℕ → ℕ) → total w perm ≡ total w (identity n 0)

pub length-identity : (k i : ℕ) → length (identity k i) ≡ k
unfolding identity
length-identity zero i = refl
length-identity (suc k) i = ap suc (length-identity k (suc i))

exchange-total :
    (perm : List ℕ) (i j t u : ℕ) (w : ℕ → ℕ)
    → get_elem? perm i ≡ some t
    → get_elem? perm j ≡ some u
    → total w (set (set perm i u) j t) ≡ total w perm
exchange-total perm i j t u w at_i at_j = elim (Bool-cases (i == j)) [
  | inl y ↦
      let e : i ≡ j = ground arith in
      let same : t ≡ u = some-injective t u (sym at_i ∙ ap (λ k. get_elem? perm k) e ∙ at_j) in
      let here : get_elem? (set perm i u) j ≡ some u =
        ap (λ k. get_elem? (set perm i u) k) (sym e)
        ∙ get_elem?-set_self perm i u (get_elem?-lt perm i at_i) in
      omega (arith, total-set w perm i u at_i, total-set w (set perm i u) j t here, ap w same)
  | inr z ↦
      let apart : i ≢ j = λ q. ground arith in
      let here : get_elem? (set perm i u) j ≡ some u = get_elem?-set_ne perm i j u apart ∙ at_j in
      omega (arith, total-set w perm i u at_i, total-set w (set perm i u) j t here)
]

swap_rounds-total :
    (draw : ℕ → ℕ) (k i : ℕ) (perm : List ℕ)
    → i + k ≡ length perm
    → (out : List ℕ) × (swap_rounds draw k i perm ≡ some out)
      × (length out ≡ length perm)
      × ((w : ℕ → ℕ) → total w out ≡ total w perm)
unfolding swap_rounds exchange
swap_rounds-total draw zero i perm h = (perm, refl, refl, λ w. refl)
swap_rounds-total draw (suc k) i perm h =
    let inside : draw i % suc k < suc k = omega arith in
    let (t, at_i) = get_elem?-some perm i (omega arith) in
    let (u, at_j) = get_elem?-some perm (i + draw i % suc k) (omega arith) in
    let next : List ℕ = set (set perm i u) (i + draw i % suc k) t in
    let kept : length next ≡ length perm =
      length-set (set perm i u) (i + draw i % suc k) t ∙ length-set perm i u in
    let (out, eq, size, same) = swap_rounds-total draw k (suc i) next (omega arith) in
    (
      out,
      rw (at_i, at_j) eq,
      size ∙ kept,
      λ w. same w ∙ exchange-total perm i (i + draw i % suc k) t u w at_i at_j,
    )

-- Whatever `rand()` returns, the shuffle reads and writes within PERM, and leaves the numbers below n
-- there, each once.
pub shuffle-IsPermutation :
    (draw : ℕ → ℕ) (n : ℕ) → (perm : List ℕ) × (shuffle draw n ≡ some perm) × IsPermutation n perm
unfolding shuffle
shuffle-IsPermutation draw n =
    let (out, eq, size, same) =
      swap_rounds-total draw n 0 (identity n 0) (omega (arith, length-identity n 0)) in
    (out, eq, record { size = size ∙ length-identity n 0; same = same })

-- The number of a vertex among the rest, from place `i` on.
pub place_of : ℕ → ℕ → List ℕ → ℕ
place_of v i [] = i
place_of v i (u ∷ perm) = let rest = place_of v (suc i) perm in if u == v then i else rest

abbrev pub is_it : ℕ → ℕ → ℕ
is_it v u = if u == v then 1 else 0

total-identity :
    (k i v : ℕ)
    → total (is_it v) (identity k i) ≡ (if ltb v i then 0 else if ltb v (i + k) then 1 else 0)
unfolding identity
total-identity zero i v = ground arith
total-identity (suc k) i v = ground (arith, total-identity k (suc i) v)

module _ (n : ℕ) (perm : List ℕ) (p : IsPermutation n perm) where
  unique : (v : ℕ) → total (is_it v) perm ≤ 1
  unique v = ground (arith, p.same (is_it v), total-identity n 0 v)

  pub below : (i v : ℕ) → get_elem? perm i ≡ some v → v < n
  below i v at =
      let mine : is_it v v ≡ 1 = ground arith in
      ground (arith, le-total (is_it v) perm i at, p.same (is_it v), total-identity n 0 v, mine)

place_of-get :
    (perm : List ℕ) (i j v : ℕ)
    → total (is_it v) perm ≤ 1
    → get_elem? perm j ≡ some v
    → place_of v i perm ≡ i + j
unfolding place_of
place_of-get [] i j v one at = cc
place_of-get (u ∷ perm) i zero v one at = ground arith
place_of-get (u ∷ perm) i (suc j) v one at = elim (Bool-cases (u == v)) [
  | inl y ↦
      let mine : is_it v v ≡ 1 = ground arith in
      absurd (ground (arith, le-total (is_it v) perm j at, mine))
  | inr z ↦ rw (z) (place_of-get perm (suc i) j v (ground arith) at ∙ omega arith)
]

-- Every number below n has a place of its own.
pub place_of-IsPermutation :
    (n : ℕ) (perm : List ℕ) (j v : ℕ)
    → IsPermutation n perm
    → get_elem? perm j ≡ some v
    → place_of v 0 perm ≡ j
place_of-IsPermutation n perm j v p at =
    place_of-get perm 0 j v (unique n perm p v) at ∙ omega arith

get_elem?-place_of :
    (perm : List ℕ) (v : ℕ) → 0 < total (is_it v) perm → (j : ℕ) × (get_elem? perm j ≡ some v)
get_elem?-place_of [] v h = absurd (omega arith)
get_elem?-place_of (u ∷ perm) v h = elim (Bool-cases (u == v)) [
  | inl y ↦ (0, ground arith)
  | inr z ↦ let (j, at) = get_elem?-place_of perm v (ground arith) in (suc j, at)
]

pub IsPermutation-place :
    (n : ℕ) (perm : List ℕ) (v : ℕ)
    → IsPermutation n perm
    → v < n
    → (j : ℕ) × (get_elem? perm j ≡ some v)
IsPermutation-place n perm v p h =
    get_elem?-place_of perm v (ground (arith, p.same (is_it v), total-identity n 0 v))
