-- ===== src/Base/Rows.antt =====
-- The first `k` entries of an array: predicates on them, and sums over them.
use Prim.Native.Nat.{ℕ, zero, suc, ◌+◌, ◌≤◌, ◌<◌}
use mathlib.Core.Path.{◌≡◌, refl, sym, ap, subst}
use mathlib.Core.Logic.{◌≢◌, ◌⊎◌, inl, inr}
use native.Mathlib.Decide.{dec_lt}
use mathlib.Core.List.{List, [], ◌∷◌}
use mathlib.Core.Option.{some}
use native.Mathlib.Omega.{arith}
use operating_systems_iitkgp.Base.Lists.{length, get_elem?, get_elem?-lt, set}
use mathlib.Core.Option.{some-injective}

module _ {ℓ} {A : Type ℓ} (P : A → Type 0) where
  -- There are `k` rows at least, and the first `k` satisfy `P`.
  abbrev pub Rows : ℕ → List A → Type 0
  Rows zero xs = Unit
  Rows (suc k) [] = ⊥
  Rows (suc k) (x ∷ xs) = P x × Rows k xs

  pub Rows-length : (k : ℕ) (xs : List A) → Rows k xs → k ≤ length xs
  Rows-length zero xs r = omega arith
  Rows-length (suc k) [] r = absurd r
  Rows-length (suc k) (x ∷ xs) r = omega (arith, Rows-length k xs r.1)

  pub Rows-get :
      (k : ℕ) (xs : List A) (i : ℕ) {x : A} → Rows k xs → i < k → get_elem? xs i ≡ some x → P x
  Rows-get zero xs i r h e = absurd (omega arith)
  Rows-get (suc k) [] i r h e = absurd r
  Rows-get (suc k) (y ∷ xs) zero {x} r h e = subst P (some-injective y x e) r.0
  Rows-get (suc k) (y ∷ xs) (suc i) r h e = Rows-get k xs i r.1 (omega arith) e

  pub Rows-set : (k : ℕ) (xs : List A) (i : ℕ) (v : A) → Rows k xs → P v → Rows k (set xs i v)
  Rows-set zero xs i v r p = tt
  Rows-set (suc k) [] i v r p = r
  Rows-set (suc k) (x ∷ xs) zero v r p = (p, r.1)
  Rows-set (suc k) (x ∷ xs) (suc i) v r p = (r.0, Rows-set k xs i v r.1 p)

pub Rows-map {ℓ} :
    {A : Type ℓ} (P Q : A → Type 0)
    → ((x : A) → P x → Q x)
    → (k : ℕ) (xs : List A) → Rows P k xs
    → Rows Q k xs
Rows-map P Q f zero xs r = tt
Rows-map P Q f (suc k) [] r = r
Rows-map P Q f (suc k) (x ∷ xs) r = (f x r.0, Rows-map P Q f k xs r.1)

module _ {ℓ} {A : Type ℓ} (w : A → ℕ) where
  -- The sum of a weight over the first `k` rows.
  abbrev pub sum_rows : ℕ → List A → ℕ
  sum_rows zero xs = 0
  sum_rows (suc k) [] = 0
  sum_rows (suc k) (x ∷ xs) = w x + sum_rows k xs

  pub sum_rows-set :
      (k : ℕ) (xs : List A) (i : ℕ) (v : A) {x : A}
      → i < k
      → get_elem? xs i ≡ some x
      → sum_rows k (set xs i v) + w x ≡ sum_rows k xs + w v
  sum_rows-set zero xs i v h e = absurd (omega arith)
  sum_rows-set (suc k) [] i v h e = cc
  sum_rows-set (suc k) (y ∷ xs) zero v h e = ground arith
  sum_rows-set (suc k) (y ∷ xs) (suc i) v h e = omega (arith, sum_rows-set k xs i v (omega arith) e)

  pub le-sum_rows :
      (k : ℕ) (xs : List A) (i : ℕ) {x : A} → i < k → get_elem? xs i ≡ some x → w x ≤ sum_rows k xs
  le-sum_rows zero xs i h e = absurd (omega arith)
  le-sum_rows (suc k) [] i h e = cc
  le-sum_rows (suc k) (y ∷ xs) zero h e = ground arith
  le-sum_rows (suc k) (y ∷ xs) (suc i) h e = omega (arith, le-sum_rows k xs i (omega arith) e)

  -- Two different rows weigh no more than all rows together.
  pub add-le-sum_rows :
      (k : ℕ) (xs : List A) (i j : ℕ) {x y : A}
      → i < j
      → j < k
      → get_elem? xs i ≡ some x
      → get_elem? xs j ≡ some y
      → w x + w y ≤ sum_rows k xs
  add-le-sum_rows zero xs i j l h e d = absurd (omega arith)
  add-le-sum_rows (suc k) [] i j l h e d = cc
  add-le-sum_rows (suc k) (z ∷ xs) zero zero l h e d = absurd (omega arith)
  add-le-sum_rows (suc k) (z ∷ xs) zero (suc j) l h e d =
      ground (arith, le-sum_rows k xs j (omega arith) d)
  add-le-sum_rows (suc k) (z ∷ xs) (suc i) zero l h e d = absurd (omega arith)
  add-le-sum_rows (suc k) (z ∷ xs) (suc i) (suc j) l h e d =
      omega (arith, add-le-sum_rows k xs i j (omega arith) (omega arith) e d)

  -- One more entry.
  pub sum_rows-suc :
      (k : ℕ) (xs : List A) {x : A}
      → get_elem? xs k ≡ some x
      → sum_rows (suc k) xs ≡ sum_rows k xs + w x
  sum_rows-suc k [] e = cc
  sum_rows-suc zero (y ∷ xs) e = ground arith
  sum_rows-suc (suc k) (y ∷ xs) e = omega (arith, sum_rows-suc k xs e)

  -- A write at or beyond `k` does not show.
  pub sum_rows-set_above :
      (k : ℕ) (xs : List A) (i : ℕ) (v : A) → k ≤ i → sum_rows k (set xs i v) ≡ sum_rows k xs
  sum_rows-set_above zero xs i v h = refl
  sum_rows-set_above (suc k) [] i v h = refl
  sum_rows-set_above (suc k) (y ∷ xs) zero v h = absurd (omega arith)
  sum_rows-set_above (suc k) (y ∷ xs) (suc i) v h =
      omega (arith, sum_rows-set_above k xs i v (omega arith))

-- An entry after a write is the one written, or stood there before.
pub set-cases {ℓ} :
    {A : Type ℓ} (xs : List A) (i j : ℕ) (v : A) {y : A}
    → get_elem? (set xs i v) j ≡ some y
    → (i ≡ j) × (y ≡ v) ⊎ (i ≢ j) × (get_elem? xs j ≡ some y)
set-cases [] i j v h = cc
set-cases (x ∷ xs) zero zero v {y} h = inl (refl, sym (some-injective v y h))
set-cases (x ∷ xs) zero (suc j) v h = inr ((λ e. omega arith), h)
set-cases (x ∷ xs) (suc i) zero v h = inr ((λ e. omega arith), h)
set-cases (x ∷ xs) (suc i) (suc j) v h = elim (set-cases xs i j v h) [
  | inl here ↦ inl (ap suc here.0, here.1)
  | inr (ne, there) ↦ inr ((λ e. ne (omega arith)), there)
]

-- Two different entries weigh no more than all together.
pub add-le-sum_all {ℓ} :
    {A : Type ℓ} (w : A → ℕ) (xs : List A) (i j : ℕ) {x y : A}
    → i ≢ j
    → get_elem? xs i ≡ some x
    → get_elem? xs j ≡ some y
    → w x + w y ≤ sum_rows w (length xs) xs
add-le-sum_all w xs i j ne e d = elim (dec_lt i j) [
  | yes below ↦ add-le-sum_rows w (length xs) xs i j below (get_elem?-lt xs j d) e d
  | no above ↦
      omega (arith, add-le-sum_rows w (length xs) xs j i (omega arith) (get_elem?-lt xs i e) d e)
]
