-- ===== src/Base/Counts.antt =====
-- Weighted sums over a list, and predicates that hold of every entry.
use Prim.Native.Nat.{ℕ, zero, suc, ◌+◌, ◌≤◌, ◌<◌}
use mathlib.Core.Path.{◌≡◌, refl, ap, subst}
use mathlib.Core.Logic.{◌≢◌, inl, inr}
use mathlib.Core.List.{List, [], ◌∷◌, ◌++◌, map}
use mathlib.Core.Option.{some, some-injective}
use native.Mathlib.Omega.{arith}
use operating_systems_iitkgp.Base.Tests.{ltb, Bool-cases}
use operating_systems_iitkgp.Base.Lists.{get_elem?, set}

module _ {ℓ} {A : Type ℓ} (w : A → ℕ) where
  abbrev pub total : List A → ℕ
  total [] = 0
  total (x ∷ xs) = w x + total xs

  -- A write trades the weight of the old entry for that of the new one.
  pub total-set :
      (xs : List A) (i : ℕ) (v : A) {x : A}
      → get_elem? xs i ≡ some x
      → total (set xs i v) + w x ≡ total xs + w v
  total-set [] i v h = cc
  total-set (y ∷ xs) zero v h = ground arith
  total-set (y ∷ xs) (suc i) v h = omega (arith, total-set xs i v h)

  pub le-total : (xs : List A) (i : ℕ) {x : A} → get_elem? xs i ≡ some x → w x ≤ total xs
  le-total [] i h = cc
  le-total (y ∷ xs) zero h = ground arith
  le-total (y ∷ xs) (suc i) h = omega (arith, le-total xs i h)

  -- Two different entries weigh no more than all together.
  pub add-le-total :
      (xs : List A) (i j : ℕ) {x y : A}
      → i < j
      → get_elem? xs i ≡ some x
      → get_elem? xs j ≡ some y
      → w x + w y ≤ total xs
  add-le-total [] i j l h d = cc
  add-le-total (z ∷ xs) zero zero l h d = absurd (omega arith)
  add-le-total (z ∷ xs) zero (suc j) l h d = ground (arith, le-total xs j d)
  add-le-total (z ∷ xs) (suc i) zero l h d = absurd (omega arith)
  add-le-total (z ∷ xs) (suc i) (suc j) l h d = omega (arith, add-le-total xs i j (omega arith) h d)

  pub total-append : (xs ys : List A) → total (xs ++ ys) ≡ total xs + total ys
  total-append [] ys = omega arith
  total-append (x ∷ xs) ys = omega (arith, total-append xs ys)

module _ {ℓ κ} {A : Type ℓ} (P : A → Type κ) where
  abbrev pub All : List A → Type κ
  All [] = Unit
  All (x ∷ xs) = P x × All xs

  pub All-get : (xs : List A) (i : ℕ) {x : A} → All xs → get_elem? xs i ≡ some x → P x
  All-get [] i a h = cc
  All-get (y ∷ xs) zero {x} a h = subst P (some-injective y x h) a.0
  All-get (y ∷ xs) (suc i) a h = All-get xs i a.1 h

  pub All-append : (xs ys : List A) → All xs → All ys → All (xs ++ ys)
  All-append [] ys h k = k
  All-append (x ∷ xs) ys (p, h) k = (p, All-append xs ys h k)

  pub All-set : (xs : List A) (i : ℕ) (v : A) → All xs → P v → All (set xs i v)
  All-set [] i v a p = a
  All-set (x ∷ xs) zero v a p = (p, a.1)
  All-set (x ∷ xs) (suc i) v a p = (a.0, All-set xs i v a.1 p)

pub All-map {ℓ κ} :
    {A : Type ℓ} (P Q : A → Type κ) → ((x : A) → P x → Q x) → (xs : List A) → All P xs → All Q xs
All-map P Q f [] a = tt
All-map P Q f (x ∷ xs) a = (f x a.0, All-map P Q f xs a.1)

-- Somebody has a part in a sum that is not 0.
pub total-part {ℓ} :
    {A : Type ℓ} (w : A → ℕ) (xs : List A)
    → 0 < total w xs
    → (i : ℕ) × (x : A) × (get_elem? xs i ≡ some x) × (0 < w x)
total-part w [] h = absurd (omega arith)
total-part w (x ∷ xs) h = elim (Bool-cases (ltb 0 (w x))) [
  | inl y ↦ (0, x, refl, ground arith)
  | inr z ↦ let (i, u, at, p) = total-part w xs (ground arith) in (suc i, u, at, p)
]

pub total-zero {ℓ} :
    {A : Type ℓ} (w : A → ℕ) (xs : List A)
    → ((i : ℕ) (x : A) → get_elem? xs i ≡ some x → w x ≡ 0)
    → total w xs ≡ 0
total-zero w [] h = refl
total-zero w (x ∷ xs) h = omega (arith, h 0 x refl, total-zero w xs (λ i. h (suc i)))

-- A sum of which only one part is not 0.
pub total-one {ℓ} :
    {A : Type ℓ} (w : A → ℕ) (xs : List A) (i : ℕ) (x : A)
    → get_elem? xs i ≡ some x
    → ((j : ℕ) (y : A) → get_elem? xs j ≡ some y → j ≢ i → w y ≡ 0)
    → total w xs ≡ w x
total-one w [] i x at none_else = cc
total-one w (y ∷ xs) zero x at none_else =
    let rest = total-zero w xs (λ j z k. none_else (suc j) z k (λ q. omega arith)) in
    omega (arith, rest, ap w (some-injective y x at))
total-one w (y ∷ xs) (suc i) x at none_else = omega (
  arith,
  none_else 0 y refl (λ q. omega arith),
  total-one w xs i x at (λ j z k ne. none_else (suc j) z k (λ q. ne (omega arith))),
)

pub total_mono {ℓ} :
    {A : Type ℓ} (w u : A → ℕ) (xs : List A)
    → ((j : ℕ) (y : A) → get_elem? xs j ≡ some y → w y ≤ u y)
    → total w xs ≤ total u xs
total_mono w u [] le = omega arith
total_mono w u (x ∷ xs) le = omega (arith, le 0 x refl, total_mono w u xs (λ j. le (suc j)))

-- Parts that are never greater and make the same sum are the same.
pub total-tight {ℓ} :
    {A : Type ℓ} (w u : A → ℕ) (xs : List A) (i : ℕ) (x : A)
    → ((j : ℕ) (y : A) → get_elem? xs j ≡ some y → w y ≤ u y)
    → total u xs ≤ total w xs
    → get_elem? xs i ≡ some x
    → w x ≡ u x
total-tight w u [] i x le same at = cc
total-tight w u (y ∷ xs) zero x le same at =
    let rest = total_mono w u xs (λ j. le (suc j)) in
    subst (λ z. w z ≡ u z) (some-injective y x at) (omega (arith, le 0 y refl, rest))
total-tight w u (y ∷ xs) (suc i) x le same at =
    total-tight w u xs i x (λ j. le (suc j)) (omega (arith, le 0 y refl)) at

-- Sums that differ do so in a part.
pub total-short {ℓ} :
    {A : Type ℓ} (w u : A → ℕ) (xs : List A)
    → ((j : ℕ) (y : A) → get_elem? xs j ≡ some y → w y ≤ u y)
    → total w xs ≢ total u xs
    → (i : ℕ) × (x : A) × (get_elem? xs i ≡ some x) × (w x < u x)
total-short w u [] le n = absurd (n refl)
total-short w u (x ∷ xs) le n = elim (Bool-cases (ltb (w x) (u x))) [
  | inl y ↦ (0, x, refl, ground arith)
  | inr z ↦
      let here = le 0 x refl in
      let (i, y, at, p) =
        total-short w u xs (λ j. le (suc j))
          (λ e. n (let f : w x ≡ u x = ground arith in omega (arith, e, f))) in
      (suc i, y, at, p)
]

pub total-map {ℓ κ} :
    {A : Type ℓ} {B : Type κ} (w : B → ℕ) (f : A → B) (xs : List A)
    → total w (map f xs) ≡ total (λ x. w (f x)) xs
total-map w f [] = refl
total-map w f (x ∷ xs) = omega (arith, total-map w f xs)

pub total-add {ℓ} :
    {A : Type ℓ} (w u : A → ℕ) (xs : List A) → total (λ x. w x + u x) xs ≡ total w xs + total u xs
total-add w u [] = omega arith
total-add w u (x ∷ xs) = omega (arith, total-add w u xs)

pub total-cong {ℓ} :
    {A : Type ℓ} (w u : A → ℕ) (xs : List A)
    → ((j : ℕ) (y : A) → get_elem? xs j ≡ some y → w y ≡ u y)
    → total w xs ≡ total u xs
total-cong w u [] e = refl
total-cong w u (x ∷ xs) e = omega (arith, e 0 x refl, total-cong w u xs (λ j. e (suc j)))
