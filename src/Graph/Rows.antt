-- ===== src/Graph/Rows.antt =====
-- The edges of a row that are pending during the worker's loop.
use mathlib.Core.Option.{some-injective}
use operating_systems_iitkgp.Base.{
  ℕ, zero, suc, ◌≤◌, ◌≡◌, ◌≢◌, refl, ap, ◌∙◌, inl, inr, ◌⊎◌, Bool, true, false, List, [], ◌∷◌, none,
  some, arith, ◌==◌, get_elem?, Bool-cases,
}
use operating_systems_iitkgp.Graph.{visits}
use operating_systems_iitkgp.Graph.Check.{bit}
use operating_systems_iitkgp.Graph.Invariant.{pending_at}

-- A row beyond its end, and at an entry.
pub bit-none : (row : List Bool) (k j : ℕ) → get_elem? row k ≡ none → k ≤ j → bit row j ≡ 0
bit-none [] k j h l = refl
bit-none (b ∷ row) zero j h l = cc
bit-none (b ∷ row) (suc k) zero h l = absurd (omega arith)
bit-none (true ∷ row) (suc k) (suc j) h l = bit-none row k j h (omega arith)
bit-none (false ∷ row) (suc k) (suc j) h l = bit-none row k j h (omega arith)

abbrev pub digit : Bool → ℕ
digit true = 1
digit false = 0

pub bit-some : (row : List Bool) (k : ℕ) (b : Bool) → get_elem? row k ≡ some b → bit row k ≡ digit b
bit-some [] k b h = cc
bit-some (true ∷ row) zero b h = ap digit (some-injective true b h)
bit-some (false ∷ row) zero b h = ap digit (some-injective false b h)
bit-some (true ∷ row) (suc k) b h = bit-some row k b h
bit-some (false ∷ row) (suc k) b h = bit-some row k b h

-- The edges pending after the entry `k`.
pub pending-visits :
    (row : List Bool) (k j : ℕ) (b : Bool)
    → get_elem? row k ≡ some b
    → ((j ≡ k) × (pending_at j row (visits k) ≡ digit b) × (pending_at j row (visits (suc k)) ≡ 0))
      ⊎ ((j ≢ k) × (pending_at j row (visits (suc k)) ≡ pending_at j row (visits k)))
pending-visits row k j b h = elim (Bool-cases (j == k)) [
  | inl same ↦
      let e : j ≡ k = ground arith in
      let d : bit row j ≡ digit b = ap (bit row) e ∙ bit-some row k b h in
      inl (e, ground (arith, d), ground arith)
  | inr apart ↦ let e : j ≢ k = λ q. ground arith in inr (e, ground arith)
]
