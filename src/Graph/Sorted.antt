-- ===== src/Graph/Sorted.antt =====
-- The order in which the vertices have been inserted, and the check of the boss on it.
use operating_systems_iitkgp.Base.{
  ℕ, zero, suc, ◌+◌, ◌<◌, ◌≡◌, refl, ap, ◌∙◌, Bool, true, false, List, [], ◌∷◌, ◌++◌, Option, some,
  arith, length, length-append, length-set, get_elem?, get_elem?-lt, set, total, total-set, All,
  map,
}
use operating_systems_iitkgp.Base.Int.{ℤ, pos}
use operating_systems_iitkgp.Graph.{indegrees, sub_row, check, verdict}
use operating_systems_iitkgp.Graph.Check.{
  bit, column, indegrees-column, get_elem?-map_pos, sub_row-bit,
}

-- A row of the matrix, and whether its vertex is in T.
abbrev pub Mark : Type 0
Mark = List Bool × Bool

-- An edge to `j` from a vertex that is not in T.
abbrev pub unmet : ℕ → Mark → ℕ
unmet j (row, true) = 0
unmet j (row, false) = bit row j

abbrev pub unmarked : Mark → ℕ
unmarked (row, true) = 0
unmarked (row, false) = 1

-- A vertex is inserted once, after all vertices that have an edge to it.
pub data Sorted : List ℕ → List Mark → Type 0 where
  nothing : (ms : List Mark) → All (λ m. m.1 ≡ false) ms → Sorted [] ms
  next :
      (order : List ℕ) (ms : List Mark) (v : ℕ) (row : List Bool)
      → Sorted order ms
      → get_elem? ms v ≡ some (row, false)
      → total (unmet v) ms ≡ 0
      → Sorted (order ++ v ∷ []) (set ms v (row, true))

total-unmarked : (ms : List Mark) → All (λ m. m.1 ≡ false) ms → total unmarked ms ≡ length ms
total-unmarked [] h = refl
total-unmarked ((row, true) ∷ ms) (h, k) = cc
total-unmarked ((row, false) ∷ ms) (h, k) = omega (arith, total-unmarked ms k)

pub Sorted-length :
    (order : List ℕ) (ms : List Mark)
    → Sorted order ms
    → length order + total unmarked ms ≡ length ms
Sorted-length _ _ (nothing ms h) = omega (arith, total-unmarked ms h)
Sorted-length _ _ (next order ms v row s at met) = omega (
  arith,
  Sorted-length order ms s,
  length-append {0} order (v ∷ []),
  length-set ms v (row, true),
  total-set unmarked ms v (row, true) at,
)

abbrev pub rows_of : List Mark → List (List Bool)
rows_of ms = map (λ m. m.0) ms

column-unmet :
    (j : ℕ) (ms : List Mark)
    → All (λ m. m.1 ≡ false) ms
    → column j (rows_of ms) ≡ total (unmet j) ms
column-unmet j [] h = refl
column-unmet j ((row, true) ∷ ms) (h, k) = cc
column-unmet j ((row, false) ∷ ms) (h, k) = ap (λ n. bit row j + n) (column-unmet j ms k)

pub rows_of-set :
    (ms : List Mark) (v : ℕ) (row : List Bool) (c : Bool) {b : Bool}
    → get_elem? ms v ≡ some (row, b)
    → rows_of (set ms v (row, c)) ≡ rows_of ms
rows_of-set [] v row c h = cc
rows_of-set (m ∷ ms) zero row c h = cc
rows_of-set (m ∷ ms) (suc v) row c h = ap (λ t. m.0 ∷ t) (rows_of-set ms v row c h)

pub get_elem?-rows_of :
    (ms : List Mark) (v : ℕ) {m : Mark}
    → get_elem? ms v ≡ some m
    → get_elem? (rows_of ms) v ≡ some (m.0)
get_elem?-rows_of [] v h = cc
get_elem?-rows_of (m ∷ ms) zero h = cc
get_elem?-rows_of (m ∷ ms) (suc v) h = get_elem?-rows_of ms v h

pub length-rows_of : (ms : List Mark) → length (rows_of ms) ≡ length ms
length-rows_of [] = refl
length-rows_of (m ∷ ms) = ap suc (length-rows_of ms)

map_snoc :
    (order : List ℕ) (v : ℕ) (rest : List (Option ℕ))
    → map some (order ++ v ∷ []) ++ rest ≡ map some order ++ some v ∷ rest
map_snoc [] v rest = refl
map_snoc (x ∷ order) v rest = ap (λ t. some x ∷ t) (map_snoc order v rest)

check-vertex :
    (a : List (List Bool)) (indeg : List ℤ) (v : ℕ) (row : List Bool) (t : List (Option ℕ))
    → get_elem? indeg v ≡ some (pos 0)
    → get_elem? a v ≡ some row
    → check a indeg (some v ∷ t) ≡ check a (sub_row row indeg) t
unfolding check
check-vertex a indeg v row t h k = rw (h, k) refl

-- What the check has come to after the vertices of `order`.
abbrev pub Checked : List (List Bool) → List ℕ → List Mark → Type 0
Checked a order ms =
    (indeg : List ℤ) × ((rest : List (Option ℕ))
      → verdict a (map some order ++ rest) ≡ check a indeg rest)
    × ((j : ℕ) → j < length ms → get_elem? indeg j ≡ some (pos (total (unmet j) ms)))

pub Sorted-Checked :
    (a : List (List Bool)) (order : List ℕ) (ms : List Mark)
    → Sorted order ms
    → a ≡ rows_of ms
    → Checked a order ms
unfolding verdict
Sorted-Checked a _ _ (nothing ms h) eq = (
  map pos (indegrees a),
  (λ rest. refl),
  λ j k. get_elem?-map_pos (indegrees a) j (total (unmet j) ms) (
      indegrees-column a j (omega (arith, ap length eq, length-rows_of ms))
      ∙ ap (λ b. some (column j b)) eq
      ∙ ap some (column-unmet j ms h)),
)
Sorted-Checked a _ _ (next order ms v row s at met) eq =
    let old : a ≡ rows_of ms = eq ∙ rows_of-set ms v row true at in
    let (indeg, so_far, left) = Sorted-Checked a order ms s old in
    (
      sub_row row indeg,
      (λ rest.
          ap (verdict a) (map_snoc order v rest)
          ∙ so_far (some v ∷ rest)
          ∙ check-vertex a indeg v row rest
              (left v (get_elem?-lt ms v at) ∙ ap (λ n. some (pos n)) met)
              (ap (λ b. get_elem? b v) old ∙ get_elem?-rows_of ms v at)),
      λ j k. sub_row-bit row indeg j (total (unmet j) (set ms v (row, true))) (
          left j (omega (arith, length-set ms v (row, true)))
          ∙ ap (λ n. some (pos n)) (omega (arith, total-set (unmet j) ms v (row, true) at))),
    )
