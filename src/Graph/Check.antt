-- ===== src/Graph/Check.antt =====
-- The loops of the boss over the matrix, column by column.
use mathlib.Core.Option.{some-injective}
use operating_systems_iitkgp.Base.{
  get_elem?-replicate, ℕ, zero, suc, ◌+◌, ◌<◌, ◌≡◌, refl, ◌∙◌, Bool, true, false, List, [], ◌∷◌,
  some, ap, arith, length, get_elem?, replicate, total, map,
}
use operating_systems_iitkgp.Base.Int.{ℤ, pos}
use operating_systems_iitkgp.Graph.{add_row, add_rows, indegrees, sub_row}

-- An entry of a row, as a number.
abbrev pub bit : List Bool → ℕ → ℕ
bit [] j = 0
bit (true ∷ row) zero = 1
bit (false ∷ row) zero = 0
bit (edge ∷ row) (suc j) = bit row j

pub add_row-bit :
    (row : List Bool) (indeg : List ℕ) (j d : ℕ)
    → get_elem? indeg j ≡ some d
    → get_elem? (add_row row indeg) j ≡ some (d + bit row j)
unfolding add_row
add_row-bit [] indeg j d h = ground arith
add_row-bit (edge ∷ row) [] j d h = cc
add_row-bit (true ∷ row) (x ∷ indeg) zero d h = ground arith
add_row-bit (false ∷ row) (x ∷ indeg) zero d h = ground arith
add_row-bit (true ∷ row) (x ∷ indeg) (suc j) d h = add_row-bit row indeg j d h
add_row-bit (false ∷ row) (x ∷ indeg) (suc j) d h = add_row-bit row indeg j d h

-- How many rows have an edge to `j`.
abbrev pub column : ℕ → List (List Bool) → ℕ
column j rows = total (λ row. bit row j) rows

add_rows-column :
    (rows : List (List Bool)) (indeg : List ℕ) (j d : ℕ)
    → get_elem? indeg j ≡ some d
    → get_elem? (add_rows rows indeg) j ≡ some (d + column j rows)
unfolding add_rows
add_rows-column [] indeg j d h = ground arith
add_rows-column (row ∷ rows) indeg j d h =
    let k =
      add_rows-column rows (add_row row indeg) j (d + bit row j) (add_row-bit row indeg j d h) in
    ground (arith, k)

pub indegrees-column :
    (rows : List (List Bool)) (j : ℕ)
    → j < length rows
    → get_elem? (indegrees rows) j ≡ some (column j rows)
unfolding indegrees
indegrees-column rows j h =
    add_rows-column rows (replicate (length rows) 0) j 0 (get_elem?-replicate (length rows) j 0 h)
    ∙ ap some (omega arith)

pub get_elem?-map_pos :
    (xs : List ℕ) (j d : ℕ) → get_elem? xs j ≡ some d → get_elem? (map pos xs) j ≡ some (pos d)
get_elem?-map_pos [] j d h = cc
get_elem?-map_pos (x ∷ xs) zero d h = ground arith
get_elem?-map_pos (x ∷ xs) (suc j) d h = get_elem?-map_pos xs j d h

pub sub_row-bit :
    (row : List Bool) (indeg : List ℤ) (j d : ℕ)
    → get_elem? indeg j ≡ some (pos (d + bit row j))
    → get_elem? (sub_row row indeg) j ≡ some (pos d)
unfolding sub_row
sub_row-bit [] indeg j d h = ground arith
sub_row-bit (edge ∷ row) [] j d h = cc
sub_row-bit (true ∷ row) (x ∷ indeg) zero d h =
    let e : x ≡ pos (suc d) = some-injective x (pos (d + 1)) h ∙ ap pos (omega arith) in rw (e) refl
sub_row-bit (false ∷ row) (x ∷ indeg) zero d h = ground arith
sub_row-bit (true ∷ row) (x ∷ indeg) (suc j) d h = sub_row-bit row indeg j d h
sub_row-bit (false ∷ row) (x ∷ indeg) (suc j) d h = sub_row-bit row indeg j d h
