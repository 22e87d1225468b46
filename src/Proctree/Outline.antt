-- ===== src/Proctree/Outline.antt =====
-- What proctree.c prints for a tree.
use Prim.Native.Nat.{max}
use operating_systems_iitkgp.Base.{
  ℕ, zero, suc, ◌+◌, ◌≤◌, ◌≡◌, refl, List, [], ◌∷◌, ◌++◌, Option, some, arith, get_elem?, All,
  All-get, All-map,
}
use operating_systems_iitkgp.Memory.Refstr.{IsDecimal}
use operating_systems_iitkgp.Proctree.{Text, Printed, printed, children, print_node, proctree}
use operating_systems_iitkgp.Proctree.Lines.{
  Town, town, Towns, alone, beside, name_of, count, IsName, kid_text, Distinct, find_node-line_of,
  num_child-kid_text, new_node-kid_text,
}
use operating_systems_iitkgp.Proctree.Rows.{IsRow, file_of, fgets-file_of}

-- A tree in the order of its lines, each town before its children and indented one less.
unfoldable mutual
  pub outline : ℕ → Town → List Printed
  outline indent (town name kids) = printed indent name ∷ outlines (indent + 1) kids

  pub outlines : ℕ → Towns → List Printed
  outlines indent alone = []
  outlines indent (beside t ts) = outline indent t ++ outlines indent ts

-- The number of towns on the longest way down.
unfoldable mutual
  pub height : Town → ℕ
  height (town name kids) = suc (heights kids)

  pub heights : Towns → ℕ
  heights alone = 0
  heights (beside t ts) = max (height t) (heights ts)

-- All towns of a tree have a row.
unfoldable mutual
  pub Within : List Town → Town → Type 0
  Within rows (town name kids) =
      ((i : ℕ) × (get_elem? rows i ≡ some (town name kids))) × WithinAll rows kids

  pub WithinAll : List Town → Towns → Type 0
  WithinAll rows alone = Unit
  WithinAll rows (beside t ts) = Within rows t × WithinAll rows ts

module _ (visit : Text → Option (List Printed)) (indent : ℕ) where
  abbrev Visited : Towns → Type 0
  Visited alone = Unit
  Visited (beside t ts) =
      IsName (name_of t) × (visit (name_of t) ≡ some (outline indent t)) × Visited ts

  -- The loop visits the children one after the other.
  children-Visited :
      (kids : Towns)
      → Visited kids
      → children visit (count kids) (kid_text kids) ≡ some (outlines indent kids)
  unfolding children outline
  children-Visited alone h = refl
  children-Visited (beside t ts) (name, does, h) =
      rw (new_node-kid_text (name_of t) ts name, does, children-Visited ts h) refl

module _ (print : ℕ → Text) (d : IsDecimal print) (rows : List Town) (good : All (IsRow print) rows)
    (apart : Distinct rows) where
  abbrev tree_info : Text
  tree_info = file_of print rows

  names : All (λ t. IsName (name_of t)) rows
  names = All-map (IsRow print) _ (λ t r. r.name) rows good

  abbrev Prints : ℕ → Type 0
  Prints fuel =
      (indent : ℕ) (t : Town)
      → Within rows t
      → height t ≤ fuel
      → proctree tree_info fuel indent (name_of t) ≡ some (outline indent t)

  Prints-Visited :
      (fuel indent : ℕ) (kids : Towns)
      → Prints fuel
      → WithinAll rows kids
      → heights kids ≤ fuel
      → Visited (λ child. proctree tree_info fuel indent child) indent kids
  unfolding height Within
  Prints-Visited fuel indent alone h w low = tt
  Prints-Visited fuel indent (beside (town name kids) ts) h (((i, at), w), ws) low = (
    All-get (λ t. IsName (name_of t)) rows i names at,
    h indent (town name kids) ((i, at), w) (omega arith),
    Prints-Visited fuel indent ts h ws (omega arith),
  )

  Prints-all : (fuel : ℕ) → Prints fuel
  unfolding proctree print_node height Within outline
  Prints-all zero indent (town name kids) w low = absurd (omega arith)
  Prints-all (suc fuel) indent (town name kids) ((i, at), w) low =
      let visit : Text → Option (List Printed) =
        λ child. proctree tree_info fuel (indent + 1) child in
      let lines = fgets-file_of print d rows good in
      let line = find_node-line_of print rows i (town name kids) names apart at in
      let number = num_child-kid_text print kids d in
      let visited =
        children-Visited visit (indent + 1) kids
          (Prints-Visited fuel (indent + 1) kids (Prints-all fuel) w (omega arith)) in
      rw (lines, line, number, visited) refl

-- Let a file have a line for each town of a list, with the number of its children in digits and their
-- names. Let each line have at most 99 characters, with its end, and let the names differ and have no
-- blank, no end of line and no zero in them. Then, for a tree of towns of the list and with as much
-- fuel as it is high, proctree.c ends and prints the tree, each town before its children and these
-- indented one more.
pub proctree-outline :
    (print : ℕ → Text) (rows : List Town) (fuel indent : ℕ) (t : Town)
    → IsDecimal print
    → All (IsRow print) rows
    → Distinct rows
    → Within rows t
    → height t ≤ fuel
    → proctree (file_of print rows) fuel indent (name_of t) ≡ some (outline indent t)
proctree-outline print rows fuel indent t d good apart w low =
    Prints-all print d rows good apart fuel indent t w low
