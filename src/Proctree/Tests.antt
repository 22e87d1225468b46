-- ===== src/Proctree/Tests.antt =====
-- The theorem about proctree.c at a concrete file, and a node that is not there.
use operating_systems_iitkgp.Base.{
  ℕ, ◌≡◌, ◌≢◌, refl, ap, subst, length, ◌<◌, List, [], ◌∷◌, some, arith, All,
}
use operating_systems_iitkgp.Memory.Refstr.Decimal.{decimal, decimal-IsDecimal}
use operating_systems_iitkgp.Proctree.{
  Text, max_len, fgets, printed, not_found, find_node, num_child, children, proctree,
}
use operating_systems_iitkgp.Proctree.Lines.{
  Town, town, Towns, alone, beside, name_of, IsName, line_of, Distinct,
}
use operating_systems_iitkgp.Proctree.Rows.{KidNames, IsRow, file_of}
use operating_systems_iitkgp.Proctree.Outline.{outline, height, Within, proctree-outline}

abbrev delhi : Town
delhi = town (b'D' ∷ []) alone

abbrev agra : Town
agra = town (b'A' ∷ b'g' ∷ []) alone

abbrev india : Town
india = town (b'I' ∷ []) (beside agra (beside delhi alone))

abbrev rows : List Town
rows = delhi ∷ india ∷ agra ∷ []

abbrev info : Text
info = file_of decimal rows

kids_of : Town → Towns
kids_of (town name kids) = kids

-- A row with children that are known.
row :
    (name : Text) (kids : Towns)
    → IsName name
    → KidNames kids
    → length (line_of decimal (town name kids)) < max_len
    → IsRow decimal (town name kids)
unfolding kids_of
row name kids n k h = record {
  name = n;
  kids = λ other e. subst KidNames (ap kids_of e) k;
  fits = h;
}

letter : (c : ℕ) → b'@' < c → (c ≢ b' ') × (c ≢ b'\n') × (c ≢ 0)
letter c h = (λ e. omega (arith, e, h), λ e. omega (arith, e, h), λ e. omega (arith, e, h))

delhi-IsName : IsName (name_of delhi)
delhi-IsName = (letter b'D' (omega arith), tt)

agra-IsName : IsName (name_of agra)
agra-IsName = (letter b'A' (omega arith), (letter b'g' (omega arith), tt))

rows-IsRow : All (IsRow decimal) rows
rows-IsRow = (
  row (name_of delhi) alone delhi-IsName tt (omega arith),
  (
    row (name_of india) (beside agra (beside delhi alone)) (letter b'I' (omega arith), tt)
        (agra-IsName, (delhi-IsName, tt)) (omega arith),
    (row (name_of agra) alone agra-IsName tt (omega arith), tt),
  ),
)

first_of : Text → ℕ
first_of [] = 0
first_of (c ∷ text) = c

names_apart : Distinct rows
unfolding first_of
names_apart =
    let no : (x y : Text) → first_of x ≢ first_of y → x ≢ y = λ x y n e. n (ap first_of e) in
    (
      (
        no (name_of delhi) (name_of india) (λ e. omega (arith, e)),
        (no (name_of delhi) (name_of agra) (λ e. omega (arith, e)), tt),
      ),
      ((no (name_of india) (name_of agra) (λ e. omega (arith, e)), tt), (tt, tt)),
    )

india-Within : Within rows india
unfolding Within
india-Within = ((1, refl), (((2, refl), tt), (((0, refl), tt), tt)))

height-india : height india ≡ 2
unfolding height
height-india = refl

proctree_run :
    proctree info 2 0 (b'I' ∷ [])
    ≡ some (printed 0 (b'I' ∷ []) ∷ printed 1 (b'A' ∷ b'g' ∷ []) ∷ printed 1 (b'D' ∷ []) ∷ [])
unfolding proctree fgets find_node num_child children
proctree_run = refl

proctree_unknown : proctree info 1 0 (b'X' ∷ []) ≡ some (not_found (b'X' ∷ []) ∷ [])
unfolding proctree fgets
proctree_unknown = refl

proctree-outline_example : proctree info 2 0 (b'I' ∷ []) ≡ some (outline 0 india)
proctree-outline_example =
    proctree-outline decimal rows 2 0 india decimal-IsDecimal rows-IsRow names_apart india-Within
      (omega (arith, height-india))
