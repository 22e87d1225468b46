-- ===== src/Proctree/Rows.antt =====
-- The rows of a file that describes a tree, as the calls of `fgets` in proctree.c return them.
use operating_systems_iitkgp.Base.{
  ℕ, ◌-◌, ◌≤◌, ◌<◌, ◌≡◌, ◌≢◌, refl, ap, ◌∙◌, ◌⊎◌, inl, inr, false, true, ◌||◌, List, [], ◌∷◌, ◌++◌,
  arith, ◌==◌, map, length, All,
}
use operating_systems_iitkgp.Memory.Refstr.{IsDigit, IsDecimal}
use operating_systems_iitkgp.Proctree.{Text, max_len, all_lines, fgets}
use operating_systems_iitkgp.Proctree.Lines.{
  Town, town, Towns, alone, beside, name_of, count, IsName, kid_text, line_of,
}

-- A text whose one end of line is its last character.
abbrev pub IsLine : Text → Type 0
IsLine [] = ⊥
IsLine (c ∷ line) = ((c ≡ b'\n') × (line ≡ [])) ⊎ ((c ≢ b'\n') × IsLine line)

abbrev pub KidNames : Towns → Type 0
KidNames alone = Unit
KidNames (beside t ts) = IsName (name_of t) × KidNames ts

-- A town whose name and whose children's names are names, with a line that fits the buffer.
pub record IsRow (print : ℕ → Text) (t : Town) : Type 0 where
  pub name : IsName (name_of t)
  pub kids : (kids : Towns) → t ≡ town (name_of t) kids → KidNames kids
  pub fits : length (line_of print t) < max_len

-- The file with a line for each town.
abbrev pub file_of : (ℕ → Text) → List Town → Text
file_of print [] = []
file_of print (t ∷ rows) = line_of print t ++ file_of print rows

fgets-IsLine :
    (room : ℕ) (line rest : Text)
    → IsLine line
    → length line ≤ room
    → fgets room (line ++ rest) ≡ (line, all_lines (fgets (max_len - 1) rest))
unfolding fgets
fgets-IsLine room [] rest l h = absurd l
fgets-IsLine room (c ∷ line) rest (inl (stop, last)) h =
    let ends : (c == b'\n' || room == 1) ≡ true = ground (arith, stop) in rw (last, ends) refl
fgets-IsLine room (c ∷ []) rest (inr (going, l)) h = absurd l
fgets-IsLine room (c ∷ d ∷ line) rest (inr (going, l)) h =
    let goes_on : (c == b'\n' || room == 1) ≡ false = ground (arith, going) in
    rw (goes_on, fgets-IsLine (room - 1) (d ∷ line) rest l (omega (arith, h))) refl

IsLine-name : (name line : Text) → IsName name → IsLine line → IsLine (name ++ line)
IsLine-name [] line n l = l
IsLine-name (c ∷ name) line ((blank, stop, nul), n) l = inr (stop, IsLine-name name line n l)

IsLine-digits : (s line : Text) → All IsDigit s → IsLine line → IsLine (s ++ line)
IsLine-digits [] line a l = l
IsLine-digits (c ∷ s) line (d, a) l = inr (λ e. omega (arith, e, d), IsLine-digits s line a l)

kid_text-IsLine : (kids : Towns) → KidNames kids → IsLine (kid_text kids)
kid_text-IsLine alone k = inl (refl, refl)
kid_text-IsLine (beside t ts) (name, k) =
    inr (λ e. omega (arith, e), IsLine-name (name_of t) (kid_text ts) name (kid_text-IsLine ts k))

module _ (print : ℕ → Text) (d : IsDecimal print) where
  line_of-IsLine : (t : Town) → IsRow print t → IsLine (line_of print t)
  line_of-IsLine (town name kids) r =
      IsLine-name name (b' ' ∷ (print (count kids) ++ kid_text kids)) r.name (
        inr (
          λ e. omega (arith, e),
          IsLine-digits (print (count kids)) (kid_text kids) (d.digits (count kids))
              (kid_text-IsLine kids (r.kids kids refl)),
        ))

  all_lines-IsLine :
      (line : Text) (more : List Text) → IsLine line → all_lines (line, more) ≡ line ∷ more
  all_lines-IsLine [] more l = absurd l
  all_lines-IsLine (c ∷ line) more l = refl

  -- The program reads the lines of the rows.
  pub fgets-file_of :
      (rows : List Town)
      → All (IsRow print) rows
      → all_lines (fgets (max_len - 1) (file_of print rows)) ≡ map (line_of print) rows
  unfolding fgets
  fgets-file_of [] a = refl
  fgets-file_of (t ∷ rows) (r, a) =
      let l = line_of-IsLine t r in
      ap all_lines (
        fgets-IsLine (max_len - 1) (line_of print t) (file_of print rows) l (omega (arith, r.fits)))
      ∙ all_lines-IsLine (line_of print t) (all_lines (fgets (max_len - 1) (file_of print rows))) l
      ∙ ap (λ more. line_of print t ∷ more) (fgets-file_of rows a)
