-- ===== src/Proctree/Lines.antt =====
-- How proctree.c reads the lines of a file that describes a tree.
use mathlib.Core.Option.{some-injective}
use operating_systems_iitkgp.Base.{
  ℕ, zero, suc, ◌+◌, ◌-◌, ◌*◌, ◌≡◌, ◌≢◌, refl, sym, ap, ◌∙◌, ◌⊎◌, inl, inr, false, ◌||◌, List, [],
  ◌∷◌, ◌++◌, none, some, arith, ◌==◌, get_elem?, map, All, All-get, Bool-cases,
}
use operating_systems_iitkgp.Memory.Refstr.{value, IsDigit, IsDecimal}
use operating_systems_iitkgp.Proctree.{Text, after_node, or_else, find_node, num_child, new_node}

mutual
  pub data Town : Type 0 where
    town : Text → Towns → Town

  pub data Towns : Type 0 where
    alone : Towns
    beside : Town → Towns → Towns

abbrev pub name_of : Town → Text
name_of (town name kids) = name

abbrev pub count : Towns → ℕ
count alone = 0
count (beside t ts) = suc (count ts)

-- A name without a blank, an end of line or a zero.
abbrev pub IsName : Text → Type 0
IsName name = All (λ c. (c ≢ b' ') × (c ≢ b'\n') × (c ≢ 0)) name

-- The line of a town: its name, the number of its children, and their names.
abbrev pub kid_text : Towns → Text
kid_text alone = b'\n' ∷ []
kid_text (beside t ts) = b' ' ∷ (name_of t ++ kid_text ts)

module _ (print : ℕ → Text) where
  abbrev pub after_name : Town → Text
  after_name (town name kids) = print (count kids) ++ kid_text kids

  abbrev pub line_of : Town → Text
  line_of t = name_of t ++ b' ' ∷ after_name t

-- No town of a list has the name of one before.
abbrev pub Distinct : List Town → Type 0
Distinct [] = Unit
Distinct (t ∷ ts) = All (λ u. name_of t ≢ name_of u) ts × Distinct ts

after_node_self : (name rest : Text) → after_node name (name ++ b' ' ∷ rest) ≡ some rest
unfolding after_node
after_node_self [] rest = refl
after_node_self (c ∷ name) rest = ground (arith, after_node_self name rest)

after_node_apart :
    (node name rest : Text)
    → IsName node
    → IsName name
    → node ≢ name
    → after_node node (name ++ b' ' ∷ rest) ≡ none
unfolding after_node
after_node_apart [] [] rest n m apart = absurd (apart refl)
after_node_apart [] (c ∷ name) rest n ((blank, stop, nul), m) apart = ground arith
after_node_apart (c ∷ node) [] rest ((blank, stop, nul), n) m apart = ground arith
after_node_apart (c ∷ node) (d ∷ name) rest (x, n) (y, m) apart = elim (Bool-cases (c == d)) [
  | inr z ↦ rw (z) refl
  | inl z ↦
      let e : c ≡ d = ground arith in
      rw (z) (
        after_node_apart node name rest n m (λ q. apart (ap (λ k. k ∷ node) e ∙ ap (λ k. d ∷ k) q)))
]

module _ (print : ℕ → Text) where
  -- The line of a town is found.
  pub find_node-line_of :
      (rows : List Town) (i : ℕ) (t : Town)
      → All (λ u. IsName (name_of u)) rows
      → Distinct rows
      → get_elem? rows i ≡ some t
      → find_node (map (line_of print) rows) (name_of t) ≡ some (after_name print t)
  unfolding find_node or_else
  find_node-line_of [] i t names apart at = cc
  find_node-line_of (u ∷ rows) zero t names apart at =
      let e : u ≡ t = some-injective u t at in
      ap (λ v. find_node (map (line_of print) (u ∷ rows)) (name_of v)) (sym e)
      ∙ rw (after_node_self (name_of u) (after_name print u)) refl
      ∙ ap (λ v. some (after_name print v)) e
  find_node-line_of (u ∷ rows) (suc i) t (name, names) (far, apart) at =
      let ne : name_of t ≢ name_of u =
        λ q. All-get (λ v. name_of u ≢ name_of v) rows i far at (sym q) in
      let mine = All-get (λ v. IsName (name_of v)) rows i names at in
      rw (after_node_apart (name_of t) (name_of u) (after_name print u) mine name ne)
        (find_node-line_of rows i t names apart at)

-- Digits are read as their number.
num_child-digits :
    (n c : ℕ) (s rest : Text)
    → All IsDigit s
    → (c ≡ b' ') ⊎ (c ≡ b'\n')
    → num_child n (s ++ c ∷ rest) ≡ (value n s, c ∷ rest)
unfolding num_child
num_child-digits n c [] rest a stop = ground arith
num_child-digits n c (d ∷ s) rest (x, a) stop =
    ground (arith, num_child-digits (n * 10 + (d - b'0')) c s rest a stop)

pub num_child-kid_text :
    (print : ℕ → Text) (kids : Towns)
    → IsDecimal print
    → num_child 0 (print (count kids) ++ kid_text kids) ≡ (count kids, kid_text kids)
num_child-kid_text print alone d =
    num_child-digits 0 b'\n' (print 0) [] (d.digits 0) (inr refl)
    ∙ ap (λ n. (n, kid_text alone)) (d.value_print 0)
num_child-kid_text print (beside t ts) d =
    num_child-digits 0 b' ' (print (count (beside t ts))) (name_of t ++ kid_text ts)
      (d.digits (count (beside t ts))) (inl refl)
    ∙ ap (λ n. (n, kid_text (beside t ts))) (d.value_print (count (beside t ts)))

new_node-name :
    (name : Text) (c : ℕ) (rest : Text)
    → IsName name
    → (c ≡ b' ') ⊎ (c ≡ b'\n')
    → new_node (name ++ c ∷ rest) ≡ (name, c ∷ rest)
unfolding new_node
new_node-name [] c rest n stop = ground arith
new_node-name (d ∷ name) c rest ((blank, line, nul), n) stop =
    let going : (d == b' ' || d == b'\n' || d == 0) ≡ false = ground arith in
    rw (going, new_node-name name c rest n stop) refl

pub new_node-kid_text :
    (name : Text) (kids : Towns)
    → IsName name
    → new_node (name ++ kid_text kids) ≡ (name, kid_text kids)
new_node-kid_text name alone n = new_node-name name b'\n' [] n (inr refl)
new_node-kid_text name (beside t ts) n =
    new_node-name name b' ' (name_of t ++ kid_text ts) n (inl refl)
