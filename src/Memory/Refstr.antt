-- ===== src/Memory/Refstr.antt =====
-- The reference strings of Assignment 8: master.c writes the page numbers of a process into a string,
-- each followed by a dot, and process.c reads them back one at a time. `print` is what `sprintf` makes
-- of a number by `%d`. Characters are their codes, and the NUL at the end is left out.
pub mod Laws
pub mod Decimal
mod Tests
use operating_systems_iitkgp.Base.{
  ℕ, zero, suc, ◌+◌, ◌-◌, ◌*◌, ◌%◌, ◌≤◌, ◌<◌, ◌≡◌, Bool, ◌&&◌, List, [], ◌∷◌, ◌++◌, Option, none,
  some, ltb, ◌==◌, if◌then◌else◌, ◌>>=◌, length, All,
}

-- `2 * mi + rand() % (8 * mi + 1)`, for a value of `rand()`.
pub ref_str_num_pages : ℕ → ℕ → ℕ
ref_str_num_pages mi draw = 2 * mi + draw % (8 * mi + 1)

-- A page of the reference string: `illegal` is the outcome of the test on PROB_ILLEGAL_ADDR.
pub ref_page : ℕ → ℕ → Bool → ℕ → ℕ
ref_page m mi illegal draw = if illegal && ltb mi m then mi + draw % (m - mi) else draw % mi

module _ (print : ℕ → List ℕ) where
  -- The loop of `strcat`, from what the string holds so far.
  pub append_pages : List ℕ → List ℕ → List ℕ
  append_pages s [] = s
  append_pages s (page ∷ pages) = append_pages (s ++ (print page ++ b'.' ∷ [])) pages

  pub reference_str : List ℕ → List ℕ
  unfolding append_pages
  reference_str pages = append_pages [] pages

-- The inner loop of process.c, and the step over the dot: the page number, and the rest. What is
-- neither a dot nor at least '0' would make the number smaller: `none`.
pub next_page : ℕ → List ℕ → Option (ℕ × List ℕ)
next_page page [] = some (page, [])
next_page page (c ∷ s) =
    if c == b'.'
    then some (page, s)
    else if ltb c b'0'
    then none
    else next_page (page * 10 + (c - b'0')) s

-- All page numbers of a string, as the outer loop finds them. With no fuel left it is `none`.
pub pages_of : ℕ → List ℕ → Option (List ℕ)
unfolding next_page
pages_of fuel [] = some []
pages_of zero (c ∷ s) = none
pages_of (suc fuel) (c ∷ s) = do
  (page, rest) ← next_page 0 (c ∷ s)
  pages ← pages_of fuel rest
  some (page ∷ pages)

-- What is known of `sprintf`: it writes digits, which stand for the number, and for a number below
-- 100 at most two.
abbrev pub value : ℕ → List ℕ → ℕ
value n [] = n
value n (c ∷ s) = value (n * 10 + (c - b'0')) s

abbrev pub IsDigit : ℕ → Type 0
IsDigit c = (b'0' ≤ c) × (c ≤ b'9')

pub record IsDecimal (print : ℕ → List ℕ) : Type 0 where
  pub digits : (n : ℕ) → All IsDigit (print n)
  pub value_print : (n : ℕ) → value 0 (print n) ≡ n
  pub short : (n : ℕ) → n < 100 → length (print n) ≤ 2
