-- ===== src/Memory/Refstr/Laws.antt =====
-- The page numbers that process.c reads are those that master.c wrote, and they fit into the arrays.
use mathlib.Core.List.{append_assoc, append-nil}
use operating_systems_iitkgp.Base.{
  ℕ, zero, suc, ◌+◌, ◌-◌, ◌*◌, ◌%◌, ◌≤◌, ◌<◌, ◌≡◌, refl, sym, ap, ◌∙◌, Bool, true, false, List, [],
  ◌∷◌, ◌++◌, some, arith, length, length-append, All, All-map, ◌⊎◌,
}
use operating_systems_iitkgp.Memory.Table.{max_virtual_addr_space}
use operating_systems_iitkgp.Memory.Refstr.{
  ref_str_num_pages, ref_page, append_pages, reference_str, next_page, pages_of, value, IsDigit,
  IsDecimal,
}

-- Digits and a dot are read as their number.
next_page-digits :
    (n : ℕ) (s rest : List ℕ)
    → All IsDigit s
    → next_page n (s ++ b'.' ∷ rest) ≡ some (value n s, rest)
unfolding next_page
next_page-digits n [] rest a = refl
next_page-digits n (c ∷ s) rest (d, a) =
    ground (arith, next_page-digits (n * 10 + (c - b'0')) s rest a)

pages_of-dot :
    (fuel : ℕ) (xs rest pages : List ℕ) (page : ℕ)
    → next_page 0 (xs ++ b'.' ∷ rest) ≡ some (page, rest)
    → pages_of fuel rest ≡ some pages
    → pages_of (suc fuel) (xs ++ b'.' ∷ rest) ≡ some (page ∷ pages)
unfolding pages_of next_page
pages_of-dot fuel [] rest pages page h k = ground arith
pages_of-dot fuel (c ∷ xs) rest pages page h k = rw (pages_of, h, k) refl

module _ (print : ℕ → List ℕ) where
  append_pages-append :
      (s : List ℕ) (pages : List ℕ) → append_pages print s pages ≡ s ++ append_pages print [] pages
  unfolding append_pages
  append_pages-append s [] = sym (append-nil s)
  append_pages-append s (page ∷ pages) =
      append_pages-append (s ++ (print page ++ b'.' ∷ [])) pages
      ∙ append_assoc s (print page ++ b'.' ∷ []) (append_pages print [] pages)
      ∙ ap (λ t. s ++ t) (sym (append_pages-append (print page ++ b'.' ∷ []) pages))

  pub reference_str-nil : reference_str print [] ≡ []
  unfolding reference_str append_pages
  reference_str-nil = refl

  -- One page at a time.
  pub reference_str-cons :
      (page : ℕ) (pages : List ℕ)
      → reference_str print (page ∷ pages) ≡ print page ++ b'.' ∷ reference_str print pages
  unfolding reference_str append_pages
  reference_str-cons page pages =
      append_pages-append (print page ++ b'.' ∷ []) pages
      ∙ append_assoc (print page) (b'.' ∷ []) (append_pages print [] pages)

  -- As many characters as pages, and more.
  pub reference_str-enough : (pages : List ℕ) → length pages ≤ length (reference_str print pages)
  unfolding reference_str append_pages
  reference_str-enough [] = omega arith
  reference_str-enough (page ∷ pages) = rw (reference_str-cons page pages) (
      omega (
        arith,
        length-append {0} (print page) (b'.' ∷ reference_str print pages),
        reference_str-enough pages,
      ))

  module _ (d : IsDecimal print) where
    pub next_page-reference_str :
        (page : ℕ) (pages : List ℕ)
        → next_page 0 (reference_str print (page ∷ pages)) ≡ some (page, reference_str print pages)
    next_page-reference_str page pages =
        ap (next_page 0) (reference_str-cons page pages)
        ∙ next_page-digits 0 (print page) (reference_str print pages) (d.digits page)
        ∙ ap (λ n. some (n, reference_str print pages)) (d.value_print page)

    pub length-reference_str :
        (pages : List ℕ)
        → All (λ page. page < 100) pages
        → length (reference_str print pages) ≤ 3 * length pages
    unfolding reference_str append_pages
    length-reference_str [] a = omega arith
    length-reference_str (page ∷ pages) (small, a) = rw (reference_str-cons page pages) (
        omega (
          arith,
          length-append {0} (print page) (b'.' ∷ reference_str print pages),
          d.short page small,
          length-reference_str pages a,
        ))

    -- The outer loop of process.c reads back from the string of master.c the page numbers that were
    -- written, in their order, whatever they are.
    pub pages_of-reference_str :
        (pages : List ℕ) (fuel : ℕ)
        → length pages ≤ fuel
        → pages_of fuel (reference_str print pages) ≡ some pages
    unfolding pages_of reference_str append_pages
    pages_of-reference_str [] fuel h = refl
    pages_of-reference_str (page ∷ pages) zero h = absurd (omega arith)
    pages_of-reference_str (page ∷ pages) (suc fuel) h =
        ap (pages_of (suc fuel)) (reference_str-cons page pages)
        ∙ pages_of-dot fuel (print page) (reference_str print pages) pages page
            (ap (next_page 0) (sym (reference_str-cons page pages))
              ∙ next_page-reference_str page pages)
            (pages_of-reference_str pages fuel (omega arith))

-- A page lies below the size of the address space, and beyond the pages of the process only if the
-- test for an illegal one was passed.
pub ref_page_bounds :
    (m mi : ℕ) (illegal : Bool) (draw : ℕ)
    → 0 < mi
    → mi ≤ m
    → (ref_page m mi illegal draw < m) × ((illegal ≡ true) ⊎ (ref_page m mi illegal draw < mi))
unfolding ref_page
ref_page_bounds m mi true draw some_pages fits = ground arith
ref_page_bounds m mi false draw some_pages fits = ground arith

-- Let an address space have at most 25 pages, of which a process uses 1 or more, and let its
-- reference string be as long as master.c draws it, of pages of the address space. Then the page
-- numbers fit into the row of `ref_pages`, and the string with its NUL into the row of
-- `reference_str` and into `refstr` of process.c.
pub reference_str_fits :
    (print : ℕ → List ℕ) (m mi draw : ℕ) (pages : List ℕ)
    → IsDecimal print
    → mi ≤ m
    → m ≤ max_virtual_addr_space
    → length pages ≡ ref_str_num_pages mi draw
    → All (λ page. page < m) pages
    → (length pages ≤ max_virtual_addr_space * 11)
      × (length (reference_str print pages) + 1 ≤ max_virtual_addr_space * 110)
      × (length (reference_str print pages) + 1 ≤ 10010)
unfolding ref_str_num_pages
reference_str_fits print m mi draw pages d fits small drawn inside =
    let few : draw % (8 * mi + 1) ≤ 8 * mi = grind arith in
    omega (
      arith,
      length-reference_str print d pages
          (All-map (λ page. page < m) (λ page. page < 100) (λ page h. omega arith) pages inside),
    )
