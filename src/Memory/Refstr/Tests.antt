-- ===== src/Memory/Refstr/Tests.antt =====
-- The theorems about the reference strings at concrete inputs.
use operating_systems_iitkgp.Base.{
  ℕ, ◌+◌, ◌*◌, ◌≤◌, ◌<◌, ◌≡◌, refl, ◌⊎◌, true, List, [], ◌∷◌, some, arith, length,
}
use operating_systems_iitkgp.Memory.Table.{max_virtual_addr_space}
use operating_systems_iitkgp.Memory.Refstr.{
  ref_str_num_pages, ref_page, reference_str, append_pages, next_page, pages_of,
}
use operating_systems_iitkgp.Memory.Refstr.Decimal.{decimal, decimal-IsDecimal}
use operating_systems_iitkgp.Memory.Refstr.Laws.{
  pages_of-reference_str, reference_str_fits, ref_page_bounds,
}

reference_str_run : reference_str decimal (3 ∷ 12 ∷ []) ≡ b'3' ∷ b'.' ∷ b'1' ∷ b'2' ∷ b'.' ∷ []
unfolding reference_str append_pages
reference_str_run = refl

pages_of_run : pages_of 5 (b'3' ∷ b'.' ∷ b'1' ∷ b'2' ∷ b'.' ∷ []) ≡ some (3 ∷ 12 ∷ [])
unfolding pages_of next_page
pages_of_run = refl

pages_of-reference_str_example :
    pages_of 2 (reference_str decimal (3 ∷ 12 ∷ [])) ≡ some (3 ∷ 12 ∷ [])
pages_of-reference_str_example =
    pages_of-reference_str decimal decimal-IsDecimal (3 ∷ 12 ∷ []) 2 (omega arith)

abbrev two : List ℕ
two = 3 ∷ 12 ∷ []

two_drawn : length two ≡ ref_str_num_pages 1 9
unfolding ref_str_num_pages
two_drawn = refl

reference_str_fits_example :
    (length two ≤ max_virtual_addr_space * 11)
    × (length (reference_str decimal two) + 1 ≤ max_virtual_addr_space * 110)
    × (length (reference_str decimal two) + 1 ≤ 10010)
reference_str_fits_example =
    reference_str_fits decimal 13 1 9 two decimal-IsDecimal (omega arith) (omega arith) two_drawn
      (omega arith)

ref_page_bounds_example :
    (ref_page 10 4 true 17 < 10) × ((true ≡ true) ⊎ (ref_page 10 4 true 17 < 4))
ref_page_bounds_example = ref_page_bounds 10 4 true 17 (omega arith) (omega arith)
