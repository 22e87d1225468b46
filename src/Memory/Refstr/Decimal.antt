-- ===== src/Memory/Refstr/Decimal.antt =====
-- A concrete `sprintf` with `%d`: the decimal digits of a number.
use operating_systems_iitkgp.Base.{
  ℕ, zero, suc, ◌+◌, ◌-◌, ◌*◌, ◌/◌, ◌%◌, ◌≤◌, ◌<◌, ◌≡◌, refl, inl, inr, true, List, [], ◌∷◌, ◌++◌,
  arith, ltb, if◌then◌else◌, length, length-append, All, All-append, Bool-cases,
}
use operating_systems_iitkgp.Memory.Refstr.{value, IsDigit, IsDecimal}

abbrev digits : ℕ → ℕ → List ℕ
digits zero n = b'0' ∷ []
digits (suc fuel) n =
    let rest = digits fuel (n / 10) in
    if ltb n 10 then (b'0' + n) ∷ [] else rest ++ (b'0' + n % 10) ∷ []

abbrev pub decimal : ℕ → List ℕ
decimal n = digits n n

value-append : (a c : ℕ) (s : List ℕ) → value a (s ++ c ∷ []) ≡ value a s * 10 + (c - b'0')
value-append a c [] = refl
value-append a c (d ∷ s) = value-append (a * 10 + (d - b'0')) c s

value-digits : (fuel n : ℕ) → n ≤ fuel → value 0 (digits fuel n) ≡ n
value-digits zero n h = omega arith
value-digits (suc fuel) n h = elim (Bool-cases (ltb n 10)) [
  | inl small ↦ rw (small) (omega arith)
  | inr large ↦
      let big : 10 ≤ n = ground arith in
      rw
        (
          large,
          value-append 0 (b'0' + n % 10) (digits fuel (n / 10)),
          value-digits fuel (n / 10) (omega arith),
        )
        (omega arith)
]

digits-IsDigit : (fuel n : ℕ) → All IsDigit (digits fuel n)
digits-IsDigit zero n = omega arith
digits-IsDigit (suc fuel) n = elim (Bool-cases (ltb n 10)) [
  | inl small ↦ rw (small) (ground arith)
  | inr large ↦ rw (large) (
      All-append IsDigit (digits fuel (n / 10)) ((b'0' + n % 10) ∷ [])
        (digits-IsDigit fuel (n / 10)) (omega arith))
]

length-digits_one : (fuel n : ℕ) → n < 10 → length (digits fuel n) ≡ 1
length-digits_one zero n h = refl
length-digits_one (suc fuel) n h = let small : ltb n 10 ≡ true = ground arith in rw (small) refl

length-digits : (fuel n : ℕ) → n < 100 → length (digits fuel n) ≤ 2
length-digits zero n h = omega arith
length-digits (suc fuel) n h = elim (Bool-cases (ltb n 10)) [
  | inl small ↦ rw (small) (omega arith)
  | inr large ↦
      rw
        (
          large,
          length-append {0} (digits fuel (n / 10)) ((b'0' + n % 10) ∷ []),
          length-digits_one fuel (n / 10) (omega arith),
        )
        (omega arith)
]

pub decimal-IsDecimal : IsDecimal decimal
decimal-IsDecimal = record {
  digits = λ n. digits-IsDigit n n;
  value_print = λ n. value-digits n n (omega arith);
  short = λ n. length-digits n n;
}
