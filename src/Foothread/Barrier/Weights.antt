-- ===== src/Foothread/Barrier/Weights.antt =====
-- Which threads hold the mutex of the barrier, stand between its two counts, or carry the one token
-- of its two turnstiles.
use operating_systems_iitkgp.Base.{
  ℕ, zero, suc, ◌+◌, ◌≤◌, ◌<◌, ◌≡◌, refl, ◌≢◌, List, [], ◌∷◌, some, arith, get_elem?, get_elem?-lt,
  set, length, length-set, replicate, dec_lt, ◌*◌,
}
use operating_systems_iitkgp.Base.Rows.{sum_rows, sum_rows-set, le-sum_rows, add-le-sum_all}
use operating_systems_iitkgp.Foothread.Barrier.{
  Pc, Thread, counting, counted, closing, opening, arrived, first, passed, leave, uncounting,
  uncounted, emptying, reopening, left, through,
}

-- The holders of the mutex, in three classes: the last to arrive, the last to leave, and all others.
abbrev pub last_in : Pc → ℕ
last_in p = elim p [ closing ↦ 1 | opening ↦ 1 | _ ↦ 0 ]

abbrev pub last_out : Pc → ℕ
last_out p = elim p [ emptying ↦ 1 | reopening ↦ 1 | _ ↦ 0 ]

abbrev pub busy : Pc → ℕ
busy p = elim p [
  | counting ↦ 1
  | counted ↦ 1
  | arrived ↦ 1
  | uncounting ↦ 1
  | uncounted ↦ 1
  | left ↦ 1
  | _ ↦ 0
]

abbrev pub inside : Pc → ℕ
inside p = elim p [
  | counted ↦ 1
  | closing ↦ 1
  | opening ↦ 1
  | arrived ↦ 1
  | first ↦ 1
  | passed ↦ 1
  | leave ↦ 1
  | uncounting ↦ 1
  | _ ↦ 0
]

abbrev pub outside : Pc → ℕ
outside p = elim p [
  | counted ↦ 0
  | closing ↦ 0
  | opening ↦ 0
  | arrived ↦ 0
  | first ↦ 0
  | passed ↦ 0
  | leave ↦ 0
  | uncounting ↦ 0
  | _ ↦ 1
]

abbrev pub token1 : Pc → ℕ
token1 p = elim p [ passed ↦ 1 | reopening ↦ 1 | _ ↦ 0 ]

abbrev pub token2 : Pc → ℕ
token2 p = elim p [ through ↦ 1 | opening ↦ 1 | _ ↦ 0 ]

-- The weight of all threads.
abbrev pub sum_pc : (Pc → ℕ) → List Thread → ℕ
sum_pc w xs = sum_rows (λ x. w x.pc) (length xs) xs

pub sum_pc-set :
    (w : Pc → ℕ) (xs : List Thread) (i : ℕ) (v : Thread) {x : Thread}
    → get_elem? xs i ≡ some x
    → sum_pc w (set xs i v) + w x.pc ≡ sum_pc w xs + w v.pc
sum_pc-set w xs i v e =
    rw (length-set xs i v) (sum_rows-set (λ x. w x.pc) (length xs) xs i v (get_elem?-lt xs i e) e)

pub le-sum_pc :
    (w : Pc → ℕ) (xs : List Thread) (i : ℕ) {x : Thread}
    → get_elem? xs i ≡ some x
    → w x.pc ≤ sum_pc w xs
le-sum_pc w xs i e = le-sum_rows (λ x. w x.pc) (length xs) xs i (get_elem?-lt xs i e) e

pub add-le-sum_pc :
    (w : Pc → ℕ) (xs : List Thread) (i j : ℕ) {x y : Thread}
    → i ≢ j
    → get_elem? xs i ≡ some x
    → get_elem? xs j ≡ some y
    → w x.pc + w y.pc ≤ sum_pc w xs
add-le-sum_pc w xs i j ne e d = add-le-sum_all (λ x. w x.pc) xs i j ne e d

pub sum_pc-replicate : (w : Pc → ℕ) (n : ℕ) (x : Thread) → sum_pc w (replicate n x) ≡ n * w x.pc
sum_pc-replicate w zero x = omega arith
sum_pc-replicate w (suc n) x = grind (arith, sum_pc-replicate w n x)

sum_rows-positive :
    (w : Pc → ℕ) (k : ℕ) (xs : List Thread)
    → 0 < sum_rows (λ x. w x.pc) k xs
    → (i : ℕ) × (x : Thread) × (get_elem? xs i ≡ some x) × (0 < w x.pc)
sum_rows-positive w zero xs h = absurd (omega arith)
sum_rows-positive w (suc k) [] h = absurd (omega arith)
sum_rows-positive w (suc k) (x ∷ xs) h = elim (dec_lt 0 (w x.pc)) [
  | yes here ↦ (0, x, refl, here)
  | no there ↦ let (i, y, e, p) = sum_rows-positive w k xs (omega arith) in (suc i, y, e, p)
]

-- Some thread has a positive weight when all together have.
pub sum_pc-positive :
    (w : Pc → ℕ) (xs : List Thread)
    → 0 < sum_pc w xs
    → (i : ℕ) × (x : Thread) × (get_elem? xs i ≡ some x) × (0 < w x.pc)
sum_pc-positive w xs h = sum_rows-positive w (length xs) xs h
