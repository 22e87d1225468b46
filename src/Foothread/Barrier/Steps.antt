-- ===== src/Foothread/Barrier/Steps.antt =====
-- A step of a thread keeps the phase, or begins the next one.
use operating_systems_iitkgp.Base.{
  ℕ, ◌+◌, ◌≡◌, ◌≢◌, refl, sym, subst, inl, inr, List, some, arith, get_elem?, set,
}
use operating_systems_iitkgp.Foothread.Barrier.{
  Barrier, Pc, Thread, Move, advance, idle, enter, counting, counted, closing, opening, arrived,
  passed, leave, uncounting, uncounted, emptying, reopening, left, through, call, lock, count_up,
  is_last, not_last, take_second, open_first, unlock, pass_first, pass_on_first, lock_again,
  count_down, is_empty, not_empty, take_first, open_second, unlock_again, pass_second,
  pass_on_second,
}
use operating_systems_iitkgp.Base.Rows.{set-cases}
use operating_systems_iitkgp.Foothread.Barrier.Weights.{
  last_in, last_out, busy, inside, outside, token1, token2, le-sum_pc, add-le-sum_pc,
}
use operating_systems_iitkgp.Foothread.Barrier.Numbers.{sums, Balance, sums-set}
use operating_systems_iitkgp.Foothread.Barrier.Phases.{
  Gathers, Disperses, Every, Every-set, Phase, gathering, dispersing, after, Move-Gathers,
  Move-Disperses, all_wait_first, all_wait_second,
}

module _ {n : ℕ} {m m' : Barrier} {p q : Pc} (g a r i : ℕ) (xs : List Thread)
    (b : Balance n m (sums xs)) (e : get_elem? xs i ≡ some (after p a r)) where
  keep_gathering :
      Move m p m' q
      → m.sem2 + (sums xs).token2 ≡ 1
      → Every (Gathers g) xs
      → p ≢ opening
      → m'.sem2 + token2 q ≡ m.sem2 + token2 p
      → (g' : ℕ) × Phase m' (set xs i (advance (after p a r) q)) g'
  keep_gathering mv t every ne kept =
      let d = sums-set xs i (advance (after p a r) q) e in
      (
        g,
        gathering (omega (arith, d.token2_eq)) (
            Every-set (Gathers g) xs i _ every
              (Move-Gathers g a r mv (omega (arith, b.one_token)) ne (every i (after p a r) e))),
      )

  keep_dispersing :
      Move m p m' q
      → m.sem1 + (sums xs).token1 ≡ 1
      → Every (Disperses g) xs
      → p ≢ reopening
      → m'.sem1 + token1 q ≡ m.sem1 + token1 p
      → (g' : ℕ) × Phase m' (set xs i (advance (after p a r) q)) g'
  keep_dispersing mv t every ne kept =
      let d = sums-set xs i (advance (after p a r) q) e in
      (
        g,
        dispersing (omega (arith, d.token1_eq)) (
            Every-set (Disperses g) xs i _ every
              (Move-Disperses g a r mv (omega (arith, b.one_token)) ne (every i (after p a r) e))),
      )

abbrev Every-set_others :
    (P : Thread → Type 0) (xs : List Thread) (i : ℕ) (v : Thread)
    → ((j : ℕ) (y : Thread) → i ≢ j → get_elem? xs j ≡ some y → P y)
    → P v
    → Every P (set xs i v)
Every-set_others P xs i v every p j y e = elim (set-cases xs i j v e) [
  | inl (_, here) ↦ subst P (sym here) p
  | inr (ne, there) ↦ every j y ne there
]

open_first-Phase :
    {n : ℕ} {m : Barrier} (g a r i : ℕ) (xs : List Thread)
    → Balance n m (sums xs)
    → get_elem? xs i ≡ some (after opening a r)
    → Every (Gathers g) xs
    → Phase (record m { sem1 = m.sem1 + 1 }) (set xs i (advance (after opening a r) arrived)) g
open_first-Phase g a r i xs b e every =
    let d = sums-set xs i (advance (after opening a r) arrived) e in
    let mine = le-sum_pc last_in xs i e in
    let token = le-sum_pc token2 xs i e in
    dispersing (omega (arith, d.token1_eq, b.one_token)) (
      Every-set_others (Disperses g) xs i _
        (λ j y ne here.
          all_wait_first g y.arrivals y.returns y.pc (every j y here)
            (omega (arith, le-sum_pc busy xs j here, b.one_holder))
            (omega (arith, add-le-sum_pc last_in xs i j ne e here, b.one_holder))
            (omega (arith, le-sum_pc outside xs j here, b.out_count, b.full)))
        (ground (arith, every i (after opening a r) e)))

open_second-Phase :
    {n : ℕ} {m : Barrier} (g a r i : ℕ) (xs : List Thread)
    → Balance n m (sums xs)
    → get_elem? xs i ≡ some (after reopening a r)
    → Every (Disperses g) xs
    → Phase (record m { sem2 = m.sem2 + 1 }) (set xs i (advance (after reopening a r) left)) (g + 1)
open_second-Phase g a r i xs b e every =
    let d = sums-set xs i (advance (after reopening a r) left) e in
    let mine = le-sum_pc last_out xs i e in
    let token = le-sum_pc token1 xs i e in
    gathering (omega (arith, d.token2_eq, b.one_token)) (
      Every-set_others (Gathers (g + 1)) xs i _
        (λ j y ne here.
          all_wait_second g y.arrivals y.returns y.pc (every j y here)
            (omega (arith, le-sum_pc busy xs j here, b.one_holder))
            (omega (arith, add-le-sum_pc last_out xs i j ne e here, b.one_holder))
            (omega (arith, le-sum_pc inside xs j here, b.in_count, b.empty)))
        (ground (arith, every i (after reopening a r) e)))

next_gathering :
    {n : ℕ} {m m' : Barrier} {p q : Pc} (g a r i : ℕ) (xs : List Thread)
    → Balance n m (sums xs)
    → get_elem? xs i ≡ some (after p a r)
    → m.sem2 + (sums xs).token2 ≡ 1
    → Every (Gathers g) xs
    → Move m p m' q
    → (g' : ℕ) × Phase m' (set xs i (advance (after p a r) q)) g'
next_gathering g a r i xs b e t every (call live) =
    keep_gathering g a r i xs b e (call live) t every (λ c. cc) (refl)
next_gathering g a r i xs b e t every (lock h) =
    keep_gathering g a r i xs b e (lock h) t every (λ c. cc) (refl)
next_gathering g a r i xs b e t every count_up =
    keep_gathering g a r i xs b e count_up t every (λ c. cc) (refl)
next_gathering g a r i xs b e t every (is_last h) =
    keep_gathering g a r i xs b e (is_last h) t every (λ c. cc) (refl)
next_gathering g a r i xs b e t every (not_last h) =
    keep_gathering g a r i xs b e (not_last h) t every (λ c. cc) (refl)
next_gathering g a r i xs b e t every (take_second h) =
    keep_gathering g a r i xs b e (take_second h) t every (λ c. cc) (omega arith)
next_gathering g a r i xs b e t every open_first = (g, open_first-Phase g a r i xs b e every)
next_gathering g a r i xs b e t every unlock =
    keep_gathering g a r i xs b e unlock t every (λ c. cc) (refl)
next_gathering g a r i xs b e t every (pass_first h) =
    keep_gathering g a r i xs b e (pass_first h) t every (λ c. cc) (refl)
next_gathering g a r i xs b e t every pass_on_first = absurd (every i (after passed a r) e)
next_gathering g a r i xs b e t every (lock_again h) = absurd (every i (after leave a r) e)
next_gathering g a r i xs b e t every count_down = absurd (every i (after uncounting a r) e)
next_gathering g a r i xs b e t every (is_empty h) = absurd (every i (after uncounted a r) e)
next_gathering g a r i xs b e t every (not_empty h) = absurd (every i (after uncounted a r) e)
next_gathering g a r i xs b e t every (take_first h) = absurd (every i (after emptying a r) e)
next_gathering g a r i xs b e t every open_second = absurd (every i (after reopening a r) e)
next_gathering g a r i xs b e t every unlock_again =
    keep_gathering g a r i xs b e unlock_again t every (λ c. cc) (refl)
next_gathering g a r i xs b e t every (pass_second h) =
    keep_gathering g a r i xs b e (pass_second h) t every (λ c. cc) (omega arith)
next_gathering g a r i xs b e t every pass_on_second =
    keep_gathering g a r i xs b e pass_on_second t every (λ c. cc) (omega arith)

next_dispersing :
    {n : ℕ} {m m' : Barrier} {p q : Pc} (g a r i : ℕ) (xs : List Thread)
    → Balance n m (sums xs)
    → get_elem? xs i ≡ some (after p a r)
    → m.sem1 + (sums xs).token1 ≡ 1
    → Every (Disperses g) xs
    → Move m p m' q
    → (g' : ℕ) × Phase m' (set xs i (advance (after p a r) q)) g'
next_dispersing g a r i xs b e t every (call live) = absurd (every i (after idle a r) e)
next_dispersing g a r i xs b e t every (lock h) = absurd (every i (after enter a r) e)
next_dispersing g a r i xs b e t every count_up = absurd (every i (after counting a r) e)
next_dispersing g a r i xs b e t every (is_last h) = absurd (every i (after counted a r) e)
next_dispersing g a r i xs b e t every (not_last h) = absurd (every i (after counted a r) e)
next_dispersing g a r i xs b e t every (take_second h) = absurd (every i (after closing a r) e)
next_dispersing g a r i xs b e t every open_first = absurd (every i (after opening a r) e)
next_dispersing g a r i xs b e t every unlock =
    keep_dispersing g a r i xs b e unlock t every (λ c. cc) (refl)
next_dispersing g a r i xs b e t every (pass_first h) =
    keep_dispersing g a r i xs b e (pass_first h) t every (λ c. cc) (omega arith)
next_dispersing g a r i xs b e t every pass_on_first =
    keep_dispersing g a r i xs b e pass_on_first t every (λ c. cc) (omega arith)
next_dispersing g a r i xs b e t every (lock_again h) =
    keep_dispersing g a r i xs b e (lock_again h) t every (λ c. cc) (refl)
next_dispersing g a r i xs b e t every count_down =
    keep_dispersing g a r i xs b e count_down t every (λ c. cc) (refl)
next_dispersing g a r i xs b e t every (is_empty h) =
    keep_dispersing g a r i xs b e (is_empty h) t every (λ c. cc) (refl)
next_dispersing g a r i xs b e t every (not_empty h) =
    keep_dispersing g a r i xs b e (not_empty h) t every (λ c. cc) (refl)
next_dispersing g a r i xs b e t every (take_first h) =
    keep_dispersing g a r i xs b e (take_first h) t every (λ c. cc) (omega arith)
next_dispersing g a r i xs b e t every open_second = (g + 1, open_second-Phase g a r i xs b e every)
next_dispersing g a r i xs b e t every unlock_again =
    keep_dispersing g a r i xs b e unlock_again t every (λ c. cc) (refl)
next_dispersing g a r i xs b e t every (pass_second h) =
    keep_dispersing g a r i xs b e (pass_second h) t every (λ c. cc) (refl)
next_dispersing g a r i xs b e t every pass_on_second = absurd (every i (after through a r) e)

pub next-Phase :
    {n : ℕ} {m m' : Barrier} {q : Pc} {x : Thread} {g : ℕ} (i : ℕ) (xs : List Thread)
    → Balance n m (sums xs)
    → get_elem? xs i ≡ some x
    → Phase m xs g
    → Move m x.pc m' q
    → (g' : ℕ) × Phase m' (set xs i (advance x q)) g'
next-Phase {x} {g} i xs b e (gathering t every) mv =
    next_gathering g x.arrivals x.returns i xs b e t every mv
next-Phase {x} {g} i xs b e (dispersing t every) mv =
    next_dispersing g x.arrivals x.returns i xs b e t every mv
