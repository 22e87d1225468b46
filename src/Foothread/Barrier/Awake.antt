-- ===== src/Foothread/Barrier/Awake.antt =====
-- When the last thread has arrived, or left, there is one that is about to open the turnstile.
use operating_systems_iitkgp.Base.{ℕ, ◌+◌, ◌<◌, ◌≡◌, refl, true, arith}
use operating_systems_iitkgp.Foothread.Barrier.{
  Barrier, Pc, Thread, Move, advance, idle, counted, uncounted, call, lock, count_up, is_last,
  not_last, take_second, open_first, unlock, pass_first, pass_on_first, lock_again, count_down,
  is_empty, not_empty, take_first, open_second, unlock_again, pass_second, pass_on_second, System,
  pick, Reach, begin, step,
}
use operating_systems_iitkgp.Foothread.Barrier.Weights.{
  token1, sum_pc, sum_pc-set, sum_pc-replicate,
}
use operating_systems_iitkgp.Foothread.Barrier.Numbers.{Sums, sums, Balance, Moved, sums-set}
use operating_systems_iitkgp.Foothread.Barrier.Meeting.{Reach-Inv}

abbrev pub decides_in : Pc → ℕ
decides_in p = elim p [ counted ↦ 1 | _ ↦ 0 ]

abbrev pub decides_out : Pc → ℕ
decides_out p = elim p [ uncounted ↦ 1 | _ ↦ 0 ]

pub record Awake (n : ℕ) (m : Barrier) (w : Sums) (ci co : ℕ) : Type 0 where
  pub live : m.is_live ≡ true
  pub all_in : 0 < n → m.sem2 + w.token2 ≡ 1 → m.count ≡ n → 0 < w.last_in + ci
  pub all_out : m.sem1 + w.token1 ≡ 1 → m.count ≡ 0 → 0 < w.last_out + co

Move-Awake :
    {n : ℕ} {m m' : Barrier} {p q : Pc} {w w' : Sums} {ci co ci' co' : ℕ}
    → Move m p m' q
    → Moved p q w w'
    → ci' + decides_in p ≡ ci + decides_in q
    → co' + decides_out p ≡ co + decides_out q
    → Balance n m w
    → Awake n m w ci co
    → Awake n m' w' ci' co'
Move-Awake (call live) d c o b a = ground arith
Move-Awake (lock h) d c o b a = ground arith
Move-Awake count_up d c o b a = ground arith
Move-Awake (is_last h) d c o b a = ground arith
Move-Awake (not_last h) d c o b a = ground arith
Move-Awake (take_second h) d c o b a = ground arith
Move-Awake open_first d c o b a = ground arith
Move-Awake unlock d c o b a = ground arith
Move-Awake (pass_first h) d c o b a = ground arith
Move-Awake pass_on_first d c o b a = ground arith
Move-Awake (lock_again h) d c o b a = ground arith
Move-Awake count_down d c o b a = ground arith
Move-Awake (is_empty h) d c o b a = ground arith
Move-Awake (not_empty h) d c o b a = ground arith
Move-Awake (take_first h) d c o b a = ground arith
Move-Awake open_second d c o b a = ground arith
Move-Awake unlock_again d c o b a = ground arith
Move-Awake (pass_second h) d c o b a = ground arith
Move-Awake pass_on_second d c o b a = ground arith

pub Reach-Awake :
    {n : ℕ} {s : System}
    → Reach n s
    → Awake n s.barrier
        (sums s.threads)
        (sum_pc decides_in s.threads)
        (sum_pc decides_out s.threads)
Reach-Awake {n} begin =
    let x : Thread = record { pc = idle; arrivals = 0; returns = 0 } in
    record {
      live = refl;
      all_in = λ some_in t c. omega arith;
      all_out = λ t. omega (arith, sum_pc-replicate token1 n x);
    }
Reach-Awake (step {s} r (pick {x} {p} i e mv)) =
    Move-Awake mv (sums-set s.threads i (advance x p) e)
      (sum_pc-set decides_in s.threads i (advance x p) e)
      (sum_pc-set decides_out s.threads i (advance x p) e) (Reach-Inv r).balance (Reach-Awake r)
