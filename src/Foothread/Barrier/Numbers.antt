-- ===== src/Foothread/Barrier/Numbers.antt =====
-- What every step keeps of the counters of the barrier.
use operating_systems_iitkgp.Base.{
  ℕ, ◌+◌, ◌≤◌, ◌<◌, ◌≡◌, refl, List, some, arith, get_elem?, set, replicate,
}
use operating_systems_iitkgp.Foothread.Barrier.{
  Barrier, barrier_init, Pc, Thread, Move, idle, call, lock, count_up, is_last, not_last,
  take_second, open_first, unlock, pass_first, pass_on_first, lock_again, count_down, is_empty,
  not_empty, take_first, open_second, unlock_again, pass_second, pass_on_second,
}
use operating_systems_iitkgp.Foothread.Barrier.Weights.{
  last_in, last_out, busy, inside, outside, token1, token2, sum_pc, sum_pc-set, le-sum_pc,
  sum_pc-replicate,
}

-- The weights of all threads.
pub record Sums : Type 0 where
  pub last_in : ℕ
  pub last_out : ℕ
  pub busy : ℕ
  pub inside : ℕ
  pub outside : ℕ
  pub token1 : ℕ
  pub token2 : ℕ

abbrev pub sums : List Thread → Sums
sums xs = record {
  last_in = sum_pc last_in xs;
  last_out = sum_pc last_out xs;
  busy = sum_pc busy xs;
  inside = sum_pc inside xs;
  outside = sum_pc outside xs;
  token1 = sum_pc token1 xs;
  token2 = sum_pc token2 xs;
}

-- The mutex is free or has one holder, `count` counts the threads inside, and there is one token.
pub record Balance (n : ℕ) (m : Barrier) (w : Sums) : Type 0 where
  pub threads : m.n ≡ n
  pub one_holder : m.mutex + w.last_in + w.last_out + w.busy ≡ 1
  pub in_count : m.count ≡ w.inside
  pub out_count : m.count + w.outside ≡ n
  pub full : 0 < w.last_in → m.count ≡ n
  pub empty : 0 < w.last_out → m.count ≡ 0
  pub one_token : m.sem1 + w.token1 + m.sem2 + w.token2 ≡ 1

-- The sums after a thread has gone from `p` to `q`.
pub record Moved (p q : Pc) (w w' : Sums) : Type 0 where
  pub last_in_eq : w'.last_in + last_in p ≡ w.last_in + last_in q
  pub last_out_eq : w'.last_out + last_out p ≡ w.last_out + last_out q
  pub busy_eq : w'.busy + busy p ≡ w.busy + busy q
  pub inside_eq : w'.inside + inside p ≡ w.inside + inside q
  pub outside_eq : w'.outside + outside p ≡ w.outside + outside q
  pub token1_eq : w'.token1 + token1 p ≡ w.token1 + token1 q
  pub token2_eq : w'.token2 + token2 p ≡ w.token2 + token2 q
  pub one_last_in : last_in p ≤ w.last_in
  pub one_last_out : last_out p ≤ w.last_out
  pub one_busy : busy p ≤ w.busy
  pub one_inside : inside p ≤ w.inside

pub sums-set :
    (xs : List Thread) (i : ℕ) (v : Thread) {x : Thread}
    → get_elem? xs i ≡ some x
    → Moved x.pc v.pc (sums xs) (sums (set xs i v))
sums-set xs i v e = record {
  last_in_eq = sum_pc-set last_in xs i v e;
  last_out_eq = sum_pc-set last_out xs i v e;
  busy_eq = sum_pc-set busy xs i v e;
  inside_eq = sum_pc-set inside xs i v e;
  outside_eq = sum_pc-set outside xs i v e;
  token1_eq = sum_pc-set token1 xs i v e;
  token2_eq = sum_pc-set token2 xs i v e;
  one_last_in = le-sum_pc last_in xs i e;
  one_last_out = le-sum_pc last_out xs i e;
  one_busy = le-sum_pc busy xs i e;
  one_inside = le-sum_pc inside xs i e;
}

pub Move-Balance :
    {n : ℕ} {m m' : Barrier} {p q : Pc} {w w' : Sums}
    → Move m p m' q
    → Moved p q w w'
    → Balance n m w
    → Balance n m' w'
Move-Balance (call live) d b = ground arith
Move-Balance (lock h) d b = ground arith
Move-Balance count_up d b = ground arith
Move-Balance (is_last h) d b = ground arith
Move-Balance (not_last h) d b = ground arith
Move-Balance (take_second h) d b = ground arith
Move-Balance open_first d b = ground arith
Move-Balance unlock d b = ground arith
Move-Balance (pass_first h) d b = ground arith
Move-Balance pass_on_first d b = ground arith
Move-Balance (lock_again h) d b = ground arith
Move-Balance count_down d b = ground arith
Move-Balance (is_empty h) d b = ground arith
Move-Balance (not_empty h) d b = ground arith
Move-Balance (take_first h) d b = ground arith
Move-Balance open_second d b = ground arith
Move-Balance unlock_again d b = ground arith
Move-Balance (pass_second h) d b = ground arith
Move-Balance pass_on_second d b = ground arith

pub begin-Balance :
    (n : ℕ) (x : Thread) → x.pc ≡ idle → Balance n (barrier_init n) (sums (replicate n x))
begin-Balance n x e = record {
  threads = refl;
  one_holder = grind (
    arith,
    sum_pc-replicate last_in n x,
    sum_pc-replicate last_out n x,
    sum_pc-replicate busy n x,
  );
  in_count = grind (arith, sum_pc-replicate inside n x);
  out_count = grind (arith, sum_pc-replicate outside n x);
  full = λ h. grind (arith, sum_pc-replicate last_in n x);
  empty = λ h. grind (arith, sum_pc-replicate last_out n x);
  one_token = grind (arith, sum_pc-replicate token1 n x, sum_pc-replicate token2 n x);
}
