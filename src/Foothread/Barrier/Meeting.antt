-- ===== src/Foothread/Barrier/Meeting.antt =====
-- The barrier does what it is for: nobody returns before all have arrived.
use operating_systems_iitkgp.Base.{
  ℕ, zero, suc, ◌+◌, ◌≤◌, ◌≡◌, refl, ◌∙◌, subst, List, some, arith, get_elem?, length, length-set,
  length-replicate, replicate,
}
use operating_systems_iitkgp.Foothread.Barrier.{
  Barrier, Pc, Thread, advance, idle, enter, counting, counted, closing, opening, arrived, first,
  second, passed, leave, uncounting, uncounted, emptying, reopening, left, through, System, Step,
  pick, Reach, begin, step,
}
use operating_systems_iitkgp.Foothread.Barrier.Weights.{token2, sum_pc-replicate}
use operating_systems_iitkgp.Foothread.Barrier.Numbers.{
  sums, Balance, sums-set, Move-Balance, begin-Balance,
}
use operating_systems_iitkgp.Foothread.Barrier.Phases.{
  Gathers, Disperses, Every, Phase, gathering, dispersing, after,
}
use mathlib.Core.Option.{some-injective}
use operating_systems_iitkgp.Foothread.Barrier.Steps.{next-Phase}

-- The invariant of what `n` threads reach.
pub record Inv (n : ℕ) (s : System) : Type 0 where
  pub size : length s.threads ≡ n
  pub balance : Balance n s.barrier (sums s.threads)
  pub round : ℕ
  pub phase : Phase s.barrier s.threads round

pub Step-Inv : {n : ℕ} {s t : System} → Inv n s → Step s t → Inv n t
Step-Inv {s} v (pick {x} {p} i e mv) =
    let (g, phase) = next-Phase i s.threads v.balance e v.phase mv in
    record {
      size = length-set s.threads i (advance x p) ∙ v.size;
      balance = Move-Balance mv (sums-set s.threads i (advance x p) e) v.balance;
      round = g;
      phase = phase;
    }

begin-Gathers : (n : ℕ) → Every (Gathers 0) (replicate n (after idle 0 0))
begin-Gathers zero i x e = cc
begin-Gathers (suc n) zero x e =
    subst (Gathers 0) (some-injective (after idle 0 0) x e) (refl, refl)
begin-Gathers (suc n) (suc i) x e = begin-Gathers n i x e

pub Reach-Inv : {n : ℕ} {s : System} → Reach n s → Inv n s
Reach-Inv {n} begin = record {
  size = length-replicate n (after idle 0 0);
  balance = begin-Balance n (after idle 0 0) refl;
  round = 0;
  phase = gathering (omega (arith, sum_pc-replicate token2 n (after idle 0 0))) (begin-Gathers n);
}
Reach-Inv (step r st) = Step-Inv (Reach-Inv r) st

-- The counts of a thread in round `g`.
abbrev InRound : ℕ → ℕ → ℕ → Type 0
InRound g a r = (r ≤ g) × (g ≤ a) × (a ≤ g + 1) × (a ≤ r + 1)

gathered : (g a r : ℕ) (p : Pc) → Gathers g (after p a r) → InRound g a r
gathered g a r idle h = ground arith
gathered g a r enter h = ground arith
gathered g a r counting h = ground arith
gathered g a r counted h = ground arith
gathered g a r closing h = ground arith
gathered g a r opening h = ground arith
gathered g a r arrived h = ground arith
gathered g a r first h = ground arith
gathered g a r passed h = ground arith
gathered g a r leave h = ground arith
gathered g a r uncounting h = ground arith
gathered g a r uncounted h = ground arith
gathered g a r emptying h = ground arith
gathered g a r reopening h = ground arith
gathered g a r left h = ground arith
gathered g a r second h = ground arith
gathered g a r through h = ground arith

dispersed : (g a r : ℕ) (p : Pc) → Disperses g (after p a r) → InRound g a r
dispersed g a r idle h = ground arith
dispersed g a r enter h = ground arith
dispersed g a r counting h = ground arith
dispersed g a r counted h = ground arith
dispersed g a r closing h = ground arith
dispersed g a r opening h = ground arith
dispersed g a r arrived h = ground arith
dispersed g a r first h = ground arith
dispersed g a r passed h = ground arith
dispersed g a r leave h = ground arith
dispersed g a r uncounting h = ground arith
dispersed g a r uncounted h = ground arith
dispersed g a r emptying h = ground arith
dispersed g a r reopening h = ground arith
dispersed g a r left h = ground arith
dispersed g a r second h = ground arith
dispersed g a r through h = ground arith

in_round :
    {m : Barrier} {xs : List Thread} {g : ℕ} (i : ℕ) (x : Thread)
    → Phase m xs g
    → get_elem? xs i ≡ some x
    → InRound g x.arrivals x.returns
in_round {g} i x (gathering t every) e = gathered g x.arrivals x.returns x.pc (every i x e)
in_round {g} i x (dispersing t every) e = dispersed g x.arrivals x.returns x.pc (every i x e)

-- Let `n` threads share a barrier for `n` threads, and take their steps in any order. At every moment
-- no thread has returned from more calls than any thread has arrived in: nobody returns from a
-- call before all have arrived in the same one. And no thread arrives twice more often than another.
pub nobody_early :
    {n : ℕ} {s : System} (i j : ℕ) {x y : Thread}
    → Reach n s
    → get_elem? s.threads i ≡ some x
    → get_elem? s.threads j ≡ some y
    → (x.returns ≤ y.arrivals) × (x.arrivals ≤ y.arrivals + 1)
nobody_early i j {x} {y} r e d =
    let v = Reach-Inv r in omega (arith, in_round i x v.phase e, in_round j y v.phase d)
