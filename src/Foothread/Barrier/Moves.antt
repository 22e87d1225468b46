-- ===== src/Foothread/Barrier/Moves.antt =====
-- The barrier does not deadlock.
use operating_systems_iitkgp.Base.{◌<◌, arith, ℕ_discrete}
use operating_systems_iitkgp.Foothread.Barrier.{
  Barrier, Pc, Move, idle, enter, counting, counted, closing, opening, arrived, first, passed,
  leave, uncounting, uncounted, emptying, reopening, left, second, through, count_up, is_last,
  not_last, open_first, unlock, pass_on_first, count_down, is_empty, not_empty, open_second,
  unlock_again, pass_on_second,
}
use operating_systems_iitkgp.Foothread.Barrier.Weights.{busy, token1, token2}
use operating_systems_iitkgp.Foothread.Barrier.Awake.{decides_in, decides_out}

abbrev pub CanMove : Barrier → Pc → Type 0
CanMove m p = (m' : Barrier) × (q : Pc) × Move m p m' q

pub busy-CanMove : {m : Barrier} (p : Pc) → 0 < busy p → CanMove m p
busy-CanMove {m} idle h = absurd (omega arith)
busy-CanMove {m} enter h = absurd (omega arith)
busy-CanMove {m} counting h = (_, _, count_up)
busy-CanMove {m} counted h = elim (ℕ_discrete m.count m.n) [
  | yes e ↦ (_, _, is_last e)
  | no ne ↦ (_, _, not_last ne)
]
busy-CanMove {m} closing h = absurd (omega arith)
busy-CanMove {m} opening h = absurd (omega arith)
busy-CanMove {m} arrived h = (_, _, unlock)
busy-CanMove {m} first h = absurd (omega arith)
busy-CanMove {m} passed h = absurd (omega arith)
busy-CanMove {m} leave h = absurd (omega arith)
busy-CanMove {m} uncounting h = (_, _, count_down)
busy-CanMove {m} uncounted h = elim (ℕ_discrete m.count 0) [
  | yes e ↦ (_, _, is_empty e)
  | no ne ↦ (_, _, not_empty ne)
]
busy-CanMove {m} emptying h = absurd (omega arith)
busy-CanMove {m} reopening h = absurd (omega arith)
busy-CanMove {m} left h = (_, _, unlock_again)
busy-CanMove {m} second h = absurd (omega arith)
busy-CanMove {m} through h = absurd (omega arith)

pub decides_in-CanMove : {m : Barrier} (p : Pc) → 0 < decides_in p → CanMove m p
decides_in-CanMove {m} idle h = absurd (omega arith)
decides_in-CanMove {m} enter h = absurd (omega arith)
decides_in-CanMove {m} counting h = absurd (omega arith)
decides_in-CanMove {m} counted h = elim (ℕ_discrete m.count m.n) [
  | yes e ↦ (_, _, is_last e)
  | no ne ↦ (_, _, not_last ne)
]
decides_in-CanMove {m} closing h = absurd (omega arith)
decides_in-CanMove {m} opening h = absurd (omega arith)
decides_in-CanMove {m} arrived h = absurd (omega arith)
decides_in-CanMove {m} first h = absurd (omega arith)
decides_in-CanMove {m} passed h = absurd (omega arith)
decides_in-CanMove {m} leave h = absurd (omega arith)
decides_in-CanMove {m} uncounting h = absurd (omega arith)
decides_in-CanMove {m} uncounted h = absurd (omega arith)
decides_in-CanMove {m} emptying h = absurd (omega arith)
decides_in-CanMove {m} reopening h = absurd (omega arith)
decides_in-CanMove {m} left h = absurd (omega arith)
decides_in-CanMove {m} second h = absurd (omega arith)
decides_in-CanMove {m} through h = absurd (omega arith)

pub decides_out-CanMove : {m : Barrier} (p : Pc) → 0 < decides_out p → CanMove m p
decides_out-CanMove {m} idle h = absurd (omega arith)
decides_out-CanMove {m} enter h = absurd (omega arith)
decides_out-CanMove {m} counting h = absurd (omega arith)
decides_out-CanMove {m} counted h = absurd (omega arith)
decides_out-CanMove {m} closing h = absurd (omega arith)
decides_out-CanMove {m} opening h = absurd (omega arith)
decides_out-CanMove {m} arrived h = absurd (omega arith)
decides_out-CanMove {m} first h = absurd (omega arith)
decides_out-CanMove {m} passed h = absurd (omega arith)
decides_out-CanMove {m} leave h = absurd (omega arith)
decides_out-CanMove {m} uncounting h = absurd (omega arith)
decides_out-CanMove {m} uncounted h = elim (ℕ_discrete m.count 0) [
  | yes e ↦ (_, _, is_empty e)
  | no ne ↦ (_, _, not_empty ne)
]
decides_out-CanMove {m} emptying h = absurd (omega arith)
decides_out-CanMove {m} reopening h = absurd (omega arith)
decides_out-CanMove {m} left h = absurd (omega arith)
decides_out-CanMove {m} second h = absurd (omega arith)
decides_out-CanMove {m} through h = absurd (omega arith)

pub token1-CanMove : {m : Barrier} (p : Pc) → 0 < token1 p → CanMove m p
token1-CanMove {m} idle h = absurd (omega arith)
token1-CanMove {m} enter h = absurd (omega arith)
token1-CanMove {m} counting h = absurd (omega arith)
token1-CanMove {m} counted h = absurd (omega arith)
token1-CanMove {m} closing h = absurd (omega arith)
token1-CanMove {m} opening h = absurd (omega arith)
token1-CanMove {m} arrived h = absurd (omega arith)
token1-CanMove {m} first h = absurd (omega arith)
token1-CanMove {m} passed h = (_, _, pass_on_first)
token1-CanMove {m} leave h = absurd (omega arith)
token1-CanMove {m} uncounting h = absurd (omega arith)
token1-CanMove {m} uncounted h = absurd (omega arith)
token1-CanMove {m} emptying h = absurd (omega arith)
token1-CanMove {m} reopening h = (_, _, open_second)
token1-CanMove {m} left h = absurd (omega arith)
token1-CanMove {m} second h = absurd (omega arith)
token1-CanMove {m} through h = absurd (omega arith)

pub token2-CanMove : {m : Barrier} (p : Pc) → 0 < token2 p → CanMove m p
token2-CanMove {m} idle h = absurd (omega arith)
token2-CanMove {m} enter h = absurd (omega arith)
token2-CanMove {m} counting h = absurd (omega arith)
token2-CanMove {m} counted h = absurd (omega arith)
token2-CanMove {m} closing h = absurd (omega arith)
token2-CanMove {m} opening h = (_, _, open_first)
token2-CanMove {m} arrived h = absurd (omega arith)
token2-CanMove {m} first h = absurd (omega arith)
token2-CanMove {m} passed h = absurd (omega arith)
token2-CanMove {m} leave h = absurd (omega arith)
token2-CanMove {m} uncounting h = absurd (omega arith)
token2-CanMove {m} uncounted h = absurd (omega arith)
token2-CanMove {m} emptying h = absurd (omega arith)
token2-CanMove {m} reopening h = absurd (omega arith)
token2-CanMove {m} left h = absurd (omega arith)
token2-CanMove {m} second h = absurd (omega arith)
token2-CanMove {m} through h = (_, _, pass_on_second)
