-- ===== src/Foothread/Barrier/Progress.antt =====
-- The barrier does not deadlock: in every reachable state some thread can take a step.
use operating_systems_iitkgp.Base.{ℕ, ◌+◌, ◌<◌, ◌≡◌, some, arith, get_elem?, dec_lt, ℕ_discrete}
use operating_systems_iitkgp.Foothread.Barrier.{Pc, Thread, System, Step, pick, Reach}
use operating_systems_iitkgp.Foothread.Barrier.Weights.{
  last_in, last_out, busy, inside, outside, token1, token2, sum_pc, sum_pc-positive,
}
use operating_systems_iitkgp.Foothread.Barrier.Numbers.{sums, Balance}
use operating_systems_iitkgp.Foothread.Barrier.Phases.{
  Gathers, Disperses, Every, gathering, dispersing,
}
use operating_systems_iitkgp.Foothread.Barrier.Meeting.{Reach-Inv}
use operating_systems_iitkgp.Foothread.Barrier.Awake.{decides_in, decides_out, Awake, Reach-Awake}
use operating_systems_iitkgp.Foothread.Barrier.Moves.{
  CanMove, busy-CanMove, decides_in-CanMove, decides_out-CanMove, token1-CanMove, token2-CanMove,
}
use operating_systems_iitkgp.Foothread.Barrier.Turnstiles.{
  outside-CanMove, inside-CanMove, last_in-CanMove, last_out-CanMove, Disperses-last_in,
  Gathers-last_out,
}

-- If the threads of a positive weight can move, and there is one, then some thread can.
some_moves :
    (w : Pc → ℕ) (s : System)
    → 0 < sum_pc w s.threads
    → ((i : ℕ) (x : Thread) → get_elem? s.threads i ≡ some x → 0 < w x.pc → CanMove s.barrier x.pc)
    → (t : System) × Step s t
some_moves w s h can =
    let (i, x, e, p) = sum_pc-positive w s.threads h in
    let (m', q, mv) = can i x e p in (_, pick i e mv)

gathering_moves :
    {n g : ℕ} (s : System)
    → 0 < n
    → Balance n s.barrier (sums s.threads)
    → Awake n s.barrier
        (sums s.threads)
        (sum_pc decides_in s.threads)
        (sum_pc decides_out s.threads)
    → sum_pc busy s.threads ≡ 0
    → s.barrier.sem2 + sum_pc token2 s.threads ≡ 1
    → Every (Gathers g) s.threads
    → (t : System) × Step s t
gathering_moves {n} s some_in b a quiet t every = elim (dec_lt 0 (sum_pc token2 s.threads)) [
  | yes carried ↦ some_moves token2 s carried (λ i x e p. token2-CanMove x.pc p)
  | no at_rest ↦ elim (dec_lt 0 (sum_pc last_in s.threads)) [
    | yes closes ↦ some_moves last_in s closes (λ i x e p. last_in-CanMove x.pc (omega arith) p)
    | no nobody ↦ elim (dec_lt 0 (sum_pc last_out s.threads)) [
      | yes leaves ↦ some_moves last_out s leaves (λ i x e p.
          let none_out = Gathers-last_out _ _ _ x.pc (every i x e) in absurd (omega arith))
      | no none_out ↦ elim (ℕ_discrete s.barrier.count n) [
        | yes all_in ↦
            some_moves decides_in s (omega (arith, a.all_in some_in t all_in))
              (λ i x e p. decides_in-CanMove x.pc p)
        | no some_out ↦ some_moves outside s (omega (arith, b.out_count)) (λ i x e p.
            outside-CanMove _ _ _ x.pc a.live (omega (arith, b.one_holder)) (omega arith) p
              (every i x e))
      ]
    ]
  ]
]

dispersing_moves :
    {n g : ℕ} (s : System)
    → Balance n s.barrier (sums s.threads)
    → Awake n s.barrier
        (sums s.threads)
        (sum_pc decides_in s.threads)
        (sum_pc decides_out s.threads)
    → sum_pc busy s.threads ≡ 0
    → s.barrier.sem1 + sum_pc token1 s.threads ≡ 1
    → Every (Disperses g) s.threads
    → (t : System) × Step s t
dispersing_moves {n} s b a quiet t every = elim (dec_lt 0 (sum_pc token1 s.threads)) [
  | yes carried ↦ some_moves token1 s carried (λ i x e p. token1-CanMove x.pc p)
  | no at_rest ↦ elim (dec_lt 0 (sum_pc last_out s.threads)) [
    | yes leaves ↦ some_moves last_out s leaves (λ i x e p. last_out-CanMove x.pc (omega arith) p)
    | no nobody ↦ elim (dec_lt 0 (sum_pc last_in s.threads)) [
      | yes closes ↦ some_moves last_in s closes (λ i x e p.
          let none_in = Disperses-last_in _ _ _ x.pc (every i x e) in absurd (omega arith))
      | no none_in ↦ elim (ℕ_discrete s.barrier.count 0) [
        | yes all_out ↦
            some_moves decides_out s (omega (arith, a.all_out t all_out))
              (λ i x e p. decides_out-CanMove x.pc p)
        | no some_in ↦ some_moves inside s (omega (arith, b.in_count)) (λ i x e p.
            inside-CanMove _ _ _ x.pc (omega (arith, b.one_holder)) (omega arith) p (every i x e))
      ]
    ]
  ]
]

-- Let one thread or more share a barrier for as many. In every state that they reach some thread can
-- take a step: if none is outside the call, one of those inside it can.
pub no_deadlock : {n : ℕ} {s : System} → 0 < n → Reach n s → (t : System) × Step s t
no_deadlock {s} some_in r = elim (dec_lt 0 (sum_pc busy s.threads)) [
  | yes holder ↦ some_moves busy s holder (λ i x e p. busy-CanMove x.pc p)
  | no quiet ↦
      let v = Reach-Inv r in
      elim v.phase [
        | gathering t every ↦
            gathering_moves s some_in v.balance (Reach-Awake r) (omega arith) t every
        | dispersing t every ↦ dispersing_moves s v.balance (Reach-Awake r) (omega arith) t every
      ]
]
