-- ===== src/Foothread/Barrier/Phases.antt =====
-- The two phases of a round of the barrier: all threads gather while the token is in the second
-- turnstile, and all disperse while it is in the first.
use operating_systems_iitkgp.Base.{
  ℕ, ◌+◌, ◌≡◌, ◌≢◌, sym, subst, inl, inr, List, some, arith, get_elem?, set,
}
use operating_systems_iitkgp.Foothread.Barrier.{
  Barrier, Pc, Thread, Move, advance, idle, enter, counting, counted, closing, opening, arrived,
  first, passed, leave, uncounting, uncounted, emptying, reopening, left, second, through, call,
  lock, count_up, is_last, not_last, take_second, open_first, unlock, pass_first, pass_on_first,
  lock_again, count_down, is_empty, not_empty, take_first, open_second, unlock_again, pass_second,
  pass_on_second,
}
use operating_systems_iitkgp.Base.Rows.{set-cases}
use operating_systems_iitkgp.Foothread.Barrier.Weights.{last_in, last_out, busy, inside, outside}
use operating_systems_iitkgp.Foothread.Barrier.Numbers.{sums}

-- The counts of a thread that has not arrived in round `g`, of one that has, and of one that still is
-- on its way out of the round before.
abbrev pub Before : ℕ → Thread → Type 0
Before g x = (x.arrivals ≡ g) × (x.returns ≡ g)

abbrev pub Within : ℕ → Thread → Type 0
Within g x = (x.arrivals ≡ g + 1) × (x.returns ≡ g)

abbrev pub Behind : ℕ → Thread → Type 0
Behind g x = (x.arrivals ≡ g) × (x.returns + 1 ≡ g)

abbrev pub Gathers : ℕ → Thread → Type 0
Gathers g x = elim x.pc [
  | idle ↦ Before g x
  | enter ↦ Before g x
  | counting ↦ Before g x
  | counted ↦ Within g x
  | closing ↦ Within g x
  | opening ↦ Within g x
  | arrived ↦ Within g x
  | first ↦ Within g x
  | left ↦ Behind g x
  | second ↦ Behind g x
  | through ↦ Behind g x
  | _ ↦ ⊥
]

abbrev pub Disperses : ℕ → Thread → Type 0
Disperses g x = elim x.pc [
  | idle ↦ ⊥
  | enter ↦ ⊥
  | counting ↦ ⊥
  | counted ↦ ⊥
  | closing ↦ ⊥
  | opening ↦ ⊥
  | through ↦ ⊥
  | _ ↦ Within g x
]

abbrev pub Every : (Thread → Type 0) → List Thread → Type 0
Every P xs = (i : ℕ) (x : Thread) → get_elem? xs i ≡ some x → P x

-- The phase of round `g`.
pub data Phase (m : Barrier) (xs : List Thread) : ℕ → Type 0 where
  gathering : {g : ℕ} → m.sem2 + (sums xs).token2 ≡ 1 → Every (Gathers g) xs → Phase m xs g
  dispersing : {g : ℕ} → m.sem1 + (sums xs).token1 ≡ 1 → Every (Disperses g) xs → Phase m xs g

abbrev pub after : Pc → ℕ → ℕ → Thread
after p a r = record { pc = p; arrivals = a; returns = r }

-- A thread that gathers and does not open the first turnstile still gathers after its step.
pub Move-Gathers :
    {m m' : Barrier} {p q : Pc} (g a r : ℕ)
    → Move m p m' q
    → m.sem1 ≡ 0
    → p ≢ opening
    → Gathers g (after p a r)
    → Gathers g (advance (after p a r) q)
Move-Gathers g a r (call live) none_left ne k = ground arith
Move-Gathers g a r (lock h) none_left ne k = ground arith
Move-Gathers g a r count_up none_left ne k = ground arith
Move-Gathers g a r (is_last h) none_left ne k = ground arith
Move-Gathers g a r (not_last h) none_left ne k = ground arith
Move-Gathers g a r (take_second h) none_left ne k = ground arith
Move-Gathers g a r open_first none_left ne k = ground arith
Move-Gathers g a r unlock none_left ne k = ground arith
Move-Gathers g a r (pass_first h) none_left ne k = ground arith
Move-Gathers g a r pass_on_first none_left ne k = ground arith
Move-Gathers g a r (lock_again h) none_left ne k = ground arith
Move-Gathers g a r count_down none_left ne k = ground arith
Move-Gathers g a r (is_empty h) none_left ne k = ground arith
Move-Gathers g a r (not_empty h) none_left ne k = ground arith
Move-Gathers g a r (take_first h) none_left ne k = ground arith
Move-Gathers g a r open_second none_left ne k = ground arith
Move-Gathers g a r unlock_again none_left ne k = ground arith
Move-Gathers g a r (pass_second h) none_left ne k = ground arith
Move-Gathers g a r pass_on_second none_left ne k = ground arith

pub Move-Disperses :
    {m m' : Barrier} {p q : Pc} (g a r : ℕ)
    → Move m p m' q
    → m.sem2 ≡ 0
    → p ≢ reopening
    → Disperses g (after p a r)
    → Disperses g (advance (after p a r) q)
Move-Disperses g a r (call live) none_left ne k = ground arith
Move-Disperses g a r (lock h) none_left ne k = ground arith
Move-Disperses g a r count_up none_left ne k = ground arith
Move-Disperses g a r (is_last h) none_left ne k = ground arith
Move-Disperses g a r (not_last h) none_left ne k = ground arith
Move-Disperses g a r (take_second h) none_left ne k = ground arith
Move-Disperses g a r open_first none_left ne k = ground arith
Move-Disperses g a r unlock none_left ne k = ground arith
Move-Disperses g a r (pass_first h) none_left ne k = ground arith
Move-Disperses g a r pass_on_first none_left ne k = ground arith
Move-Disperses g a r (lock_again h) none_left ne k = ground arith
Move-Disperses g a r count_down none_left ne k = ground arith
Move-Disperses g a r (is_empty h) none_left ne k = ground arith
Move-Disperses g a r (not_empty h) none_left ne k = ground arith
Move-Disperses g a r (take_first h) none_left ne k = ground arith
Move-Disperses g a r open_second none_left ne k = ground arith
Move-Disperses g a r unlock_again none_left ne k = ground arith
Move-Disperses g a r (pass_second h) none_left ne k = ground arith
Move-Disperses g a r pass_on_second none_left ne k = ground arith

pub Every-set :
    (P : Thread → Type 0) (xs : List Thread) (i : ℕ) (v : Thread)
    → Every P xs
    → P v
    → Every P (set xs i v)
Every-set P xs i v every p j y e = elim (set-cases xs i j v e) [
  | inl (_, here) ↦ subst P (sym here) p
  | inr (ne, there) ↦ every j y there
]

-- The last thread inside opens the first turnstile: all others wait there.
pub all_wait_first :
    (g a r : ℕ) (p : Pc)
    → Gathers g (after p a r)
    → busy p ≡ 0
    → last_in p ≡ 0
    → outside p ≡ 0
    → Disperses g (after p a r)
all_wait_first g a r idle h b l o = ground arith
all_wait_first g a r enter h b l o = ground arith
all_wait_first g a r counting h b l o = ground arith
all_wait_first g a r counted h b l o = ground arith
all_wait_first g a r closing h b l o = ground arith
all_wait_first g a r opening h b l o = ground arith
all_wait_first g a r arrived h b l o = ground arith
all_wait_first g a r first h b l o = ground arith
all_wait_first g a r passed h b l o = ground arith
all_wait_first g a r leave h b l o = ground arith
all_wait_first g a r uncounting h b l o = ground arith
all_wait_first g a r uncounted h b l o = ground arith
all_wait_first g a r emptying h b l o = ground arith
all_wait_first g a r reopening h b l o = ground arith
all_wait_first g a r left h b l o = ground arith
all_wait_first g a r second h b l o = ground arith
all_wait_first g a r through h b l o = ground arith

-- The last thread out opens the second turnstile: all others wait there.
pub all_wait_second :
    (g a r : ℕ) (p : Pc)
    → Disperses g (after p a r)
    → busy p ≡ 0
    → last_out p ≡ 0
    → inside p ≡ 0
    → Gathers (g + 1) (after p a r)
all_wait_second g a r idle h b l o = ground arith
all_wait_second g a r enter h b l o = ground arith
all_wait_second g a r counting h b l o = ground arith
all_wait_second g a r counted h b l o = ground arith
all_wait_second g a r closing h b l o = ground arith
all_wait_second g a r opening h b l o = ground arith
all_wait_second g a r arrived h b l o = ground arith
all_wait_second g a r first h b l o = ground arith
all_wait_second g a r passed h b l o = ground arith
all_wait_second g a r leave h b l o = ground arith
all_wait_second g a r uncounting h b l o = ground arith
all_wait_second g a r uncounted h b l o = ground arith
all_wait_second g a r emptying h b l o = ground arith
all_wait_second g a r reopening h b l o = ground arith
all_wait_second g a r left h b l o = ground arith
all_wait_second g a r second h b l o = ground arith
all_wait_second g a r through h b l o = ground arith
