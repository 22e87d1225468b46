-- ===== src/Foothread/Barrier/Turnstiles.antt =====
-- The barrier does not deadlock: in every reachable state some thread can take a step.
use operating_systems_iitkgp.Base.{ℕ, ◌<◌, ◌≡◌, refl, true, arith}
use operating_systems_iitkgp.Foothread.Barrier.{
  Barrier, Pc, idle, enter, counting, counted, closing, opening, arrived, first, passed, leave,
  uncounting, uncounted, emptying, reopening, left, second, through, call, lock, count_up,
  take_second, open_first, unlock, pass_first, pass_on_first, lock_again, count_down, take_first,
  open_second, unlock_again, pass_second, pass_on_second,
}
use operating_systems_iitkgp.Foothread.Barrier.Weights.{last_in, last_out, inside, outside}
use operating_systems_iitkgp.Foothread.Barrier.Phases.{Gathers, Disperses}
use operating_systems_iitkgp.Foothread.Barrier.Moves.{CanMove}

-- While the second turnstile is open, and the mutex free, a thread that is outside moves, and while
-- the first is, one that is inside.
pub outside-CanMove :
    {m : Barrier} (a r g : ℕ) (p : Pc)
    → m.is_live ≡ true
    → 0 < m.mutex
    → 0 < m.sem2
    → 0 < outside p
    → Gathers g (record { pc = p; arrivals = a; returns = r })
    → CanMove m p
outside-CanMove a r g idle live free open2 o h = (_, _, call live)
outside-CanMove a r g enter live free open2 o h = (_, _, lock free)
outside-CanMove a r g counting live free open2 o h = (_, _, count_up)
outside-CanMove a r g counted live free open2 o h = absurd (omega arith)
outside-CanMove a r g closing live free open2 o h = absurd (omega arith)
outside-CanMove a r g opening live free open2 o h = absurd (omega arith)
outside-CanMove a r g arrived live free open2 o h = absurd (omega arith)
outside-CanMove a r g first live free open2 o h = absurd (omega arith)
outside-CanMove a r g passed live free open2 o h = absurd h
outside-CanMove a r g leave live free open2 o h = absurd h
outside-CanMove a r g uncounting live free open2 o h = absurd h
outside-CanMove a r g uncounted live free open2 o h = absurd h
outside-CanMove a r g emptying live free open2 o h = absurd h
outside-CanMove a r g reopening live free open2 o h = absurd h
outside-CanMove a r g left live free open2 o h = (_, _, unlock_again)
outside-CanMove a r g second live free open2 o h = (_, _, pass_second open2)
outside-CanMove a r g through live free open2 o h = (_, _, pass_on_second)

pub inside-CanMove :
    {m : Barrier} (a r g : ℕ) (p : Pc)
    → 0 < m.mutex
    → 0 < m.sem1
    → 0 < inside p
    → Disperses g (record { pc = p; arrivals = a; returns = r })
    → CanMove m p
inside-CanMove a r g idle free open1 o h = absurd h
inside-CanMove a r g enter free open1 o h = absurd h
inside-CanMove a r g counting free open1 o h = absurd h
inside-CanMove a r g counted free open1 o h = absurd h
inside-CanMove a r g closing free open1 o h = absurd h
inside-CanMove a r g opening free open1 o h = absurd h
inside-CanMove a r g arrived free open1 o h = (_, _, unlock)
inside-CanMove a r g first free open1 o h = (_, _, pass_first open1)
inside-CanMove a r g passed free open1 o h = (_, _, pass_on_first)
inside-CanMove a r g leave free open1 o h = (_, _, lock_again free)
inside-CanMove a r g uncounting free open1 o h = (_, _, count_down)
inside-CanMove a r g uncounted free open1 o h = absurd (omega arith)
inside-CanMove a r g emptying free open1 o h = absurd (omega arith)
inside-CanMove a r g reopening free open1 o h = absurd (omega arith)
inside-CanMove a r g left free open1 o h = absurd (omega arith)
inside-CanMove a r g second free open1 o h = absurd (omega arith)
inside-CanMove a r g through free open1 o h = absurd h

pub last_in-CanMove : {m : Barrier} (p : Pc) → 0 < m.sem2 → 0 < last_in p → CanMove m p
last_in-CanMove idle open2 h = absurd (omega arith)
last_in-CanMove enter open2 h = absurd (omega arith)
last_in-CanMove counting open2 h = absurd (omega arith)
last_in-CanMove counted open2 h = absurd (omega arith)
last_in-CanMove closing open2 h = (_, _, take_second open2)
last_in-CanMove opening open2 h = (_, _, open_first)
last_in-CanMove arrived open2 h = absurd (omega arith)
last_in-CanMove first open2 h = absurd (omega arith)
last_in-CanMove passed open2 h = absurd (omega arith)
last_in-CanMove leave open2 h = absurd (omega arith)
last_in-CanMove uncounting open2 h = absurd (omega arith)
last_in-CanMove uncounted open2 h = absurd (omega arith)
last_in-CanMove emptying open2 h = absurd (omega arith)
last_in-CanMove reopening open2 h = absurd (omega arith)
last_in-CanMove left open2 h = absurd (omega arith)
last_in-CanMove second open2 h = absurd (omega arith)
last_in-CanMove through open2 h = absurd (omega arith)

pub last_out-CanMove : {m : Barrier} (p : Pc) → 0 < m.sem1 → 0 < last_out p → CanMove m p
last_out-CanMove idle open1 h = absurd (omega arith)
last_out-CanMove enter open1 h = absurd (omega arith)
last_out-CanMove counting open1 h = absurd (omega arith)
last_out-CanMove counted open1 h = absurd (omega arith)
last_out-CanMove closing open1 h = absurd (omega arith)
last_out-CanMove opening open1 h = absurd (omega arith)
last_out-CanMove arrived open1 h = absurd (omega arith)
last_out-CanMove first open1 h = absurd (omega arith)
last_out-CanMove passed open1 h = absurd (omega arith)
last_out-CanMove leave open1 h = absurd (omega arith)
last_out-CanMove uncounting open1 h = absurd (omega arith)
last_out-CanMove uncounted open1 h = absurd (omega arith)
last_out-CanMove emptying open1 h = (_, _, take_first open1)
last_out-CanMove reopening open1 h = (_, _, open_second)
last_out-CanMove left open1 h = absurd (omega arith)
last_out-CanMove second open1 h = absurd (omega arith)
last_out-CanMove through open1 h = absurd (omega arith)

pub Disperses-last_in :
    (a r g : ℕ) (p : Pc)
    → Disperses g (record { pc = p; arrivals = a; returns = r })
    → last_in p ≡ 0
Disperses-last_in a r g idle h = refl
Disperses-last_in a r g enter h = refl
Disperses-last_in a r g counting h = refl
Disperses-last_in a r g counted h = refl
Disperses-last_in a r g closing h = absurd h
Disperses-last_in a r g opening h = absurd h
Disperses-last_in a r g arrived h = refl
Disperses-last_in a r g first h = refl
Disperses-last_in a r g passed h = refl
Disperses-last_in a r g leave h = refl
Disperses-last_in a r g uncounting h = refl
Disperses-last_in a r g uncounted h = refl
Disperses-last_in a r g emptying h = refl
Disperses-last_in a r g reopening h = refl
Disperses-last_in a r g left h = refl
Disperses-last_in a r g second h = refl
Disperses-last_in a r g through h = refl

pub Gathers-last_out :
    (a r g : ℕ) (p : Pc) → Gathers g (record { pc = p; arrivals = a; returns = r }) → last_out p ≡ 0
Gathers-last_out a r g idle h = refl
Gathers-last_out a r g enter h = refl
Gathers-last_out a r g counting h = refl
Gathers-last_out a r g counted h = refl
Gathers-last_out a r g closing h = refl
Gathers-last_out a r g opening h = refl
Gathers-last_out a r g arrived h = refl
Gathers-last_out a r g first h = refl
Gathers-last_out a r g passed h = refl
Gathers-last_out a r g leave h = refl
Gathers-last_out a r g uncounting h = refl
Gathers-last_out a r g uncounted h = refl
Gathers-last_out a r g emptying h = absurd h
Gathers-last_out a r g reopening h = absurd h
Gathers-last_out a r g left h = refl
Gathers-last_out a r g second h = refl
Gathers-last_out a r g through h = refl
