-- ===== src/Clinic/Clock.antt =====
-- Assignment 6/session.c: the time of day that `format_time` prints. Minutes count from 9 am, and
-- are negative before. The text itself is left to `sprintf`.
mod Tests
use operating_systems_iitkgp.Base.{
  refl, Option, none, some, ◌>>=◌, ℕ, suc, ◌+◌, ◌-◌, ◌*◌, ◌/◌, ◌%◌, ◌≤◌, ◌<◌, ◌≡◌, Bool, true,
  false, arith, ltb, leb, ◌==◌, if◌then◌else◌,
}
use operating_systems_iitkgp.Base.Int.{ℤ, pos, negsuc, pos_part, neg_part, sub_ℕ, ◌+ℤ◌, int_max}

-- What `sprintf` is given: `%02d:%02d%s`, with `pm` for the period "pm".
pub record Time : Type 0 where
  pub hr : ℕ
  pub min : ℕ
  pub pm : Bool

-- The hour before the first `if (hr < 0)`, and what that makes of it. The dividend is not negative.
roll_back : ℤ → ℕ
roll_back (pos hr) = hr
roll_back (negsuc k) = let n = (suc k + 24 - 1) / 24 in (24 * n - suc k) % 24

-- The time before 9 am, `m` minutes before.
earlier : ℕ → ℕ × ℕ
unfolding roll_back ◌+ℤ◌
earlier m =
    let min = 60 - m % 60 in
    let hr = sub_ℕ 9 (m / 60) +ℤ negsuc 0 in
    if min == 60 then (roll_back (hr +ℤ pos 1), 0) else (roll_back hr, min)

-- The branch for `minutes < 0`, at `-minutes`, which for INT_MIN is no `int`: `none`.
before_nine : ℕ → Option (ℕ × ℕ)
unfolding earlier
before_nine m = if ltb int_max m then none else some (earlier m)

-- The last part: the period and the hour from 1 to 12.
twelve_hours : ℕ × ℕ → Time
twelve_hours (hr, min) =
    let h = if leb 12 hr then hr - 12 else hr in
    record { hr = if h == 0 then 12 else h; min = min; pm = leb 12 hr }

pub format_time : ℤ → Option Time
unfolding before_nine twelve_hours
format_time (pos m) = some (twelve_hours ((9 + m / 60) % 24, m % 60))
format_time (negsuc k) = before_nine (suc k) >>= λ t. some (twelve_hours t)

-- The minutes since midnight, 540 at 9 am, modulo a day.
pub of_day : ℤ → ℕ
of_day (pos m) = (540 + m) % 1440
of_day (negsuc k) = (540 + 1440 * suc k - suc k) % 1440

-- The minute is below 60, the hour from 1 to 12, and hour, minute and period tell the minute of the day.
abbrev pub Tells : ℤ → Time → Type 0
Tells minutes t =
    (t.min < 60)
    × (1 ≤ t.hr)
    × (t.hr ≤ 12)
    × ((t.hr % 12) * 60 + t.min + (if t.pm then 720 else 0) ≡ of_day minutes)

later_lem : (m : ℕ) → Tells (pos m) (twelve_hours ((9 + m / 60) % 24, m % 60))
unfolding twelve_hours of_day
later_lem m = ground arith

earlier_lem : (k : ℕ) → Tells (negsuc k) (twelve_hours (earlier (suc k)))
unfolding twelve_hours earlier of_day
earlier_lem k = ground arith

-- For every number of minutes that is an `int`, of either sign, but INT_MIN, whose negation is none: the
-- printed time is the one on a twelve-hour clock: the minute is below 60, the hour from 1 to 12, and
-- hour, minute and period tell the minute of the day.
pub format_time_lem :
    (minutes : ℤ)
    → pos_part minutes ≤ int_max
    → neg_part minutes ≤ int_max
    → (t : Time) × (format_time minutes ≡ some t) × Tells minutes t
unfolding format_time
format_time_lem (pos m) h l = (twelve_hours ((9 + m / 60) % 24, m % 60), refl, later_lem m)
format_time_lem (negsuc k) h l =
    let fits : ltb int_max (suc k) ≡ false = ground arith in
    (twelve_hours (earlier (suc k)), rw (fits) refl, earlier_lem k)
