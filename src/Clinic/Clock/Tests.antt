-- ===== src/Clinic/Clock/Tests.antt =====
-- `format_time` at concrete times.
use operating_systems_iitkgp.Base.{◌≡◌, refl, true, false, some, arith}
use operating_systems_iitkgp.Base.Int.{pos, negsuc}
use operating_systems_iitkgp.Clinic.Clock.{format_time, format_time_lem, Tells, Time}

format_time_example : (t : Time) × (format_time (negsuc 29) ≡ some t) × Tells (negsuc 29) t
format_time_example = format_time_lem (negsuc 29) (omega arith) (omega arith)

half_past_eight : format_time (negsuc 29) ≡ some (record { hr = 8; min = 30; pm = false })
unfolding format_time
half_past_eight = refl

noon : format_time (pos 180) ≡ some (record { hr = 12; min = 0; pm = true })
unfolding format_time
noon = refl
