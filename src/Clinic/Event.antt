-- ===== src/Clinic/Event.antt =====
-- Assignment 6/event.c and event.h: events and the order between them.
use operating_systems_iitkgp.Base.{
  ℕ, ◌+◌, ◌*◌, ◌≤◌, ◌≡◌, ◌↔◌, ◌⊎◌, Bool, true, false, arith, ◌==◌, if◌then◌else◌,
}
use operating_systems_iitkgp.Base.Int.{ℤ, pos, negsuc, pos_part, neg_part, ltb_ℤ}

-- `type` is the character code: R reporter, P patient, S sales representative, D doctor.
pub record Event : Type 0 where
  pub type : ℕ
  pub time : ℤ
  pub duration : ℤ

unfoldable pub eventcmp : Event → Event → ℤ
eventcmp e1 e2 =
    if ltb_ℤ e1.time e2.time
    then negsuc 0
    else if ltb_ℤ e2.time e1.time
    then pos 1
    else if e1.type == b'R'
    then negsuc 0
    else if e2.type == b'R'
    then pos 1
    else if e1.type == b'P'
    then negsuc 0
    else if e2.type == b'P'
    then pos 1
    else if e1.type == b'S'
    then negsuc 0
    else if e2.type == b'S'
    then pos 1
    else pos 0

-- The test `eventcmp(e1, e2) < 0`.
unfoldable pub goes_first : Event → Event → Bool
goes_first e1 e2 = ltb_ℤ (eventcmp e1 e2) (pos 0)

-- Reporters, then patients, then sales representatives, then all others.
unfoldable pub rank : ℕ → ℕ
rank type = if type == b'R' then 0 else if type == b'P' then 1 else if type == b'S' then 2 else 3

-- The two parts of the number 4 * time + rank.
unfoldable pub later_by : Event → ℕ
later_by e = 4 * pos_part e.time + rank e.type

unfoldable pub earlier_by : Event → ℕ
earlier_by e = 4 * neg_part e.time

-- `a` is due no later than `b`: by time, and among events of one time by rank.
abbrev pub NotAfter : Event → Event → Type 0
NotAfter a b = later_by a + earlier_by b ≤ later_by b + earlier_by a

-- An event that goes first is due no later than the other, and one that does not, no earlier.
pub goes_first-NotAfter : (a b : Event) → goes_first a b ≡ true → NotAfter a b
unfolding goes_first eventcmp later_by earlier_by rank
goes_first-NotAfter a b h = ground arith

pub not_first-NotAfter : (a b : Event) → goes_first a b ≡ false → NotAfter b a
unfolding goes_first eventcmp later_by earlier_by rank
not_first-NotAfter a b h = ground arith

-- Earlier, or at the same time and of no higher rank.
abbrev pub DueFirst : Event → Event → Type 0
DueFirst a b = (ltb_ℤ a.time b.time ≡ true) ⊎ (a.time ≡ b.time) × (rank a.type ≤ rank b.type)

-- When `eventcmp` is negative the first event is earlier, or at the same time and of no higher rank;
-- otherwise the second one is. Reporters rank first, then patients, then sales representatives,
-- then all others.
pub eventcmp_lem :
    (a b : Event)
    → (ltb_ℤ (eventcmp a b) (pos 0) ≡ true) × DueFirst a b
      ⊎ (ltb_ℤ (eventcmp a b) (pos 0) ≡ false) × DueFirst b a
unfolding eventcmp rank
eventcmp_lem a b = ground arith

-- The order of the numbers and the one on times and ranks are the same.
pub NotAfter-DueFirst : (a b : Event) → NotAfter a b ↔ DueFirst a b
unfolding later_by earlier_by rank
NotAfter-DueFirst a b = ground arith
