-- ===== src/Foothread/Manager/Tests.antt =====
-- The theorems about the table of threads at a concrete run: thread 11 is joinable, thread 12 is not.
use operating_systems_iitkgp.Base.{ℕ, ◌<◌, ◌≤◌, ◌≡◌, refl, true, [], ◌∷◌, none, some, length, arith}
use operating_systems_iitkgp.Foothread.Manager.{
  joinable, threads_max, Attr, default_attr, attr_setjointype, Slot, Manager, create, post,
  exit_child, runs, joins, ended, join_slot, main_step, Reach, start, creates, exits_child, steps,
}
use operating_systems_iitkgp.Foothread.Manager.Waits.{slots_bounded, main_waits}

abbrev joined : Attr
joined = record { join_type = joinable; stack_size = 2097152 }

attr_run : attr_setjointype (some default_attr) joinable ≡ some joined
unfolding attr_setjointype
attr_run = refl

-- A join type that is neither changes nothing.
attr_kept : attr_setjointype (some default_attr) 5 ≡ some default_attr
unfolding attr_setjointype
attr_kept = refl

abbrev first_slot : ℕ → ℕ → ℕ → Slot
first_slot sem live exits = record {
  pid = 10;
  tid = 11;
  attr = joined;
  sem = sem;
  live = live;
  exits = exits;
}

abbrev second_slot : Slot
second_slot = record { pid = 10; tid = 12; attr = default_attr; sem = 0; live = 1; exits = 0 }

abbrev table : Slot → Manager
table s = record { init_done = true; slots = s ∷ second_slot ∷ [] }

both : Reach 10 (table (first_slot 0 1 0)) runs
unfolding create
both =
    creates {m = record { init_done = true; slots = first_slot 0 1 0 ∷ [] }} true none true
      (some 12) (creates true (some joined) true (some 11) start refl) refl

posted : Reach 10 (table (first_slot 1 1 1)) runs
unfolding exit_child post
posted = exits_child 11 both refl

left : Reach 10 (table (first_slot 0 0 1)) (ended 2 2)
unfolding main_step join_slot
left =
    steps {main = joins 2 2 2}
      (steps {m = table (first_slot 0 0 1)} {main = joins 2 1 2}
        (steps {m = table (first_slot 1 1 1)} {main = joins 2 0 2} (steps posted refl) refl) refl)
      refl

-- Before the thread has posted, the main thread waits.
waits_run : main_step 10 (table (first_slot 0 1 0)) (joins 2 0 2) ≡ none
unfolding main_step join_slot
waits_run = refl

slots_bounded_example : length ((table (first_slot 0 0 1)).slots) ≤ threads_max
slots_bounded_example = slots_bounded 10 (table (first_slot 0 0 1)) (ended 2 2) left

main_waits_example : 0 < (first_slot 0 0 1).exits
main_waits_example =
    main_waits 10 2 2 0 (table (first_slot 0 0 1)) (first_slot 0 0 1) left (omega arith) refl refl
      refl
