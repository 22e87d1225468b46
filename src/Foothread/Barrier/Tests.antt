-- ===== src/Foothread/Barrier/Tests.antt =====
-- The theorems about the barrier at two threads, of which one has returned and one has not.
use operating_systems_iitkgp.Base.{◌+◌, ◌≤◌, refl, true, [], ◌∷◌, arith}
use operating_systems_iitkgp.Foothread.Barrier.{
  idle, first, second, call, lock, count_up, is_last, not_last, take_second, open_first, unlock,
  pass_first, pass_on_first, lock_again, count_down, is_empty, not_empty, take_first, open_second,
  unlock_again, pass_second, pass_on_second, System, Step, pick, Reach, begin, step,
}
use operating_systems_iitkgp.Foothread.Barrier.Meeting.{nobody_early}
use operating_systems_iitkgp.Foothread.Barrier.Progress.{no_deadlock}

-- Both have arrived, and wait at the first turnstile.
abbrev gathered_two : System
gathered_two = record {
  barrier = record { is_live = true; n = 2; count = 2; mutex = 1; sem1 = 1; sem2 = 0 };
  threads =
      record { pc = first; arrivals = 1; returns = 0 }
      ∷ record { pc = first; arrivals = 1; returns = 0 }
      ∷ [];
}

gathered_two-reached : Reach 2 gathered_two
gathered_two-reached =
    step
      (step
        (step
          (step
            (step
              (step
                (step
                  (step
                    (step
                      (step
                        (step (step (begin) (pick 0 refl (call refl)))
                          (pick 0 refl (lock (omega arith))))
                        (pick 0 refl count_up))
                      (pick 0 refl (not_last (omega arith))))
                    (pick 0 refl unlock))
                  (pick 1 refl (call refl)))
                (pick 1 refl (lock (omega arith))))
              (pick 1 refl count_up))
            (pick 1 refl (is_last refl)))
          (pick 1 refl (take_second (omega arith))))
        (pick 1 refl open_first))
      (pick 1 refl unlock)

-- The first thread has returned, and the other waits at the second turnstile.
abbrev one_returned : System
one_returned = record {
  barrier = record { is_live = true; n = 2; count = 0; mutex = 1; sem1 = 0; sem2 = 1 };
  threads =
      record { pc = idle; arrivals = 1; returns = 1 }
      ∷ record { pc = second; arrivals = 1; returns = 0 }
      ∷ [];
}

one_returned-reached : Reach 2 one_returned
one_returned-reached =
    step
      (step
        (step
          (step
            (step
              (step
                (step
                  (step
                    (step
                      (step
                        (step
                          (step
                            (step
                              (step
                                (step
                                  (step (gathered_two-reached)
                                    (pick 1 refl (pass_first (omega arith))))
                                  (pick 1 refl pass_on_first))
                                (pick 1 refl (lock_again (omega arith))))
                              (pick 1 refl count_down))
                            (pick 1 refl (not_empty (omega arith))))
                          (pick 1 refl unlock_again))
                        (pick 0 refl (pass_first (omega arith))))
                      (pick 0 refl pass_on_first))
                    (pick 0 refl (lock_again (omega arith))))
                  (pick 0 refl count_down))
                (pick 0 refl (is_empty refl)))
              (pick 0 refl (take_first (omega arith))))
            (pick 0 refl open_second))
          (pick 0 refl unlock_again))
        (pick 0 refl (pass_second (omega arith))))
      (pick 0 refl pass_on_second)

nobody_early_example : (1 ≤ 1) × (1 ≤ 1 + 1)
nobody_early_example = nobody_early 0 1 one_returned-reached refl refl

no_deadlock_example : (t : System) × Step gathered_two t
no_deadlock_example = no_deadlock (omega arith) gathered_two-reached
