-- ===== src/Foothread/Manager/Waits.antt =====
-- Whom the main thread waits for, and the bound on the table.
use mathlib.Core.Option.{some-injective}
use operating_systems_iitkgp.Base.{
  same_step, ℕ, suc, ◌-◌, ◌≤◌, ◌<◌, ◌≡◌, refl, sym, ap, subst, ◌∙◌, inl, inr, ◌&&◌, none, some,
  arith, ltb, ◌==◌, length, length-set, get_elem?, set, All-set, All-get, Bool-cases, Option-cases,
}
use operating_systems_iitkgp.Foothread.Manager.{
  joinable, threads_max, Slot, Manager, post, exit_child, Main, runs, joins, ended, join_slot,
  main_step, Reach, start, creates, exits_child, steps,
}
use operating_systems_iitkgp.Foothread.Manager.Creation.{create-append, create-Inv}
use operating_systems_iitkgp.Foothread.Manager.Joining.{
  taken, Fair, Progress, Inv, length-post, Joined-post, Fair-post, Joined-suc, Joined-set,
  Joined-get, grown,
}

exit_child-Inv :
    (pid tid : ℕ) (m m' : Manager) (main : Main)
    → Inv pid m main
    → exit_child pid tid m ≡ some m'
    → Inv pid m' main
unfolding exit_child
exit_child-Inv pid tid m m' main v h = elim (Bool-cases m.init_done) [
  | inr z ↦ let stays : exit_child pid tid m ≡ none = rw (z) refl in cc
  | inl y ↦
      let went : exit_child pid tid m ≡ some (record m { slots = post pid tid m.slots }) =
        rw (y) refl in
      subst (λ n. Inv pid n main) (some-injective _ m' (sym went ∙ h))
        (record {
          fair = Fair-post pid tid m.slots v.fair;
          bound = omega (arith, length-post pid tid m.slots, v.bound);
          fresh = λ off. cc;
          progress =
              grown pid m.slots (post pid tid m.slots) main
                (omega (arith, length-post pid tid m.slots))
                (λ i low j. Joined-post pid tid i m.slots j) v.progress;
        })
]

-- A step of the main thread that changes no slot.
passes :
    (pid : ℕ) (m : Manager) (main main' : Main)
    → Inv pid m main
    → Progress pid m.slots main'
    → Inv pid m main'
passes pid m main main' v p = record {
  fair = v.fair;
  bound = v.bound;
  fresh = v.fresh;
  progress = p;
}

abbrev Result : ℕ → Manager × Main → Type 0
Result pid r = Inv pid r.0 r.1

module _ (pid first i maxt : ℕ) (m : Manager) (s : Slot) (r : Manager × Main)
    (v : Inv pid m (joins first i maxt)) (low : i < maxt) (at : get_elem? m.slots i ≡ some s) where
  join_slot-Inv : join_slot pid first i maxt m s ≡ some r → Result pid r
  unfolding join_slot
  join_slot-Inv h =
      let (below, begun, within, done) = v.progress in
      elim (Bool-cases (s.live == 0)) [
        | inl z ↦
            let went : join_slot pid first i maxt m s ≡ some (m, joins first (suc i) maxt) =
              rw (z) refl in
            same_step (Result pid) _ r went h (
              passes pid m _ (joins first (suc i) maxt) v (
                omega arith,
                begun,
                within,
                Joined-suc pid i m.slots at done (λ p q. ground arith),
              ))
        | inr z ↦ elim (Bool-cases (s.pid == pid && s.attr.join_type == joinable)) [
          | inr other ↦
              let went : join_slot pid first i maxt m s
                  ≡ some (m, joins first (suc i) (length m.slots)) =
                rw (z, other) refl in
              same_step (Result pid) _ r went h (
                passes pid m _ (joins first (suc i) (length m.slots)) v (
                  omega arith,
                  omega arith,
                  omega arith,
                  Joined-suc pid i m.slots at done (λ p q. ground arith),
                ))
          | inl mine ↦ elim (Bool-cases (s.sem == 0)) [
            | inl empty ↦
                let stays : join_slot pid first i maxt m s ≡ none = rw (z, mine, empty) refl in cc
            | inr posted ↦
                let taken_slot : Slot = record s { sem = s.sem - 1; live = 0 } in
                let went : join_slot pid first i maxt m s
                    ≡ some (
                      record m { slots = set m.slots i taken_slot },
                      joins first (suc i) (length m.slots),
                    ) =
                  rw (z, mine, posted) refl in
                let fair_before = All-get Fair m.slots i v.fair at in
                same_step (Result pid) _ r went h (record {
                  fair = All-set Fair m.slots i taken_slot v.fair (ground (arith, fair_before));
                  bound = omega (arith, length-set m.slots i taken_slot, v.bound);
                  fresh = λ off. ap (λ t. set t i taken_slot) (v.fresh off);
                  progress = (
                    omega arith,
                    omega arith,
                    omega (arith, length-set m.slots i taken_slot),
                    Joined-set pid i m.slots taken_slot done (λ p q. refl),
                  );
                })
          ]
        ]
      ]

main_step-Inv :
    (pid : ℕ) (m : Manager) (main : Main) (r : Manager × Main)
    → Inv pid m main
    → main_step pid m main ≡ some r
    → Result pid r
unfolding main_step
main_step-Inv pid m runs r v h = elim (Bool-cases m.init_done) [
  | inr z ↦ let stays : main_step pid m runs ≡ none = rw (z) refl in cc
  | inl y ↦
      let went : main_step pid m runs ≡ some (m, joins (length m.slots) 0 (length m.slots)) =
        rw (y) refl in
      same_step (Result pid) _ r went h
        (passes pid m runs _ v (omega arith, omega arith, omega arith, tt))
]
main_step-Inv pid m (joins first i maxt) r v h = elim (Bool-cases (ltb i maxt)) [
  | inr over ↦
      let (below, begun, within, done) = v.progress in
      let went : main_step pid m (joins first i maxt) ≡ some (m, ended first i) = rw (over) refl in
      same_step (Result pid) _ r went h
        (passes pid m _ (ended first i) v (ground arith, omega arith, done))
  | inl more ↦ elim (Option-cases (get_elem? m.slots i)) [
    | inl z ↦ let stays : main_step pid m (joins first i maxt) ≡ none = rw (more, z) refl in cc
    | inr (s, at) ↦
        let went : main_step pid m (joins first i maxt) ≡ join_slot pid first i maxt m s =
          rw (more, at) refl in
        join_slot-Inv pid first i maxt m s r v (ground arith) at (sym went ∙ h)
  ]
]
main_step-Inv pid m (ended first i) r v h = cc

Reach-Inv : (pid : ℕ) (m : Manager) (main : Main) → Reach pid m main → Inv pid m main
Reach-Inv pid _ _ start = record {
  fair = tt;
  bound = omega arith;
  fresh = λ h. refl;
  progress = tt;
}
Reach-Inv pid m' main (creates {m} thread attr stack clone r h) =
    let (tid, room, e) = create-append pid thread attr stack clone m m' h in
    subst (λ n. Inv pid n main) (sym e)
      (create-Inv pid tid attr m main (Reach-Inv pid m main r) room)
Reach-Inv pid m' main (exits_child {m} tid r h) =
    exit_child-Inv pid tid m m' main (Reach-Inv pid m main r) h
Reach-Inv pid m' main' (steps {m} {main = main} r h) =
    main_step-Inv pid m main (m', main') (Reach-Inv pid m main r) h

-- In any order of the calls, the table holds at most as many threads as its arrays have entries.
pub slots_bounded :
    (pid : ℕ) (m : Manager) (main : Main) → Reach pid m main → length m.slots ≤ threads_max
slots_bounded pid m main r = (Reach-Inv pid m main r).bound

-- In any order of the calls: when foothread_exit of the main thread has come to its end, every thread
-- that was in the table when it was called, and that was created as joinable, has called foothread_exit.
pub main_waits :
    (pid first i j : ℕ) (m : Manager) (s : Slot)
    → Reach pid m (ended first i)
    → j < first
    → get_elem? m.slots j ≡ some s
    → s.pid ≡ pid
    → s.attr.join_type ≡ joinable
    → 0 < s.exits
main_waits pid first i j m s r early at mine join =
    let v = Reach-Inv pid m (ended first i) r in
    let (a, b, done) = v.progress in
    let waited : s.live ≡ 0 = Joined-get pid i j m.slots done (omega arith) at mine join in
    let counted = All-get Fair m.slots j v.fair at in
    let one : taken s.live ≡ 1 = ap taken waited in omega (arith, counted, one)
