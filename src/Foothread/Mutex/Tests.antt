-- ===== src/Foothread/Mutex/Tests.antt =====
-- The theorems about the mutex at two threads of which one holds it, and the other waits.
use operating_systems_iitkgp.Base.{ℕ, ◌≡◌, refl, true, false, [], ◌∷◌, arith}
use operating_systems_iitkgp.Foothread.Mutex.{
  Mutex, waiting, holding, lock, acquire, mark, sign_pid, sign_tid, System, Reach, IsOrderly, begun,
  stepped,
}
use operating_systems_iitkgp.Foothread.Mutex.Exclusion.{mutual_exclusion, holder_owns}

abbrev unset : Mutex
unset = record { is_live = false; is_locked = false; owner_pid = 0; owner_tid = 0; sem = 0 }

abbrev one_holds : System
one_holds = record {
  mutex = record { is_live = true; is_locked = true; owner_pid = 42; owner_tid = 1; sem = 0 };
  threads = waiting ∷ holding ∷ [];
}

one_holds-IsOrderly : (r : Reach 42 2 one_holds) × IsOrderly one_holds r
one_holds-IsOrderly = (
  _,
  stepped 1
      (stepped 1
        (stepped 1
          (stepped 1 (stepped 0 (stepped 1 (begun unset) refl (lock refl)) refl (lock refl)) refl
            (acquire (omega arith)))
          refl mark)
        refl sign_pid)
      refl sign_tid,
)

mutual_exclusion_example : ◌≡◌ {A = ℕ} 1 1
mutual_exclusion_example =
    mutual_exclusion 1 1 one_holds-IsOrderly.0 one_holds-IsOrderly.1 refl refl refl refl

holder_owns_example :
    (one_holds.mutex.is_live ≡ true)
    × (one_holds.mutex.is_locked ≡ true)
    × (one_holds.mutex.owner_pid ≡ 42)
    × (one_holds.mutex.owner_tid ≡ 1)
holder_owns_example = holder_owns 1 one_holds-IsOrderly.0 one_holds-IsOrderly.1 refl
