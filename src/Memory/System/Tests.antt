-- ===== src/Memory/System/Tests.antt =====
-- The theorems about the turns of the processes and the rounds of the scheduler at a concrete input.
use mathlib.Core.Option
use operating_systems_iitkgp.Base.{ℕ, ◌+◌, ◌≡◌, ◌≤◌, refl, List, [], ◌∷◌, some, arith, length}
use operating_systems_iitkgp.Memory.Table.{cleared, free, occupied, end}
use operating_systems_iitkgp.Memory.Mmu.{Mmu, find_process}
use operating_systems_iitkgp.Memory.Mmu.Invariant.{IsSound}
use operating_systems_iitkgp.Memory.Mmu.Requests.{At}
use operating_systems_iitkgp.Memory.Refstr.{reference_str}
use operating_systems_iitkgp.Memory.Refstr.Decimal.{decimal, decimal-IsDecimal}
use operating_systems_iitkgp.Memory.Refstr.Laws.{length-reference_str}
use operating_systems_iitkgp.Memory.System.{Turn, System, run_process, run_pages, schedule}
use operating_systems_iitkgp.Memory.System.Turns.{IsTurn, run_pages-IsTurn}
use operating_systems_iitkgp.Memory.System.Strings.{rewritten, run_process-run_pages}
use operating_systems_iitkgp.Memory.System.Rounds.{IsSystem, schedule-IsSystem}

-- Process 7 has its page 0 in frame 0 and its page 1 nowhere; frame 1 is free.
abbrev sample : Mmu
sample = record {
  timestamp = 1;
  total_num_processes = 0;
  sm1 =
      record {
        pid = 7;
        mi = 2;
        pagetable = record { frame = some 0; valid = 1; time = 1 } ∷ cleared ∷ [];
        total_page_faults = 1;
        total_illegal_access = 0;
      }
      ∷ [];
  sm2 = occupied ∷ free ∷ end ∷ [];
}

sample-IsSound : IsSound 2 sample
sample-IsSound = record { size = refl; ends = refl; owned = λ g. omega arith; tables = omega arith }

sample-At : At sample 7 0
unfolding find_process
sample-At = (refl, omega arith)

abbrev asked : List ℕ
asked = 0 ∷ 1 ∷ []

run_process-run_pages_example :
    run_process 2 7 (reference_str decimal asked) sample
    ≡ Option.map (rewritten (reference_str decimal)) (run_pages 7 asked sample)
run_process-run_pages_example =
    run_process-run_pages decimal decimal-IsDecimal asked 2 7 sample (omega arith)

run_pages-IsTurn_example :
    (t : Turn (List ℕ)) × (run_pages 7 asked sample ≡ some t) × IsTurn 2 sample 7 asked t
run_pages-IsTurn_example =
    run_pages-IsTurn 2 sample 7 0 asked sample-IsSound sample-At (omega arith)

abbrev waiting : System
waiting = record { k = 1; mmu = sample; ready = (7, reference_str decimal asked) ∷ [] }

waiting-IsSystem : IsSystem decimal 2 waiting
waiting-IsSystem = record {
  sound = sample-IsSound;
  queued = (record { pages = asked; place = 0; string = refl; known = sample-At }, tt);
  counted = omega arith;
}

short : length (reference_str decimal asked) ≤ 6
short = omega (arith, length-reference_str decimal decimal-IsDecimal asked (omega arith))

schedule-IsSystem_example :
    (s' : System) × (schedule waiting ≡ some s')
    × IsSystem decimal 2 s'
    × (s'.k + length waiting.ready ≡ waiting.k + length s'.ready)
schedule-IsSystem_example =
    schedule-IsSystem decimal decimal-IsDecimal 2 1 7 sample (reference_str decimal asked) []
      waiting-IsSystem (omega (arith, short))
