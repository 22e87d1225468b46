-- ===== src/Memory/Mmu/Tests.antt =====
-- The theorems about Assignment 8/mmu.c at concrete inputs, and runs of `serve`.
use operating_systems_iitkgp.Base.{
  ℕ, ◌≡◌, refl, inl, inr, ◌⊎◌, ◌≤◌, ◌<◌, List, [], ◌∷◌, some, arith,
}
use operating_systems_iitkgp.Base.Int.{pos, negsuc}
use operating_systems_iitkgp.Memory.Table.{Entry, cleared, Sm1, Cell, free, occupied, end}
use operating_systems_iitkgp.Memory.Mmu.{
  Mmu, to_process, to_sched, running, exited, fault, find_process, serve, serve_all, faulted,
  page_fault, handle, access, take_frame, replace, lru_scan, older, terminate, release_pages,
  release_page,
}
use operating_systems_iitkgp.Memory.Mmu.Invariant.{IsSound, Keeps}
use operating_systems_iitkgp.Memory.Mmu.Requests.{At, serve-Keeps}
use operating_systems_iitkgp.Memory.Mmu.Faults.{Paged, page_fault-Paged}
use operating_systems_iitkgp.Memory.Mmu.Retry.{fault_then_hit}
use operating_systems_iitkgp.Memory.Mmu.Runs.{serve_all-Keeps}
use operating_systems_iitkgp.Memory.Mmu.Lookup.{unknown_pid}

-- Process 7 holds frame 0 with its page 0, process 9 holds frame 1 with its page 1; 1 of 3 is free.
abbrev first : Sm1
first = record {
  pid = 7;
  mi = 2;
  pagetable = record { frame = some 0; valid = 1; time = 1 } ∷ cleared ∷ [];
  total_page_faults = 1;
  total_illegal_access = 0;
}

abbrev second : Sm1
second = record {
  pid = 9;
  mi = 2;
  pagetable = cleared ∷ record { frame = some 1; valid = 1; time = 2 } ∷ [];
  total_page_faults = 1;
  total_illegal_access = 0;
}

abbrev sample : Mmu
sample = record {
  timestamp = 2;
  total_num_processes = 0;
  sm1 = first ∷ second ∷ [];
  sm2 = occupied ∷ occupied ∷ free ∷ end ∷ [];
}

-- The same, with no frame free.
abbrev crowded : Mmu
crowded = record sample { sm2 = occupied ∷ occupied ∷ end ∷ [] }

sample-IsSound : IsSound 3 sample
sample-IsSound = record { size = refl; ends = refl; owned = λ g. omega arith; tables = omega arith }

crowded-IsSound : IsSound 2 crowded
crowded-IsSound = record {
  size = refl;
  ends = refl;
  owned = λ g. omega arith;
  tables = omega arith;
}

sample-At : At sample 9 1
unfolding find_process
sample-At = (refl, omega arith)

crowded-At : At crowded 9 1
unfolding find_process
crowded-At = (refl, omega arith)

serve-Keeps_example : Keeps 3 (serve sample 9 (pos 0))
serve-Keeps_example =
    serve-Keeps 3 sample 9 1 (pos 0) sample-IsSound (omega arith) sample-At (inr (0, refl))

serve_all-Keeps_example : Keeps 3 (serve_all sample ((9, pos 0) ∷ (9, negsuc 8) ∷ []))
serve_all-Keeps_example =
    serve_all-Keeps 3 sample ((9, pos 0) ∷ (9, negsuc 8) ∷ []) sample-IsSound (omega arith)
      ((1, sample-At, inr (0, refl)), ((1, sample-At, inl refl), tt))

fault_then_hit_example :
    (m1 : Mmu) × (m2 : Mmu) × (x : ℕ) × (serve crowded 9 (pos 0)
      ≡ running m1 (to_process 9 (negsuc 0) ∷ to_sched 1 9 ∷ []))
    × (serve m1 9 (pos 0) ≡ running m2 (to_process 9 (pos x) ∷ []))
fault_then_hit_example =
    fault_then_hit 2 crowded 9 1 0 second cleared crowded-IsSound (omega arith) crowded-At refl
      (omega arith) refl refl (inr (omega arith))

page_fault-Paged_example :
    (es : List Entry) × (cells : List Cell) × (page_fault crowded 1 second 9 0
      ≡ faulted crowded 1 second 9 es cells)
    × Paged 2 0 2 second.pagetable crowded.sm2 es cells
page_fault-Paged_example =
    page_fault-Paged 2 crowded 1 second 9 0 crowded-IsSound refl (omega arith)

-- With no frame free the process gives up its own page 1, and gets frame 1 for its page 0.
replaced :
    serve crowded 9 (pos 0)
    ≡ running
        (record crowded {
          timestamp = 3;
          sm1 =
              first
              ∷ record second {
                pagetable = record { frame = some 1; valid = 1; time = 3 } ∷ cleared ∷ [];
                total_page_faults = 2;
              }
              ∷ [];
        })
        (to_process 9 (negsuc 0) ∷ to_sched 1 9 ∷ [])
unfolding serve find_process handle access page_fault take_frame replace lru_scan older
replaced = refl

-- The end of process 9 sets frame 1 free.
ended :
    serve crowded 9 (negsuc 8)
    ≡ running
        (record crowded {
          timestamp = 3;
          total_num_processes = 1;
          sm1 = first ∷ record second { pagetable = cleared ∷ cleared ∷ [] } ∷ [];
          sm2 = occupied ∷ free ∷ end ∷ [];
        })
        (to_sched 2 9 ∷ [])
unfolding serve find_process handle terminate release_pages release_page
ended = refl

unknown_pid_example :
    ((91 ≤ 2) × (serve sample 8 (pos 0) ≡ exited)) ⊎ ((2 < 91) × (serve sample 8 (pos 0) ≡ fault))
unknown_pid_example =
    unknown_pid sample 8 (pos 0) (omega arith) (omega arith)
      ((λ e. omega arith), ((λ e. omega arith), tt)) (omega arith)
