-- ===== src/Memory/Tests.antt =====
-- The theorem about the start of Assignment 8 at a concrete input.
use operating_systems_iitkgp.Base.{
  ◌+◌, replicate, total, ℕ, ◌≡◌, refl, inl, inr, List, [], ◌∷◌, some, arith,
}
use operating_systems_iitkgp.Base.Int.{ℤ, pos, negsuc}
use operating_systems_iitkgp.Memory.Mmu.{
  Mmu, Sent, running, serve_all, find_process, serve, handle, access, page_fault, take_frame,
  faulted,
}
use operating_systems_iitkgp.Memory.Mmu.Invariant.{IsSound}
use operating_systems_iitkgp.Memory.Master.{
  setup, setup_processes, setup_process, clear_rows, setup_frames,
}
use operating_systems_iitkgp.Memory.Start.{setup_serves, setup_exclusive, setup_conserves}
use operating_systems_iitkgp.Memory.Table.{cleared, free, occupied, end}
use operating_systems_iitkgp.Memory.Mmu.Frames.{is_free}
use operating_systems_iitkgp.Memory.Mmu.Owners.{owners}
use operating_systems_iitkgp.Memory.Mmu.Ownership.{Holds}

abbrev asked : List (ℕ × ℤ)
asked = (9, pos 0) ∷ (7, pos 3) ∷ (9, negsuc 8) ∷ []

setup_serves_example :
    (s : Mmu) × (t : Mmu) × (setup 4 2 ((7, 10) ∷ (9, 3) ∷ []) ≡ some s)
    × ((sent : List Sent) × (serve_all s asked ≡ running t sent))
    × IsSound 2 t
setup_serves_example =
    setup_serves 4 2 ((7, 10) ∷ (9, 3) ∷ []) asked (omega arith) (omega arith) (omega arith) (
      (1, refl, omega arith, inr (0, refl)),
      ((0, refl, omega arith, inr (3, refl)), ((1, refl, omega arith, inl refl), tt)),
    )

-- One process with two pages and two frames, after its request for page 0.
abbrev laid : Mmu
laid = record {
  timestamp = 0;
  total_num_processes = 0;
  sm1 =
      record {
        pid = 7;
        mi = 2;
        pagetable = replicate 25 cleared;
        total_page_faults = 0;
        total_illegal_access = 0;
      }
      ∷ [];
  sm2 = free ∷ free ∷ end ∷ [];
}

abbrev loaded : Mmu
loaded = record {
  timestamp = 1;
  total_num_processes = 0;
  sm1 =
      record {
        pid = 7;
        mi = 2;
        pagetable = record { frame = some 0; valid = 1; time = 1 } ∷ replicate 24 cleared;
        total_page_faults = 1;
        total_illegal_access = 0;
      }
      ∷ [];
  sm2 = occupied ∷ free ∷ end ∷ [];
}

laid_run : setup 25 2 ((7, 1) ∷ []) ≡ some laid
unfolding setup setup_processes setup_process clear_rows setup_frames
laid_run = refl

loaded_run : serve_all laid ((7, pos 0) ∷ []) ≡ running loaded []
unfolding serve_all serve find_process handle access page_fault take_frame faulted
loaded_run = refl

Holds-loaded : Holds loaded 0 0 0
Holds-loaded = record {
  process = _;
  row = _;
  at = refl;
  inside = omega arith;
  here = refl;
  frame = refl;
}

setup_exclusive_example : (◌≡◌ {A = ℕ} 0 0) × (◌≡◌ {A = ℕ} 0 0)
setup_exclusive_example =
    setup_exclusive 25 2 ((7, 1) ∷ []) ((7, pos 0) ∷ []) laid loaded [] (omega arith) (omega arith)
      (omega arith) ((0, refl, omega arith, inr (0, refl)), tt) laid_run loaded_run 0 0 0 0 0
      Holds-loaded Holds-loaded

setup_conserves_example : total is_free loaded.sm2 + owners (λ _. 1) loaded.sm1 ≡ 2
setup_conserves_example =
    setup_conserves 25 2 ((7, 1) ∷ []) ((7, pos 0) ∷ []) laid loaded [] (omega arith) (omega arith)
      (omega arith) ((0, refl, omega arith, inr (0, refl)), tt) laid_run loaded_run
