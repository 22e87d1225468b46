-- ===== src/Memory/Master.antt =====
-- Assignment 8/master.c: how the segments are laid out before the processes start.
use operating_systems_iitkgp.Base.{
  ℕ, zero, suc, ◌+◌, ◌%◌, ◌≤◌, ◌<◌, ◌≡◌, refl, map, List, [], ◌∷◌, ◌++◌, Option, none, some, arith,
  replicate, length, length-append, length-replicate, All, ◌>>=◌,
}
use mathlib.Core.Path.{ap₂}
use operating_systems_iitkgp.Memory.Table.{
  max_virtual_addr_space, Entry, cleared, Sm1, Cell, free, end,
}
use operating_systems_iitkgp.Base.Rows.{Rows, sum_rows}
use operating_systems_iitkgp.Memory.Mmu.{Mmu}
use operating_systems_iitkgp.Memory.Mmu.Frames.{taken, Ends}
use operating_systems_iitkgp.Memory.Mmu.Owners.{holds, held, owners}
use operating_systems_iitkgp.Memory.Mmu.Invariant.{IsFit, IsSoundProcess, IsSound}

-- A row of a new segment, all of whose bytes are 0.
abbrev zero_row : Entry
zero_row = record { frame = some 0; valid = 0; time = 0 }

-- `for (int j = 0; j < m; j++)` over the page table. A write past the last row is `none`.
unfoldable pub clear_rows : ℕ → List Entry → Option (List Entry)
clear_rows zero es = some es
clear_rows (suc m) [] = none
clear_rows (suc m) (e ∷ es) = do rest ← clear_rows m es; some (cleared ∷ rest)

-- The entry of SM1 for the process `pid`, with `draw` the value of `rand()` for `mi`. For `m` = 0
-- the remainder is undefined.
unfoldable pub setup_process : ℕ → ℕ × ℕ → Option Sm1
setup_process zero process = none
setup_process (suc m) (pid, draw) = do
  table ← clear_rows (suc m) (replicate max_virtual_addr_space zero_row)
  some (record {
    pid = pid;
    mi = draw % suc m + 1;
    pagetable = table;
    total_page_faults = 0;
    total_illegal_access = 0;
  })

unfoldable pub setup_processes : ℕ → List (ℕ × ℕ) → Option (List Sm1)
setup_processes m [] = some []
setup_processes m (process ∷ rest) = do
  p ← setup_process m process
  ps ← setup_processes m rest
  some (p ∷ ps)

-- `f` free frames and the end mark.
unfoldable pub setup_frames : ℕ → List Cell
setup_frames f = replicate f free ++ end ∷ []

-- What the memory management unit finds: the globals of mmu.c start at 0.
unfoldable pub setup : ℕ → ℕ → List (ℕ × ℕ) → Option Mmu
setup m f processes = do
  sm1 ← setup_processes m processes
  some (record { timestamp = 0; total_num_processes = 0; sm1 = sm1; sm2 = setup_frames f })

clear_rows-Rows :
    (m : ℕ) (es : List Entry)
    → m ≤ length es
    → (table : List Entry) × (clear_rows m es ≡ some table)
      × Rows (IsFit 0) m table
      × ((g : ℕ → ℕ) → sum_rows (holds g) m table ≡ 0)
unfolding clear_rows
clear_rows-Rows zero es h = (es, refl, tt, λ g. refl)
clear_rows-Rows (suc m) [] h = absurd (omega arith)
clear_rows-Rows (suc m) (e ∷ es) h =
    let (table, eq, fit, none_held) = clear_rows-Rows m es (omega arith) in
    (cleared ∷ table, rw eq refl, ((refl, refl), fit), λ g. omega (arith, none_held g))

Rows-fewer : (P : Entry → Type 0) (k n : ℕ) (es : List Entry) → k ≤ n → Rows P n es → Rows P k es
Rows-fewer P zero n es h r = tt
Rows-fewer P (suc k) zero es h r = absurd (omega arith)
Rows-fewer P (suc k) (suc n) [] h r = r
Rows-fewer P (suc k) (suc n) (e ∷ es) h r = (r.0, Rows-fewer P k n es (omega arith) r.1)

sum_rows-fewer :
    (w : Entry → ℕ) (k n : ℕ) (es : List Entry) → k ≤ n → sum_rows w k es ≤ sum_rows w n es
sum_rows-fewer w zero n es h = omega arith
sum_rows-fewer w (suc k) zero es h = absurd (omega arith)
sum_rows-fewer w (suc k) (suc n) [] h = omega arith
sum_rows-fewer w (suc k) (suc n) (e ∷ es) h = omega (arith, sum_rows-fewer w k n es (omega arith))

setup_process-Empty :
    (m : ℕ) (process : ℕ × ℕ)
    → 0 < m
    → m ≤ max_virtual_addr_space
    → (p : Sm1) × (setup_process m process ≡ some p)
      × (p.pid ≡ process.0)
      × IsSoundProcess 0 p
      × ((g : ℕ → ℕ) → held g p ≡ 0)
unfolding setup_process
setup_process-Empty zero process h b = absurd (omega arith)
setup_process-Empty (suc m) (pid, draw) h b =
    let (table, eq, fit, none_held) =
      clear_rows-Rows (suc m) (replicate max_virtual_addr_space zero_row) b in
    let few : draw % suc m + 1 ≤ suc m = grind arith in
    (
      record {
        pid = pid;
        mi = draw % suc m + 1;
        pagetable = table;
        total_page_faults = 0;
        total_illegal_access = 0;
      },
      rw eq refl,
      refl,
      Rows-fewer (IsFit 0) (draw % suc m + 1) (suc m) table few fit,
      λ g.
          omega (arith, none_held g, sum_rows-fewer (holds g) (draw % suc m + 1) (suc m) table few),
    )

setup_processes-Empty :
    (m : ℕ) (processes : List (ℕ × ℕ))
    → 0 < m
    → m ≤ max_virtual_addr_space
    → (ps : List Sm1) × (setup_processes m processes ≡ some ps)
      × (map (λ (p : Sm1). p.pid) ps ≡ map (λ q. q.0) processes)
      × All (IsSoundProcess 0) ps
      × ((g : ℕ → ℕ) → owners g ps ≡ 0)
unfolding setup_processes
setup_processes-Empty m [] h b = ([], refl, refl, tt, λ g. refl)
setup_processes-Empty m (process ∷ rest) h b =
    let (p, eq, pid, fit, none_held) = setup_process-Empty m process h b in
    let (ps, eqs, pids, fits, none_owned) = setup_processes-Empty m rest h b in
    (
      p ∷ ps,
      rw (eq, eqs) refl,
      ap₂ ◌∷◌ pid pids,
      (fit, fits),
      λ g. omega (arith, none_held g, none_owned g),
    )

setup_frames-taken : (f : ℕ) (g : ℕ → ℕ) → taken g (setup_frames f) ≡ 0
unfolding setup_frames
setup_frames-taken zero g = omega arith
setup_frames-taken (suc f) g = omega (arith, setup_frames-taken f (λ i. g (suc i)))

setup_frames-Ends : (f : ℕ) → Ends (setup_frames f)
unfolding setup_frames
setup_frames-Ends zero = refl
setup_frames-Ends (suc f) = setup_frames-Ends f

length-setup_frames : (f : ℕ) → length (setup_frames f) ≡ f + 1
unfolding setup_frames
length-setup_frames f =
    omega (arith, length-append {0} (replicate f free) (end ∷ []), length-replicate {0} f free)

-- With an address space of 1 to 25 pages the layout stays within the segments, and the state that
-- the memory management unit starts in is sound, with the clock at 0 and the processes in order.
pub setup-IsSound :
    (m f : ℕ) (processes : List (ℕ × ℕ))
    → 0 < m
    → m ≤ max_virtual_addr_space
    → (s : Mmu) × (setup m f processes ≡ some s)
      × IsSound f s
      × (s.timestamp ≡ 0)
      × (map (λ (p : Sm1). p.pid) s.sm1 ≡ map (λ q. q.0) processes)
unfolding setup
setup-IsSound m f processes h b =
    let (ps, eq, pids, fits, none_owned) = setup_processes-Empty m processes h b in
    (
      record { timestamp = 0; total_num_processes = 0; sm1 = ps; sm2 = setup_frames f },
      rw eq refl,
      record {
        size = length-setup_frames f;
        ends = setup_frames-Ends f;
        owned = λ g. omega (arith, none_owned g, setup_frames-taken f g);
        tables = fits;
      },
      refl,
      pids,
    )
