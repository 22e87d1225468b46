-- ===== src/Graph/Acyclic.antt =====
-- Graphs without cycles, and lemmas on sums for them.
use operating_systems_iitkgp.Base.{
  ℕ, ◌≤◌, ◌<◌, ◌≡◌, refl, Bool, true, false, List, some, arith, length, get_elem?,
}
use operating_systems_iitkgp.Graph.{
  Place, waits_sync, waits_mtx, inserts, increments, visits, finished,
}
use operating_systems_iitkgp.Graph.Check.{bit}
use operating_systems_iitkgp.Graph.Sorted.{Mark, unmet, unmarked}
use operating_systems_iitkgp.Graph.Invariant.{inserted, pending_at, wrote_at, busy_at}

-- Edges lead within the graph, and upwards.
pub record Acyclic (a : List (List Bool)) (rank : ℕ → ℕ) : Type 0 where
  pub within : (i : ℕ) (row : List Bool) → get_elem? a i ≡ some row → length row ≤ length a
  pub upwards :
      (i j : ℕ) (row : List Bool) → get_elem? a i ≡ some row → 0 < bit row j → rank i < rank j

pub unmet-parts : (i : ℕ) (m : Mark) → 0 < unmet i m → (0 < bit m.0 i) × (0 < unmarked m)
unmet-parts i (row, true) h = absurd (omega arith)
unmet-parts i (row, false) h = (h, omega arith)

-- Of a process without the token only the vertex counts.
pub pending-unmet :
    (j : ℕ) (row : List Bool) (p : Place)
    → wrote_at p ≡ 0
    → busy_at p ≡ 0
    → unmet j (row, inserted p) ≡ 0
    → pending_at j row p ≡ 0
pending-unmet j row waits_sync h k u = u
pending-unmet j row waits_mtx h k u = u
pending-unmet j row inserts h k u = absurd (omega arith)
pending-unmet j row increments h k u = absurd (omega arith)
pending-unmet j row (visits n) h k u = absurd (omega arith)
pending-unmet j row finished h k u = refl
