-- ===== src/Graph.antt =====
-- Assignment 5: boss.c and worker.c, which sort the vertices of a graph. The boss sets up the shared
-- memory and the semaphores and checks the result; one worker for each vertex inserts it into T.
-- A step is one access to the shared state of one process. The matrix has n rows of n entries, which
-- are true where they are not 0, and each worker is started once, after the setup.
pub mod Check
pub mod Sorted
pub mod Invariant
pub mod Rows
pub mod Steps
pub mod Work
pub mod Verdict
pub mod Acyclic
pub mod Progress
pub mod Generator
mod Tests
use operating_systems_iitkgp.Base.{
  ℕ, zero, suc, ◌+◌, ◌-◌, ◌≡◌, Bool, true, false, List, [], ◌∷◌, Option, none, some, ◌==◌,
  if◌then◌else◌, ◌>>=◌, length, get_elem?, set, replicate, map,
}
use operating_systems_iitkgp.Base.Int.{ℤ, pos, negsuc}

-- `if(A[i][j]) indeg[j]++` for one i, and then for all.
pub add_row : List Bool → List ℕ → List ℕ
add_row [] indeg = indeg
add_row (edge ∷ row) [] = []
add_row (edge ∷ row) (d ∷ indeg) = (if edge then d + 1 else d) ∷ add_row row indeg

pub add_rows : List (List Bool) → List ℕ → List ℕ
unfolding add_row
add_rows [] indeg = indeg
add_rows (row ∷ rows) indeg = add_rows rows (add_row row indeg)

pub indegrees : List (List Bool) → List ℕ
unfolding add_rows
indegrees a = add_rows a (replicate (length a) 0)

abbrev pub pred : ℤ → ℤ
pred (pos zero) = negsuc 0
pred (pos (suc n)) = pos n
pred (negsuc n) = negsuc (suc n)

-- `if(A[T[i]][j]) indeg[j]--`.
pub sub_row : List Bool → List ℤ → List ℤ
sub_row [] indeg = indeg
sub_row (edge ∷ row) [] = []
sub_row (edge ∷ row) (d ∷ indeg) = (if edge then pred d else d) ∷ sub_row row indeg

-- The loop that sets `correct`, from what is left of T on. An entry that is no vertex makes it read
-- out of bounds: `none`.
pub check : List (List Bool) → List ℤ → List (Option ℕ) → Option Bool
unfolding sub_row
check a indeg [] = some true
check a indeg (none ∷ t) = none
check a indeg (some v ∷ t) = do
  d ← get_elem? indeg v
  row ← get_elem? a v
  elim d [
    | pos zero ↦ check a (sub_row row indeg) t
    | pos (suc n) ↦ some false
    | negsuc n ↦ some false
  ]

-- `correct`, from `indeg` as it was computed and T.
pub verdict : List (List Bool) → List (Option ℕ) → Option Bool
unfolding indegrees check
verdict a t = check a (map pos (indegrees a)) t

-- The next access of a worker: waiting for `sync[i]` to be 0, `P(mtx)`, the write of `T[*idx]`, the
-- increment of `*idx`, the entry `j` of its row or, at its end, `V(ntfy)`.
pub data Place : Type 0 where
  waits_sync waits_mtx inserts increments finished : Place
  visits : ℕ → Place

pub record Worker : Type 0 where
  pub row : List Bool
  pub place : Place

-- The next access of the boss: `P(ntfy)`, `V(mtx)`, and the test of `*idx`.
pub data Boss : Type 0 where
  waits_ntfy posts_mtx tests_idx done : Boss

-- `t` is T, where `none` is -1.
pub record Team : Type 0 where
  pub t : List (Option ℕ)
  pub idx : ℕ
  pub sync : List ℕ
  pub mtx : ℕ
  pub ntfy : ℕ
  pub workers : List Worker
  pub boss : Boss

-- After the setup.
pub setup_team : List (List Bool) → Team
unfolding indegrees
setup_team a = record {
  t = replicate (length a) none;
  idx = 0;
  sync = indegrees a;
  mtx = 0;
  ntfy = 1;
  workers = map (λ row. record { row = row; place = waits_sync }) a;
  boss = waits_ntfy;
}

module _ (s : Team) (i : ℕ) where
  abbrev pub at_place : List Bool → Place → List Worker
  at_place row place = set s.workers i (record { row = row; place = place })

  -- The column `j` of the worker's row, for `if(A[i][j])`: `none` is the end of the loop.
  pub visit : List Bool → ℕ → Option Bool → Option Team
  visit row j none = some (record s { ntfy = s.ntfy + 1; workers = at_place row finished })
  visit row j (some false) = some (record s { workers = at_place row (visits (suc j)) })
  visit row j (some true) = do
    n ← get_elem? s.sync j
    if n == 0
        then none
        else some
            (record s { sync = set s.sync j (n - 1); workers = at_place row (visits (suc j)) })

  -- A step of worker `i` of the given row from its place. `none` says that it waits. The write of
  -- an entry beyond T is `none` too; the invariant rules it out.
  pub work_at : List Bool → Place → Option Team
  unfolding visit
  work_at row waits_sync = do
    n ← get_elem? s.sync i
    if n == 0 then some (record s { workers = at_place row waits_mtx }) else none
  work_at row waits_mtx =
      if s.mtx == 0
      then none
      else some (record s { mtx = s.mtx - 1; workers = at_place row inserts })
  work_at row inserts = do
    old ← get_elem? s.t s.idx
    some (record s { t = set s.t s.idx (some i); workers = at_place row increments })
  work_at row increments = some (record s { idx = s.idx + 1; workers = at_place row (visits 0) })
  work_at row (visits j) = visit row j (get_elem? row j)
  work_at row finished = none

pub work : Team → ℕ → Option Team
unfolding work_at
work s i = do w ← get_elem? s.workers i; work_at s i w.row w.place

-- A step of the boss, up to the `break`.
pub lead_at : Team → Boss → Option Team
lead_at s waits_ntfy =
    if s.ntfy == 0 then none else some (record s { ntfy = s.ntfy - 1; boss = posts_mtx })
lead_at s posts_mtx = some (record s { mtx = s.mtx + 1; boss = tests_idx })
lead_at s tests_idx = some (record s { boss = if s.idx == length s.t then done else waits_ntfy })
lead_at s done = none

pub lead : Team → Option Team
unfolding lead_at
lead s = lead_at s s.boss

-- What the boss and the workers reach, in any order of their steps.
pub data Reach (a : List (List Bool)) : Team → Type 0 where
  start : Reach a (setup_team a)
  works : {s s' : Team} (i : ℕ) → Reach a s → work s i ≡ some s' → Reach a s'
  leads : {s s' : Team} → Reach a s → lead s ≡ some s' → Reach a s'
