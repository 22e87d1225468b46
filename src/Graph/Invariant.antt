-- ===== src/Graph/Invariant.antt =====
-- The invariant of the boss and the workers.
use mathlib.Core.Option.{some-injective}
use operating_systems_iitkgp.Base.{
  ℕ, ◌+◌, ◌≤◌, ◌<◌, ◌≡◌, ◌≢◌, sym, ap, subst, ◌∙◌, inl, inr, Bool, true, false, List, [], ◌∷◌, ◌++◌,
  none, some, arith, ltb, ◌==◌, if◌then◌else◌, length, get_elem?, get_elem?-lt, get_elem?-set_self,
  get_elem?-set_ne, set, replicate, total, total-set, map, Bool-cases,
}
use operating_systems_iitkgp.Graph.{
  Place, waits_sync, waits_mtx, inserts, increments, visits, finished, Worker, Boss, waits_ntfy,
  posts_mtx, tests_idx, done, Team,
}
use operating_systems_iitkgp.Graph.Check.{bit}
use operating_systems_iitkgp.Graph.Sorted.{Mark, Sorted, unmet, rows_of}

-- Whether the vertex is in T.
abbrev pub inserted : Place → Bool
inserted waits_sync = false
inserted waits_mtx = false
inserted inserts = false
inserted increments = true
inserted (visits k) = true
inserted finished = true

abbrev pub mark : Worker → Mark
mark w = (w.row, inserted w.place)

-- The edges to `j` that are still to be taken from `sync[j]`.
abbrev pub pending_at : ℕ → List Bool → Place → ℕ
pending_at j row waits_sync = bit row j
pending_at j row waits_mtx = bit row j
pending_at j row inserts = bit row j
pending_at j row increments = bit row j
pending_at j row (visits k) = if ltb j k then 0 else bit row j
pending_at j row finished = 0

abbrev pub pending : ℕ → Worker → ℕ
pending j w = pending_at j w.row w.place

-- Past the wait for `sync`, and not yet in T.
abbrev pub chosen : Place → Bool
chosen waits_sync = false
chosen waits_mtx = true
chosen inserts = true
chosen increments = false
chosen (visits k) = false
chosen finished = false

-- Between the write of T and that of `*idx`.
abbrev pub wrote_at : Place → ℕ
wrote_at waits_sync = 0
wrote_at waits_mtx = 0
wrote_at inserts = 0
wrote_at increments = 1
wrote_at (visits k) = 0
wrote_at finished = 0

-- Elsewhere between `P(mtx)` and `V(ntfy)`.
abbrev pub busy_at : Place → ℕ
busy_at waits_sync = 0
busy_at waits_mtx = 0
busy_at inserts = 1
busy_at increments = 0
busy_at (visits k) = 1
busy_at finished = 0

abbrev pub wrote : Worker → ℕ
wrote w = wrote_at w.place

abbrev pub busy : Worker → ℕ
busy w = busy_at w.place

abbrev pub boss_holds : Boss → ℕ
boss_holds waits_ntfy = 0
boss_holds posts_mtx = 1
boss_holds tests_idx = 0
boss_holds done = 0

-- Whoever is past the wait has no edge pending.
abbrev pub Passed : List Worker → Type 0
Passed ws =
    (i : ℕ) (w : Worker)
    → get_elem? ws i ≡ some w
    → chosen w.place ≡ true
    → total (pending i) ws ≡ 0

pub record Inv (a : List (List Bool)) (s : Team) : Type 0 where
  pub order : List ℕ
  pub left : ℕ
  pub rows : a ≡ rows_of (map mark s.workers)
  pub sync : (j : ℕ) → j < length a → get_elem? s.sync j ≡ some (total (pending j) s.workers)
  pub token : s.mtx + s.ntfy + total wrote s.workers + total busy s.workers + boss_holds s.boss ≡ 1
  pub passed : Passed s.workers
  pub sorted : Sorted order (map mark s.workers)
  pub written : s.t ≡ map some order ++ replicate left none
  pub count : length order ≡ s.idx + total wrote s.workers
  pub room : length order + left ≡ length a
  pub stop : s.boss ≡ done → s.idx ≡ length a
  pub opened : s.boss ≡ waits_ntfy → 0 < s.mtx → s.idx < length a

unmet-le : (j : ℕ) (row : List Bool) (p : Place) → unmet j (row, inserted p) ≤ pending_at j row p
unmet-le j row waits_sync = omega arith
unmet-le j row waits_mtx = omega arith
unmet-le j row inserts = omega arith
unmet-le j row increments = omega arith
unmet-le j row (visits k) = omega arith
unmet-le j row finished = omega arith

pub total-unmet-le :
    (j : ℕ) (ws : List Worker) → total (unmet j) (map mark ws) ≤ total (pending j) ws
total-unmet-le j [] = omega arith
total-unmet-le j (w ∷ ws) = omega (arith, unmet-le j w.row w.place, total-unmet-le j ws)

pub Passed-set :
    (ws : List Worker) (i : ℕ) (w w' : Worker)
    → get_elem? ws i ≡ some w
    → ((j : ℕ) → pending j w' ≤ pending j w)
    → (chosen w'.place ≡ true → total (pending i) ws ≡ 0)
    → Passed ws
    → Passed (set ws i w')
Passed-set ws i w w' at fewer own old j u at_j h =
    let moved = total-set (pending j) ws i w' at in
    elim (Bool-cases (i == j)) [
      | inl same ↦
          let e : i ≡ j = ground arith in
          let u_is : w' ≡ u = some-injective w' u (
            sym (get_elem?-set_self ws i w' (get_elem?-lt ws i at))
            ∙ ap (λ n. get_elem? (set ws i w') n) e
            ∙ at_j) in
          let mine : total (pending i) ws ≡ 0 = own (ap (λ v. chosen v.place) u_is ∙ h) in
          let here : total (pending j) ws ≡ 0 = subst (λ n. total (pending n) ws ≡ 0) e mine in
          omega (arith, moved, fewer j, here)
      | inr apart ↦
          let e : i ≢ j = λ q. ground arith in
          let here = old j u (sym (get_elem?-set_ne ws i j w' e) ∙ at_j) h in
          omega (arith, moved, fewer j, here)
    ]
