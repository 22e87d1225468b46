-- ===== src/Graph/Tests.antt =====
-- The theorems about the boss and the workers for the graph with the edge from vertex 0 to vertex 1.
use mathlib.Core.Option.{some-injective}
use operating_systems_iitkgp.Base.{
  zero, suc, sym, ◌≤◌, ◌<◌, ◌⊎◌, arith, get_elem?, ℕ, ◌≡◌, refl, subst, ◌∙◌, inl, inr, Bool, true,
  false, List, [], ◌∷◌, Option, none, some, ◌>>=◌, length, Option-cases,
}
use operating_systems_iitkgp.Graph.{
  waits_ntfy, done, waits_sync, inserts, finished, Team, setup_team, indegrees, add_rows, add_row,
  sub_row, check, verdict, work, work_at, visit, lead, lead_at, Reach, start, works, leads,
}
use operating_systems_iitkgp.Graph.Check.{bit}
use operating_systems_iitkgp.Graph.Acyclic.{Acyclic}
use operating_systems_iitkgp.Graph.Progress.{sorting_goes_on}
use operating_systems_iitkgp.Graph.Verdict.{verdict-Reach, writes_inside}

abbrev edge : List (List Bool)
edge = (false ∷ true ∷ []) ∷ (false ∷ false ∷ []) ∷ []

-- A step of a worker, or of the boss (`none`), and several of them.
abbrev act : Team → Option ℕ → Option Team
act s none = lead s
act s (some i) = work s i

abbrev acts : List (Option ℕ) → Team → Option Team
acts [] s = some s
acts (x ∷ xs) s = act s x >>= acts xs

act-Reach :
    (a : List (List Bool)) (s s' : Team) (x : Option ℕ) → Reach a s → act s x ≡ some s' → Reach a s'
act-Reach a s s' none r h = leads r h
act-Reach a s s' (some i) r h = works i r h

acts-Reach :
    (a : List (List Bool)) (xs : List (Option ℕ)) (s s' : Team)
    → Reach a s
    → acts xs s ≡ some s'
    → Reach a s'
acts-Reach a [] s s' r h = subst (Reach a) (some-injective s s' h) r
acts-Reach a (x ∷ xs) s s' r h = elim (Option-cases (act s x)) [
  | inl z ↦ let stays : acts (x ∷ xs) s ≡ none = rw (z) refl in cc
  | inr (m, z) ↦
      let went : acts (x ∷ xs) s ≡ acts xs m = rw (z) refl in
      acts-Reach a xs m s' (act-Reach a s m x r z) (sym went ∙ h)
]

abbrev opened : List (Option ℕ)
opened = none ∷ none ∷ none ∷ some 0 ∷ some 0 ∷ []

abbrev at_insert : Team
at_insert = record {
  t = none ∷ none ∷ [];
  idx = 0;
  sync = 0 ∷ 1 ∷ [];
  mtx = 0;
  ntfy = 0;
  workers =
      record { row = false ∷ true ∷ []; place = inserts }
      ∷ record { row = false ∷ false ∷ []; place = waits_sync }
      ∷ [];
  boss = waits_ntfy;
}

opened_run : acts opened (setup_team edge) ≡ some at_insert
unfolding setup_team indegrees add_rows add_row work work_at lead lead_at
opened_run = refl

writes_inside_example :
    (at_insert.idx < length at_insert.t) × (at_insert.mtx ≡ 0) × (at_insert.ntfy ≡ 0)
writes_inside_example =
    writes_inside edge at_insert 0 _
      (acts-Reach edge opened (setup_team edge) at_insert start opened_run) refl refl

abbrev to_end : List (Option ℕ)
to_end =
    none
    ∷ none
    ∷ none
    ∷ some 0
    ∷ some 0
    ∷ some 0
    ∷ some 0
    ∷ some 0
    ∷ some 0
    ∷ some 0
    ∷ none
    ∷ none
    ∷ none
    ∷ some 1
    ∷ some 1
    ∷ some 1
    ∷ some 1
    ∷ some 1
    ∷ some 1
    ∷ some 1
    ∷ none
    ∷ none
    ∷ none
    ∷ []

abbrev ended : Team
ended = record {
  t = some 0 ∷ some 1 ∷ [];
  idx = 2;
  sync = 0 ∷ 0 ∷ [];
  mtx = 1;
  ntfy = 0;
  workers =
      record { row = false ∷ true ∷ []; place = finished }
      ∷ record { row = false ∷ false ∷ []; place = finished }
      ∷ [];
  boss = done;
}

acts_run : acts to_end (setup_team edge) ≡ some ended
unfolding setup_team indegrees add_rows add_row work work_at visit lead lead_at
acts_run = refl

-- The order 1, 0 is not correct.
verdict_run : verdict edge (some 1 ∷ some 0 ∷ []) ≡ some false
unfolding verdict check indegrees add_rows add_row sub_row
verdict_run = refl

verdict-Reach_example : verdict edge (some 0 ∷ some 1 ∷ []) ≡ some true
verdict-Reach_example =
    verdict-Reach edge ended (acts-Reach edge to_end (setup_team edge) ended start acts_run) refl

edge-within : (i : ℕ) (row : List Bool) → get_elem? edge i ≡ some row → length row ≤ length edge
edge-within zero row h = let e = some-injective (false ∷ true ∷ []) row h in rw⁻¹ (e) (omega arith)
edge-within (suc zero) row h =
    let e = some-injective (false ∷ false ∷ []) row h in rw⁻¹ (e) (omega arith)
edge-within (suc (suc i)) row h = cc

edge-upwards : (i j : ℕ) (row : List Bool) → get_elem? edge i ≡ some row → 0 < bit row j → i < j
edge-upwards zero j row h k =
    up j (subst (λ r. 0 < bit r j) (sym (some-injective (false ∷ true ∷ []) row h)) k)
  where
    up : (j : ℕ) → 0 < bit (false ∷ true ∷ []) j → 0 < j
    up zero h = absurd (omega arith)
    up (suc j) h = omega arith
edge-upwards (suc zero) j row h k =
    none_up j (subst (λ r. 0 < bit r j) (sym (some-injective (false ∷ false ∷ []) row h)) k)
  where
    none_up : (j : ℕ) → 0 < bit (false ∷ false ∷ []) j → 1 < j
    none_up zero h = absurd (omega arith)
    none_up (suc zero) h = absurd (omega arith)
    none_up (suc (suc j)) h = absurd (omega arith)
edge-upwards (suc (suc i)) j row h k = cc

edge-Acyclic : Acyclic edge (λ i. i)
edge-Acyclic = record { within = edge-within; upwards = edge-upwards }

sorting_goes_on_example :
    ((s' : Team) × (lead at_insert ≡ some s'))
    ⊎ ((i : ℕ) × (s' : Team) × (work at_insert i ≡ some s'))
sorting_goes_on_example =
    sorting_goes_on edge (λ i. i) at_insert edge-Acyclic
      (acts-Reach edge opened (setup_team edge) at_insert start opened_run) (λ q. cc)
