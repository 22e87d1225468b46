-- ===== src/Memory/Mmu/Runs.antt =====
-- Sequences of requests to the memory management unit.
use operating_systems_iitkgp.Base.{
  ℕ, ◌+◌, ◌≤◌, ◌<◌, ◌≡◌, refl, ◌∙◌, subst, List, [], ◌∷◌, some, arith, length, get_elem?, set, All,
  All-map,
}
use operating_systems_iitkgp.Base.Int.{ℤ}
use operating_systems_iitkgp.Memory.Table.{int_max, Sm1}
use operating_systems_iitkgp.Memory.Mmu.{
  Mmu, Sent, Outcome, running, exited, fault, find_process, serve, serve_all,
}
use operating_systems_iitkgp.Memory.Mmu.Invariant.{IsSound, Keeps}
use operating_systems_iitkgp.Memory.Mmu.Requests.{At, At-get, IsRequest, serve-handle, serve-Keeps}
use operating_systems_iitkgp.Memory.Mmu.Outcomes.{
  Round, faults, page_faults, hits, ends, refuses, handle-Round,
}
use operating_systems_iitkgp.Memory.Mmu.Retry.{find_process-set}

-- A round leaves the clock as it is, once ticked, and every process where the search finds it.
abbrev pub Steady : Mmu → Outcome → Type 0
Steady m (running m' sent) =
    (m'.timestamp ≡ m.timestamp)
    × ((pid : ℕ) → find_process m'.sm1 pid 0 ≡ find_process m.sm1 pid 0)
Steady m exited = Unit
Steady m fault = Unit

module _ (m : Mmu) (i : ℕ) (p : Sm1) (at : get_elem? m.sm1 i ≡ some p) where
  search_same :
      (p' : Sm1)
      → p'.pid ≡ p.pid
      → (q : ℕ) → find_process (set m.sm1 i p') q 0 ≡ find_process m.sm1 q 0
  search_same p' same q = find_process-set m.sm1 i p p' q 0 at same

  Round-Steady : (pid : ℕ) (page : ℤ) (o : Outcome) → Round m i p pid page o → Steady m o
  Round-Steady pid page _ faults = tt
  Round-Steady pid page _ (page_faults es cells inside) = (refl, search_same _ refl)
  Round-Steady pid page _ (hits es x inside) =
      (refl, search_same (record p { pagetable = es }) refl)
  Round-Steady pid page _ (ends n es cells q) =
      (refl, search_same (record p { pagetable = es }) refl)
  Round-Steady pid page _ (refuses es cells beyond) = (refl, search_same _ refl)

-- A request of a process of SM1.
abbrev pub IsKnown : Mmu → ℕ × ℤ → Type 0
IsKnown m (pid, page) = (i : ℕ) × At m pid i × IsRequest page

pub serve-Steady :
    (m : Mmu) (pid i : ℕ) (page : ℤ)
    → m.timestamp < int_max
    → At m pid i
    → Steady (record m { timestamp = m.timestamp + 1 }) (serve m pid page)
serve-Steady m pid i page now h =
    let (p, at, _) = At-get m pid i h in
    rw (serve-handle m pid i page h at now) (
      Round-Steady (record m { timestamp = m.timestamp + 1 }) i p at pid page _
        (handle-Round (record m { timestamp = m.timestamp + 1 }) i p pid page))

pub Keeps-running :
    (f : ℕ) (o : Outcome)
    → Keeps f o
    → (m' : Mmu) × (sent : List Sent) × (o ≡ running m' sent) × IsSound f m'
Keeps-running f (running m' sent) k = (m', sent, refl, k)
Keeps-running f exited k = absurd k
Keeps-running f fault k = absurd k

serve_all-cons :
    (m m' : Mmu) (pid : ℕ) (page : ℤ) (rest : List (ℕ × ℤ)) (sent : List Sent)
    → serve m pid page ≡ running m' sent
    → serve_all m ((pid, page) ∷ rest) ≡ serve_all m' rest
unfolding serve_all
serve_all-cons m m' pid page rest sent eq = rw (eq, serve_all) refl

-- From a sound state every sequence of requests of processes in SM1 is served to its end, without
-- an access out of bounds, as long as the clock stays within `INT_MAX`, and ends in a sound state.
pub serve_all-Keeps :
    (f : ℕ) (m : Mmu) (requests : List (ℕ × ℤ))
    → IsSound f m
    → m.timestamp + length requests ≤ int_max
    → All (IsKnown m) requests
    → Keeps f (serve_all m requests)
unfolding serve_all
serve_all-Keeps f m [] s now known = s
serve_all-Keeps f m ((pid, page) ∷ rest) s now ((i, at, r), known) =
    let (m', sent, eq, s') = Keeps-running f _ (serve-Keeps f m pid i page s (omega arith) at r) in
    let steady =
      subst (Steady (record m { timestamp = m.timestamp + 1 })) eq
        (serve-Steady m pid i page (omega arith) at) in
    rw (serve_all-cons m m' pid page rest sent eq) (
      serve_all-Keeps f m' rest s' (omega (arith, steady.0)) (
        All-map (IsKnown m) (IsKnown m') (λ q k. (k.0, (steady.1 q.0 ∙ k.1.0, k.1.1), k.2)) rest
          known))
