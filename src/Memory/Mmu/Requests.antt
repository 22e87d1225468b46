-- ===== src/Memory/Mmu/Requests.antt =====
-- Whole requests to the memory management unit, and sequences of them.
use operating_systems_iitkgp.Base.{
  ℕ, suc, ◌+◌, ◌<◌, ◌≡◌, refl, subst, ◌⊎◌, inl, inr, List, [], ◌∷◌, false, some, arith, ltb, ◌==◌,
  get_elem?, Bool-cases,
}
use operating_systems_iitkgp.Base.Int.{ℤ, pos, negsuc}
use operating_systems_iitkgp.Memory.Table.{int_max, max_processes, Sm1}
use operating_systems_iitkgp.Memory.Mmu.{Mmu, find_process, handle, serve}
use operating_systems_iitkgp.Memory.Mmu.Invariant.{IsSound, Keeps, tick-IsSound}
use operating_systems_iitkgp.Memory.Mmu.Handlers.{handle-Keeps}

-- A page that a process asks for, or -9.
abbrev pub IsRequest : ℤ → Type 0
IsRequest page = (page ≡ negsuc 8) ⊎ ((n : ℕ) × (page ≡ pos n))

-- The search finds the process at `i`.
abbrev pub At : Mmu → ℕ → ℕ → Type 0
At m pid i = (find_process m.sm1 pid 0 ≡ some i) × (i < max_processes)

find_process-get :
    (ps : List Sm1) (pid k : ℕ) {i : ℕ}
    → find_process ps pid k ≡ some i
    → i < max_processes
    → (j : ℕ) × (p : Sm1) × (i ≡ k + j) × (get_elem? ps j ≡ some p) × (p.pid ≡ pid)
unfolding find_process
find_process-get [] pid k h few = ground arith
find_process-get (p ∷ ps) pid k {i} h few = elim (Bool-cases (p.pid == pid)) [
  | inl hit ↦ (0, p, ground arith, refl, ground arith)
  | inr miss ↦ elim (Bool-cases (ltb k max_processes)) [
    | inl more ↦
        let (j, q, e, at, r) = find_process-get ps pid (suc k) {i = i} (ground arith) few in
        (suc j, q, omega arith, at, r)
    | inr last ↦ ground arith
  ]
]

-- The process at the index that the search ends with.
pub At-get :
    (m : Mmu) (pid i : ℕ) → At m pid i → (p : Sm1) × (get_elem? m.sm1 i ≡ some p) × (p.pid ≡ pid)
At-get m pid i h =
    let (j, p, e, at, r) = find_process-get m.sm1 pid 0 h.0 h.1 in
    let same : j ≡ i = omega arith in (p, subst (λ n. get_elem? m.sm1 n ≡ some p) same at, r)

-- A round of the loop for a known process is the chain of tests on its page.
pub serve-handle :
    (m : Mmu) (pid i : ℕ) (page : ℤ) {p : Sm1}
    → At m pid i
    → get_elem? m.sm1 i ≡ some p
    → m.timestamp < int_max
    → serve m pid page ≡ handle (record m { timestamp = m.timestamp + 1 }) i p pid page
unfolding serve
serve-handle m pid i page h at now =
    let early : (m.timestamp == int_max) ≡ false = ground arith in
    let few : (i == max_processes) ≡ false = ground arith in rw (early, h.0, few, at) refl

-- In a sound state, before the clock reaches `INT_MAX`, a request of a process that is in SM1 among
-- the first 100 is served: nothing is read or written out of bounds, the loop goes on, and the state
-- after it is sound.
pub serve-Keeps :
    (f : ℕ) (m : Mmu) (pid i : ℕ) (page : ℤ)
    → IsSound f m
    → m.timestamp < int_max
    → At m pid i
    → IsRequest page
    → Keeps f (serve m pid page)
serve-Keeps f m pid i page s now h r =
    let (p, at, _) = At-get m pid i h in
    rw (serve-handle m pid i page h at now)
      (handle-Keeps f _ i p pid (tick-IsSound f m s) at page r)
