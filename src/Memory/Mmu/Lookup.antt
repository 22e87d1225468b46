-- ===== src/Memory/Mmu/Lookup.antt =====
-- The search of mmu.c for the process that a message names.
use operating_systems_iitkgp.Base.{
  ℕ, zero, suc, ◌+◌, ◌≤◌, ◌<◌, ◌≡◌, ◌≢◌, refl, inl, inr, List, [], ◌∷◌, true, false, some, arith,
  ltb, ◌==◌, length, get_elem?, All, Bool-cases, ap, ◌∙◌, leb, ◌*◌, ◌⊎◌, map,
}
use operating_systems_iitkgp.Base.Int.{ℤ}
use operating_systems_iitkgp.Memory.Table.{int_max, max_processes, Sm1}
use operating_systems_iitkgp.Memory.Mmu.{
  Mmu, exited, fault, sm1_size, segment_size, past_entries, find_process, serve,
}

pub find_process-known :
    (ps : List Sm1) (pids : List ℕ) (pid k j : ℕ)
    → map (λ (p : Sm1). p.pid) ps ≡ pids
    → get_elem? pids j ≡ some pid
    → k + j < max_processes
    → (i : ℕ) × (find_process ps pid k ≡ some i) × (i < max_processes)
unfolding find_process
find_process-known [] pids pid k j e at h = ground arith
find_process-known (p ∷ ps) [] pid k j e at h = cc
find_process-known (p ∷ ps) (q ∷ pids) pid k zero e at h = (k, ground arith, omega arith)
find_process-known (p ∷ ps) (q ∷ pids) pid k (suc j) e at h = elim (Bool-cases (p.pid == pid)) [
  | inl hit ↦ (k, ground arith, omega arith)
  | inr miss ↦
      let (i, found, few) =
        find_process-known ps pids pid (suc k) j (ground arith) at (omega arith) in
      (i, ground arith, few)
]

find_process-unknown :
    (ps : List Sm1) (pid k : ℕ)
    → All (λ (p : Sm1). p.pid ≢ pid) ps
    → k + length ps ≤ max_processes
    → find_process ps pid k ≡ past_entries (k + length ps) pid
unfolding find_process
find_process-unknown [] pid k a h = ap (λ n. past_entries n pid) (omega arith)
find_process-unknown (p ∷ ps) pid k a h =
    let miss : (p.pid == pid) ≡ false = ground (arith, a.0) in
    let more : ltb k max_processes ≡ true = ground arith in
    rw (miss, more)
      (find_process-unknown ps pid (suc k) a.1 (omega arith)
        ∙ ap (λ n. past_entries n pid) (omega arith))

-- Let the clock be below INT_MAX, let SM1 have at most 100 entries, and let a message name a pid, not 0,
-- that is in none of them. If there are 91 entries at least, the memory management unit exits. If there
-- are fewer, its search reads beyond the segment, whose size is rounded up to pages of 4096 bytes.
pub unknown_pid :
    (m : Mmu) (pid : ℕ) (page : ℤ)
    → m.timestamp < int_max
    → length m.sm1 ≤ max_processes
    → All (λ (p : Sm1). p.pid ≢ pid) m.sm1
    → 0 < pid
    → ((91 ≤ length m.sm1) × (serve m pid page ≡ exited))
      ⊎ ((length m.sm1 < 91) × (serve m pid page ≡ fault))
unfolding serve
unknown_pid m pid page now few other someone =
    let early : (m.timestamp == int_max) ≡ false = ground arith in
    let known : (pid == 0) ≡ false = ground arith in
    let search = find_process-unknown m.sm1 pid 0 other (omega arith) in
    let at : 0 + length m.sm1 ≡ length m.sm1 = omega arith in
    elim (Bool-cases (leb (max_processes * sm1_size + 4) (segment_size (length m.sm1)))) [
      | inl inside ↦ inl (ground arith, rw (early, search, at, known, inside) refl)
      | inr beyond ↦ inr (ground arith, rw (early, search, at, known, beyond) refl)
    ]
