-- ===== src/Memory/Start.antt =====
-- The memory management unit as master.c starts it.
use mathlib.Core.Option.{some-injective}
use operating_systems_iitkgp.Base.{
  ◌+◌, sym, ap, subst, ◌∙◌, total, ℕ, ◌≤◌, ◌<◌, ◌≡◌, List, some, arith, length, get_elem?, All,
  All-map, map,
}
use operating_systems_iitkgp.Base.Int.{ℤ}
use operating_systems_iitkgp.Memory.Table.{int_max, max_processes, max_virtual_addr_space}
use operating_systems_iitkgp.Memory.Mmu.{Mmu, Sent, Outcome, running, exited, fault, serve_all}
use operating_systems_iitkgp.Memory.Mmu.Frames.{is_free}
use operating_systems_iitkgp.Memory.Mmu.Owners.{owners}
use operating_systems_iitkgp.Memory.Mmu.Ownership.{Holds, frame_exclusive, frames_conserved}
use operating_systems_iitkgp.Memory.Mmu.Invariant.{IsSound}
use operating_systems_iitkgp.Memory.Mmu.Requests.{IsRequest}
use operating_systems_iitkgp.Memory.Mmu.Runs.{IsKnown, serve_all-Keeps, Keeps-running}
use operating_systems_iitkgp.Memory.Mmu.Lookup.{find_process-known}
use operating_systems_iitkgp.Memory.Master.{setup, setup-IsSound}

-- A request of one of the first 100 of `processes`.
abbrev pub IsFrom : List (ℕ × ℕ) → ℕ × ℤ → Type 0
IsFrom processes (pid, page) =
    (j : ℕ) × (get_elem? (map (λ q. q.0) processes) j ≡ some pid)
    × (j < max_processes)
    × IsRequest page

-- Let master.c lay the segments out for an address space of 1 to 25 pages. Then every sequence of
-- fewer than 2^31 requests, each of one of the first 100 processes, is served to its end with no
-- access out of bounds, and the state is sound in the end.
pub setup_serves :
    (m f : ℕ) (processes : List (ℕ × ℕ)) (requests : List (ℕ × ℤ))
    → 0 < m
    → m ≤ max_virtual_addr_space
    → length requests ≤ int_max
    → All (IsFrom processes) requests
    → (s : Mmu) × (t : Mmu) × (setup m f processes ≡ some s)
      × ((sent : List Sent) × (serve_all s requests ≡ running t sent))
      × IsSound f t
setup_serves m f processes requests h b few from =
    let (s, eq, sound, zero_time, pids) = setup-IsSound m f processes h b in
    let known =
      All-map (IsFrom processes) (IsKnown s)
        (λ q k.
          let (i, found, low) =
            find_process-known s.sm1 (map (λ r. r.0) processes) q.0 0 k.0 pids k.1
              (omega (arith, k.2)) in
          (i, (found, low), k.3))
        requests from in
    let (t, sent, ran, kept) =
      Keeps-running f _ (serve_all-Keeps f s requests sound (omega arith) known) in
    (s, t, eq, (sent, ran), kept)

state_of : Mmu → Outcome → Mmu
state_of m (running t sent) = t
state_of m exited = m
state_of m fault = m

-- The state that requests have led to from the layout.
setup-IsSound_after :
    (m f : ℕ) (processes : List (ℕ × ℕ)) (requests : List (ℕ × ℤ)) (s t : Mmu) (sent : List Sent)
    → 0 < m
    → m ≤ max_virtual_addr_space
    → length requests ≤ int_max
    → All (IsFrom processes) requests
    → setup m f processes ≡ some s
    → serve_all s requests ≡ running t sent
    → IsSound f t
unfolding state_of
setup-IsSound_after m f processes requests s t sent h b few from laid ran =
    let (s', t', laid', (sent', ran'), sound) = setup_serves m f processes requests h b few from in
    let same : s' ≡ s = some-injective s' s (sym laid' ∙ laid) in
    let ends : running t' sent' ≡ running t sent =
      sym ran' ∙ ap (λ u. serve_all u requests) same ∙ ran in
    subst (IsSound f) (ap (state_of t) ends) sound

-- Let master.c lay the segments out for an address space of 1 to 25 pages, and let fewer than 2^31
-- requests, each of one of the first 100 processes, have been served. Then a frame is held by one row of
-- one page table at most.
pub setup_exclusive :
    (m f : ℕ) (processes : List (ℕ × ℕ)) (requests : List (ℕ × ℤ)) (s t : Mmu) (sent : List Sent)
    → 0 < m
    → m ≤ max_virtual_addr_space
    → length requests ≤ int_max
    → All (IsFrom processes) requests
    → setup m f processes ≡ some s
    → serve_all s requests ≡ running t sent
    → (i j a b x : ℕ) → Holds t i a x
    → Holds t j b x
    → (i ≡ j) × (a ≡ b)
setup_exclusive m f processes requests s t sent h b few from laid ran =
    frame_exclusive f t (setup-IsSound_after m f processes requests s t sent h b few from laid ran)

-- Let master.c lay the segments out for an address space of 1 to 25 pages, and let fewer than 2^31
-- requests, each of one of the first 100 processes, have been served. Then the free frames and the rows
-- that hold a frame are together as many as the frames that master.c was given.
pub setup_conserves :
    (m f : ℕ) (processes : List (ℕ × ℕ)) (requests : List (ℕ × ℤ)) (s t : Mmu) (sent : List Sent)
    → 0 < m
    → m ≤ max_virtual_addr_space
    → length requests ≤ int_max
    → All (IsFrom processes) requests
    → setup m f processes ≡ some s
    → serve_all s requests ≡ running t sent
    → total is_free t.sm2 + owners (λ _. 1) t.sm1 ≡ f
setup_conserves m f processes requests s t sent h b few from laid ran =
    frames_conserved f t (setup-IsSound_after m f processes requests s t sent h b few from laid ran)
