-- ===== src/Memory/Mmu/Retry.antt =====
-- The retry of a page fault: process.c asks for the page again when the scheduler wakes it.
use operating_systems_iitkgp.Base.{
  ℕ, zero, suc, ◌+◌, ◌<◌, ◌≡◌, ◌≢◌, refl, ◌∙◌, ◌⊎◌, inl, inr, List, [], ◌∷◌, false, none, some,
  arith, leb, get_elem?, set, total, get_elem?-lt, get_elem?-set_self, get_elem?-set_ne,
  Option-cases,
}
use operating_systems_iitkgp.Base.Int.{pos, negsuc}
use operating_systems_iitkgp.Memory.Table.{int_max, Entry, cleared, Sm1, Cell}
use operating_systems_iitkgp.Base.Rows.{sum_rows}
use operating_systems_iitkgp.Memory.Mmu.{
  Mmu, to_process, to_sched, running, find_process, handle, serve, access, page_hit,
}
use operating_systems_iitkgp.Memory.Mmu.Frames.{is_free}
use operating_systems_iitkgp.Memory.Mmu.Owners.{holds, held}
use operating_systems_iitkgp.Memory.Mmu.Victim.{Resident}
use operating_systems_iitkgp.Memory.Mmu.Invariant.{IsSound, tick-IsSound}
use operating_systems_iitkgp.Memory.Mmu.Handlers.{access_hit, access_miss}
use operating_systems_iitkgp.Memory.Mmu.Requests.{At, serve-handle}
use operating_systems_iitkgp.Memory.Mmu.Faults.{
  Paged, from_free, from_victim, stuck, page_fault-Paged,
}

Resident-of_held :
    (k : ℕ) (es : List Entry)
    → 0 < sum_rows (holds (λ _. 1)) k es
    → (j : ℕ) × (x : ℕ) × (t : ℕ) × Resident k es j x t
Resident-of_held zero es h = absurd (omega arith)
Resident-of_held (suc k) [] h = absurd (omega arith)
Resident-of_held (suc k) (e ∷ es) h = elim (Option-cases e.frame) [
  | inl q ↦
      let (j, x, t, r) = Resident-of_held k es (ground arith) in
      (
        suc j,
        x,
        t,
        record {
          row = r.row;
          inside = omega (arith, r.inside);
          at = r.at;
          frame = r.frame;
          time = r.time;
        },
      )
  | inr (x, q) ↦
      (0, x, e.time, record { row = e; inside = omega arith; at = refl; frame = q; time = refl })
]

-- A change to a process that keeps its pid changes no search.
pub find_process-set :
    (ps : List Sm1) (i : ℕ) (p p' : Sm1) (pid k : ℕ)
    → get_elem? ps i ≡ some p
    → p'.pid ≡ p.pid
    → find_process (set ps i p') pid k ≡ find_process ps pid k
unfolding find_process
find_process-set [] i p p' pid k at same = refl
find_process-set (q ∷ ps) zero p p' pid k at same = ground arith
find_process-set (q ∷ ps) (suc i) p p' pid k at same =
    rw (find_process-set ps i p p' pid (suc k) at same)

handle-access :
    (m : Mmu) (i : ℕ) (p : Sm1) (pid page : ℕ) {e : Entry}
    → page < p.mi
    → get_elem? p.pagetable page ≡ some e
    → handle m i p pid (pos page) ≡ access m i p pid page e
unfolding handle
handle-access m i p pid page h here =
    let inside : leb p.mi page ≡ false = ground arith in rw (inside, here) refl

-- The row `page` after a fault for which there was a frame.
Paged-row :
    {now k : ℕ} {es es' : List Entry} {cells cells' : List Cell} (page : ℕ) {e : Entry}
    → Paged now page k es cells es' cells'
    → get_elem? es page ≡ some e
    → e.frame ≡ none
    → (0 < total is_free cells) ⊎ (0 < sum_rows (holds (λ _. 1)) k es)
    → (x : ℕ) × (get_elem? es' page ≡ some (record { frame = some x; valid = 1; time = now }))
Paged-row {es = es} page (from_free x h) here q _ =
    (x, get_elem?-set_self es page _ (get_elem?-lt es page here))
Paged-row {es = es} page (from_victim j x t h r least) here q _ =
    let apart : j ≢ page = λ same. ground (arith, r.at, r.frame) in
    (
      x,
      get_elem?-set_ne (set es page _) j page cleared apart
          ∙ get_elem?-set_self es page _ (get_elem?-lt es page here),
    )
Paged-row page (stuck h none_left) here q (inl some_free) = absurd (omega arith)
Paged-row {k = k} {es = es} page (stuck h none_left) here q (inr some_held) =
    let (j, x, t, r) = Resident-of_held k es some_held in absurd (none_left j x t r)

module _ (f : ℕ) (m : Mmu) (pid i page : ℕ) (p : Sm1) (e : Entry) where
  -- In a sound state, let a process ask for a page of its address space that is not loaded, and let
  -- a frame be free or let the process hold one. Then the request is a page fault, of which the
  -- process and then the scheduler are told, and the same request made next is answered with a
  -- frame.
  pub fault_then_hit :
      IsSound f m
      → m.timestamp + 1 < int_max
      → At m pid i
      → get_elem? m.sm1 i ≡ some p
      → page < p.mi
      → get_elem? p.pagetable page ≡ some e
      → e.frame ≡ none
      → (0 < total is_free m.sm2) ⊎ (0 < held (λ _. 1) p)
      → (m1 : Mmu) × (m2 : Mmu) × (x : ℕ) × (serve m pid (pos page)
          ≡ running m1 (to_process pid (negsuc 0) ∷ to_sched 1 pid ∷ []))
        × (serve m1 pid (pos page) ≡ running m2 (to_process pid (pos x) ∷ []))
  unfolding page_hit
  fault_then_hit s now h at inside here q room =
      let m0 : Mmu = record m { timestamp = m.timestamp + 1 } in
      let (es, cells, eq, paged) = page_fault-Paged f m0 i p pid page (tick-IsSound f m s) at now in
      let (x, loaded_now) = Paged-row page paged here q room in
      let p' : Sm1 = record p { pagetable = es; total_page_faults = p.total_page_faults + 1 } in
      let m1 : Mmu = record m0 { sm1 = set m.sm1 i p'; sm2 = cells } in
      let h' : At m1 pid i = (find_process-set m.sm1 i p p' pid 0 at refl ∙ h.0, h.1) in
      let at' : get_elem? m1.sm1 i ≡ some p' =
        get_elem?-set_self m.sm1 i p' (get_elem?-lt m.sm1 i at) in
      (
        m1,
        _,
        x,
        serve-handle m pid i (pos page) h at (omega arith)
            ∙ handle-access m0 i p pid page inside here
            ∙ access_miss m0 i p pid page e q
            ∙ eq,
        serve-handle m1 pid i (pos page) h' at' now
            ∙ handle-access _ i p' pid page inside loaded_now
            ∙ access_hit _ i p' pid page _ x refl refl,
      )
