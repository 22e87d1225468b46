-- ===== src/Memory/Mmu/Faults.antt =====
-- What a page fault comes to: a free frame, the frame of the least recently used page, or nothing;
-- and that the page is then found.
use operating_systems_iitkgp.Base.{
  ℕ, ◌≤◌, ◌<◌, ◌≡◌, refl, ap, inl, inr, List, some, arith, get_elem?, set, total,
}
use operating_systems_iitkgp.Memory.Table.{int_max, Entry, cleared, Sm1, Cell, free, occupied}
use operating_systems_iitkgp.Memory.Mmu.{
  Mmu, Outcome, fault, take_frame, Search, found, full, past_end, lru_scan, no_lru, Lru, faulted,
  loaded, replace, page_fault,
}
use operating_systems_iitkgp.Memory.Mmu.Frames.{is_free, take_frame-Searched, Searched}
use operating_systems_iitkgp.Memory.Mmu.Victim.{Resident, Choice, lru_scan-Choice}
use operating_systems_iitkgp.Memory.Mmu.Invariant.{IsSound}
use operating_systems_iitkgp.Memory.Mmu.Handlers.{rows, IsFit-row, loaded_row}

-- The policy for a fault on the row `page`, dated `now`, as a relation from the page table and the
-- list of frames to those after it.
pub data Paged (now page k : ℕ) (es : List Entry) (cells : List Cell)
    : List Entry → List Cell → Type 0 where
  from_free :
      (x : ℕ)
      → get_elem? cells x ≡ some free
      → Paged now page k es cells
          (set es page (record { frame = some x; valid = 1; time = now }))
          (set cells x occupied)
  from_victim :
      (j x t : ℕ)
      → total is_free cells ≡ 0
      → Resident k es j x t
      → ((j' x' t' : ℕ) → Resident k es j' x' t' → t ≤ t')
      → Paged now page k es cells
          (set (set es page (record { frame = some x; valid = 1; time = now })) j cleared)
          cells
  stuck :
      total is_free cells ≡ 0
      → ((j x t : ℕ) → ¬ Resident k es j x t)
      → Paged now page k es cells es cells

module _ (f : ℕ) (m : Mmu) (i : ℕ) (p : Sm1) (pid page : ℕ) (s : IsSound f m)
    (at : get_elem? m.sm1 i ≡ some p) (now : m.timestamp < int_max) where
  none-Resident :
      (best : Lru)
      → Choice p.mi p.pagetable best
      → best ≡ no_lru
      → (j x t : ℕ) → ¬ Resident p.mi p.pagetable j x t
  none-Resident best c same j x t r =
      let old : r.row.time ≤ m.timestamp =
        (loaded_row m.timestamp r.row x (IsFit-row f m i p pid s at j r.row r.inside r.at)
          r.frame).1 in
      omega (arith, c.least j x t r, ap (λ (b : Lru). b.min_time) same, old, r.time)

  replace_none :
      (best : Lru)
      → lru_scan p.mi p.pagetable 0 no_lru ≡ some best
      → best ≡ no_lru
      → replace m i p pid page ≡ faulted m i p pid p.pagetable m.sm2
  unfolding replace
  replace_none best eq same = rw (eq, same) refl

  replace_victim :
      (best : Lru) (j x : ℕ)
      → lru_scan p.mi p.pagetable 0 no_lru ≡ some best
      → best.victim ≡ some (j, x)
      → replace m i p pid page
        ≡ faulted m i p pid (set (set p.pagetable page (loaded m i p pid x)) j cleared) m.sm2
  unfolding replace
  replace_victim best j x eq v = rw (eq, v) refl

  abbrev Faulting : Outcome → Type 0
  Faulting o =
      (es : List Entry) × (cells : List Cell) × (o ≡ faulted m i p pid es cells)
      × Paged m.timestamp page p.mi p.pagetable m.sm2 es cells

  replace-Paged : total is_free m.sm2 ≡ 0 → Faulting (replace m i p pid page)
  unfolding replace
  replace-Paged no_free =
      let (best, eq, c) = lru_scan-Choice p.mi p.pagetable (rows f m i p pid s at) in
      elim c.chosen [
        | inl same ↦ (
          p.pagetable,
          m.sm2,
          replace_none best eq same,
          stuck no_free (none-Resident best c same),
        )
        | inr (j, x, r, v) ↦
            (_, _, replace_victim best j x eq v, from_victim j x best.min_time no_free r c.least)
      ]

  -- A page fault counts one fault, tells the process and then the scheduler, and follows the policy.
  pub page_fault-Paged : Faulting (page_fault m i p pid page)
  unfolding page_fault
  page_fault-Paged = go (take_frame m.sm2) (take_frame-Searched m.sm2 s.ends)
    where
      go :
          (o : Search)
          → Searched m.sm2 o
          → Faulting (elim o [
            | found x cells ↦ faulted m i p pid (set p.pagetable page (loaded m i p pid x)) cells
            | full ↦ replace m i p pid page
            | past_end ↦ fault
          ])
      go (found x cells) r = (_, set m.sm2 x occupied, rw r.after_set refl, from_free x r.was_free)
      go full r = replace-Paged r
      go past_end r = absurd r
