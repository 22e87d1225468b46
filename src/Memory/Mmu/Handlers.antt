-- ===== src/Memory/Mmu/Handlers.antt =====
-- Each branch of the loop of mmu.c in a sound state: it goes on, in a sound state.
use operating_systems_iitkgp.Base.{
  ℕ, ◌+◌, ◌-◌, ◌≤◌, ◌<◌, ◌≡◌, ◌≢◌, refl, sym, ◌∙◌, subst, ◌⊎◌, inl, inr, List, none, some, arith,
  leb, length, get_elem?, set, All-get, le-total, get_elem?-some, length-set, Option-cases,
  Bool-cases, get_elem?-set_ne,
}
use operating_systems_iitkgp.Base.Int.{ℤ, pos, negsuc}
use operating_systems_iitkgp.Memory.Table.{Entry, cleared, Sm1, Cell, occupied}
use operating_systems_iitkgp.Base.Rows.{
  Rows, Rows-get, Rows-set, Rows-map, Rows-length, sum_rows, sum_rows-set,
}
use operating_systems_iitkgp.Memory.Mmu.{
  Mmu, fault, take_frame, Search, found, full, past_end, Lru, terminate, illegal, page_hit, faulted,
  loaded, replace, page_fault, access, handle,
}
use operating_systems_iitkgp.Memory.Mmu.Frames.{
  Ends, taken, taken-set, Searched, take_frame-Searched,
}
use operating_systems_iitkgp.Memory.Mmu.Owners.{
  holds, held, owners, Released, release_pages-Released,
}
use operating_systems_iitkgp.Memory.Mmu.Victim.{Choice, lru_scan-Choice}
use operating_systems_iitkgp.Memory.Mmu.Invariant.{
  IsFit, Fits, IsSoundProcess, IsSound, Keeps, sum_rows-unloaded, update-IsSound,
}

-- A loaded row is valid and dated in the past, and may be dated anew.
pub loaded_row :
    (now : ℕ) (e : Entry) (frame : ℕ)
    → IsFit now e
    → e.frame ≡ some frame
    → (e.valid ≡ 1) × (e.time ≤ now)
loaded_row now e frame h q = subst (λ o. Fits now o e.valid e.time) q h

hit-IsFit :
    (now : ℕ) (e : Entry) (frame : ℕ)
    → IsFit now e
    → e.frame ≡ some frame
    → IsFit now (record e { time = now })
hit-IsFit now e frame h q =
    subst (λ o. Fits now o e.valid now) (sym q) ((loaded_row now e frame h q).0, omega arith)

pub access_hit :
    (m : Mmu) (i : ℕ) (p : Sm1) (pid page : ℕ) (e : Entry) (x : ℕ)
    → e.frame ≡ some x
    → e.valid ≡ 1
    → access m i p pid page e ≡ page_hit m i p pid page e x
unfolding access
access_hit m i p pid page e x q v = ground arith

pub access_miss :
    (m : Mmu) (i : ℕ) (p : Sm1) (pid page : ℕ) (e : Entry)
    → e.frame ≡ none
    → access m i p pid page e ≡ page_fault m i p pid page
unfolding access
access_miss m i p pid page e q = ground arith

-- A process `p`, the entry `i` of SM1, in a sound state.
module _ (f : ℕ) (m : Mmu) (i : ℕ) (p : Sm1) (pid : ℕ) (s : IsSound f m)
    (at : get_elem? m.sm1 i ≡ some p) where
  fit : IsSoundProcess m.timestamp p
  fit = All-get _ m.sm1 i s.tables at

  pub rows : Rows (λ e. Unit {0}) p.mi p.pagetable
  rows = Rows-map _ _ (λ e h. tt) p.mi p.pagetable fit

  abbrev others : (ℕ → ℕ) → ℕ
  others g = owners g m.sm1 - held g p

  pub released : Released p.mi p.pagetable m.sm2 others
  released =
      release_pages-Released p.mi p.pagetable m.sm2 others rows s.ends
        (λ g. omega (arith, s.owned g, le-total (held g) m.sm1 i at))

  release-IsSound :
      (done illegals : ℕ)
      → IsSound f (record m {
        total_num_processes = done;
        sm1 =
            set m.sm1 i (record p { pagetable = released.table; total_illegal_access = illegals });
        sm2 = released.after;
      })
  release-IsSound done illegals =
      update-IsSound f m i done p _ released.after s at released.size released.ends
        (released.kept (IsFit m.timestamp) (refl, refl) fit)
        (λ g. omega (
          arith,
          sum_rows-unloaded g p.mi released.table released.empty,
          released.rest g,
          le-total (held g) m.sm1 i at,
          s.owned g,
        ))

  pub terminate-Keeps : Keeps f (terminate m i p pid)
  unfolding terminate
  terminate-Keeps = rw released.eq (release-IsSound _ _)

  pub illegal-Keeps : Keeps f (illegal m i p pid)
  unfolding illegal
  illegal-Keeps = rw released.eq (release-IsSound _ _)

  pub IsFit-row :
      (page : ℕ) (e : Entry)
      → page < p.mi
      → get_elem? p.pagetable page ≡ some e
      → IsFit m.timestamp e
  IsFit-row page e h here = Rows-get _ p.mi p.pagetable page fit h here

  IsFit-hit :
      (page : ℕ) (e : Entry) (frame : ℕ)
      → page < p.mi
      → get_elem? p.pagetable page ≡ some e
      → e.frame ≡ some frame
      → IsFit m.timestamp (record e { time = m.timestamp })
  IsFit-hit page e frame h here q = hit-IsFit m.timestamp e frame (IsFit-row page e h here) q

  pub page_hit-Keeps :
      (page : ℕ) (e : Entry) (frame : ℕ)
      → page < p.mi
      → get_elem? p.pagetable page ≡ some e
      → e.frame ≡ some frame
      → Keeps f (page_hit m i p pid page e frame)
  unfolding page_hit
  page_hit-Keeps page e frame h here q =
      update-IsSound f m i m.total_num_processes p _ m.sm2 s at refl s.ends
        (Rows-set _ p.mi p.pagetable page _ fit (IsFit-hit page e frame h here q))
        (λ g. ground (
          arith,
          sum_rows-set (holds g) p.mi p.pagetable page (record e { time = m.timestamp }) h here,
        ))

  faulted-Keeps :
      (table : List Entry) (cells : List Cell)
      → length cells ≡ length m.sm2
      → Ends cells
      → Rows (IsFit m.timestamp) p.mi table
      → ((g : ℕ → ℕ) → sum_rows (holds g) p.mi table + taken g m.sm2 ≡ held g p + taken g cells)
      → Keeps f (faulted m i p pid table cells)
  faulted-Keeps table cells size ends fits moved =
      update-IsSound f m i m.total_num_processes p _ cells s at size ends fits moved

  module _ (page : ℕ) (e : Entry) (h : page < p.mi) (here : get_elem? p.pagetable page ≡ some e)
      (q : e.frame ≡ none) where
    load-weight :
        (g : ℕ → ℕ) (frame : ℕ)
        → sum_rows (holds g) p.mi (set p.pagetable page (loaded m i p pid frame))
          ≡ held g p + g frame
    load-weight g frame =
        ground (arith, sum_rows-set (holds g) p.mi p.pagetable page (loaded m i p pid frame) h here)

    load-IsFit :
        (frame : ℕ) → Rows (IsFit m.timestamp) p.mi (set p.pagetable page (loaded m i p pid frame))
    load-IsFit frame = Rows-set _ p.mi p.pagetable page _ fit (refl, omega arith)

    apart :
        (j : ℕ) (row : Entry) {x : ℕ}
        → get_elem? p.pagetable j ≡ some row
        → row.frame ≡ some x
        → page ≢ j
    apart j row there d same = ground arith

    replace-Keeps : Keeps f (replace m i p pid page)
    unfolding replace
    replace-Keeps = let (best, eq, c) = lru_scan-Choice p.mi p.pagetable rows in rw eq (go best c)
      where
        go :
            (best : Lru)
            → Choice p.mi p.pagetable best
            → Keeps f (elim best.victim [
              | none ↦ faulted m i p pid p.pagetable m.sm2
              | some (j, f) ↦
                  faulted m i p pid
                    (set (set p.pagetable page (loaded m i p pid f)) j cleared)
                    m.sm2
            ])
        go best c = elim c.chosen [
          | inl same ↦ rw same (faulted-Keeps p.pagetable m.sm2 refl s.ends fit (λ g. refl))
          | inr (j, x, r, v) ↦
              let there : get_elem? (set p.pagetable page (loaded m i p pid x)) j ≡ some r.row =
                get_elem?-set_ne p.pagetable page j _ (apart j r.row r.at r.frame) ∙ r.at in
              rw v (
                faulted-Keeps _ m.sm2 refl s.ends
                  (Rows-set _ p.mi _ j cleared (load-IsFit x) (refl, refl))
                  (λ g. ground (
                    arith,
                    load-weight g x,
                    r.frame,
                    sum_rows-set (holds g) p.mi (set p.pagetable page (loaded m i p pid x)) j
                        cleared r.inside there,
                  )))
        ]

    pub page_fault-Keeps : Keeps f (page_fault m i p pid page)
    unfolding page_fault
    page_fault-Keeps = go (take_frame m.sm2) (take_frame-Searched m.sm2 s.ends)
      where
        go :
            (o : Search)
            → Searched m.sm2 o
            → Keeps f (elim o [
              | found x cells ↦ faulted m i p pid (set p.pagetable page (loaded m i p pid x)) cells
              | full ↦ replace m i p pid page
              | past_end ↦ fault
            ])
        go (found x cells) r =
            faulted-Keeps _ cells (rw r.after_set (length-set m.sm2 x occupied)) r.ends
              (load-IsFit x)
              (λ g.
                ground
                  (arith, load-weight g x, r.after_set, taken-set g m.sm2 x occupied r.was_free))
        go full r = replace-Keeps
        go past_end r = r

  pub access-Keeps :
      (page : ℕ) (e : Entry)
      → page < p.mi
      → get_elem? p.pagetable page ≡ some e
      → Keeps f (access m i p pid page e)
  unfolding access
  access-Keeps page e h here = elim (Option-cases e.frame) [
    | inl q ↦ rw (access_miss m i p pid page e q) (page_fault-Keeps page e h here q)
    | inr (x, q) ↦
        rw
          (access_hit m i p pid page e x q
            (loaded_row m.timestamp e x (IsFit-row page e h here) q).0)
          (page_hit-Keeps page e x h here q)
  ]

  -- The page of a request is -9, or it is not negative.
  pub handle-Keeps :
      (page : ℤ) → (page ≡ negsuc 8) ⊎ ((n : ℕ) × (page ≡ pos n)) → Keeps f (handle m i p pid page)
  unfolding handle
  handle-Keeps page (inl q) = rw q terminate-Keeps
  handle-Keeps page (inr (n, q)) = rw q elim (Bool-cases (leb p.mi n)) [
    | inl beyond ↦ rw beyond illegal-Keeps
    | inr below ↦
        let (e, here) =
          get_elem?-some p.pagetable n (ground (arith, Rows-length _ p.mi p.pagetable rows)) in
        rw (below, here) (access-Keeps n e (ground arith) here)
  ]
