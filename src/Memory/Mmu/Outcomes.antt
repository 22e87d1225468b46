-- ===== src/Memory/Mmu/Outcomes.antt =====
-- What a round of the loop comes to, on any request: five shapes.
use operating_systems_iitkgp.Base.{
  ℕ, ◌+◌, ◌≤◌, ◌<◌, ◌≡◌, refl, List, [], ◌∷◌, Option, Bool, true, false, none, some, arith, leb,
  ◌==◌, if◌then◌else◌, get_elem?, set,
}
use operating_systems_iitkgp.Base.Int.{ℤ, pos, negsuc}
use operating_systems_iitkgp.Memory.Table.{cleared, Sm1, Entry, Cell}
use operating_systems_iitkgp.Memory.Mmu.{
  Mmu, to_process, to_sched, Outcome, running, fault, handle, or_fault, release_pages, take_frame,
  terminate, illegal, page_hit, replace, page_fault, access, Search, found, full, past_end, Lru,
  faulted, loaded,
}

module _ (m : Mmu) (i : ℕ) (p : Sm1) (pid : ℕ) where
  pub data Round : ℤ → Outcome → Type 0 where
    faults : {page : ℤ} → Round page fault
    page_faults :
        {n : ℕ} (es : List Entry) (cells : List Cell)
        → n < p.mi
        → Round (pos n) (faulted m i p pid es cells)
    hits :
        {n : ℕ} (es : List Entry) (x : ℕ)
        → n < p.mi
        → Round (pos n) (
            running
              (record m { sm1 = set m.sm1 i (record p { pagetable = es }) })
              (to_process pid (pos x) ∷ []))
    ends :
        (n : ℕ) (es : List Entry) (cells : List Cell)
        → n ≡ 8
        → Round (negsuc n) (
            running
              (record m {
                total_num_processes = m.total_num_processes + 1;
                sm1 = set m.sm1 i (record p { pagetable = es });
                sm2 = cells;
              })
              (to_sched 2 pid ∷ []))
    refuses :
        {n : ℕ} (es : List Entry) (cells : List Cell)
        → p.mi ≤ n
        → Round (pos n) (
            running
              (record m {
                total_num_processes = m.total_num_processes + 1;
                sm1 = set m.sm1 i (record p {
                  pagetable = es;
                  total_illegal_access = p.total_illegal_access + 1;
                });
                sm2 = cells;
              })
              (to_process pid (negsuc 1) ∷ to_sched 2 pid ∷ []))

  or_fault-Round {ℓ} :
      {A : Type ℓ} {page : ℤ} (o : Option A) (k : A → Outcome)
      → ((a : A) → Round page (k a))
      → Round page (or_fault o k)
  or_fault-Round none k h = faults
  or_fault-Round (some a) k h = h a

  if-Round :
      {page : ℤ} (b : Bool) (x y : Outcome)
      → (b ≡ true → Round page x)
      → (b ≡ false → Round page y)
      → Round page (if b then x else y)
  if-Round true x y h k = h refl
  if-Round false x y h k = k refl

  module _ (n : ℕ) (inside : n < p.mi) where
    replace-Round : Round (pos n) (replace m i p pid n)
    unfolding replace
    replace-Round = or_fault-Round {A = Lru} _ _ λ best. go best.victim
      where
        go :
            (v : Option (ℕ × ℕ))
            → Round (pos n) (elim v [
              | none ↦ faulted m i p pid p.pagetable m.sm2
              | some (j, f) ↦
                  faulted m i p pid (set (set p.pagetable n (loaded m i p pid f)) j cleared) m.sm2
            ])
        go none = page_faults p.pagetable m.sm2 inside
        go (some (j, f)) =
            page_faults (set (set p.pagetable n (loaded m i p pid f)) j cleared) m.sm2 inside

    page_fault-Round : Round (pos n) (page_fault m i p pid n)
    unfolding page_fault
    page_fault-Round = go (take_frame m.sm2)
      where
        go :
            (o : Search)
            → Round (pos n) (elim o [
              | found x cells ↦ faulted m i p pid (set p.pagetable n (loaded m i p pid x)) cells
              | full ↦ replace m i p pid n
              | past_end ↦ fault
            ])
        go (found x cells) = page_faults (set p.pagetable n (loaded m i p pid x)) cells inside
        go full = replace-Round
        go past_end = faults

    access-Round : (e : Entry) → Round (pos n) (access m i p pid n e)
    unfolding access page_hit
    access-Round e = go e.frame
      where
        go :
            (o : Option ℕ)
            → Round (pos n) (elim o [
              | none ↦ page_fault m i p pid n
              | some f ↦ if e.valid == 1 then page_hit m i p pid n e f else page_fault m i p pid n
            ])
        go none = page_fault-Round
        go (some f) =
            if-Round (e.valid == 1) (page_hit m i p pid n e f) (page_fault m i p pid n)
              (λ h. hits (set p.pagetable n (record e { time = m.timestamp })) f inside)
              (λ h. page_fault-Round)

  -- Every request is one of the five.
  pub handle-Round : (page : ℤ) → Round page (handle m i p pid page)
  unfolding handle terminate illegal
  handle-Round (negsuc n) =
      if-Round (n == 8) (terminate m i p pid) fault
        (λ h.
          or_fault-Round (release_pages p.mi p.pagetable m.sm2) _
            (λ r. ends n r.0 r.1 (ground arith)))
        (λ h. faults)
  handle-Round (pos n) =
      if-Round (leb p.mi n) (illegal m i p pid)
        (or_fault (get_elem? p.pagetable n) (access m i p pid n))
        (λ h.
          or_fault-Round (release_pages p.mi p.pagetable m.sm2) _
            (λ r. refuses r.0 r.1 (ground arith)))
        (λ h. or_fault-Round (get_elem? p.pagetable n) _ (access-Round n (ground arith)))
