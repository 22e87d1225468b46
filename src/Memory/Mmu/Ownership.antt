-- ===== src/Memory/Mmu/Ownership.antt =====
-- What the invariant says of frames: no frame is shared, and none is lost.
use mathlib.Core.Option.{some-injective}
use operating_systems_iitkgp.Base.{
  ℕ, ◌+◌, ◌≤◌, ◌<◌, ◌≡◌, sym, ◌∙◌, subst, some, arith, get_elem?, total, add-le-total, le-total,
}
use operating_systems_iitkgp.Memory.Table.{Entry, Sm1}
use operating_systems_iitkgp.Base.Rows.{add-le-sum_rows, le-sum_rows}
use operating_systems_iitkgp.Memory.Mmu.{Mmu}
use operating_systems_iitkgp.Memory.Mmu.Frames.{only, is_free, taken-only-le, free_and_taken}
use operating_systems_iitkgp.Memory.Mmu.Owners.{holds, held, owners}
use operating_systems_iitkgp.Memory.Mmu.Invariant.{IsSound}

-- Row `j` of the page table of the process at `i` holds the frame `x`.
pub record Holds (m : Mmu) (i j x : ℕ) : Type 0 where
  pub process : Sm1
  pub row : Entry
  pub at : get_elem? m.sm1 i ≡ some process
  pub inside : j < process.mi
  pub here : get_elem? process.pagetable j ≡ some row
  pub frame : row.frame ≡ some x

module _ (f : ℕ) (m : Mmu) (s : IsSound f m) where
  owners_le : (x : ℕ) → owners (only x) m.sm1 ≤ 1
  owners_le x = omega (arith, s.owned (only x), taken-only-le x m.sm2)

  held_pos : {i j x : ℕ} (h : Holds m i j x) → 0 < held (only x) h.process
  held_pos {i} {j} {x} h =
      let open_row : holds (only x) h.row ≡ 1 = ground (arith, h.frame) in
      omega (
        arith,
        open_row,
        le-sum_rows (holds (only x)) h.process.mi h.process.pagetable j h.inside h.here,
      )

  not_before : {i j a b x : ℕ} → Holds m i a x → Holds m j b x → ¬ (i < j)
  not_before {i} {j} {x = x} h k l = omega (
    arith,
    owners_le x,
    held_pos h,
    held_pos k,
    add-le-total (held (only x)) m.sm1 i j l h.at k.at,
  )

  not_above : {i a b x : ℕ} → Holds m i a x → Holds m i b x → ¬ (a < b)
  not_above {i} {a} {b} {x} h k l =
      let same : h.process ≡ k.process = some-injective _ _ (sym h.at ∙ k.at) in
      let here : get_elem? k.process.pagetable a ≡ some h.row =
        subst (λ (p : Sm1). get_elem? p.pagetable a ≡ some h.row) same h.here in
      let one : holds (only x) h.row ≡ 1 = ground (arith, h.frame) in
      let two : holds (only x) k.row ≡ 1 = ground (arith, k.frame) in
      omega (
        arith,
        owners_le x,
        one,
        two,
        le-total (held (only x)) m.sm1 i k.at,
        add-le-sum_rows (holds (only x)) k.process.mi k.process.pagetable a b l k.inside here
            k.here,
      )

  -- In a sound state a frame is held by one row of one page table at most.
  pub frame_exclusive : (i j a b x : ℕ) → Holds m i a x → Holds m j b x → (i ≡ j) × (a ≡ b)
  frame_exclusive i j a b x h k =
      let same : i ≡ j = omega (arith, not_before h k, not_before k h) in
      let k' : Holds m i b x = subst (λ n. Holds m n b x) (sym same) k in
      (same, omega (arith, not_above h k', not_above k' h))

  -- In a sound state the free frames and the rows that hold a frame are together as many as there
  -- are frames: none is lost.
  pub frames_conserved : total is_free m.sm2 + owners (λ _. 1) m.sm1 ≡ f
  frames_conserved = omega (arith, free_and_taken m.sm2 s.ends, s.owned (λ _. 1), s.size)
