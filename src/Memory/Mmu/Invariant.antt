-- ===== src/Memory/Mmu/Invariant.antt =====
-- The invariant of the memory management unit: who owns which frame, and what the rows of a page
-- table say. Every request keeps it, and none faults.
use operating_systems_iitkgp.Base.{
  ℕ, zero, suc, ◌+◌, ◌≤◌, ◌≡◌, refl, ◌∙◌, List, [], ◌∷◌, Option, none, some, arith, length,
  get_elem?, set, All, All-set, All-map, total-set,
}
use operating_systems_iitkgp.Memory.Table.{int_max, Entry, Sm1, Cell}
use operating_systems_iitkgp.Base.Rows.{Rows, Rows-map, sum_rows}
use operating_systems_iitkgp.Memory.Mmu.{Mmu, Outcome, running, exited, fault}
use operating_systems_iitkgp.Memory.Mmu.Frames.{Ends, taken}
use operating_systems_iitkgp.Memory.Mmu.Owners.{holds, held, owners, IsUnloaded}

-- A row is unloaded, invalid and dated `INT_MAX`, or it is loaded, valid and dated in the past.
abbrev pub Fits : ℕ → Option ℕ → ℕ → ℕ → Type 0
Fits now none valid time = (valid ≡ 0) × (time ≡ int_max)
Fits now (some f) valid time = (valid ≡ 1) × (time ≤ now)

abbrev pub IsFit : ℕ → Entry → Type 0
IsFit now e = Fits now e.frame e.valid e.time

abbrev pub IsSoundProcess : ℕ → Sm1 → Type 0
IsSoundProcess now p = Rows (IsFit now) p.mi p.pagetable

-- `f` frames, each of which is held by one row of one page table if it is occupied, and by none if
-- it is free: so says `owned`, with the weights as one likes.
pub record IsSound (f : ℕ) (m : Mmu) : Type 0 where
  pub size : length m.sm2 ≡ f + 1
  pub ends : Ends m.sm2
  pub owned : (g : ℕ → ℕ) → owners g m.sm1 ≡ taken g m.sm2
  pub tables : All (IsSoundProcess m.timestamp) m.sm1

-- The loop goes on, in a sound state.
abbrev pub Keeps : ℕ → Outcome → Type 0
Keeps f (running m sent) = IsSound f m
Keeps f exited = ⊥
Keeps f fault = ⊥

IsFit-later : (now : ℕ) (e : Entry) → IsFit now e → IsFit (now + 1) e
IsFit-later now e h = go e.frame h
  where
    go : (o : Option ℕ) → Fits now o e.valid e.time → Fits (now + 1) o e.valid e.time
    go none h = h
    go (some f) h = omega arith

pub tick-IsSound :
    (f : ℕ) (m : Mmu) → IsSound f m → IsSound f (record m { timestamp = m.timestamp + 1 })
tick-IsSound f m s = record {
  size = s.size;
  ends = s.ends;
  owned = s.owned;
  tables =
      All-map _ _ (λ p. Rows-map _ _ (IsFit-later m.timestamp) p.mi p.pagetable) m.sm1 s.tables;
}

pub sum_rows-unloaded :
    (g : ℕ → ℕ) (k : ℕ) (es : List Entry) → Rows IsUnloaded k es → sum_rows (holds g) k es ≡ 0
sum_rows-unloaded g zero es r = refl
sum_rows-unloaded g (suc k) [] r = refl
sum_rows-unloaded g (suc k) (e ∷ es) r = ground (arith, sum_rows-unloaded g k es r.1)

-- A request changes one process, and moves as many frames in the list of frames.
pub update-IsSound :
    (f : ℕ) (m : Mmu) (i done : ℕ) (p p' : Sm1) (cells : List Cell)
    → IsSound f m
    → get_elem? m.sm1 i ≡ some p
    → length cells ≡ length m.sm2
    → Ends cells
    → IsSoundProcess m.timestamp p'
    → ((g : ℕ → ℕ) → held g p' + taken g m.sm2 ≡ held g p + taken g cells)
    → IsSound f (record m { total_num_processes = done; sm1 = set m.sm1 i p'; sm2 = cells })
update-IsSound f m i done p p' cells s at size ends fit moved = record {
  size = size ∙ s.size;
  ends = ends;
  owned = λ g. omega (arith, total-set (held g) m.sm1 i p' at, moved g, s.owned g);
  tables = All-set _ m.sm1 i p' s.tables fit;
}
