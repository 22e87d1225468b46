-- ===== src/Memory/Mmu/Owners.antt =====
-- Who holds which frame: sums over the rows of the page tables, and what a release does to them.
use operating_systems_iitkgp.Base.{
  ℕ, zero, suc, ◌+◌, ◌≤◌, ◌≡◌, refl, ◌∙◌, List, [], ◌∷◌, Option, none, some, arith, length,
  get_elem?, set, total, length-set, Option-cases, inl, inr,
}
use operating_systems_iitkgp.Memory.Table.{Cell, free, occupied, Entry, cleared, Sm1}
use operating_systems_iitkgp.Base.Rows.{Rows, sum_rows}
use operating_systems_iitkgp.Memory.Mmu.{release_page, release_pages}
use operating_systems_iitkgp.Memory.Mmu.Frames.{
  taken, only, Ends, Ends-set, taken-set, taken-only-occupied,
}

-- The weight of the frame that a row holds.
abbrev pub holds : (ℕ → ℕ) → Entry → ℕ
holds g e = weigh e.frame
  where
    weigh : Option ℕ → ℕ
    weigh none = 0
    weigh (some f) = g f

abbrev pub held : (ℕ → ℕ) → Sm1 → ℕ
held g p = sum_rows (holds g) p.mi p.pagetable

abbrev pub owners : (ℕ → ℕ) → List Sm1 → ℕ
owners g = total (held g)

abbrev pub IsUnloaded : Entry → Type 0
IsUnloaded e = e.frame ≡ none

-- What the release of the first `k` rows comes to, where `r` weighs the frames of all other rows.
pub record Released (k : ℕ) (es : List Entry) (cells : List Cell) (r : (ℕ → ℕ) → ℕ) : Type 1 where
  pub table : List Entry
  pub after : List Cell
  pub eq : release_pages k es cells ≡ some (table, after)
  pub empty : Rows IsUnloaded k table
  pub kept : (P : Entry → Type 0) → P cleared → Rows P k es → Rows P k table
  pub rest : (g : ℕ → ℕ) → r g ≡ taken g after
  pub ends : Ends after
  pub size : length after ≡ length cells

-- A frame that some row holds is occupied.
pub held-occupied :
    (cells : List Cell) (f n : ℕ)
    → n + only f f ≤ taken (only f) cells
    → get_elem? cells f ≡ some occupied
held-occupied cells f n h = taken-only-occupied f cells (ground arith)

release_page-none :
    (e : Entry) (cells : List Cell) → e.frame ≡ none → release_page e cells ≡ some (e, cells)
unfolding release_page
release_page-none e cells h = ground arith

release_page-some :
    (e : Entry) (cells : List Cell) (f : ℕ) {c : Cell}
    → e.frame ≡ some f
    → get_elem? cells f ≡ some c
    → release_page e cells ≡ some (cleared, set cells f free)
unfolding release_page
release_page-some e cells f h o = rw (h, o)

release_more :
    (k : ℕ) (e : Entry) (es : List Entry) (cells : List Cell) (r : (ℕ → ℕ) → ℕ) (e' : Entry)
    (cells' : List Cell)
    → release_page e cells ≡ some (e', cells')
    → e'.frame ≡ none
    → ((P : Entry → Type 0) → P cleared → P e → P e')
    → length cells' ≡ length cells
    → Released k es cells' r
    → Released (suc k) (e ∷ es) cells r
unfolding release_pages
release_more k e es cells r e' cells' q u keep size d = record {
  table = e' ∷ d.table;
  after = d.after;
  eq = rw (q, d.eq) refl;
  empty = (u, d.empty);
  kept = λ P c p. (keep P c p.0, d.kept P c p.1);
  rest = d.rest;
  ends = d.ends;
  size = d.size ∙ size;
}

pub release_pages-Released :
    (k : ℕ) (es : List Entry) (cells : List Cell) (r : (ℕ → ℕ) → ℕ)
    → Rows (λ e. Unit {0}) k es
    → Ends cells
    → ((g : ℕ → ℕ) → sum_rows (holds g) k es + r g ≡ taken g cells)
    → Released k es cells r
unfolding release_pages
release_pages-Released zero es cells r n h own = record {
  table = es;
  after = cells;
  eq = refl;
  empty = tt;
  kept = λ P c q. q;
  rest = λ g. omega (arith, own g);
  ends = h;
  size = refl;
}
release_pages-Released (suc k) [] cells r n h own = absurd n
release_pages-Released (suc k) (e ∷ es) cells r n h own = elim (Option-cases e.frame) [
  | inl q ↦
      release_more k e es cells r e cells (release_page-none e cells q) q (λ P c p. p) refl
        (release_pages-Released k es cells r n.1 h (λ g. ground (arith, own g)))
  | inr (f, q) ↦
      let o : get_elem? cells f ≡ some occupied =
        held-occupied cells f (sum_rows (holds (only f)) k es + r (only f))
          (ground (arith, own (only f))) in
      release_more k e es cells r cleared (set cells f free) (release_page-some e cells f q o) refl
        (λ P c p. c) (length-set cells f free)
        (release_pages-Released k es (set cells f free) r n.1 (Ends-set cells f h o)
          (λ g. ground (arith, own g, taken-set g cells f free o)))
]
