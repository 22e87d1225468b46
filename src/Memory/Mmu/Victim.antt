-- ===== src/Memory/Mmu/Victim.antt =====
-- The search of mmu.c for the least recently used page of the faulting process.
use operating_systems_iitkgp.Base.{
  ℕ, zero, suc, ◌+◌, ◌≤◌, ◌<◌, ◌≡◌, refl, ◌⊎◌, inl, inr, ◌∙◌, List, [], ◌∷◌, Option, none, some,
  arith, ltb, get_elem?, Bool-cases,
}
use operating_systems_iitkgp.Memory.Table.{Entry}
use operating_systems_iitkgp.Base.Rows.{Rows}
use operating_systems_iitkgp.Memory.Mmu.{Lru, older, lru_scan, no_lru}

-- The row `j`, of the first `k`, holds the frame `f` since the time `t`.
pub record Resident (k : ℕ) (es : List Entry) (j f t : ℕ) : Type 0 where
  pub row : Entry
  pub inside : j < k
  pub at : get_elem? es j ≡ some row
  pub frame : row.frame ≡ some f
  pub time : row.time ≡ t

-- What the search over the rows from `i` on makes of the best row so far.
pub record Scanned (k : ℕ) (es : List Entry) (i : ℕ) (best best' : Lru) : Type 0 where
  pub below : best'.min_time ≤ best.min_time
  pub least : (j f t : ℕ) → Resident k es j f t → best'.min_time ≤ t
  pub from :
      (best' ≡ best)
      ⊎ ((j : ℕ) × (f : ℕ) × Resident k es j f best'.min_time × (best'.victim ≡ some (i + j, f)))

Resident-suc :
    {k : ℕ} {e : Entry} {es : List Entry} {j f t : ℕ}
    → Resident k es j f t
    → Resident (suc k) (e ∷ es) (suc j) f t
Resident-suc r = record {
  row = r.row;
  inside = omega (arith, r.inside);
  at = r.at;
  frame = r.frame;
  time = r.time;
}

older_le : (best : Lru) (i : ℕ) (e : Entry) → (older best i e).min_time ≤ best.min_time
unfolding older
older_le best i e = ground arith

older_least :
    (best : Lru) (i : ℕ) (e : Entry) (f : ℕ) → e.frame ≡ some f → (older best i e).min_time ≤ e.time
unfolding older
older_least best i e f h = ground arith

older_from :
    (best : Lru) (i : ℕ) (e : Entry)
    → (older best i e ≡ best)
      ⊎ ((f : ℕ) × (e.frame ≡ some f)
          × (older best i e ≡ record { min_time = e.time; victim = some (i, f) }))
unfolding older
older_from best i e = go e.frame refl
  where
    go :
        (o : Option ℕ)
        → e.frame ≡ o
        → (older best i e ≡ best)
          ⊎ ((f : ℕ) × (e.frame ≡ some f)
              × (older best i e ≡ record { min_time = e.time; victim = some (i, f) }))
    go none q = inl (ground arith)
    go (some f) q = elim (Bool-cases (ltb e.time best.min_time)) [
      | inl l ↦ inr (f, q, ground arith)
      | inr l ↦ inl (ground arith)
    ]

module _ (k : ℕ) (e : Entry) (es : List Entry) (i : ℕ) (best best' : Lru)
    (s : Scanned k es (suc i) (older best i e) best') where
  scan_least : (j f t : ℕ) → Resident (suc k) (e ∷ es) j f t → best'.min_time ≤ t
  scan_least zero f t r = ground (arith, s.below, older_least best i e f)
  scan_least (suc j) f t r = s.least j f t (record {
    row = r.row;
    inside = omega (arith, r.inside);
    at = r.at;
    frame = r.frame;
    time = r.time;
  })

  scan_from :
      (best' ≡ best)
      ⊎ ((j : ℕ) × (f : ℕ) × Resident (suc k) (e ∷ es) j f best'.min_time
          × (best'.victim ≡ some (i + j, f)))
  scan_from = elim s.from [
    | inr (j, f, r, q) ↦ inr (suc j, f, Resident-suc r, ground arith)
    | inl same ↦ elim (older_from best i e) [
      | inl kept ↦ inl (same ∙ kept)
      | inr (f, at, new) ↦ inr (
        0,
        f,
        record { row = e; inside = omega arith; at = refl; frame = at; time = ground arith },
        ground arith,
      )
    ]
  ]

pub lru_scan-Scanned :
    (k : ℕ) (es : List Entry) (i : ℕ) (best : Lru)
    → Rows (λ e. Unit {0}) k es
    → (best' : Lru) × (lru_scan k es i best ≡ some best') × Scanned k es i best best'
unfolding lru_scan
lru_scan-Scanned zero es i best n = (
  best,
  refl,
  record {
    below = omega arith;
    least = λ j f t r. absurd (omega (arith, r.inside));
    from = inl refl;
  },
)
lru_scan-Scanned (suc k) [] i best n = absurd n
lru_scan-Scanned (suc k) (e ∷ es) i best n =
    let (best', eq, s) = lru_scan-Scanned k es (suc i) (older best i e) n.1 in
    (
      best',
      eq,
      record {
        below = omega (arith, s.below, older_le best i e);
        least = scan_least k e es i best best' s;
        from = scan_from k e es i best best' s;
      },
    )

-- The search over a whole table: a victim that is no newer than any page of the process that is
-- loaded, or no page is.
pub record Choice (k : ℕ) (es : List Entry) (best : Lru) : Type 0 where
  pub least : (j f t : ℕ) → Resident k es j f t → best.min_time ≤ t
  pub chosen :
      (best ≡ no_lru)
      ⊎ ((j : ℕ) × (f : ℕ) × Resident k es j f best.min_time × (best.victim ≡ some (j, f)))

pub lru_scan-Choice :
    (k : ℕ) (es : List Entry)
    → Rows (λ e. Unit {0}) k es
    → (best : Lru) × (lru_scan k es 0 no_lru ≡ some best) × Choice k es best
lru_scan-Choice k es n =
    let (best, eq, s) = lru_scan-Scanned k es 0 no_lru n in
    (
      best,
      eq,
      record {
        least = s.least;
        chosen = elim s.from [
          | inl same ↦ inl same
          | inr (j, f, r, q) ↦ inr (j, f, r, ground arith)
        ];
      },
    )
