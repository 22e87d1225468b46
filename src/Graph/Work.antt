-- ===== src/Graph/Work.antt =====
-- Every step of a worker keeps the invariant.
use mathlib.Core.Option.{some-injective}
use operating_systems_iitkgp.Base.{
  same_step, ℕ, suc, ◌+◌, ◌-◌, ◌<◌, ◌≡◌, refl, sym, ap, ◌∙◌, inl, inr, Bool, true, false, List,
  none, some, arith, ◌==◌, length, get_elem?, get_elem?-lt, get_elem?-set_self, get_elem?-set_ne,
  set, total, total-set, Bool-cases, Option-cases,
}
use operating_systems_iitkgp.Graph.{
  Place, waits_sync, waits_mtx, inserts, increments, visits, finished, Worker, Team, at_place,
  visit, work_at, work,
}
use operating_systems_iitkgp.Graph.Invariant.{pending, Inv}
use operating_systems_iitkgp.Graph.Rows.{bit-none, pending-visits}
use operating_systems_iitkgp.Graph.Steps.{unsynced, quiet, inside, insertion}

module _ (a : List (List Bool)) (s s' : Team) (v : Inv a s) (i : ℕ) (row : List Bool) where
  waits_sync-Inv :
      get_elem? s.workers i ≡ some (record { row = row; place = waits_sync })
      → work_at s i row waits_sync ≡ some s'
      → Inv a s'
  unfolding work_at
  waits_sync-Inv at h =
      let n : ℕ = total (pending i) s.workers in
      let read = v.sync i (inside a s v i row waits_sync at) in
      elim (Bool-cases (n == 0)) [
        | inl z ↦
            let went : work_at s i row waits_sync
                ≡ some (record s { workers = at_place s i row waits_mtx }) =
              rw (read, z) refl in
            same_step (Inv a) _ s' went h (
              unsynced a s v i row waits_sync at waits_mtx s.idx s.mtx s.ntfy refl (λ j. refl)
                (λ c. ground arith) refl refl (omega arith) (omega arith))
        | inr z ↦ let stays : work_at s i row waits_sync ≡ none = rw (read, z) refl in cc
      ]

  waits_mtx-Inv :
      get_elem? s.workers i ≡ some (record { row = row; place = waits_mtx })
      → work_at s i row waits_mtx ≡ some s'
      → Inv a s'
  unfolding work_at
  waits_mtx-Inv at h = elim (Bool-cases (s.mtx == 0)) [
    | inl z ↦ let stays : work_at s i row waits_mtx ≡ none = rw (z) refl in cc
    | inr z ↦
        let went : work_at s i row waits_mtx
            ≡ some (record s { mtx = s.mtx - 1; workers = at_place s i row inserts }) =
          rw (z) refl in
        let some_left : 0 < s.mtx = ground arith in
        same_step (Inv a) _ s' went h (
          unsynced a s v i row waits_mtx at inserts s.idx (s.mtx - 1) s.ntfy refl (λ j. refl)
            (λ c. v.passed i _ at refl) (omega arith) refl (omega arith) (omega arith))
  ]

  inserts-Inv :
      get_elem? s.workers i ≡ some (record { row = row; place = inserts })
      → work_at s i row inserts ≡ some s'
      → Inv a s'
  unfolding work_at
  inserts-Inv at h = elim (Option-cases (get_elem? s.t s.idx)) [
    | inl z ↦ let stays : work_at s i row inserts ≡ none = rw (z) refl in cc
    | inr (old, z) ↦
        let went : work_at s i row inserts
            ≡ some
                (record s { t = set s.t s.idx (some i); workers = at_place s i row increments }) =
          rw (z) refl in
        same_step (Inv a) _ s' went h (insertion a s v i row inserts at old z refl)
  ]

  increments-Inv :
      get_elem? s.workers i ≡ some (record { row = row; place = increments })
      → work_at s i row increments ≡ some s'
      → Inv a s'
  unfolding work_at
  increments-Inv at h = same_step (Inv a) _ s' refl h (
      unsynced a s v i row increments at (visits 0) (s.idx + 1) s.mtx s.ntfy refl
        (λ j. ground arith) (λ c. cc) (omega arith) (omega arith) (omega arith) (omega arith))

  -- The end of the row, an entry without an edge, and one with an edge.
  visit_end :
      (k : ℕ)
      → get_elem? s.workers i ≡ some (record { row = row; place = visits k })
      → get_elem? row k ≡ none
      → Inv a (record s { ntfy = s.ntfy + 1; workers = at_place s i row finished })
  visit_end k at z =
      unsynced a s v i row (visits k) at finished s.idx s.mtx (s.ntfy + 1) refl
        (λ j. ground (arith, bit-none row k j z)) (λ c. cc) (omega arith) refl (omega arith)
        (omega arith)

  visit_pass :
      (k : ℕ)
      → get_elem? s.workers i ≡ some (record { row = row; place = visits k })
      → get_elem? row k ≡ some false
      → Inv a (record s { workers = at_place s i row (visits (suc k)) })
  visit_pass k at z =
      unsynced a s v i row (visits k) at (visits (suc k)) s.idx s.mtx s.ntfy refl
        (λ j. elim (pending-visits row k j false z) [
          | inl (e, x, y) ↦ omega arith
          | inr (e, x) ↦ x
        ])
        (λ c. cc) refl refl (omega arith) (omega arith)

  visit_edge :
      (k n : ℕ)
      → get_elem? s.workers i ≡ some (record { row = row; place = visits k })
      → get_elem? row k ≡ some true
      → get_elem? s.sync k ≡ some n
      → 0 < n
      → Inv a
          (record s { sync = set s.sync k (n - 1); workers = at_place s i row (visits (suc k)) })
  visit_edge k n at z read some_left =
      quiet a s v i row (visits k) at (visits (suc k)) s.idx s.mtx s.ntfy (set s.sync k (n - 1))
        refl
        (λ j. elim (pending-visits row k j true z) [
          | inl (e, x, y) ↦ omega arith
          | inr (e, x) ↦ omega arith
        ])
        (λ c. cc) synced refl refl (omega arith) (omega arith)
    where
      w' : Worker
      w' = record { row = row; place = visits (suc k) }

      synced :
          (j : ℕ)
          → j < length a
          → get_elem? (set s.sync k (n - 1)) j ≡ some (total (pending j) (set s.workers i w'))
      synced j low =
          let moved = total-set (pending j) s.workers i w' at in
          let before = v.sync j low in
          elim (pending-visits row k j true z) [
            | inl (e, x, y) ↦
                let same_n : n ≡ total (pending j) s.workers =
                  some-injective n _ (sym read ∙ ap (λ q. get_elem? s.sync q) (sym e) ∙ before) in
                ap (λ q. get_elem? (set s.sync k (n - 1)) q) e
                ∙ get_elem?-set_self s.sync k (n - 1) (get_elem?-lt s.sync k read)
                ∙ ap some (omega (arith, moved, x, y, same_n))
            | inr (e, x) ↦
                get_elem?-set_ne s.sync k j (n - 1) (λ q. e (sym q))
                ∙ before
                ∙ ap some (omega (arith, moved, x))
          ]

  visits-Inv :
      (k : ℕ)
      → get_elem? s.workers i ≡ some (record { row = row; place = visits k })
      → visit s i row k (get_elem? row k) ≡ some s'
      → Inv a s'
  unfolding visit
  visits-Inv k at h = elim (Option-cases (get_elem? row k)) [
    | inl z ↦ let went = ap (visit s i row k) z in same_step (Inv a) _ s' went h (visit_end k at z)
    | inr (b, z) ↦ entry b z
  ]
    where
      entry : (b : Bool) → get_elem? row k ≡ some b → Inv a s'
      entry false z = same_step (Inv a) _ s' (ap (visit s i row k) z) h (visit_pass k at z)
      entry true z = elim (Option-cases (get_elem? s.sync k)) [
        | inl none_there ↦
            let stays : visit s i row k (some true) ≡ none = rw (none_there) refl in
            let went = ap (visit s i row k) z in cc
        | inr (n, read) ↦ elim (Bool-cases (n == 0)) [
          | inl zero_there ↦
              let stays : visit s i row k (some true) ≡ none = rw (read, zero_there) refl in
              let went = ap (visit s i row k) z in cc
          | inr more ↦
              let went : visit s i row k (some true)
                  ≡ some (record s {
                    sync = set s.sync k (n - 1);
                    workers = at_place s i row (visits (suc k));
                  }) =
                rw (read, more) refl in
              same_step (Inv a) _ s' (ap (visit s i row k) z ∙ went) h
                (visit_edge k n at z read (ground arith))
        ]
      ]

  work_at-Inv :
      (p : Place)
      → get_elem? s.workers i ≡ some (record { row = row; place = p })
      → work_at s i row p ≡ some s'
      → Inv a s'
  unfolding work_at
  work_at-Inv waits_sync at h = waits_sync-Inv at h
  work_at-Inv waits_mtx at h = waits_mtx-Inv at h
  work_at-Inv inserts at h = inserts-Inv at h
  work_at-Inv increments at h = increments-Inv at h
  work_at-Inv (visits k) at h = visits-Inv k at h
  work_at-Inv finished at h = cc

pub work-Inv :
    (a : List (List Bool)) (s s' : Team) (i : ℕ) → Inv a s → work s i ≡ some s' → Inv a s'
unfolding work
work-Inv a s s' i v h = elim (Option-cases (get_elem? s.workers i)) [
  | inl z ↦ let stays : work s i ≡ none = rw (z) refl in cc
  | inr (w, z) ↦
      let went : work s i ≡ work_at s i w.row w.place = rw (z) refl in
      work_at-Inv a s s' v i w.row w.place z (sym went ∙ h)
]
