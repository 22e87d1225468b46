-- ===== src/Graph/Progress.antt =====
-- In a graph without cycles somebody can always take a step.
use operating_systems_iitkgp.Base.{
  get_elem?-unmap, total-part, total-zero, get_elem?-lt, ℕ, zero, suc, ◌+◌, ◌-◌, ◌<◌, ◌≡◌, ◌≢◌,
  refl, sym, ap, subst, ◌∙◌, ◌⊎◌, inl, inr, Bool, true, false, List, some, arith, ◌==◌,
  if◌then◌else◌, length, get_elem?, get_elem?-map, get_elem?-some, set, total, le-total, map,
  Bool-cases, Option-cases,
}
use operating_systems_iitkgp.Graph.{
  Place, waits_sync, waits_mtx, inserts, increments, visits, finished, Worker, Boss, waits_ntfy,
  posts_mtx, tests_idx, done, Team, at_place, visit, work_at, work, lead_at, lead, Reach,
}
use operating_systems_iitkgp.Graph.Acyclic.{Acyclic, unmet-parts, pending-unmet}
use operating_systems_iitkgp.Graph.Check.{bit}
use operating_systems_iitkgp.Graph.Sorted.{
  Mark, unmet, unmarked, get_elem?-rows_of, Sorted-length, length-rows_of,
}
use operating_systems_iitkgp.Graph.Invariant.{
  inserted, mark, pending, busy_at, wrote, busy, boss_holds, Inv,
}
use operating_systems_iitkgp.Graph.Rows.{bit-some}
use operating_systems_iitkgp.Graph.Verdict.{Reach-Inv, writes_inside}

abbrev CanMove : Team → Type 0
CanMove s = ((s' : Team) × (lead s ≡ some s')) ⊎ ((i : ℕ) × (s' : Team) × (work s i ≡ some s'))

module _ (a : List (List Bool)) (rank : ℕ → ℕ) (c : Acyclic a rank) (s : Team) (r : Reach a s) where
  v : Inv a s
  v = Reach-Inv a s r

  row_there : (i : ℕ) (w : Worker) → get_elem? s.workers i ≡ some w → get_elem? a i ≡ some w.row
  row_there i w at =
      ap (λ b. get_elem? b i) v.rows
      ∙ get_elem?-rows_of (map mark s.workers) i (get_elem?-map mark s.workers i at)

  -- A worker that holds the token goes on.
  holder_moves :
      (i : ℕ) (row : List Bool) (p : Place)
      → get_elem? s.workers i ≡ some (record { row = row; place = p })
      → 0 < wrote (record { row = row; place = p }) + busy (record { row = row; place = p })
      → (s' : Team) × (work_at s i row p ≡ some s')
  unfolding work_at visit
  holder_moves i row waits_sync at h = absurd (omega arith)
  holder_moves i row waits_mtx at h = absurd (omega arith)
  holder_moves i row inserts at h =
      let (room, _, _) = writes_inside a s i (record { row = row; place = inserts }) r at refl in
      let (old, there) = get_elem?-some s.t s.idx room in
      (
        record s { t = set s.t s.idx (some i); workers = at_place s i row increments },
        rw (there) refl,
      )
  holder_moves i row increments at h = (_, refl)
  holder_moves i row (visits k) at h = elim (Option-cases (get_elem? row k)) [
    | inl z ↦ (record s { ntfy = s.ntfy + 1; workers = at_place s i row finished }, rw (z) refl)
    | inr (b, z) ↦ entry b z
  ]
    where
      entry :
          (b : Bool)
          → get_elem? row k ≡ some b
          → (s' : Team) × (work_at s i row (visits k) ≡ some s')
      entry false z = (record s { workers = at_place s i row (visits (suc k)) }, rw (z) refl)
      entry true z =
          let w : Worker = record { row = row; place = visits k } in
          let low : k < length a =
            omega (arith, get_elem?-lt row k z, c.within i row (row_there i w at)) in
          let n : ℕ = total (pending k) s.workers in
          let one : bit row k ≡ 1 = bit-some row k true z in
          let mine : pending k w ≡ 1 = ground (arith, one) in
          let more : (n == 0) ≡ false = ground (arith, le-total (pending k) s.workers i at, mine) in
          (
            record s { sync = set s.sync k (n - 1); workers = at_place s i row (visits (suc k)) },
            rw (z, v.sync k low, more) refl,
          )
  holder_moves i row finished at h = absurd (omega arith)

  -- Of the vertices that are not in T, one that has all edges to it from vertices in T.
  first_free :
      (fuel i : ℕ) (m : Mark)
      → rank i < fuel
      → get_elem? (map mark s.workers) i ≡ some m
      → 0 < unmarked m
      → (j : ℕ) × (n : Mark) × (get_elem? (map mark s.workers) j ≡ some n)
        × (0 < unmarked n)
        × (total (unmet j) (map mark s.workers) ≡ 0)
  first_free zero i m low at out = absurd (omega arith)
  first_free (suc fuel) i m low at out =
      elim (Bool-cases (total (unmet i) (map mark s.workers) == 0)) [
        | inl y ↦ (i, m, at, out, ground arith)
        | inr z ↦
            let (j, n, at_j, p) = total-part (unmet i) (map mark s.workers) (ground arith) in
            let (edge_there, out_j) = unmet-parts i n p in
            let row_j : get_elem? a j ≡ some (n.0) =
              ap (λ b. get_elem? b j) v.rows ∙ get_elem?-rows_of (map mark s.workers) j at_j in
            first_free fuel j n (omega (arith, low, c.upwards j i n.0 row_j edge_there)) at_j out_j
      ]

  -- A worker that holds the token, in the whole.
  held-CanMove :
      (i : ℕ) (w : Worker) → get_elem? s.workers i ≡ some w → 0 < wrote w + busy w → CanMove s
  unfolding work
  held-CanMove i w at h =
      let (s', went) = holder_moves i w.row w.place at h in inr (i, s', rw (at) went)

  -- With the token in `mtx`, a worker all of whose edges are taken goes on to take it.
  ready_moves :
      (j : ℕ) (row : List Bool) (p : Place)
      → get_elem? s.workers j ≡ some (record { row = row; place = p })
      → inserted p ≡ false
      → busy_at p ≡ 0
      → 0 < s.mtx
      → j < length a
      → total (pending j) s.workers ≡ 0
      → (s' : Team) × (work_at s j row p ≡ some s')
  unfolding work_at
  ready_moves j row waits_sync at out idle open_now low met =
      let zero_there : (total (pending j) s.workers == 0) ≡ true = ground arith in
      (record s { workers = at_place s j row waits_mtx }, rw (v.sync j low, zero_there) refl)
  ready_moves j row waits_mtx at out idle open_now low met =
      let some_there : (s.mtx == 0) ≡ false = ground arith in
      (record s { mtx = s.mtx - 1; workers = at_place s j row inserts }, rw (some_there) refl)
  ready_moves j row inserts at out idle open_now low met = absurd (omega arith)
  ready_moves j row increments at out idle open_now low met = cc
  ready_moves j row (visits k) at out idle open_now low met = cc
  ready_moves j row finished at out idle open_now low met = cc

  unmarked-inserted :
      (row : List Bool) (p : Place) → 0 < unmarked (row, inserted p) → inserted p ≡ false
  unmarked-inserted row waits_sync h = refl
  unmarked-inserted row waits_mtx h = refl
  unmarked-inserted row inserts h = refl
  unmarked-inserted row increments h = absurd (omega arith)
  unmarked-inserted row (visits k) h = absurd (omega arith)
  unmarked-inserted row finished h = absurd (omega arith)

  -- With the token in `mtx`, while some vertex is not in T.
  free-CanMove :
      s.boss ≡ waits_ntfy
      → 0 < s.mtx
      → total wrote s.workers ≡ 0
      → total busy s.workers ≡ 0
      → CanMove s
  unfolding work
  free-CanMove e open_now none_wrote none_busy =
      let low = v.opened e open_now in
      let size : length (map mark s.workers) ≡ length a =
        sym (ap length v.rows ∙ length-rows_of (map mark s.workers)) in
      let out_there : 0 < total unmarked (map mark s.workers) =
        omega (arith, low, v.count, none_wrote, size, Sorted-length v.order _ v.sorted) in
      let (i, m, at, out) = total-part unmarked (map mark s.workers) out_there in
      let (j, n, at_j, out_j, met) = first_free (suc (rank i)) i m (omega arith) at out in
      let (w, at_w, is) = get_elem?-unmap mark s.workers j at_j in
      let idle : busy w ≡ 0 = omega (arith, le-total busy s.workers j at_w, none_busy) in
      let waits : inserted w.place ≡ false =
        unmarked-inserted w.row w.place (subst (λ u. 0 < unmarked u) (sym is) out_j) in
      let all_met : total (pending j) s.workers ≡ 0 = total-zero (pending j) s.workers (λ d x at_x.
        pending-unmet j x.row x.place (omega (arith, le-total wrote s.workers d at_x, none_wrote))
          (omega (arith, le-total busy s.workers d at_x, none_busy))
          (omega (
            arith,
            le-total (unmet j) (map mark s.workers) d (get_elem?-map mark s.workers d at_x),
            met,
          ))) in
      let inside : j < length a = omega (arith, size, get_elem?-lt (map mark s.workers) j at_j) in
      let (s', went) = ready_moves j w.row w.place at_w waits idle open_now inside all_met in
      inr (j, s', rw (at_w) went)

  boss-CanMove : (b : Boss) → s.boss ≡ b → b ≢ done → CanMove s
  unfolding lead lead_at
  boss-CanMove posts_mtx e n =
      inl (record s { mtx = s.mtx + 1; boss = tests_idx }, ap (lead_at s) e)
  boss-CanMove tests_idx e n =
      inl (record s { boss = if s.idx == length s.t then done else waits_ntfy }, ap (lead_at s) e)
  boss-CanMove done e n = absurd (n refl)
  boss-CanMove waits_ntfy e n = elim (Bool-cases (s.ntfy == 0)) [
    | inr z ↦
        let went : lead_at s waits_ntfy ≡ some (record s { ntfy = s.ntfy - 1; boss = posts_mtx }) =
          rw (z) refl in
        inl (_, ap (lead_at s) e ∙ went)
    | inl z ↦ elim (Bool-cases (total wrote s.workers == 0)) [
      | inr y ↦
          let (i, w, at, p) = total-part wrote s.workers (ground arith) in
          held-CanMove i w at (omega arith)
      | inl none_wrote ↦ elim (Bool-cases (total busy s.workers == 0)) [
        | inr y ↦
            let (i, w, at, p) = total-part busy s.workers (ground arith) in
            held-CanMove i w at (omega arith)
        | inl none_busy ↦
            let boss_free = ap boss_holds e in
            let a0 : s.ntfy ≡ 0 = ground arith in
            let a1 : total wrote s.workers ≡ 0 = ground arith in
            let a2 : total busy s.workers ≡ 0 = ground arith in
            free-CanMove e (omega (arith, v.token, boss_free)) a1 a2
      ]
    ]
  ]

-- Let the graph have no cycle, so that the edges go up in some rank of the vertices, and let its rows
-- be no longer than the matrix. Then, whatever the order of the steps, until the boss has left its
-- loop the boss or a worker can take a step.
pub sorting_goes_on :
    (a : List (List Bool)) (rank : ℕ → ℕ) (s : Team)
    → Acyclic a rank
    → Reach a s
    → s.boss ≢ done
    → ((s' : Team) × (lead s ≡ some s')) ⊎ ((i : ℕ) × (s' : Team) × (work s i ≡ some s'))
sorting_goes_on a rank s c r n = boss-CanMove a rank c s r s.boss refl n
