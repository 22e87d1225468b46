-- ===== src/Graph/Steps.antt =====
-- What a step of a worker does to the invariant: the cases in general.
use operating_systems_iitkgp.Base.{
  get_elem?-map, length-map, map-set_same, map-set, ℕ, zero, suc, ◌+◌, ◌≤◌, ◌<◌, ◌≡◌, refl, sym, ap,
  subst, ◌∙◌, Bool, true, List, [], ◌∷◌, ◌++◌, Option, none, some, arith, length, length-append,
  length-replicate, get_elem?, get_elem?-lt, set, replicate, total, total-set, le-total, map,
}
use operating_systems_iitkgp.Graph.{Place, inserts, increments, Worker, Team, at_place}
use operating_systems_iitkgp.Graph.Sorted.{Sorted, next, rows_of, rows_of-set, length-rows_of}
use operating_systems_iitkgp.Graph.Invariant.{
  inserted, mark, pending_at, pending, chosen, wrote_at, busy_at, wrote, busy, Inv, total-unmet-le,
  Passed-set,
}

pred_of : (n : ℕ) → 0 < n → (r : ℕ) × (n ≡ suc r)
pred_of zero h = absurd (omega arith)
pred_of (suc r) h = (r, refl)

-- The vertices inserted, and the entries left at -1.
abbrev pub entries : List ℕ → ℕ → List (Option ℕ)
entries order left = map some order ++ replicate left none

pub length-entries : (order : List ℕ) (left : ℕ) → length (entries order left) ≡ length order + left
length-entries [] left = length-replicate left none ∙ omega arith
length-entries (x ∷ order) left = omega (arith, length-entries order left)

set_entry :
    (order : List ℕ) (r i : ℕ)
    → set (entries order (suc r)) (length order) (some i) ≡ entries (order ++ i ∷ []) r
set_entry [] r i = refl
set_entry (x ∷ order) r i = ap (λ t. some x ∷ t) (set_entry order r i)

module _ (a : List (List Bool)) (s : Team) (v : Inv a s) (i : ℕ) (row : List Bool) (p : Place)
    (at : get_elem? s.workers i ≡ some (record { row = row; place = p })) where
  abbrev pub next_worker : Place → Worker
  next_worker p' = record { row = row; place = p' }

  -- A step that inserts nothing.
  pub quiet :
      (p' : Place) (idx mtx ntfy : ℕ) (sync : List ℕ)
      → inserted p' ≡ inserted p
      → ((j : ℕ) → pending_at j row p' ≤ pending_at j row p)
      → (chosen p' ≡ true → total (pending i) s.workers ≡ 0)
      → ((j : ℕ) → j < length a → get_elem? sync j ≡ some (total (pending j) (at_place s i row p')))
      → mtx + ntfy + wrote_at p' + busy_at p' ≡ s.mtx + s.ntfy + wrote_at p + busy_at p
      → idx + wrote_at p' ≡ s.idx + wrote_at p
      → s.idx ≤ idx
      → mtx ≤ s.mtx
      → Inv a (record s {
        idx = idx;
        sync = sync;
        mtx = mtx;
        ntfy = ntfy;
        workers = at_place s i row p';
      })
  quiet p' idx mtx ntfy sync same fewer own synced token count grows fewer_mtx =
      let wrotes = total-set wrote s.workers i (next_worker p') at in
      let busies = total-set busy s.workers i (next_worker p') at in
      let marks : map mark (at_place s i row p') ≡ map mark s.workers =
        map-set_same mark s.workers i (next_worker p') at (ap (λ b. (row, b)) same) in
      record {
        order = v.order;
        left = v.left;
        rows = v.rows ∙ ap rows_of (sym marks);
        sync = synced;
        token = omega (arith, v.token, wrotes, busies, token);
        passed = Passed-set s.workers i _ (next_worker p') at fewer own v.passed;
        sorted = subst (λ ms. Sorted v.order ms) (sym marks) v.sorted;
        written = v.written;
        count = omega (arith, v.count, wrotes, count);
        room = v.room;
        stop = λ h. omega (arith, v.stop h, v.room, v.count, wrotes, count);
        opened = λ h k. omega (
          arith,
          v.opened h (omega arith),
          count,
          token,
          v.token,
          le-total wrote s.workers i at,
          le-total busy s.workers i at,
        );
      }

  -- The same where no edge is taken either.
  pub unsynced :
      (p' : Place) (idx mtx ntfy : ℕ)
      → inserted p' ≡ inserted p
      → ((j : ℕ) → pending_at j row p' ≡ pending_at j row p)
      → (chosen p' ≡ true → total (pending i) s.workers ≡ 0)
      → mtx + ntfy + wrote_at p' + busy_at p' ≡ s.mtx + s.ntfy + wrote_at p + busy_at p
      → idx + wrote_at p' ≡ s.idx + wrote_at p
      → s.idx ≤ idx
      → mtx ≤ s.mtx
      → Inv a (record s { idx = idx; mtx = mtx; ntfy = ntfy; workers = at_place s i row p' })
  unsynced p' idx mtx ntfy same pend own =
      quiet p' idx mtx ntfy s.sync same (λ j. omega (arith, pend j)) own
        λ j inside.
          v.sync j inside
          ∙ ap some (omega (arith, total-set (pending j) s.workers i (next_worker p') at, pend j))

  -- The worker is one of those that the matrix has rows for.
  pub inside : i < length a
  inside = omega (
    arith,
    ap length v.rows,
    length-rows_of (map mark s.workers),
    length-map mark s.workers,
    get_elem?-lt s.workers i at,
  )

  -- The write of the vertex into T.
  pub insertion :
      (old : Option ℕ)
      → get_elem? s.t s.idx ≡ some old
      → p ≡ inserts
      → Inv a (record s { t = set s.t s.idx (some i); workers = at_place s i row increments })
  insertion old room e =
      let w' : Worker = next_worker increments in
      let here : get_elem? s.workers i ≡ some (next_worker inserts) =
        at ∙ ap (λ q. some (next_worker q)) e in
      let wrotes = total-set wrote s.workers i w' here in
      let busies = total-set busy s.workers i w' here in
      let alone : total wrote s.workers ≡ 0 =
        omega (arith, v.token, le-total busy s.workers i here) in
      let met = v.passed i (next_worker inserts) here refl in
      let idx_is : s.idx ≡ length v.order = omega (arith, v.count, alone) in
      let inside_t : s.idx < length v.order + v.left =
        omega (
          arith,
          get_elem?-lt s.t s.idx room,
          ap length v.written,
          length-entries v.order v.left,
        ) in
      let (r, more) = pred_of v.left (omega (arith, inside_t, idx_is)) in
      record {
        order = v.order ++ i ∷ [];
        left = r;
        rows =
            v.rows
            ∙ sym
                (rows_of-set (map mark s.workers) i row true (get_elem?-map mark s.workers i here))
            ∙ ap rows_of (sym (map-set mark s.workers i w'));
        sync =
            λ j k. v.sync j k ∙ ap some (omega (arith, total-set (pending j) s.workers i w' here));
        token = omega (arith, v.token, wrotes, busies);
        passed = Passed-set s.workers i _ w' here (λ j. omega arith) (λ no. cc) v.passed;
        sorted =
            subst (λ ms. Sorted (v.order ++ i ∷ []) ms) (sym (map-set mark s.workers i w'))
              (next v.order (map mark s.workers) i row v.sorted
                (get_elem?-map mark s.workers i here)
                (omega (arith, met, total-unmet-le i s.workers)));
        written =
            ap (λ t. set t s.idx (some i))
              (v.written ∙ ap (λ n. map some v.order ++ replicate n none) more)
            ∙ ap (λ n. set (map some v.order ++ replicate (suc r) none) n (some i)) idx_is
            ∙ set_entry v.order r i;
        count = omega (arith, v.count, wrotes, length-append {0} v.order (i ∷ []));
        room = omega (arith, v.room, more, length-append {0} v.order (i ∷ []));
        stop = v.stop;
        opened = v.opened;
      }
