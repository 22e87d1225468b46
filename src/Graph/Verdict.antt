-- ===== src/Graph/Verdict.antt =====
-- The invariant from the setup to the end, and what the boss says in the end.
use operating_systems_iitkgp.Base.{
  ◌≢◌, get_elem?-map, same_step, ℕ, zero, suc, ◌+◌, ◌-◌, ◌<◌, ◌≡◌, refl, sym, ap, ◌∙◌, inl, inr,
  Bool, true, false, List, [], ◌∷◌, ◌++◌, none, some, arith, ◌==◌, length, get_elem?, replicate,
  total, le-total, All, map, Bool-cases,
}
use operating_systems_iitkgp.Graph.{
  check, verdict, inserts, waits_sync, Worker, Boss, waits_ntfy, posts_mtx, tests_idx, done, Team,
  setup_team, lead_at, lead, Reach, start, works, leads,
}
use operating_systems_iitkgp.Graph.Check.{column, indegrees-column}
use operating_systems_iitkgp.Graph.Sorted.{
  nothing, rows_of, length-rows_of, unmarked, Sorted-length, Sorted-Checked,
}
use operating_systems_iitkgp.Graph.Invariant.{
  mark, pending, chosen, inserted, wrote_at, busy_at, wrote, busy, boss_holds, Inv,
}
use operating_systems_iitkgp.Graph.Steps.{length-entries}
use operating_systems_iitkgp.Graph.Work.{work-Inv}

abbrev waiting : List Bool → Worker
waiting row = record { row = row; place = waits_sync }

rows_of-waiting : (a : List (List Bool)) → a ≡ rows_of (map mark (map waiting a))
rows_of-waiting [] = refl
rows_of-waiting (row ∷ a) = ap (λ t. row ∷ t) (rows_of-waiting a)

column-waiting : (j : ℕ) (a : List (List Bool)) → column j a ≡ total (pending j) (map waiting a)
column-waiting j [] = refl
column-waiting j (row ∷ a) = omega (arith, column-waiting j a)

nobody_wrote : (a : List (List Bool)) → total wrote (map waiting a) ≡ 0
nobody_wrote [] = refl
nobody_wrote (row ∷ a) = omega (arith, nobody_wrote a)

nobody_busy : (a : List (List Bool)) → total busy (map waiting a) ≡ 0
nobody_busy [] = refl
nobody_busy (row ∷ a) = omega (arith, nobody_busy a)

nobody_chosen :
    (a : List (List Bool)) (i : ℕ) (w : Worker)
    → get_elem? (map waiting a) i ≡ some w
    → chosen w.place ≡ false
nobody_chosen [] i w h = cc
nobody_chosen (row ∷ a) zero w h = cc
nobody_chosen (row ∷ a) (suc i) w h = nobody_chosen a i w h

nobody_marked : (a : List (List Bool)) → All (λ m. m.1 ≡ false) (map mark (map waiting a))
nobody_marked [] = tt
nobody_marked (row ∷ a) = (refl, nobody_marked a)

setup-Inv : (a : List (List Bool)) → Inv a (setup_team a)
unfolding setup_team
setup-Inv a = record {
  order = [];
  left = length a;
  rows = rows_of-waiting a;
  sync = λ j h. indegrees-column a j h ∙ ap some (column-waiting j a);
  token = omega (arith, nobody_wrote a, nobody_busy a);
  passed = λ i w at h. let no = nobody_chosen a i w at in cc;
  sorted = nothing _ (nobody_marked a);
  written = refl;
  count = omega (arith, nobody_wrote a);
  room = omega arith;
  stop = λ h. cc;
  opened = λ h k. absurd (omega arith);
}

-- The boss moves only the token and itself.
led :
    (a : List (List Bool)) (s : Team) (mtx ntfy : ℕ) (boss : Boss)
    → Inv a s
    → mtx + ntfy + boss_holds boss ≡ s.mtx + s.ntfy + boss_holds s.boss
    → (boss ≡ done → s.idx ≡ length a)
    → (boss ≡ waits_ntfy → 0 < mtx → s.idx < length a)
    → Inv a (record s { mtx = mtx; ntfy = ntfy; boss = boss })
led a s mtx ntfy boss v token stop opened = record {
  order = v.order;
  left = v.left;
  rows = v.rows;
  sync = v.sync;
  token = omega (arith, v.token, token);
  passed = v.passed;
  sorted = v.sorted;
  written = v.written;
  count = v.count;
  room = v.room;
  stop = stop;
  opened = opened;
}

pub length-t : (a : List (List Bool)) (s : Team) → Inv a s → length s.t ≡ length a
length-t a s v = omega (arith, ap length v.written, length-entries v.order v.left, v.room)

lead_at-Inv :
    (a : List (List Bool)) (s s' : Team) (b : Boss)
    → s.boss ≡ b
    → Inv a s
    → lead_at s b ≡ some s'
    → Inv a s'
unfolding lead_at
lead_at-Inv a s s' waits_ntfy e v h = elim (Bool-cases (s.ntfy == 0)) [
  | inl z ↦ let stays : lead_at s waits_ntfy ≡ none = rw (z) refl in cc
  | inr z ↦
      let went : lead_at s waits_ntfy ≡ some (record s { ntfy = s.ntfy - 1; boss = posts_mtx }) =
        rw (z) refl in
      let some_left : 0 < s.ntfy = ground arith in
      same_step (Inv a) _ s' went h (
        led a s s.mtx (s.ntfy - 1) posts_mtx v (omega (arith, ap boss_holds e)) (λ c. cc)
          (λ c k. cc))
]
lead_at-Inv a s s' posts_mtx e v h =
    same_step (Inv a) _ s' refl h (
      led a s (s.mtx + 1) s.ntfy tests_idx v (omega (arith, ap boss_holds e)) (λ c. cc) (λ c k. cc))
lead_at-Inv a s s' tests_idx e v h = elim (Bool-cases (s.idx == length s.t)) [
  | inl z ↦
      let went : lead_at s tests_idx ≡ some (record s { boss = done }) = rw (z) refl in
      let all_in : s.idx ≡ length s.t = ground arith in
      same_step (Inv a) _ s' went h (
        led a s s.mtx s.ntfy done v (omega (arith, ap boss_holds e)) (λ c. all_in ∙ length-t a s v)
          (λ c k. cc))
  | inr z ↦
      let still : s.idx ≢ length s.t = λ q. ground arith in
      let went : lead_at s tests_idx ≡ some (record s { boss = waits_ntfy }) = rw (z) refl in
      same_step (Inv a) _ s' went h (
        led a s s.mtx s.ntfy waits_ntfy v (omega (arith, ap boss_holds e)) (λ c. cc)
          (λ c k. omega (arith, still, length-t a s v, v.count, v.room)))
]
lead_at-Inv a s s' done e v h = cc

lead-Inv : (a : List (List Bool)) (s s' : Team) → Inv a s → lead s ≡ some s' → Inv a s'
unfolding lead
lead-Inv a s s' v h = lead_at-Inv a s s' s.boss refl v h

pub Reach-Inv : (a : List (List Bool)) (s : Team) → Reach a s → Inv a s
Reach-Inv a _ start = setup-Inv a
Reach-Inv a _ (works i r h) = work-Inv a _ _ i (Reach-Inv a _ r) h
Reach-Inv a _ (leads r h) = lead-Inv a _ _ (Reach-Inv a _ r) h

-- Whatever the order of the steps: if the boss leaves its loop, then its check of T reads only within
-- its arrays, and its result is that the order is correct.
pub verdict-Reach :
    (a : List (List Bool)) (s : Team) → Reach a s → s.boss ≡ done → verdict a s.t ≡ some true
unfolding check
verdict-Reach a s r h =
    let v = Reach-Inv a s r in
    let (indeg, checked, met) = Sorted-Checked a v.order _ v.sorted v.rows in
    let all_in : v.left ≡ 0 = omega (arith, v.stop h, v.count, v.room) in
    ap (verdict a) (v.written ∙ ap (λ n. map some v.order ++ replicate n none) all_in) ∙ checked []

-- Whatever the order of the steps: a worker that is about to write its vertex writes it within T, and
-- `mtx` and `ntfy` are 0 then.
pub writes_inside :
    (a : List (List Bool)) (s : Team) (i : ℕ) (w : Worker)
    → Reach a s
    → get_elem? s.workers i ≡ some w
    → w.place ≡ inserts
    → (s.idx < length s.t) × (s.mtx ≡ 0) × (s.ntfy ≡ 0)
writes_inside a s i w r at e =
    let v = Reach-Inv a s r in
    let wrote_none : wrote w ≡ 0 = ap wrote_at e in
    let is_busy : busy w ≡ 1 = ap busy_at e in
    let is_unmarked : unmarked (mark w) ≡ 1 = ap (λ p. unmarked (w.row, inserted p)) e in
    let held = le-total busy s.workers i at in
    let room = le-total unmarked (map mark s.workers) i (get_elem?-map mark s.workers i at) in
    let size : length (map mark s.workers) ≡ length a =
      sym (ap length v.rows ∙ length-rows_of (map mark s.workers)) in
    (
      omega (
        arith,
        v.token,
        v.count,
        held,
        is_busy,
        room,
        is_unmarked,
        size,
        Sorted-length v.order _ v.sorted,
        length-t a s v,
      ),
      omega (arith, v.token, held, is_busy),
      omega (arith, v.token, held, is_busy),
    )
