-- ===== src/Memory/System/Turns.antt =====
-- One turn of a process, from the message of the scheduler to its next wait.
use operating_systems_iitkgp.Base.{
  ℕ, ◌+◌, ◌≤◌, ◌<◌, ◌≡◌, refl, ◌∙◌, subst, ap, inl, inr, List, [], ◌∷◌, ◌++◌, Option, true, none,
  some, arith, ◌==◌, length,
}
use operating_systems_iitkgp.Base.Int.{ℤ, pos, negsuc}
use operating_systems_iitkgp.Memory.Table.{int_max, Sm1}
use operating_systems_iitkgp.Memory.Mmu.{
  Mmu, Sent, to_process, to_sched, Outcome, running, find_process, serve,
}
use operating_systems_iitkgp.Memory.Mmu.Invariant.{IsSound, Keeps}
use operating_systems_iitkgp.Memory.Mmu.Requests.{At, At-get, IsRequest, serve-handle, serve-Keeps}
use operating_systems_iitkgp.Memory.Mmu.Outcomes.{
  Round, faults, page_faults, hits, ends, refuses, handle-Round,
}
use operating_systems_iitkgp.Memory.Mmu.Runs.{Steady, serve-Steady}
use operating_systems_iitkgp.Memory.System.{answer, Turn, ask, leave, run_pages}

-- How a turn ends: the process waits with the pages `s` after a page fault, which the scheduler has
-- been told of, or it has ended, and the scheduler has been told that.
abbrev pub Ending : ℕ → List ℕ → Option (List ℕ) → List (ℕ × ℕ) → Type 0
Ending pid pages (some s) told =
    (told ≡ (1, pid) ∷ []) × (0 < length s) × ((before : List ℕ) × (before ++ s ≡ pages))
Ending pid pages none told = told ≡ (2, pid) ∷ []

-- What the unit has answered to the pages from the state `m` on: a frame for each page before, and at
-- the end a page fault, with which the process waits, a refusal, or the end of the process.
pub data Course (pid : ℕ) : Mmu → List ℕ → Option (List ℕ) → Mmu → Type 0 where
  loaded :
      {m m' n : Mmu} {page x : ℕ} {pages : List ℕ} {waiting : Option (List ℕ)}
      → serve m pid (pos page) ≡ running m' (to_process pid (pos x) ∷ [])
      → Course pid m' pages waiting n
      → Course pid m (page ∷ pages) waiting n
  missing :
      {m n : Mmu} {page : ℕ} {pages : List ℕ}
      → serve m pid (pos page) ≡ running n (to_process pid (negsuc 0) ∷ to_sched 1 pid ∷ [])
      → Course pid m (page ∷ pages) (some (page ∷ pages)) n
  refused :
      {m n : Mmu} {page : ℕ} {pages : List ℕ}
      → serve m pid (pos page) ≡ running n (to_process pid (negsuc 1) ∷ to_sched 2 pid ∷ [])
      → Course pid m (page ∷ pages) none n
  over :
      {m n : Mmu}
      → serve m pid (negsuc 8) ≡ running n (to_sched 2 pid ∷ [])
      → Course pid m [] none n

-- After a turn over `pages` from the state `m`.
pub record IsTurn (f : ℕ) (m : Mmu) (pid : ℕ) (pages : List ℕ) (t : Turn (List ℕ)) : Type 0 where
  pub sound : IsSound f t.mmu
  pub search : (q : ℕ) → find_process t.mmu.sm1 q 0 ≡ find_process m.sm1 q 0
  pub clock : t.mmu.timestamp ≤ m.timestamp + (length pages + 1)
  pub ending : Ending pid pages t.waiting t.told
  pub course : Course pid m pages t.waiting t.mmu

answer_self : (pid : ℕ) (x : ℤ) (sent : List Sent) → answer pid (to_process pid x ∷ sent) ≡ some x
answer_self pid x sent = let same : (pid == pid) ≡ true = ground arith in rw same refl

-- What a turn comes to: it ends, and as `IsTurn` says.
abbrev pub Turns : ℕ → Mmu → ℕ → List ℕ → Option (Turn (List ℕ)) → Type 0
Turns f m pid pages o = (t : Turn (List ℕ)) × (o ≡ some t) × IsTurn f m pid pages t

module _ (f : ℕ) (m : Mmu) (pid i : ℕ) where
  abbrev ticked : Mmu
  ticked = record m { timestamp = m.timestamp + 1 }

  leave-Turns :
      (p : Sm1) (o : Outcome)
      → serve m pid (negsuc 8) ≡ o
      → Round ticked i p pid (negsuc 8) o
      → Keeps f o
      → Steady ticked o
      → Turns f m pid [] (leave o)
  leave-Turns p _ from faults k s = absurd k
  leave-Turns p _ from (ends n es cells e) k s = (
    _,
    refl,
    record { sound = k; search = s.1; clock = omega arith; ending = refl; course = over from },
  )

  ask-Turns :
      (p : Sm1) (page : ℕ) (pages : List ℕ) (more : Mmu → Option (Turn (List ℕ))) (o : Outcome)
      → ((m' : Mmu) (sent : List Sent) → o ≡ running m' sent → Turns f m' pid pages (more m'))
      → serve m pid (pos page) ≡ o
      → Round ticked i p pid (pos page) o
      → Keeps f o
      → Steady ticked o
      → Turns f m pid (page ∷ pages) (ask pid (page ∷ pages) more o)
  ask-Turns p page pages more _ next from faults k s = absurd k
  ask-Turns p page pages more _ next from (page_faults es cells e) k s =
      rw (answer_self pid (negsuc 0) (to_sched 1 pid ∷ [])) (
        _,
        refl,
        record {
          sound = k;
          search = s.1;
          clock = omega arith;
          ending = (refl, omega arith, ([], refl));
          course = missing from;
        },
      )
  ask-Turns p page pages more _ next from (refuses es cells e) k s =
      rw (answer_self pid (negsuc 1) (to_sched 2 pid ∷ [])) (
        _,
        refl,
        record {
          sound = k;
          search = s.1;
          clock = omega arith;
          ending = refl;
          course = refused from;
        },
      )
  ask-Turns p page pages more _ next from (hits es x e) k s =
      let (t, eq, is) = next _ _ refl in
      rw (answer_self pid (pos x) [], eq)
        (
          record t { told = t.told },
          refl,
          record {
            sound = is.sound;
            search = λ q. is.search q ∙ s.1 q;
            clock = omega (arith, is.clock);
            ending = later t.waiting t.told is.ending;
            course = loaded from is.course;
          },
        )
    where
      later :
          (o : Option (List ℕ)) (told : List (ℕ × ℕ))
          → Ending pid pages o told
          → Ending pid (page ∷ pages) o told
      later none told h = h
      later (some s) told (h, l, (before, e)) = (h, l, (page ∷ before, ap (λ t. page ∷ t) e))

served :
    (f : ℕ) (m : Mmu) (pid i : ℕ) (page : ℤ)
    → IsSound f m
    → m.timestamp < int_max
    → At m pid i
    → IsRequest page
    → (p : Sm1) × Round (record m { timestamp = m.timestamp + 1 }) i p pid page (serve m pid page)
      × Keeps f (serve m pid page)
      × Steady (record m { timestamp = m.timestamp + 1 }) (serve m pid page)
served f m pid i page s now h r =
    let (p, at, _) = At-get m pid i h in
    let m1 : Mmu = record m { timestamp = m.timestamp + 1 } in
    (
      p,
      rw (serve-handle m pid i page h at now) (handle-Round m1 i p pid page),
      serve-Keeps f m pid i page s now h r,
      serve-Steady m pid i page now h,
    )

-- The state after a round from which the loop goes on.
after :
    {f : ℕ} (m : Mmu) (pid : ℕ) {m' : Mmu} {o : Outcome} {sent : List Sent} {i : ℕ}
    → o ≡ running m' sent
    → Keeps f o
    → Steady (record m { timestamp = m.timestamp + 1 }) o
    → At m pid i
    → IsSound f m' × (m'.timestamp ≡ m.timestamp + 1) × At m' pid i
after {f} m pid eq k s h =
    let steady = subst (Steady (record m { timestamp = m.timestamp + 1 })) eq s in
    (subst (Keeps f) eq k, steady.0, (steady.1 pid ∙ h.0, h.1))

-- In a sound state, for a process of SM1, while the clock stays below `INT_MAX`: a turn comes to its
-- end. The unit has answered the pages one after the other, each with a frame, up to a page fault, and
-- the process waits with the page that was not there and those after it; or up to a page that was
-- refused or the last one, and the process has ended. The unit is sound, finds every process where it
-- was, and has sent the scheduler one message, which says which of the two it is.
pub run_pages-IsTurn :
    (f : ℕ) (m : Mmu) (pid i : ℕ) (pages : List ℕ)
    → IsSound f m
    → At m pid i
    → m.timestamp + length pages < int_max
    → Turns f m pid pages (run_pages pid pages m)
unfolding run_pages
run_pages-IsTurn f m pid i [] s h now =
    let (p, round, kept, steady) = served f m pid i (negsuc 8) s (omega arith) h (inl refl) in
    leave-Turns f m pid i p _ refl round kept steady
run_pages-IsTurn f m pid i (page ∷ pages) s h now =
    let (p, round, kept, steady) =
      served f m pid i (pos page) s (omega arith) h (inr (page, refl)) in
    ask-Turns f m pid i p page pages (run_pages pid pages) _
      (λ m' sent eq.
        let (s', tick, h') = after m pid eq kept steady h in
        run_pages-IsTurn f m' pid i pages s' h' (omega arith))
      refl round kept steady
