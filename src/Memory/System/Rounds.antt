-- ===== src/Memory/System/Rounds.antt =====
-- The rounds of the scheduler.
use mathlib.Core.Option
use operating_systems_iitkgp.Base.{
  ℕ, ◌+◌, ◌-◌, ◌≤◌, ◌<◌, ◌≡◌, refl, ◌∙◌, ap, List, [], ◌∷◌, ◌++◌, Option, none, some, arith, length,
  length-append, All, All-map, All-append,
}
use operating_systems_iitkgp.Memory.Table.{int_max}
use operating_systems_iitkgp.Memory.Mmu.{Mmu, find_process}
use operating_systems_iitkgp.Memory.Mmu.Invariant.{IsSound}
use operating_systems_iitkgp.Memory.Mmu.Requests.{At}
use operating_systems_iitkgp.Memory.Refstr.{reference_str, IsDecimal}
use operating_systems_iitkgp.Memory.Refstr.Laws.{reference_str-enough}
use operating_systems_iitkgp.Memory.System.{System, run_process, take_note, schedule}
use operating_systems_iitkgp.Memory.System.Turns.{Ending, run_pages-IsTurn}
use operating_systems_iitkgp.Memory.System.Strings.{rewritten, run_process-run_pages}

module _ (print : ℕ → List ℕ) where
  -- A process of SM1 in the ready queue, with pages of its own left.
  pub record IsReady (m : Mmu) (entry : ℕ × List ℕ) : Type 0 where
    pub pages : List ℕ
    pub place : ℕ
    pub string : entry.1 ≡ reference_str print pages
    pub known : At m entry.0 place

  -- The unit is sound, every process in the queue is one of SM1, and the scheduler waits for at
  -- least as many processes as are in the queue.
  pub record IsSystem (f : ℕ) (s : System) : Type 0 where
    pub sound : IsSound f s.mmu
    pub queued : All (IsReady s.mmu) s.ready
    pub counted : length s.ready ≤ s.k

  IsReady-same :
      (m m' : Mmu)
      → ((q : ℕ) → find_process m'.sm1 q 0 ≡ find_process m.sm1 q 0)
      → (entry : ℕ × List ℕ) → IsReady m entry
      → IsReady m' entry
  IsReady-same m m' same entry r = record {
    pages = r.pages;
    place = r.place;
    string = r.string;
    known = (same entry.0 ∙ r.known.0, r.known.1);
  }

  -- After the message of the unit.
  abbrev pub Rounds : ℕ → System → Option System → Type 0
  Rounds f s o =
      (s' : System) × (o ≡ some s')
      × IsSystem f s'
      × (s'.k + length s.ready ≡ s.k + length s'.ready)

  module _ (f k pid place : ℕ) (m : Mmu) (s : List ℕ) (ready : List (ℕ × List ℕ)) (pages : List ℕ)
      (sys : IsSystem f (record { k = k; mmu = m; ready = (pid, s) ∷ ready }))
      (at : At m pid place) where
    noted :
        (mmu : Mmu) (waiting : Option (List ℕ)) (told : List (ℕ × ℕ))
        → IsSound f mmu
        → ((q : ℕ) → find_process mmu.sm1 q 0 ≡ find_process m.sm1 q 0)
        → Ending pid pages waiting told
        → Rounds f
            (record { k = k; mmu = m; ready = (pid, s) ∷ ready })
            (take_note k ready pid (
              rewritten
                (reference_str print)
                (record { mmu = mmu; waiting = waiting; told = told })))
    unfolding take_note
    noted mmu (some left) told sound same (e, _, _) = rw (e) (
      record { k = k; mmu = mmu; ready = ready ++ (pid, reference_str print left) ∷ [] },
      refl,
      record {
        sound = sound;
        queued =
            All-append _ ready ((pid, reference_str print left) ∷ [])
              (All-map (IsReady m) (IsReady mmu) (IsReady-same m mmu same) ready sys.queued.1)
              (
                record {
                  pages = left;
                  place = place;
                  string = refl;
                  known = (same pid ∙ at.0, at.1);
                },
                tt,
              );
        counted =
            omega
              (arith, length-append {0} ready ((pid, reference_str print left) ∷ []), sys.counted);
      },
      omega (arith, length-append {0} ready ((pid, reference_str print left) ∷ [])),
    )
    noted mmu none told sound same e = rw (e) (
      record { k = k - 1; mmu = mmu; ready = ready },
      refl,
      record {
        sound = sound;
        queued = All-map (IsReady m) (IsReady mmu) (IsReady-same m mmu same) ready sys.queued.1;
        counted = omega (arith, sys.counted);
      },
      omega (arith, sys.counted),
    )

  module _ (d : IsDecimal print) where
    -- Let the state of the scheduler be sound, a process ready, and the clock far enough below
    -- `INT_MAX` for one turn of it. Then a round of the loop comes to its end, also the state after it
    -- is sound, and the scheduler has counted a process exactly if one has left the queue.
    pub schedule-IsSystem :
        (f k pid : ℕ) (m : Mmu) (refstr : List ℕ) (ready : List (ℕ × List ℕ))
        → IsSystem f (record { k = k; mmu = m; ready = (pid, refstr) ∷ ready })
        → m.timestamp + length refstr < int_max
        → Rounds f
            (record { k = k; mmu = m; ready = (pid, refstr) ∷ ready })
            (schedule (record { k = k; mmu = m; ready = (pid, refstr) ∷ ready }))
    unfolding schedule
    schedule-IsSystem f k pid m refstr ready sys clock =
        let r = sys.queued.0 in
        let few : length r.pages ≤ length refstr =
          rw (r.string) (reference_str-enough print r.pages) in
        let (t, ran, is) =
          run_pages-IsTurn f m pid r.place r.pages sys.sound r.known (omega (arith, few, clock)) in
        let turn : run_process (length refstr) pid refstr m
            ≡ some (rewritten (reference_str print) t) =
          ap (λ u. run_process (length refstr) pid u m) r.string
          ∙ run_process-run_pages print d r.pages (length refstr) pid m few
          ∙ ap (Option.map (rewritten (reference_str print))) ran in
        rw (turn) (
          noted f k pid r.place m refstr ready r.pages sys r.known t.mmu t.waiting t.told is.sound
            is.search is.ending)
