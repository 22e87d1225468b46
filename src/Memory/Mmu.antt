-- ===== src/Memory/Mmu.antt =====
-- Assignment 8/mmu.c: the loop of the memory management unit, one request at a time. A request is
-- the `pid` and the `page_frame` of a message on queue 3. What the loop prints is left out.
pub mod Frames
pub mod Owners
pub mod Victim
pub mod Invariant
pub mod Handlers
pub mod Requests
pub mod Ownership
pub mod Faults
pub mod Retry
pub mod Outcomes
pub mod Runs
pub mod Lookup
mod Tests
use operating_systems_iitkgp.Base.{
  ℕ, zero, suc, ◌+◌, ◌-◌, ◌*◌, ◌/◌, List, [], ◌∷◌, Option, none, some, ltb, leb, ◌==◌,
  if◌then◌else◌, get_elem?, set, ◌>>=◌,
}
use operating_systems_iitkgp.Base.Int.{ℤ, pos, negsuc}
use operating_systems_iitkgp.Memory.Table.{
  int_max, max_processes, Entry, cleared, Sm1, Cell, free, occupied, end,
}

-- The globals of mmu.c, and the two segments.
pub record Mmu : Type 0 where
  pub timestamp : ℕ
  pub total_num_processes : ℕ
  pub sm1 : List Sm1
  pub sm2 : List Cell

-- A `msgsnd`, by queue: `to_process` is Msg3 on queue 3, `to_sched` is Msg2 on queue 2.
pub data Sent : Type 0 where
  to_process : (pid : ℕ) (page_frame : ℤ) → Sent
  to_sched : (mtype pid : ℕ) → Sent

-- What one round of the loop comes to: it goes on, it calls `exit(1)`, or it reads or writes out of
-- bounds or overflows an `int`, which C leaves undefined.
pub data Outcome : Type 0 where
  running : Mmu → List Sent → Outcome
  exited : Outcome
  fault : Outcome

-- The size of an SM1, and that of a page of memory: `shmget` rounds the size of a segment up to whole
-- pages, which are filled with zeros.
abbrev pub sm1_size : ℕ
sm1_size = 316

abbrev pub memory_page : ℕ
memory_page = 4096

abbrev pub segment_size : ℕ → ℕ
segment_size entries = (entries * sm1_size + (memory_page - 1)) / memory_page * memory_page

-- The search past the entries that master.c asks for. No process has the pid 0 that is there, so that
-- it ends at `MAX_PROCESSES`, or reads a `pid` beyond the segment.
abbrev pub past_entries : ℕ → ℕ → Option ℕ
past_entries entries pid =
    if pid == 0
    then none
    else if leb (max_processes * sm1_size + 4) (segment_size entries)
    then some max_processes
    else none

-- `while (sm1[i].pid != pid && i < MAX_PROCESSES) i++`, from the entry at `i` on.
unfoldable pub find_process : List Sm1 → ℕ → ℕ → Option ℕ
find_process [] pid i = past_entries i pid
find_process (p ∷ ps) pid i =
    if p.pid == pid
    then some i
    else if ltb i max_processes
    then find_process ps pid (suc i)
    else some i

-- The body of the loop that gives up a process's frames.
pub release_page : Entry → List Cell → Option (Entry × List Cell)
release_page e cells = elim e.frame [
  | none ↦ some (e, cells)
  | some f ↦ do old ← get_elem? cells f; some (cleared, set cells f free)
]

-- `for (int i = 0; i < mi; i++)` over the page table.
pub release_pages : ℕ → List Entry → List Cell → Option (List Entry × List Cell)
release_pages zero es cells = some (es, cells)
release_pages (suc k) [] cells = none
release_pages (suc k) (e ∷ es) cells = do
  head ← release_page e cells
  rest ← release_pages k es head.1
  some (head.0 ∷ rest.0, rest.1)

pub data Search : Type 0 where
  found : ℕ → List Cell → Search
  full : Search
  past_end : Search

abbrev shift : Cell → Search → Search
shift c (found f cells) = found (suc f) (c ∷ cells)
shift c full = full
shift c past_end = past_end

-- `while (sm2[frame] != -1)`: takes the first free frame.
unfoldable pub take_frame : List Cell → Search
take_frame [] = past_end
take_frame (end ∷ cells) = full
take_frame (free ∷ cells) = found 0 (occupied ∷ cells)
take_frame (occupied ∷ cells) = shift occupied (take_frame cells)

-- `min_time`, and `idx` with `req_page` (`none` is -1).
pub record Lru : Type 0 where
  pub min_time : ℕ
  pub victim : Option (ℕ × ℕ)

pub older : Lru → ℕ → Entry → Lru
older best i e = elim e.frame [
  | none ↦ best
  | some f ↦
      if ltb e.time best.min_time then record { min_time = e.time; victim = some (i, f) } else best
]

-- The search for the least recently used page, over the rows from `i` on.
pub lru_scan : ℕ → List Entry → ℕ → Lru → Option Lru
lru_scan zero es i best = some best
lru_scan (suc k) [] i best = none
lru_scan (suc k) (e ∷ es) i best = lru_scan k es (suc i) (older best i e)

abbrev pub no_lru : Lru
no_lru = record { min_time = int_max; victim = none }

abbrev or_fault {ℓ} : {A : Type ℓ} → Option A → (A → Outcome) → Outcome
or_fault none k = fault
or_fault (some a) k = k a

module _ (m : Mmu) (i : ℕ) (p : Sm1) (pid : ℕ) where
  open m use {timestamp, sm1, sm2}

  -- The page -9: the process has ended.
  pub terminate : Outcome
  terminate = or_fault (release_pages p.mi p.pagetable sm2) λ r.
      running
        (record m {
          total_num_processes = m.total_num_processes + 1;
          sm1 = set sm1 i (record p { pagetable = r.0 });
          sm2 = r.1;
        })
        (to_sched 2 pid ∷ [])

  -- A page beyond the address space.
  pub illegal : Outcome
  illegal = or_fault (release_pages p.mi p.pagetable sm2) λ r.
      running
        (record m {
          total_num_processes = m.total_num_processes + 1;
          sm1 =
              set sm1 i
                (record p { pagetable = r.0; total_illegal_access = p.total_illegal_access + 1 });
          sm2 = r.1;
        })
        (to_process pid (negsuc 1) ∷ to_sched 2 pid ∷ [])

  pub page_hit : ℕ → Entry → ℕ → Outcome
  page_hit page e f =
      running
        (record m {
          sm1 =
              set sm1 i
                (record p { pagetable = set p.pagetable page (record e { time = timestamp }) });
        })
        (to_process pid (pos f) ∷ [])

  -- The process with a page fault counted and a new page table; the scheduler is told to queue it.
  abbrev pub faulted : List Entry → List Cell → Outcome
  faulted table cells =
      running
        (record m {
          sm1 =
              set sm1 i
                (record p { pagetable = table; total_page_faults = p.total_page_faults + 1 });
          sm2 = cells;
        })
        (to_process pid (negsuc 0) ∷ to_sched 1 pid ∷ [])

  abbrev pub loaded : ℕ → Entry
  loaded f = record { frame = some f; valid = 1; time = timestamp }

  -- No frame is free: the process gives up its own least recently used page.
  pub replace : ℕ → Outcome
  replace page = or_fault (lru_scan p.mi p.pagetable 0 no_lru) λ best. elim best.victim [
    | none ↦ faulted p.pagetable sm2
    | some (j, f) ↦ faulted (set (set p.pagetable page (loaded f)) j cleared) sm2
  ]

  unfoldable pub page_fault : ℕ → Outcome
  page_fault page = elim (take_frame sm2) [
    | found f cells ↦ faulted (set p.pagetable page (loaded f)) cells
    | full ↦ replace page
    | past_end ↦ fault
  ]

  -- A row of the table: resident and valid, or not.
  unfoldable pub access : ℕ → Entry → Outcome
  access page e = elim e.frame [
    | none ↦ page_fault page
    | some f ↦ if e.valid == 1 then page_hit page e f else page_fault page
  ]

  -- The chain of tests on `page`. Below 0 only -9 stands for something; the others would index the
  -- table below its start.
  unfoldable pub handle : ℤ → Outcome
  handle (negsuc n) = if n == 8 then terminate else fault
  handle (pos page) =
      if leb p.mi page then illegal else or_fault (get_elem? p.pagetable page) (access page)

-- One round of `while (1)`, from the `msgrcv` on.
unfoldable pub serve : Mmu → ℕ → ℤ → Outcome
serve m pid page =
    if m.timestamp == int_max
    then fault
    else or_fault (find_process m.sm1 pid 0) λ i.
      if i == max_processes
      then exited
      else or_fault (get_elem? m.sm1 i)
          λ p. handle (record m { timestamp = m.timestamp + 1 }) i p pid page

-- Requests in the order in which they arrive. A round that exits or faults is the last.
unfoldable pub serve_all : Mmu → List (ℕ × ℤ) → Outcome
serve_all m [] = running m []
serve_all m ((pid, page) ∷ rest) = elim (serve m pid page) [
  | running m' sent ↦ serve_all m' rest
  | exited ↦ exited
  | fault ↦ fault
]
