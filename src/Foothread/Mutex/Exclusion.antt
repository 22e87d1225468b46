-- ===== src/Foothread/Mutex/Exclusion.antt =====
-- The mutex excludes, and the holder may unlock.
use operating_systems_iitkgp.Base.{
  ℕ, zero, suc, ◌+◌, ◌≤◌, ◌≡◌, refl, sym, subst, inl, inr, true, some, arith, get_elem?,
  get_elem?-lt, set, length, length-set, replicate, ℕ_discrete,
}
use operating_systems_iitkgp.Base.Rows.{sum_rows, sum_rows-set, add-le-sum_all, set-cases}
use mathlib.Core.Option.{some-injective}
use operating_systems_iitkgp.Foothread.Mutex.{
  Mutex, mutex_init, Place, idle, waiting, got, marked, signed, holding, checked, posting, exited,
  Own, lock, lock_fails, acquire, mark, sign_pid, sign_tid, unlock, unlock_fails, clear, post,
  System, Reach, IsOrderly, begun, stepped, stray_checked, stray_posting,
}

-- From `sem_wait` to `sem_post`.
abbrev pub holds : Place → ℕ
holds p = elim p [
  | idle ↦ 0
  | waiting ↦ 0
  | exited ↦ 0
  | stray_checked ↦ 0
  | stray_posting ↦ 0
  | _ ↦ 1
]

-- What the mutex says while the thread `tid` stands at a place.
abbrev pub Fits : ℕ → ℕ → Mutex → Place → Type 0
Fits pid tid m p = elim p [
  | marked ↦ m.is_locked ≡ true
  | signed ↦ (m.is_locked ≡ true) × (m.owner_pid ≡ pid)
  | holding ↦ (m.is_locked ≡ true) × (m.owner_pid ≡ pid) × (m.owner_tid ≡ tid)
  | exited ↦ ⊥
  | _ ↦ Unit
]

pub record Inv (pid : ℕ) (s : System) : Type 0 where
  pub live : s.mutex.is_live ≡ true
  pub one_holder : s.mutex.sem + sum_rows holds (length s.threads) s.threads ≡ 1
  pub fits : (i : ℕ) (p : Place) → get_elem? s.threads i ≡ some p → Fits pid i s.mutex p

Own-live :
    {pid tid : ℕ} {m m' : Mutex} {p q : Place}
    → Own pid tid m p m' q
    → m.is_live ≡ true
    → m'.is_live ≡ true
Own-live (lock h) l = l
Own-live (lock_fails h) l = l
Own-live (acquire h) l = l
Own-live mark l = l
Own-live sign_pid l = l
Own-live sign_tid l = l
Own-live (unlock h k o t) l = l
Own-live (unlock_fails h) l = l
Own-live clear l = l
Own-live post l = l

Own-holds :
    {pid tid : ℕ} {m m' : Mutex} {p q : Place}
    → Own pid tid m p m' q
    → Fits pid tid m p
    → m.is_live ≡ true
    → m'.sem + holds q ≡ m.sem + holds p
Own-holds (lock h) f l = ground arith
Own-holds (lock_fails h) f l = ground arith
Own-holds (acquire h) f l = ground arith
Own-holds mark f l = ground arith
Own-holds sign_pid f l = ground arith
Own-holds sign_tid f l = ground arith
Own-holds (unlock h k o t) f l = ground arith
Own-holds (unlock_fails h) f l = ground arith
Own-holds clear f l = ground arith
Own-holds post f l = ground arith

Own-Fits :
    {pid tid : ℕ} {m m' : Mutex} {p q : Place}
    → Own pid tid m p m' q
    → Fits pid tid m p
    → m.is_live ≡ true
    → Fits pid tid m' q
Own-Fits (lock h) f l = ground arith
Own-Fits (lock_fails h) f l = ground arith
Own-Fits (acquire h) f l = ground arith
Own-Fits mark f l = ground arith
Own-Fits sign_pid f l = ground arith
Own-Fits sign_tid f l = ground arith
Own-Fits (unlock h k o t) f l = ground arith
Own-Fits (unlock_fails h) f l = ground arith
Own-Fits clear f l = ground arith
Own-Fits post f l = ground arith

-- The step of a thread does not disturb another one, of which only one can hold the mutex.
Fits-other :
    {pid tid : ℕ} {m m' : Mutex} {p q : Place} (other : ℕ) (r : Place)
    → Own pid tid m p m' q
    → holds p + holds r ≤ 1
    → Fits pid other m r
    → Fits pid other m' r
Fits-other other idle mv one f = tt
Fits-other other waiting mv one f = tt
Fits-other other got mv one f = tt
Fits-other other marked (lock h) one f = f
Fits-other other marked (lock_fails h) one f = f
Fits-other other marked (acquire h) one f = f
Fits-other other marked mark one f = absurd (omega arith)
Fits-other other marked sign_pid one f = absurd (omega arith)
Fits-other other marked sign_tid one f = absurd (omega arith)
Fits-other other marked (unlock h k o t) one f = absurd (omega arith)
Fits-other other marked (unlock_fails h) one f = absurd (omega arith)
Fits-other other marked clear one f = absurd (omega arith)
Fits-other other marked post one f = absurd (omega arith)
Fits-other other signed (lock h) one f = f
Fits-other other signed (lock_fails h) one f = f
Fits-other other signed (acquire h) one f = f
Fits-other other signed mark one f = absurd (omega arith)
Fits-other other signed sign_pid one f = absurd (omega arith)
Fits-other other signed sign_tid one f = absurd (omega arith)
Fits-other other signed (unlock h k o t) one f = absurd (omega arith)
Fits-other other signed (unlock_fails h) one f = absurd (omega arith)
Fits-other other signed clear one f = absurd (omega arith)
Fits-other other signed post one f = absurd (omega arith)
Fits-other other holding (lock h) one f = f
Fits-other other holding (lock_fails h) one f = f
Fits-other other holding (acquire h) one f = f
Fits-other other holding mark one f = absurd (omega arith)
Fits-other other holding sign_pid one f = absurd (omega arith)
Fits-other other holding sign_tid one f = absurd (omega arith)
Fits-other other holding (unlock h k o t) one f = absurd (omega arith)
Fits-other other holding (unlock_fails h) one f = absurd (omega arith)
Fits-other other holding clear one f = absurd (omega arith)
Fits-other other holding post one f = absurd (omega arith)
Fits-other other checked mv one f = tt
Fits-other other posting mv one f = tt
Fits-other other exited mv one f = f
Fits-other other stray_checked mv one f = tt
Fits-other other stray_posting mv one f = tt

Step-Inv :
    {pid : ℕ} (s : System) (i : ℕ) {p q : Place} {m : Mutex}
    → Inv pid s
    → get_elem? s.threads i ≡ some p
    → Own pid i s.mutex p m q
    → Inv pid (record { mutex = m; threads = set s.threads i q })
Step-Inv {pid} s i {p} {q} {m} v e mv = record {
  live = Own-live mv v.live;
  one_holder = rw (length-set s.threads i q) (
      omega (
        arith,
        v.one_holder,
        Own-holds mv (v.fits i p e) v.live,
        sum_rows-set holds (length s.threads) s.threads i q (get_elem?-lt s.threads i e) e,
      ));
  fits = λ j r here. elim (set-cases s.threads i j q here) [
    | inl (same, eq) ↦
        subst (Fits pid j m) (sym eq)
          (subst (λ k. Fits pid k m q) same (Own-Fits mv (v.fits i p e) v.live))
    | inr (ne, there) ↦
        Fits-other j r mv
          (omega (arith, v.one_holder, add-le-sum_all holds s.threads i j ne e there))
          (v.fits j r there)
  ];
}

begin-Fits :
    (pid n : ℕ) (m : Mutex) (i k : ℕ) (p : Place)
    → get_elem? (replicate n idle) i ≡ some p
    → Fits pid k m p
begin-Fits pid zero m i k p e = cc
begin-Fits pid (suc n) m zero k p e = subst (Fits pid k m) (some-injective idle p e) tt
begin-Fits pid (suc n) m (suc i) k p e = begin-Fits pid n m i k p e

begin-holds : (n : ℕ) → sum_rows holds (length (replicate n idle)) (replicate n idle) ≡ 0
begin-holds zero = refl
begin-holds (suc n) = omega (arith, begin-holds n)

pub Reach-Inv : {pid n : ℕ} {s : System} {r : Reach pid n s} → IsOrderly s r → Inv pid s
Reach-Inv {pid} {n} (begun m) = record {
  live = refl;
  one_holder = omega (arith, begin-holds n);
  fits = λ i p e. begin-Fits pid n (mutex_init m) i i p e;
}
Reach-Inv (stepped {s} i o e mv) = Step-Inv s i (Reach-Inv o) e mv

-- Whatever the order of their steps, in a run in which no thread locks the mutex while it holds it, or
-- unlocks it while it does not, two threads are never both between `sem_wait` and `sem_post` of their
-- calls.
pub mutual_exclusion :
    {pid n : ℕ} {s : System} (i j : ℕ) {p q : Place} (r : Reach pid n s)
    → IsOrderly s r
    → get_elem? s.threads i ≡ some p
    → get_elem? s.threads j ≡ some q
    → holds p ≡ 1
    → holds q ≡ 1
    → i ≡ j
mutual_exclusion {s} i j r o e d h k = elim (ℕ_discrete i j) [
  | yes same ↦ same
  | no ne ↦
      absurd (omega (arith, (Reach-Inv o).one_holder, add-le-sum_all holds s.threads i j ne e d))
]

-- In a run in which no thread locks the mutex while it holds it, or unlocks it while it does not, a
-- thread that has locked the mutex passes all tests of its unlock: the mutex is live and locked, and
-- names the thread as its owner.
pub holder_owns :
    {pid n : ℕ} {s : System} (i : ℕ) (r : Reach pid n s)
    → IsOrderly s r
    → get_elem? s.threads i ≡ some holding
    → (s.mutex.is_live ≡ true)
      × (s.mutex.is_locked ≡ true)
      × (s.mutex.owner_pid ≡ pid)
      × (s.mutex.owner_tid ≡ i)
holder_owns i r o e = let v = Reach-Inv o in let f = v.fits i holding e in (v.live, f.0, f.1, f.2)
