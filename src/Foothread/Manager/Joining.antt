-- ===== src/Foothread/Manager/Joining.antt =====
-- The slots that the main thread has waited for.
use mathlib.Core.Option.{some-injective}
use operating_systems_iitkgp.Base.{
  ℕ, zero, suc, ◌+◌, ◌≤◌, ◌<◌, ◌≡◌, refl, sym, ap, subst, inl, inr, false, ◌&&◌, List, [], ◌∷◌,
  ◌++◌, some, arith, ◌==◌, if◌then◌else◌, length, get_elem?, set, All, Bool-cases,
}
use operating_systems_iitkgp.Foothread.Manager.{
  joinable, threads_max, Slot, Manager, post, Main, runs, joins, ended,
}

abbrev pub taken : ℕ → ℕ
taken live = if live == 0 then 1 else 0

-- Every post is still in the semaphore, or the main thread has taken it.
abbrev pub Fair : Slot → Type 0
Fair s = s.sem + taken s.live ≡ s.exits

abbrev pub Waited : ℕ → Slot → Type 0
Waited pid s = s.pid ≡ pid → s.attr.join_type ≡ joinable → s.live ≡ 0

-- The first `i` slots have been waited for.
abbrev pub Joined : ℕ → ℕ → List Slot → Type 0
Joined pid zero slots = Unit
Joined pid (suc i) [] = Unit
Joined pid (suc i) (s ∷ slots) = Waited pid s × Joined pid i slots

abbrev pub Progress : ℕ → List Slot → Main → Type 0
Progress pid slots runs = Unit
Progress pid slots (joins first i maxt) =
    (i ≤ maxt) × (first ≤ maxt) × (maxt ≤ length slots) × Joined pid i slots
Progress pid slots (ended first i) = (first ≤ i) × (i ≤ length slots) × Joined pid i slots

pub record Inv (pid : ℕ) (m : Manager) (main : Main) : Type 0 where
  pub fair : All Fair m.slots
  pub bound : length m.slots ≤ threads_max
  pub fresh : m.init_done ≡ false → m.slots ≡ []
  pub progress : Progress pid m.slots main

pub Joined-append :
    (pid i : ℕ) (slots : List Slot) (s : Slot)
    → i ≤ length slots
    → Joined pid i slots
    → Joined pid i (slots ++ s ∷ [])
Joined-append pid zero slots s h j = tt
Joined-append pid (suc i) [] s h j = absurd (omega arith)
Joined-append pid (suc i) (x ∷ slots) s h (w, j) = (w, Joined-append pid i slots s (omega arith) j)

pub length-post : (pid tid : ℕ) (slots : List Slot) → length (post pid tid slots) ≡ length slots
unfolding post
length-post pid tid [] = refl
length-post pid tid (s ∷ slots) = elim (Bool-cases (s.live == 0)) [
  | inl z ↦ rw (z) (ap suc (length-post pid tid slots))
  | inr z ↦ elim (Bool-cases (s.pid == pid && s.tid == tid)) [
    | inl y ↦ rw (z, y) refl
    | inr y ↦ rw (z, y) (ap suc (length-post pid tid slots))
  ]
]

pub Joined-post :
    (pid tid i : ℕ) (slots : List Slot) → Joined pid i slots → Joined pid i (post pid tid slots)
unfolding post
Joined-post pid tid zero slots j = tt
Joined-post pid tid (suc i) [] j = tt
Joined-post pid tid (suc i) (s ∷ slots) (w, j) = elim (Bool-cases (s.live == 0)) [
  | inl z ↦ rw (z) (w, Joined-post pid tid i slots j)
  | inr z ↦ elim (Bool-cases (s.pid == pid && s.tid == tid)) [
    | inl y ↦ rw (z, y) (w, j)
    | inr y ↦ rw (z, y) (w, Joined-post pid tid i slots j)
  ]
]

pub Fair-post : (pid tid : ℕ) (slots : List Slot) → All Fair slots → All Fair (post pid tid slots)
unfolding post
Fair-post pid tid [] a = tt
Fair-post pid tid (s ∷ slots) (f, a) = elim (Bool-cases (s.live == 0)) [
  | inl z ↦ rw (z) (f, Fair-post pid tid slots a)
  | inr z ↦ elim (Bool-cases (s.pid == pid && s.tid == tid)) [
    | inl y ↦ rw (z, y) (ground (arith, f), a)
    | inr y ↦ rw (z, y) (f, Fair-post pid tid slots a)
  ]
]

pub Joined-suc :
    (pid i : ℕ) (slots : List Slot) {s : Slot}
    → get_elem? slots i ≡ some s
    → Joined pid i slots
    → Waited pid s
    → Joined pid (suc i) slots
Joined-suc pid i [] h j w = tt
Joined-suc pid zero (x ∷ slots) {s} h j w = (subst (Waited pid) (sym (some-injective x s h)) w, tt)
Joined-suc pid (suc i) (x ∷ slots) h (v, j) w = (v, Joined-suc pid i slots h j w)

pub Joined-set :
    (pid i : ℕ) (slots : List Slot) (s : Slot)
    → Joined pid i slots
    → Waited pid s
    → Joined pid (suc i) (set slots i s)
Joined-set pid i [] s j w = tt
Joined-set pid zero (x ∷ slots) s j w = (w, tt)
Joined-set pid (suc i) (x ∷ slots) s (v, j) w = (v, Joined-set pid i slots s j w)

pub Joined-get :
    (pid i j : ℕ) (slots : List Slot) {s : Slot}
    → Joined pid i slots
    → j < i
    → get_elem? slots j ≡ some s
    → Waited pid s
Joined-get pid zero j slots d h at = absurd (omega arith)
Joined-get pid (suc i) j [] d h at = cc
Joined-get pid (suc i) zero (x ∷ slots) {s} (w, d) h at =
    subst (Waited pid) (some-injective x s at) w
Joined-get pid (suc i) (suc j) (x ∷ slots) (w, d) h at = Joined-get pid i j slots d (omega arith) at

-- The table grows, and what has been waited for stays so.
pub grown :
    (pid : ℕ) (slots slots' : List Slot) (main : Main)
    → length slots ≤ length slots'
    → ((i : ℕ) → i ≤ length slots → Joined pid i slots → Joined pid i slots')
    → Progress pid slots main
    → Progress pid slots' main
grown pid slots slots' runs l k p = tt
grown pid slots slots' (joins first i maxt) l k (a, b, c, j) =
    (a, b, omega arith, k i (omega arith) j)
grown pid slots slots' (ended first i) l k (a, b, j) = (a, omega arith, k i b j)
