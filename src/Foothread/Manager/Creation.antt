-- ===== src/Foothread/Manager/Creation.antt =====
-- foothread_create keeps the invariant.
use mathlib.Core.Option.{some-injective}
use operating_systems_iitkgp.Base.{
  ℕ, ◌≡◌, ◌≢◌, refl, sym, ap, ◌∙◌, inl, inr, Bool, true, false, not, [], ◌∷◌, ◌++◌, Option, none,
  some, arith, ◌==◌, if◌then◌else◌, length, length-append, All-append, Bool-cases,
}
use operating_systems_iitkgp.Foothread.Manager.{
  threads_max, Attr, Slot, Manager, initialised, valid_attr, attr_of, create, Main,
}
use operating_systems_iitkgp.Foothread.Manager.Joining.{Fair, Inv, Joined-append, grown}

initialised-slots :
    (m : Manager) → (m.init_done ≡ false → m.slots ≡ []) → (initialised m).slots ≡ m.slots
initialised-slots m h = elim (Bool-cases m.init_done) [
  | inl y ↦ rw (y) refl
  | inr z ↦ rw (z) (sym (h z))
]

initialised-init_done : (m : Manager) → (initialised m).init_done ≡ true
initialised-init_done m = elim (Bool-cases m.init_done) [
  | inl y ↦ rw (y) refl
  | inr z ↦ rw (z) refl
]

abbrev pub new_slot : ℕ → Option Attr → ℕ → Slot
new_slot pid attr tid = record {
  pid = pid;
  tid = tid;
  attr = attr_of attr;
  sem = 0;
  live = 1;
  exits = 0;
}

-- A call that returns has found room for the thread and has put it behind the others.
pub create-append :
    (pid : ℕ) (thread : Bool) (attr : Option Attr) (stack : Bool) (clone : Option ℕ)
    (m m' : Manager)
    → create pid thread attr stack clone m ≡ some m'
    → (tid : ℕ) × (length (initialised m).slots ≢ threads_max)
      × (m'
          ≡ record (initialised m) { slots = (initialised m).slots ++ new_slot pid attr tid ∷ [] })
unfolding create
create-append pid false attr stack clone m m' h = cc
create-append pid true attr stack clone m m' h = elim (Bool-cases (valid_attr attr)) [
  | inr bad ↦ let stays : create pid true attr stack clone m ≡ none = rw (bad) refl in cc
  | inl good ↦ allocated stack clone (sym (unchecked good) ∙ h)
]
  where
    checked : Bool → Option ℕ → Option Manager
    checked stack clone =
        if not stack
        then none
        else if length (initialised m).slots == threads_max
        then none
        else elim clone [
          | none ↦ none
          | some tid ↦ some (record (initialised m) {
            slots = (initialised m).slots ++ new_slot pid attr tid ∷ [];
          })
        ]

    unchecked : valid_attr attr ≡ true → create pid true attr stack clone m ≡ checked stack clone
    unchecked good = rw (good) refl

    allocated :
        (stack : Bool) (clone : Option ℕ)
        → checked stack clone ≡ some m'
        → (tid : ℕ) × (length (initialised m).slots ≢ threads_max)
          × (m' ≡ record (initialised m) {
            slots = (initialised m).slots ++ new_slot pid attr tid ∷ [];
          })
    allocated false clone h = cc
    allocated true none h = elim (Bool-cases (length (initialised m).slots == threads_max)) [
      | inl full ↦ let stays : checked true none ≡ none = rw (full) refl in cc
      | inr room ↦ let stays : checked true none ≡ none = rw (room) refl in cc
    ]
    allocated true (some tid) h = elim (Bool-cases (length (initialised m).slots == threads_max)) [
      | inl full ↦ let stays : checked true (some tid) ≡ none = rw (full) refl in cc
      | inr room ↦
          let went : checked true (some tid)
              ≡ some (record (initialised m) {
                slots = (initialised m).slots ++ new_slot pid attr tid ∷ [];
              }) =
            rw (room) refl in
          (tid, (λ q. ground arith), some-injective m' _ (sym h ∙ went))
    ]

pub create-Inv :
    (pid tid : ℕ) (attr : Option Attr) (m : Manager) (main : Main)
    → Inv pid m main
    → length (initialised m).slots ≢ threads_max
    → Inv pid
        (record (initialised m) { slots = (initialised m).slots ++ new_slot pid attr tid ∷ [] })
        main
create-Inv pid tid attr m main v room =
    let same = initialised-slots m v.fresh in
    let room_left : length m.slots ≢ threads_max = λ q. room (ap length same ∙ q) in
    rw (same) (record {
      fair = All-append Fair m.slots (new_slot pid attr tid ∷ []) v.fair (refl, tt);
      bound = omega (arith, length-append {0} m.slots (new_slot pid attr tid ∷ []), v.bound);
      fresh = λ h. let on = initialised-init_done m in cc;
      progress =
          grown pid m.slots _ main
            (omega (arith, length-append {0} m.slots (new_slot pid attr tid ∷ [])))
            (λ i low j. Joined-append pid i m.slots (new_slot pid attr tid) low j) v.progress;
    })
