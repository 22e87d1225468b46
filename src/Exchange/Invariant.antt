-- ===== src/Exchange/Invariant.antt =====
-- The invariant of the producer and the consumers.
use mathlib.Core.Option.{some-injective}
use operating_systems_iitkgp.Base.{
  ℕ, zero, suc, ◌+◌, ◌≡◌, ◌≢◌, refl, sym, ap, subst, ◌∙◌, inl, inr, Bool, true, false, List, [],
  some, arith, ◌==◌, if◌then◌else◌, get_elem?, get_elem?-lt, get_elem?-set_self, get_elem?-set_ne,
  set, Bool-cases,
}
use operating_systems_iitkgp.Base.Int.{ℤ, pos, negsuc}
use operating_systems_iitkgp.Exchange.{
  Stage, tests_end, tests_turn, tests_flag, reads, frees, finished, Consumer, Producer, waits,
  claims, stores, drains, closes, done, Exchange, is_free, is_for, is_closed,
}

-- The item on M that the consumer has not read yet.
abbrev pub owed : ℤ → ℕ → Stage → ℕ
owed m c tests_end = if is_for m c then 1 else 0
owed m c tests_turn = if is_for m c then 1 else 0
owed m c tests_flag = if is_for m c then 1 else 0
owed m c reads = if is_for m c then 1 else 0
owed m c frees = 0
owed m c finished = if is_for m c then 1 else 0

-- The item that is announced and not yet counted by the producer.
abbrev pub storing : Producer → ℕ → ℕ
storing waits c = 0
storing (claims x d) c = 0
storing (stores x d) c = if d == c then 1 else 0
storing drains c = 0
storing closes c = 0
storing done c = 0

-- The consumer has found its number in M[0], and has not freed it yet.
abbrev pub takes : Stage → Bool
takes tests_end = false
takes tests_turn = false
takes tests_flag = false
takes reads = true
takes frees = true
takes finished = false

abbrev pub leaves : Stage → Bool
leaves tests_end = false
leaves tests_turn = false
leaves tests_flag = false
leaves reads = false
leaves frees = false
leaves finished = true

-- The producer has found M[0] free, and has not written it yet.
abbrev pub found_free : Producer → Bool
found_free waits = false
found_free (claims x d) = true
found_free (stores x d) = false
found_free drains = false
found_free closes = true
found_free done = false

abbrev pub ended : Producer → Bool
ended waits = false
ended (claims x d) = false
ended (stores x d) = false
ended drains = false
ended closes = false
ended done = true

abbrev pub out_of_items : Producer → Bool
out_of_items waits = false
out_of_items (claims x d) = false
out_of_items (stores x d) = false
out_of_items drains = true
out_of_items closes = true
out_of_items done = true

-- What holds of consumer `c`.
pub record Local (m : ℤ) (p : Producer) (counts : List ℕ) (c : ℕ) (k : Consumer) : Type 0 where
  pub own : takes k.stage ≡ true → is_for m c ≡ true
  pub left : leaves k.stage ≡ true → is_closed m ≡ true
  pub count :
      (d : ℕ) → get_elem? counts c ≡ some d → k.item_cnt + owed m c k.stage ≡ d + storing p c

pub record Inv (s : Exchange) : Type 0 where
  pub found : found_free s.producer ≡ true → is_free s.m0 ≡ true
  pub end : ended s.producer ≡ true → is_closed s.m0 ≡ true
  pub closed : is_closed s.m0 ≡ true → ended s.producer ≡ true
  pub items : out_of_items s.producer ≡ true → s.items ≡ []
  pub each :
      (c : ℕ) (k : Consumer)
      → get_elem? s.consumers c ≡ some k
      → Local s.m0 s.producer s.item_cnt c k

pub is_for_unique : (m : ℤ) (c d : ℕ) → is_for m c ≡ true → is_for m d ≡ true → c ≡ d
is_for_unique (pos zero) c d h k = cc
is_for_unique (pos (suc n)) c d h k = ground arith
is_for_unique (negsuc n) c d h k = cc

pub is_for-is_closed : (m : ℤ) (c : ℕ) → is_for m c ≡ true → is_closed m ≡ false
is_for-is_closed (pos n) c h = refl
is_for-is_closed (negsuc n) c h = cc

pub is_free-is_for : (m : ℤ) (c : ℕ) → is_free m ≡ true → is_for m c ≡ false
is_free-is_for (pos zero) c h = refl
is_free-is_for (pos (suc n)) c h = cc
is_free-is_for (negsuc n) c h = cc

pub is_free-is_closed : (m : ℤ) → is_free m ≡ true → is_closed m ≡ false
is_free-is_closed (pos n) h = refl
is_free-is_closed (negsuc n) h = cc

pub owed_none : (m : ℤ) (c : ℕ) (t : Stage) → is_for m c ≡ false → owed m c t ≡ 0
owed_none m c tests_end h = ground arith
owed_none m c tests_turn h = ground arith
owed_none m c tests_flag h = ground arith
owed_none m c reads h = ground arith
owed_none m c frees h = refl
owed_none m c finished h = ground arith

pub owed_one : (m : ℤ) (c : ℕ) (t : Stage) → is_for m c ≡ true → takes t ≡ false → owed m c t ≡ 1
owed_one m c tests_end h k = ground arith
owed_one m c tests_turn h k = ground arith
owed_one m c tests_flag h k = ground arith
owed_one m c reads h k = cc
owed_one m c frees h k = cc
owed_one m c finished h k = ground arith

-- A change to one consumer.
pub each_set :
    (m m' : ℤ) (p : Producer) (counts : List ℕ) (ks : List Consumer) (c : ℕ) (k k' : Consumer)
    → get_elem? ks c ≡ some k
    → Local m' p counts c k'
    → ((d : ℕ) (j : Consumer) → c ≢ d → Local m p counts d j → Local m' p counts d j)
    → ((d : ℕ) (j : Consumer) → get_elem? ks d ≡ some j → Local m p counts d j)
    → (d : ℕ) (j : Consumer) → get_elem? (set ks c k') d ≡ some j
    → Local m' p counts d j
each_set m m' p counts ks c k k' at new others old d j h = elim (Bool-cases (c == d)) [
  | inl same ↦
      let e : c ≡ d = ground arith in
      let here : k' ≡ j = some-injective k' j (
        sym (get_elem?-set_self ks c k' (get_elem?-lt ks c at))
        ∙ ap (λ n. get_elem? (set ks c k') n) e
        ∙ h) in
      subst (λ u. Local m' p counts d u) here (subst (λ n. Local m' p counts n k') e new)
  | inr apart ↦
      let e : c ≢ d = λ q. ground arith in
      others d j e (old d j (sym (get_elem?-set_ne ks c d k' e) ∙ h))
]
