-- ===== src/Exchange/Tests.antt =====
-- The theorems about the producer and the consumers at concrete runs, and a run that shows a race.
use mathlib.Core.Option.{some-injective}
use operating_systems_iitkgp.Base.{
  ℕ, ◌≡◌, refl, sym, subst, ◌∙◌, inl, inr, List, [], ◌∷◌, Option, none, some, ◌>>=◌, Option-cases,
}
use operating_systems_iitkgp.Base.Int.{pos, negsuc}
use operating_systems_iitkgp.Exchange.{
  finished, reads, done, stores, Exchange, setup_exchange, next_item, produce_at, produce,
  consume_at, consume, Reach, start, produces, consumes,
}
use operating_systems_iitkgp.Exchange.Counts.{finished_count, one_taker}

-- A step of a consumer, or of the producer (`none`), and several of them.
abbrev act : Exchange → Option ℕ → Option Exchange
act s none = produce s
act s (some c) = consume s c

abbrev acts : List (Option ℕ) → Exchange → Option Exchange
acts [] s = some s
acts (x ∷ xs) s = act s x >>= acts xs

act-Reach :
    (n : ℕ) (items : List (ℕ × ℕ)) (s s' : Exchange) (x : Option ℕ)
    → Reach n items s
    → act s x ≡ some s'
    → Reach n items s'
act-Reach n items s s' none r h = produces r h
act-Reach n items s s' (some c) r h = consumes c r h

acts-Reach :
    (n : ℕ) (items : List (ℕ × ℕ)) (xs : List (Option ℕ)) (s s' : Exchange)
    → Reach n items s
    → acts xs s ≡ some s'
    → Reach n items s'
acts-Reach n items [] s s' r h = subst (Reach n items) (some-injective s s' h) r
acts-Reach n items (x ∷ xs) s s' r h = elim (Option-cases (act s x)) [
  | inl z ↦ let stays : acts (x ∷ xs) s ≡ none = rw (z) refl in cc
  | inr (m, z) ↦
      let went : acts (x ∷ xs) s ≡ acts xs m = rw (z) refl in
      acts-Reach n items xs m s' (act-Reach n items s m x r z) (sym went ∙ h)
]

abbrev one : List (ℕ × ℕ)
one = (150, 0) ∷ []

-- The consumer reads M[1] between the two writes of the producer.
abbrev early : List (Option ℕ)
early = none ∷ none ∷ some 0 ∷ some 0 ∷ []

abbrev reading : Exchange
reading = record {
  m0 = pos 1;
  m1 = 0;
  producer = stores 150 0;
  items = [];
  item_cnt = 0 ∷ [];
  checksum = 0 ∷ [];
  consumers = record { stage = reads; item_cnt = 0; checksum = 0 } ∷ [];
}

early_run : acts early (setup_exchange 1 one) ≡ some reading
unfolding setup_exchange next_item produce_at produce consume_at consume
early_run = refl

abbrev late : List (Option ℕ)
late = some 0 ∷ some 0 ∷ none ∷ none ∷ none ∷ none ∷ some 0 ∷ []

-- The sums differ in the end: 150 was handed out, and 0 was read.
abbrev raced : Exchange
raced = record {
  m0 = negsuc 0;
  m1 = 150;
  producer = done;
  items = [];
  item_cnt = 1 ∷ [];
  checksum = 150 ∷ [];
  consumers = record { stage = finished; item_cnt = 1; checksum = 0 } ∷ [];
}

late_run : acts late reading ≡ some raced
unfolding next_item produce_at produce consume_at consume
late_run = refl

reading-Reach : Reach 1 one reading
reading-Reach = acts-Reach 1 one early (setup_exchange 1 one) reading start early_run

finished_count_example : (raced.producer ≡ done) × (raced.items ≡ []) × (◌≡◌ {A = ℕ} 1 1)
finished_count_example =
    finished_count 1 one raced 0 1 _ (acts-Reach 1 one late reading raced reading-Reach late_run)
      refl refl refl

one_taker_example : ◌≡◌ {A = ℕ} 0 0
one_taker_example = one_taker 1 one reading 0 0 _ _ reading-Reach refl refl (inl refl) (inl refl)
