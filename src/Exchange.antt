-- ===== src/Exchange.antt =====
-- Assignment 4: prodcons.c, where a producer hands items to n consumers through two shared words.
-- A step is one access of one process to the shared words, in the order of the source. A process that
-- finds nothing to do in a loop that only reads goes on reading, which is no step. Counts and sums do
-- not wrap around. An item is its number and its consumer from 0 on, as the random numbers give them.
pub mod Invariant
pub mod Consume
pub mod Produce
pub mod Counts
mod Tests
use operating_systems_iitkgp.Base.{
  ℕ, zero, suc, ◌+◌, ◌≡◌, Bool, true, false, List, [], ◌∷◌, Option, none, some, ◌==◌, if◌then◌else◌,
  ◌>>=◌, get_elem?, set, replicate,
}
use operating_systems_iitkgp.Base.Int.{ℤ, pos, negsuc}

-- The next access of a consumer: the test of the outer loop, that of the inner one, the test for -1 in
-- its body, the read of M[1], and the write of 0 to M[0].
pub data Stage : Type 0 where
  tests_end tests_turn tests_flag reads frees finished : Stage

pub record Consumer : Type 0 where
  pub stage : Stage
  pub item_cnt : ℕ
  pub checksum : ℕ

-- The next access of the producer: the test for the next item, the write of M[0], that of M[1], and at
-- the end the test and the write of -1.
pub data Producer : Type 0 where
  waits : Producer
  claims stores : (rand_no consumer : ℕ) → Producer
  drains closes done : Producer

-- `m0` and `m1` are M[0] and M[1]; `item_cnt` and `checksum` are the arrays of the producer.
pub record Exchange : Type 0 where
  pub m0 : ℤ
  pub m1 : ℕ
  pub producer : Producer
  pub items : List (ℕ × ℕ)
  pub item_cnt : List ℕ
  pub checksum : List ℕ
  pub consumers : List Consumer

abbrev pub is_free : ℤ → Bool
is_free (pos zero) = true
is_free (pos (suc c)) = false
is_free (negsuc n) = false

-- `M[0] == consumer_no`, for the consumer of number c + 1.
abbrev pub is_for : ℤ → ℕ → Bool
is_for (pos zero) c = false
is_for (pos (suc d)) c = d == c
is_for (negsuc n) c = false

abbrev pub is_closed : ℤ → Bool
is_closed (pos n) = false
is_closed (negsuc zero) = true
is_closed (negsuc (suc n)) = false

pub setup_exchange : ℕ → List (ℕ × ℕ) → Exchange
setup_exchange n items = record {
  m0 = pos 0;
  m1 = 0;
  producer = waits;
  items = items;
  item_cnt = replicate n 0;
  checksum = replicate n 0;
  consumers = replicate n (record { stage = tests_end; item_cnt = 0; checksum = 0 });
}

module _ (s : Exchange) where
  -- The loop over the items, from the test of M[0] on.
  pub next_item : List (ℕ × ℕ) → Option Exchange
  next_item [] = some (record s { producer = drains })
  next_item ((rand_no, c) ∷ items) =
      if is_free s.m0 then some (record s { producer = claims rand_no c; items = items }) else none

  pub produce_at : Producer → Option Exchange
  unfolding next_item
  produce_at waits = next_item s.items
  produce_at (claims rand_no c) = some (record s { m0 = pos (suc c); producer = stores rand_no c })
  produce_at (stores rand_no c) = do
    cnt ← get_elem? s.item_cnt c
    sum ← get_elem? s.checksum c
    some (record s {
      m1 = rand_no;
      producer = waits;
      item_cnt = set s.item_cnt c (cnt + 1);
      checksum = set s.checksum c (sum + rand_no);
    })
  produce_at drains = if is_free s.m0 then some (record s { producer = closes }) else none
  produce_at closes = some (record s { m0 = negsuc 0; producer = done })
  produce_at done = none

  abbrev pub at_stage : ℕ → Consumer → Stage → Exchange
  at_stage c k stage = record s { consumers = set s.consumers c (record k { stage = stage }) }

  pub consume_at : ℕ → Consumer → Stage → Option Exchange
  consume_at c k tests_end = some (at_stage c k (if is_closed s.m0 then finished else tests_turn))
  consume_at c k tests_turn = some (at_stage c k (if is_for s.m0 c then reads else tests_flag))
  consume_at c k tests_flag = some (at_stage c k (if is_closed s.m0 then finished else tests_turn))
  consume_at c k reads = some (record s {
    consumers =
        set s.consumers c
          (record { stage = frees; item_cnt = k.item_cnt + 1; checksum = k.checksum + s.m1 });
  })
  consume_at c k frees =
      some (record s { m0 = pos 0; consumers = set s.consumers c (record k { stage = tests_end }) })
  consume_at c k finished = none

pub produce : Exchange → Option Exchange
unfolding produce_at
produce s = produce_at s s.producer

pub consume : Exchange → ℕ → Option Exchange
unfolding consume_at
consume s c = do k ← get_elem? s.consumers c; consume_at s c k k.stage

-- What the producer and n consumers reach, in any order of their steps.
pub data Reach (n : ℕ) (items : List (ℕ × ℕ)) : Exchange → Type 0 where
  start : Reach n items (setup_exchange n items)
  produces : {s s' : Exchange} → Reach n items s → produce s ≡ some s' → Reach n items s'
  consumes : {s s' : Exchange} (c : ℕ) → Reach n items s → consume s c ≡ some s' → Reach n items s'
