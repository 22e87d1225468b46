-- ===== src/Exchange/Consume.antt =====
-- Every step of a consumer keeps the invariant.
use operating_systems_iitkgp.Base.{
  same_step, ℕ, ◌+◌, ◌≡◌, refl, sym, ap, ◌∙◌, inl, inr, true, false, none, some, arith, get_elem?,
  set, Bool-cases, Option-cases,
}
use operating_systems_iitkgp.Base.Int.{pos}
use operating_systems_iitkgp.Exchange.{
  Stage, tests_end, tests_turn, tests_flag, reads, frees, finished, Consumer, Exchange, is_for,
  is_closed, at_stage, consume_at, consume,
}
use operating_systems_iitkgp.Exchange.Invariant.{
  owed, takes, leaves, Inv, is_for_unique, is_for-is_closed, owed_none, each_set,
}

module _ (s : Exchange) (v : Inv s) (c : ℕ) (k : Consumer)
    (at : get_elem? s.consumers c ≡ some k) where
  -- A step of a consumer that only reads M[0].
  moved :
      (t : Stage)
      → (takes t ≡ true → is_for s.m0 c ≡ true)
      → (leaves t ≡ true → is_closed s.m0 ≡ true)
      → owed s.m0 c t ≡ owed s.m0 c k.stage
      → Inv (at_stage s c k t)
  moved t own left same = record {
    found = v.found;
    end = v.end;
    closed = v.closed;
    items = v.items;
    each =
        each_set s.m0 s.m0 s.producer s.item_cnt s.consumers c k (record k { stage = t }) at
          (record {
            own = own;
            left = left;
            count = λ d q. omega (arith, same, (v.each c k at).count d q);
          })
          (λ d j e l. l) v.each;
  }

  read :
      k.stage ≡ reads
      → Inv (record s {
        consumers =
            set s.consumers c
              (record { stage = frees; item_cnt = k.item_cnt + 1; checksum = k.checksum + s.m1 });
      })
  read e =
      let l = v.each c k at in
      let mine : is_for s.m0 c ≡ true = l.own (ap takes e) in
      let one : owed s.m0 c reads ≡ 1 = ground arith in
      let was : owed s.m0 c k.stage ≡ owed s.m0 c reads = ap (owed s.m0 c) e in
      record {
        found = v.found;
        end = v.end;
        closed = v.closed;
        items = v.items;
        each =
            each_set s.m0 s.m0 s.producer s.item_cnt s.consumers c k _ at
              (record {
                own = λ h. mine;
                left = λ h. cc;
                count = λ d q. omega (arith, one, was, l.count d q);
              })
              (λ d j e l. l) v.each;
      }

  -- M[0] is for nobody but the consumer that frees it.
  freed :
      k.stage ≡ frees
      → Inv
          (record s { m0 = pos 0; consumers = set s.consumers c (record k { stage = tests_end }) })
  freed e =
      let l = v.each c k at in
      let mine : is_for s.m0 c ≡ true = l.own (ap takes e) in
      let open_still = is_for-is_closed s.m0 c mine in
      let was : owed s.m0 c k.stage ≡ 0 = ap (owed s.m0 c) e in
      record {
        found = λ h. refl;
        end = λ h. let shut = v.end h in cc;
        closed = λ h. cc;
        items = v.items;
        each =
            each_set s.m0 (pos 0) s.producer s.item_cnt s.consumers c k _ at
              (record {
                own = λ h. cc;
                left = λ h. cc;
                count = λ d q. omega (arith, was, l.count d q);
              })
              (λ d j apart o.
                let no : is_for s.m0 d ≡ false = elim (Bool-cases (is_for s.m0 d)) [
                  | inl y ↦ absurd (apart (is_for_unique s.m0 c d mine y))
                  | inr n ↦ n
                ] in
                record {
                  own = λ h. let y = o.own h in cc;
                  left = λ h. let shut = o.left h in cc;
                  count = λ n q. omega (
                    arith,
                    owed_none s.m0 d j.stage no,
                    owed_none (pos 0) d j.stage refl,
                    o.count n q,
                  );
                })
              v.each;
      }

  consume_at-Inv : (s' : Exchange) (t : Stage) → k.stage ≡ t → consume_at s c k t ≡ some s' → Inv s'
  unfolding consume_at
  consume_at-Inv s' tests_end e h = elim (Bool-cases (is_closed s.m0)) [
    | inl z ↦
        let went : consume_at s c k tests_end ≡ some (at_stage s c k finished) = rw (z) refl in
        same_step Inv _ s' went h (moved finished (λ q. cc) (λ q. z) (ap (owed s.m0 c) (sym e)))
    | inr z ↦
        let went : consume_at s c k tests_end ≡ some (at_stage s c k tests_turn) = rw (z) refl in
        same_step Inv _ s' went h (moved tests_turn (λ q. cc) (λ q. cc) (ap (owed s.m0 c) (sym e)))
  ]
  consume_at-Inv s' tests_turn e h = elim (Bool-cases (is_for s.m0 c)) [
    | inl z ↦
        let went : consume_at s c k tests_turn ≡ some (at_stage s c k reads) = rw (z) refl in
        same_step Inv _ s' went h (moved reads (λ q. z) (λ q. cc) (ap (owed s.m0 c) (sym e)))
    | inr z ↦
        let went : consume_at s c k tests_turn ≡ some (at_stage s c k tests_flag) = rw (z) refl in
        same_step Inv _ s' went h (moved tests_flag (λ q. cc) (λ q. cc) (ap (owed s.m0 c) (sym e)))
  ]
  consume_at-Inv s' tests_flag e h = elim (Bool-cases (is_closed s.m0)) [
    | inl z ↦
        let went : consume_at s c k tests_flag ≡ some (at_stage s c k finished) = rw (z) refl in
        same_step Inv _ s' went h (moved finished (λ q. cc) (λ q. z) (ap (owed s.m0 c) (sym e)))
    | inr z ↦
        let went : consume_at s c k tests_flag ≡ some (at_stage s c k tests_turn) = rw (z) refl in
        same_step Inv _ s' went h (moved tests_turn (λ q. cc) (λ q. cc) (ap (owed s.m0 c) (sym e)))
  ]
  consume_at-Inv s' reads e h = same_step Inv _ s' refl h (read e)
  consume_at-Inv s' frees e h = same_step Inv _ s' refl h (freed e)
  consume_at-Inv s' finished e h = cc

pub consume-Inv : (s s' : Exchange) (c : ℕ) → Inv s → consume s c ≡ some s' → Inv s'
unfolding consume
consume-Inv s s' c v h = elim (Option-cases (get_elem? s.consumers c)) [
  | inl z ↦ let stays : consume s c ≡ none = rw (z) refl in cc
  | inr (k, z) ↦
      let went : consume s c ≡ consume_at s c k k.stage = rw (z) refl in
      consume_at-Inv s v c k z s' k.stage refl (sym went ∙ h)
]
