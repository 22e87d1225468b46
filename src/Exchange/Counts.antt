-- ===== src/Exchange/Counts.antt =====
-- The counts that the consumers print in the end, and who takes an item.
use operating_systems_iitkgp.Base.{
  get_elem?-replicate_eq, ℕ, ◌≡◌, refl, sym, subst, ap, Bool-cases, ◌⊎◌, inl, inr, true, false,
  List, [], some, arith, get_elem?, replicate,
}
use operating_systems_iitkgp.Base.Int.{pos}
use operating_systems_iitkgp.Exchange.{
  Stage, tests_end, reads, frees, finished, Consumer, Producer, waits, claims, stores, drains,
  closes, done, Exchange, is_for, setup_exchange, Reach, start, produces, consumes,
}
use operating_systems_iitkgp.Exchange.Invariant.{
  storing, takes, leaves, ended, out_of_items, Local, Inv, is_for_unique, is_for-is_closed,
  owed_none,
}
use operating_systems_iitkgp.Exchange.Consume.{consume-Inv}
use operating_systems_iitkgp.Exchange.Produce.{produce-Inv}

abbrev fresh : Consumer
fresh = record { stage = tests_end; item_cnt = 0; checksum = 0 }

fresh-Local : (m c : ℕ) → Local (pos 0) waits (replicate m 0) c fresh
fresh-Local m c = record {
  own = λ h. cc;
  left = λ h. cc;
  count = λ d q. let none_yet : d ≡ 0 = get_elem?-replicate_eq m 0 c q in omega arith;
}

setup-Inv : (n : ℕ) (items : List (ℕ × ℕ)) → Inv (setup_exchange n items)
unfolding setup_exchange
setup-Inv n items = record {
  found = λ h. cc;
  end = λ h. cc;
  closed = λ h. cc;
  items = λ h. cc;
  each = λ c k h.
      subst (λ j. Local (pos 0) waits (replicate n 0) c j)
        (sym (get_elem?-replicate_eq n fresh c h)) (fresh-Local n c);
}

Reach-Inv : (n : ℕ) (items : List (ℕ × ℕ)) (s : Exchange) → Reach n items s → Inv s
Reach-Inv n items _ start = setup-Inv n items
Reach-Inv n items _ (produces r h) = produce-Inv _ _ (Reach-Inv n items _ r) h
Reach-Inv n items _ (consumes c r h) = consume-Inv _ _ c (Reach-Inv n items _ r) h

ended_done : (p : Producer) → ended p ≡ true → p ≡ done
ended_done waits h = cc
ended_done (claims x c) h = cc
ended_done (stores x c) h = cc
ended_done drains h = cc
ended_done closes h = cc
ended_done done h = refl

-- In any order of the steps: when a consumer has left its loop, the producer has handed out all items
-- and written -1, and the consumer has read as many items as the producer has counted for it.
pub finished_count :
    (n : ℕ) (items : List (ℕ × ℕ)) (s : Exchange) (c d : ℕ) (k : Consumer)
    → Reach n items s
    → get_elem? s.consumers c ≡ some k
    → k.stage ≡ finished
    → get_elem? s.item_cnt c ≡ some d
    → (s.producer ≡ done) × (s.items ≡ []) × (k.item_cnt ≡ d)
finished_count n items s c d k r at e at_d =
    let v = Reach-Inv n items s r in
    let l = v.each c k at in
    let shut = l.left (ap leaves e) in
    let closed_by = ended_done s.producer (v.closed shut) in
    let none_stored : storing s.producer c ≡ 0 = ap (λ p. storing p c) closed_by in
    let nobody : is_for s.m0 c ≡ false = elim (Bool-cases (is_for s.m0 c)) [
      | inl y ↦ let open_still = is_for-is_closed s.m0 c y in cc
      | inr z ↦ z
    ] in
    (
      closed_by,
      v.items (ap out_of_items closed_by),
      omega (arith, l.count d at_d, none_stored, owed_none s.m0 c k.stage nobody),
    )

-- In any order of the steps: of the consumers that have found their number in M[0] and not freed it
-- yet, there is one at most.
pub one_taker :
    (n : ℕ) (items : List (ℕ × ℕ)) (s : Exchange) (c d : ℕ) (k j : Consumer)
    → Reach n items s
    → get_elem? s.consumers c ≡ some k
    → get_elem? s.consumers d ≡ some j
    → (k.stage ≡ reads) ⊎ (k.stage ≡ frees)
    → (j.stage ≡ reads) ⊎ (j.stage ≡ frees)
    → c ≡ d
one_taker n items s c d k j r at_c at_d takes_c takes_d =
    let v = Reach-Inv n items s r in
    is_for_unique s.m0 c d ((v.each c k at_c).own (taking k.stage takes_c))
      ((v.each d j at_d).own (taking j.stage takes_d))
  where
    taking : (t : Stage) → (t ≡ reads) ⊎ (t ≡ frees) → takes t ≡ true
    taking t (inl e) = ap takes e
    taking t (inr e) = ap takes e
