-- ===== src/Exchange/Produce.antt =====
-- Every step of the producer keeps the invariant.
use mathlib.Core.Option.{some-injective}
use operating_systems_iitkgp.Base.{
  same_step, ℕ, suc, ◌+◌, ◌≡◌, ◌≢◌, refl, sym, ap, ◌∙◌, inl, inr, true, false, List, [], ◌∷◌, none,
  some, arith, ◌==◌, get_elem?, get_elem?-lt, get_elem?-set_self, get_elem?-set_ne, set, Bool-cases,
  Option-cases,
}
use operating_systems_iitkgp.Base.Int.{pos, negsuc}
use operating_systems_iitkgp.Exchange.{
  Consumer, Producer, waits, claims, stores, drains, closes, done, Exchange, is_free, next_item,
  produce_at, produce,
}
use operating_systems_iitkgp.Exchange.Invariant.{
  storing, takes, leaves, found_free, ended, out_of_items, Inv, is_free-is_for, is_free-is_closed,
  owed_none, owed_one,
}

module _ (s : Exchange) (v : Inv s) where
  -- A step of the producer that writes nothing.
  passed :
      (p : Producer) (items : List (ℕ × ℕ))
      → ((c : ℕ) → storing p c ≡ storing s.producer c)
      → (found_free p ≡ true → is_free s.m0 ≡ true)
      → ended p ≡ false
      → ended s.producer ≡ false
      → (out_of_items p ≡ true → items ≡ [])
      → Inv (record s { producer = p; items = items })
  passed p items same found on was_on empty = record {
    found = found;
    end = λ h. cc;
    closed = λ h. let shut = v.closed h in cc;
    items = empty;
    each = λ c k at.
        let l = v.each c k at in
        record { own = l.own; left = l.left; count = λ d q. omega (arith, same c, l.count d q) };
  }

  -- M[0] is free, so that nobody takes.
  nobody :
      (free : is_free s.m0 ≡ true) (c : ℕ) (k : Consumer)
      → get_elem? s.consumers c ≡ some k
      → (takes k.stage ≡ false) × (leaves k.stage ≡ false)
  nobody free c k at =
      let l = v.each c k at in
      let no = is_free-is_for s.m0 c free in
      let open_still = is_free-is_closed s.m0 free in
      (
        elim (Bool-cases (takes k.stage)) [ inl y ↦ let mine = l.own y in cc | inr n ↦ n ],
        elim (Bool-cases (leaves k.stage)) [ inl y ↦ let shut = l.left y in cc | inr n ↦ n ],
      )

  claimed :
      (x c : ℕ)
      → s.producer ≡ claims x c
      → Inv (record s { m0 = pos (suc c); producer = stores x c })
  claimed x c e =
      let free = v.found (ap found_free e) in
      record {
        found = λ h. cc;
        end = λ h. cc;
        closed = λ h. cc;
        items = λ h. cc;
        each = λ d k at.
            let l = v.each d k at in
            let (no_take, no_leave) = nobody free d k at in
            let before = owed_none s.m0 d k.stage (is_free-is_for s.m0 d free) in
            let was : storing s.producer d ≡ 0 = ap (λ p. storing p d) e in
            record {
              own = λ h. cc;
              left = λ h. cc;
              count = λ n q. elim (Bool-cases (c == d)) [
                | inl y ↦
                    let one : storing (stores x c) d ≡ 1 = rw (y) refl in
                    omega (
                      arith,
                      one,
                      owed_one (pos (suc c)) d k.stage y no_take,
                      before,
                      was,
                      l.count n q,
                    )
                | inr z ↦
                    let zero_there : storing (stores x c) d ≡ 0 = rw (z) refl in
                    omega (
                      arith,
                      zero_there,
                      owed_none (pos (suc c)) d k.stage z,
                      before,
                      was,
                      l.count n q,
                    )
              ];
            };
      }

  stored :
      (x c cnt sum : ℕ)
      → s.producer ≡ stores x c
      → get_elem? s.item_cnt c ≡ some cnt
      → Inv (record s {
        m1 = x;
        producer = waits;
        item_cnt = set s.item_cnt c (cnt + 1);
        checksum = set s.checksum c (sum + x);
      })
  stored x c cnt sum e at_c = record {
    found = λ h. cc;
    end = λ h. cc;
    closed = λ h. let shut = v.closed h in let on : ended s.producer ≡ false = ap ended e in cc;
    items = λ h. cc;
    each = λ d k at.
        let l = v.each d k at in
        record {
          own = l.own;
          left = l.left;
          count = λ n q. elim (Bool-cases (c == d)) [
            | inl y ↦
                let same : c ≡ d = ground arith in
                let new : cnt + 1 ≡ n = some-injective (cnt + 1) n (
                  sym (get_elem?-set_self s.item_cnt c (cnt + 1) (get_elem?-lt s.item_cnt c at_c))
                  ∙ ap (λ i. get_elem? (set s.item_cnt c (cnt + 1)) i) same
                  ∙ q) in
                let was : storing s.producer d ≡ 1 = ap (λ p. storing p d) e ∙ rw (y) refl in
                omega (
                  arith,
                  new,
                  was,
                  l.count cnt (ap (λ i. get_elem? s.item_cnt i) (sym same) ∙ at_c),
                )
            | inr z ↦
                let apart : c ≢ d = λ q. ground arith in
                let was : storing s.producer d ≡ 0 = ap (λ p. storing p d) e ∙ rw (z) refl in
                omega (
                  arith,
                  was,
                  l.count n (sym (get_elem?-set_ne s.item_cnt c d (cnt + 1) apart) ∙ q),
                )
          ];
        };
  }

  ends : s.producer ≡ closes → Inv (record s { m0 = negsuc 0; producer = done })
  ends e =
      let free = v.found (ap found_free e) in
      record {
        found = λ h. cc;
        end = λ h. refl;
        closed = λ h. refl;
        items = λ h. v.items (ap out_of_items e);
        each = λ d k at.
            let l = v.each d k at in
            let (no_take, no_leave) = nobody free d k at in
            let before = owed_none s.m0 d k.stage (is_free-is_for s.m0 d free) in
            let was : storing s.producer d ≡ 0 = ap (λ p. storing p d) e in
            record {
              own = λ h. cc;
              left = λ h. refl;
              count = λ n q.
                  omega (arith, owed_none (negsuc 0) d k.stage refl, before, was, l.count n q);
            };
      }

  next_item-Inv :
      (s' : Exchange) (items : List (ℕ × ℕ))
      → s.producer ≡ waits
      → s.items ≡ items
      → next_item s items ≡ some s'
      → Inv s'
  unfolding next_item
  next_item-Inv s' [] e i h = same_step Inv _ s' refl h (
      passed drains s.items (λ d. ap (λ p. storing p d) (sym e)) (λ q. cc) refl (ap ended e)
        (λ q. i))
  next_item-Inv s' ((x, c) ∷ items) e i h = elim (Bool-cases (is_free s.m0)) [
    | inl z ↦
        let went : next_item s ((x, c) ∷ items)
            ≡ some (record s { producer = claims x c; items = items }) =
          rw (z) refl in
        same_step Inv _ s' went h (
          passed (claims x c) items (λ d. ap (λ p. storing p d) (sym e)) (λ q. z) refl (ap ended e)
            (λ q. cc))
    | inr z ↦ let stays : next_item s ((x, c) ∷ items) ≡ none = rw (z) refl in cc
  ]

  produce_at-Inv :
      (s' : Exchange) (p : Producer) → s.producer ≡ p → produce_at s p ≡ some s' → Inv s'
  unfolding produce_at
  produce_at-Inv s' waits e h = next_item-Inv s' s.items e refl h
  produce_at-Inv s' (claims x c) e h = same_step Inv _ s' refl h (claimed x c e)
  produce_at-Inv s' (stores x c) e h = elim (Option-cases (get_elem? s.item_cnt c)) [
    | inl z ↦ let stays : produce_at s (stores x c) ≡ none = rw (z) refl in cc
    | inr (cnt, z) ↦ elim (Option-cases (get_elem? s.checksum c)) [
      | inl y ↦ let stays : produce_at s (stores x c) ≡ none = rw (z, y) refl in cc
      | inr (sum, y) ↦
          let went : produce_at s (stores x c)
              ≡ some (record s {
                m1 = x;
                producer = waits;
                item_cnt = set s.item_cnt c (cnt + 1);
                checksum = set s.checksum c (sum + x);
              }) =
            rw (z, y) refl in
          same_step Inv _ s' went h (stored x c cnt sum e z)
    ]
  ]
  produce_at-Inv s' drains e h = elim (Bool-cases (is_free s.m0)) [
    | inl z ↦
        let went : produce_at s drains ≡ some (record s { producer = closes }) = rw (z) refl in
        same_step Inv _ s' went h (
          passed closes s.items (λ d. ap (λ p. storing p d) (sym e)) (λ q. z) refl (ap ended e)
            (λ q. v.items (ap out_of_items e)))
    | inr z ↦ let stays : produce_at s drains ≡ none = rw (z) refl in cc
  ]
  produce_at-Inv s' closes e h = same_step Inv _ s' refl h (ends e)
  produce_at-Inv s' done e h = cc

pub produce-Inv : (s s' : Exchange) → Inv s → produce s ≡ some s' → Inv s'
unfolding produce
produce-Inv s s' v h = produce_at-Inv s v s' s.producer refl h
