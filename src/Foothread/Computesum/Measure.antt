-- ===== src/Foothread/Computesum/Measure.antt =====
-- How many steps are left in computesum.c.
use operating_systems_iitkgp.Base.Int.{int_max}
use operating_systems_iitkgp.Base.{
  ltb, ℕ, suc, ◌+◌, ◌*◌, ◌≡◌, ◌≢◌, refl, sym, ap, ◌∙◌, Bool, true, false, List, [], ◌∷◌, Option,
  none, some, arith, ◌==◌, if◌then◌else◌, ◌>>=◌, get_elem?, get_elem?-set_ne, set, length, total,
  total-set, same_step,
}
use operating_systems_iitkgp.Foothread.Computesum.{
  Fixed, Place, arrives, waits_children, computes, adds, notifies, waits_parent, exited, Node, Main,
  before, waits, printed, Tree, add, notify, step_at, compute_sum, main_at, run_main, Reach, start,
  threads, mains,
}
use operating_systems_iitkgp.Foothread.Computesum.Steps.{vertex}
use operating_systems_iitkgp.Foothread.Computesum.Totals.{IsFresh}

abbrev steps_left : Place → ℕ
steps_left arrives = 6
steps_left waits_children = 5
steps_left computes = 4
steps_left adds = 3
steps_left notifies = 2
steps_left waits_parent = 1
steps_left exited = 0

abbrev main_left : Main → ℕ
main_left before = 2
main_left waits = 1
main_left (printed x) = 0

abbrev left : List Node → ℕ
left nodes = total (λ v. steps_left v.place) nodes

abbrev Lower : Tree → Tree → Type 0
Lower s s' = (left s'.nodes + 1 ≡ left s.nodes) × (s'.main ≡ s.main)

-- What holds in both branches, and after a read.
either :
    {A : Type 0} (P : Type 0) (b : Bool) (o p : Option A) (y : A)
    → (if b then o else p) ≡ some y
    → (b ≡ true → o ≡ some y → P)
    → (b ≡ false → p ≡ some y → P)
    → P
either P true o p y h if_so if_not = if_so refl h
either P false o p y h if_so if_not = if_not refl h

after_read :
    {A : Type 0} {B : Type 0} (P : Type 0) (o : Option A) (k : A → Option B) (y : B)
    → (o >>= k) ≡ some y
    → ((x : A) → o ≡ some x → k x ≡ some y → P)
    → P
after_read P none k y h next = cc
after_read P (some x) k y h next = next x refl h

module _ (s : Tree) (i : ℕ) (x : Node) (at : get_elem? s.nodes i ≡ some x) where
  own :
      (x' : Node)
      → steps_left x'.place + 1 ≡ steps_left x.place
      → left (set s.nodes i x') + 1 ≡ left s.nodes
  own x' e = omega (arith, total-set (λ v. steps_left v.place) s.nodes i x' at, e)

  -- With a change at the vertex of the parent that leaves its place.
  both :
      (j : ℕ) (u u' x' : Node)
      → get_elem? s.nodes j ≡ some u
      → j ≢ i
      → u'.place ≡ u.place
      → steps_left x'.place + 1 ≡ steps_left x.place
      → left (set (set s.nodes j u') i x') + 1 ≡ left s.nodes
  both j u u' x' at_u ne same e =
      let still : get_elem? (set s.nodes j u') i ≡ some x =
        get_elem?-set_ne s.nodes j i u' ne ∙ at in
      omega (
        arith,
        total-set (λ v. steps_left v.place) s.nodes j u' at_u,
        ap steps_left same,
        total-set (λ v. steps_left v.place) (set s.nodes j u') i x' still,
        e,
      )

module _ (s s' : Tree) (i : ℕ) (f : Fixed) (a b : ℕ) where
  ends_in : {o : Option Tree} (t : Tree) → o ≡ some t → Lower s t → o ≡ some s' → Lower s s'
  ends_in t goes l h = same_step (Lower s) t s' goes h l

  waiting : none ≡ some s' → Lower s s'
  waiting h = cc

  step_at-Lower :
      (p : Place)
      → get_elem? s.nodes i ≡ some (vertex f p a b)
      → step_at s i (vertex f p a b) p ≡ some s'
      → Lower s s'
  unfolding step_at add notify
  step_at-Lower arrives at h = ends_in _ refl (own s i _ at _ refl, refl) h
  step_at-Lower waits_children at h =
      either (Lower s s') (b == f.num_child + 1) _ _ s' h
        (λ _ k. ends_in _ refl (own s i _ at _ refl, refl) k) (λ _ k. waiting k)
  step_at-Lower computes at h =
      either (Lower s s') (f.num_child == 0) _ _ s' h
        (λ _ k. ends_in _ refl (own s i _ at _ refl, refl) k)
        (λ _ k. ends_in _ refl (own s i _ at _ refl, refl) k)
  step_at-Lower adds at h =
      either (Lower s s') (f.parent == i) _ _ s' h
        (λ _ k. ends_in _ refl (own s i _ at _ refl, refl) k)
        (λ z k. after_read (Lower s s') (get_elem? s.nodes f.parent) _ s' k (λ u at_u k'.
          either (Lower s s') (ltb int_max (u.sum + a)) _ _ s' k' (λ _ k''. waiting k'')
            (λ _ k''.
              ends_in _ refl (both s i _ at f.parent u _ _ at_u (λ e. ground arith) refl refl, refl)
                k'')))
  step_at-Lower notifies at h =
      either (Lower s s') (f.parent == i) _ _ s' h
        (λ _ k. ends_in _ refl (own s i _ at _ refl, refl) k)
        (λ z k. after_read (Lower s s') _ _ s' k (λ u at_u k'.
          ends_in _ refl (both s i _ at f.parent u _ _ at_u (λ e. ground arith) refl refl, refl)
            k'))
  step_at-Lower waits_parent at h =
      either (Lower s s') (f.parent == i) _ _ s' h
        (λ _ k.
          either (Lower s s') (s.done == 2) _ _ s' k
            (λ _ k'. ends_in _ refl (own s i _ at _ refl, refl) k') (λ _ k'. waiting k'))
        (λ z k. after_read (Lower s s') (get_elem? s.nodes f.parent) _ s' k (λ u at_u k'.
          either (Lower s s') (u.count == u.fixed.num_child + 1) _ _ s' k'
            (λ _ k''. ends_in _ refl (own s i _ at _ refl, refl) k'') (λ _ k''. waiting k'')))
  step_at-Lower exited at h = cc

compute_sum-Lower : (s s' : Tree) (i : ℕ) → compute_sum s i ≡ some s' → Lower s s'
unfolding compute_sum
compute_sum-Lower s s' i h =
    after_read (Lower s s') (get_elem? s.nodes i) _ s' h
      (λ x at k. step_at-Lower s s' i x.fixed x.sum x.count x.place at k)

nothing_printed : (P : Type 0) (s' : Tree) → none ≡ some s' → P
nothing_printed P s' h = cc

main_at-left :
    (s s' : Tree) (m : Main)
    → s.main ≡ m
    → main_at s m ≡ some s'
    → (s'.nodes ≡ s.nodes) × (main_left s'.main + 1 ≡ main_left s.main)
unfolding main_at
main_at-left s s' before e h =
    let P : Tree → Type 0 = λ t. (t.nodes ≡ s.nodes) × (main_left t.main + 1 ≡ main_left s.main) in
    same_step P _ s' refl h (refl, sym (ap main_left e))
main_at-left s s' waits e h =
    let P : Tree → Type 0 = λ t. (t.nodes ≡ s.nodes) × (main_left t.main + 1 ≡ main_left s.main) in
    either (P s') (s.done == 2) _ _ s' h
      (λ _ k. same_step P _ s' refl k (refl, sym (ap main_left e)))
      (λ _ k. nothing_printed (P s') s' k)
main_at-left s s' (printed x) e h = cc

left-IsFresh : (nodes : List Node) → IsFresh nodes → left nodes ≡ 6 * length nodes
left-IsFresh [] fresh = refl
left-IsFresh (v ∷ nodes) fresh =
    omega (arith, ap steps_left ((fresh 0 v refl).0), left-IsFresh nodes (λ i. fresh (suc i)))

-- All steps taken and all that are left.
pub Reach-left :
    (nodes : List Node) (k : ℕ) (s : Tree)
    → IsFresh nodes
    → Reach nodes k s
    → k + left s.nodes + main_left s.main ≡ 6 * length nodes + 2
unfolding run_main
Reach-left nodes _ _ fresh start = omega (arith, left-IsFresh nodes fresh)
Reach-left nodes _ s' fresh (threads {k} {s} i r h) =
    let (lower, same) = compute_sum-Lower s s' i h in
    omega (arith, Reach-left nodes k s fresh r, lower, ap main_left same)
Reach-left nodes _ s' fresh (mains {k} {s} r h) =
    let (same, lower) = main_at-left s s' s.main refl h in
    omega (arith, Reach-left nodes k s fresh r, lower, ap left same)
