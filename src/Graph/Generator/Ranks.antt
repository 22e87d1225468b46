-- ===== src/Graph/Generator/Ranks.antt =====
-- Every edge that gengraph.c draws leads to a later place of PERM.
use mathlib.Core.Option.{some-injective}
use operating_systems_iitkgp.Base.{
  ℕ, zero, suc, ◌+◌, ◌<◌, ◌≡◌, ◌≢◌, refl, sym, ap, subst, ◌⊎◌, inl, inr, Bool, true, false, List,
  [], ◌∷◌, some, arith, length, get_elem?, set, All,
}
use operating_systems_iitkgp.Graph.Check.{bit}
use operating_systems_iitkgp.Graph.Generator.{set_entry, fill_row, fill_rows}

bit-set :
    (row : List Bool) (y v : ℕ) (b : Bool)
    → 0 < bit (set row y b) v
    → ((y ≡ v) × (b ≡ true)) ⊎ ((y ≢ v) × (0 < bit row v))
bit-set [] y v b h = absurd (omega arith)
bit-set (c ∷ row) zero zero true h = inl (refl, refl)
bit-set (c ∷ row) zero zero false h = absurd (omega arith)
bit-set (c ∷ row) zero (suc v) b h = inr ((λ q. omega arith), h)
bit-set (true ∷ row) (suc y) zero b h = inr ((λ q. omega arith), h)
bit-set (false ∷ row) (suc y) zero b h = absurd (omega arith)
bit-set (c ∷ row) (suc y) (suc v) b h = elim (bit-set row y v b h) [
  | inl (e, f) ↦ inl (ap suc e, f)
  | inr (e, f) ↦ inr ((λ q. e (omega arith)), f)
]

get_elem?-set_entry :
    (a : List (List Bool)) (x y u : ℕ) (b : Bool) (row : List Bool)
    → get_elem? (set_entry a x y b) u ≡ some row
    → ((x ≡ u) × ((old : List Bool) × (get_elem? a u ≡ some old) × (row ≡ set old y b)))
      ⊎ ((x ≢ u) × (get_elem? a u ≡ some row))
unfolding set_entry
get_elem?-set_entry [] x y u b row h = cc
get_elem?-set_entry (r ∷ a) zero y zero b row h =
    inl (refl, (r, refl, sym (some-injective (set r y b) row h)))
get_elem?-set_entry (r ∷ a) zero y (suc u) b row h = inr ((λ q. omega arith), h)
get_elem?-set_entry (r ∷ a) (suc x) y zero b row h = inr ((λ q. omega arith), h)
get_elem?-set_entry (r ∷ a) (suc x) y (suc u) b row h = elim (get_elem?-set_entry a x y u b row h) [
  | inl (e, f) ↦ inl (ap suc e, f)
  | inr (e, f) ↦ inr ((λ q. e (omega arith)), f)
]

module _ (rank : ℕ → ℕ) where
  -- If there is an edge, it leads upwards.
  abbrev pub Upwards : List (List Bool) → ℕ → ℕ → Type 0
  Upwards a u v = (row : List Bool) → get_elem? a u ≡ some row → 0 < bit row v → rank u < rank v

  set_entry-Upwards :
      (a : List (List Bool)) (x y u v : ℕ) (b : Bool)
      → (b ≡ true → rank x < rank y)
      → ((x ≡ u) × (y ≡ v)) ⊎ Upwards a u v
      → Upwards (set_entry a x y b) u v
  set_entry-Upwards a x y u v b new old row at h = elim (get_elem?-set_entry a x y u b row at) [
    | inl (e, (before, at_before, is)) ↦
        elim (bit-set before y v b (subst (λ r. 0 < bit r v) is h)) [
          | inl (f, edge_there) ↦ omega (arith, new edge_there, ap rank e, ap rank f)
          | inr (f, still) ↦ elim old [
            | inl (_, g) ↦ absurd (f g)
            | inr up ↦ up before at_before still
          ]
        ]
    | inr (e, at_before) ↦ elim old [ inl (g, _) ↦ absurd (e g) | inr up ↦ up row at_before h ]
  ]

  fill_row-Upwards :
      (edge : ℕ → ℕ → Bool) (i u j : ℕ) (vs : List ℕ) (a : List (List Bool)) (s t : ℕ)
      → All (λ v. rank u < rank v) vs
      → Upwards a s t
      → Upwards (fill_row edge i u j vs a) s t
  unfolding fill_row
  fill_row-Upwards edge i u j [] a s t up old = old
  fill_row-Upwards edge i u j (v ∷ vs) a s t (above, up) old =
      fill_row-Upwards edge i u (suc j) vs (set_entry (set_entry a u v (edge i j)) v u false) s t up
        (set_entry-Upwards _ v u s t false (λ q. cc)
          (inr (set_entry-Upwards a u v s t (edge i j) (λ q. above) (inr old))))

  -- The two entries for a pair that the loop comes to.
  fill_row-pair :
      (edge : ℕ → ℕ → Bool) (i u j k t : ℕ) (vs : List ℕ) (a : List (List Bool))
      → All (λ v. rank u < rank v) vs
      → get_elem? vs k ≡ some t
      → Upwards (fill_row edge i u j vs a) u t × Upwards (fill_row edge i u j vs a) t u
  unfolding fill_row
  fill_row-pair edge i u j k t [] a up at = cc
  fill_row-pair edge i u j zero t (v ∷ vs) a (above, up) at =
      let e : v ≡ t = some-injective v t at in
      let first = set_entry a u v (edge i j) in
      let then : List (List Bool) = set_entry first v u false in
      (
        fill_row-Upwards edge i u (suc j) vs then u t up (
            set_entry-Upwards first v u u t false (λ q. cc)
              (inr (set_entry-Upwards a u v u t (edge i j) (λ q. above) (inl (refl, e))))),
        fill_row-Upwards edge i u (suc j) vs then t u up
            (set_entry-Upwards first v u t u false (λ q. cc) (inl (e, refl))),
      )
  fill_row-pair edge i u j (suc k) t (v ∷ vs) a (above, up) at =
      fill_row-pair edge i u (suc j) k t vs (set_entry (set_entry a u v (edge i j)) v u false) up at

  abbrev pub Increasing : List ℕ → Type 0
  Increasing [] = Unit
  Increasing (u ∷ us) = All (λ v. rank u < rank v) us × Increasing us

  fill_rows-Upwards :
      (edge : ℕ → ℕ → Bool) (i : ℕ) (us : List ℕ) (a : List (List Bool)) (s t : ℕ)
      → Increasing us
      → Upwards a s t
      → Upwards (fill_rows edge i us a) s t
  unfolding fill_rows
  fill_rows-Upwards edge i [] a s t up old = old
  fill_rows-Upwards edge i (u ∷ us) a s t (above, up) old =
      fill_rows-Upwards edge (suc i) us _ s t up (
        fill_row-Upwards edge i u (suc i) us _ s t above
          (set_entry-Upwards a i i s t false (λ q. cc) (inr old)))

  -- A pair of two places, and an entry of the diagonal.
  pub fill_rows-pair :
      (edge : ℕ → ℕ → Bool) (i k l s t : ℕ) (us : List ℕ) (a : List (List Bool))
      → Increasing us
      → k < l
      → get_elem? us k ≡ some s
      → get_elem? us l ≡ some t
      → Upwards (fill_rows edge i us a) s t × Upwards (fill_rows edge i us a) t s
  unfolding fill_rows
  fill_rows-pair edge i k l s t [] a up h at_k at_l = cc
  fill_rows-pair edge i k zero s t (u ∷ us) a up h at_k at_l = absurd (omega arith)
  fill_rows-pair edge i zero (suc l) s t (u ∷ us) a (above, up) h at_k at_l =
      let e : u ≡ s = some-injective u s at_k in
      let start = set_entry a i i false in
      let pair = fill_row-pair edge i u (suc i) l t us start above at_l in
      let next : List (List Bool) = fill_row edge i u (suc i) us start in
      (
        fill_rows-Upwards edge (suc i) us next s t up (subst (λ x. Upwards next x t) e pair.0),
        fill_rows-Upwards edge (suc i) us next t s up (subst (λ x. Upwards next t x) e pair.1),
      )
  fill_rows-pair edge i (suc k) (suc l) s t (u ∷ us) a (above, up) h at_k at_l =
      fill_rows-pair edge (suc i) k l s t us _ up (omega arith) at_k at_l

  pub fill_rows-diagonal :
      (edge : ℕ → ℕ → Bool) (i d : ℕ) (us : List ℕ) (a : List (List Bool))
      → Increasing us
      → d < length us
      → Upwards (fill_rows edge i us a) (i + d) (i + d)
  unfolding fill_rows
  fill_rows-diagonal edge i d [] a up h = absurd (omega arith)
  fill_rows-diagonal edge i zero (u ∷ us) a (above, up) h =
      let here : i + 0 ≡ i = omega arith in
      rw (here) (
        fill_rows-Upwards edge (suc i) us _ i i up (
          fill_row-Upwards edge i u (suc i) us _ i i above
            (set_entry-Upwards a i i i i false (λ q. cc) (inl (refl, refl)))))
  fill_rows-diagonal edge i (suc d) (u ∷ us) a (above, up) h =
      let here : i + suc d ≡ suc i + d = omega arith in
      rw (here) (fill_rows-diagonal edge (suc i) d us _ up (omega arith))
