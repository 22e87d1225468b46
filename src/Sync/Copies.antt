-- ===== src/Sync/Copies.antt =====
-- `sync_dirs`: the destination gets the files and directories of the source, and no more.
use Prim.Native.String.{String}
use text.Mathlib.Text.{◌==◌ as str_eq}
use text.Mathlib.TextEquality.{eq_iff}
use text.Mathlib.TextPositions.{eq_refl}
use operating_systems_iitkgp.Base.{
  Bool, true, ℕ, ◌≡◌, ◌≢◌, refl, ap, sym, ◌∙◌, subst, inl, inr, false, List, [], ◌∷◌, ◌++◌, none,
  some, arith, Bool-cases, Option-cases,
}
use operating_systems_iitkgp.Sync.Tree.{Node, file, dir, Entries, end, entry, lookup}
use operating_systems_iitkgp.Sync.Mirror.{
  Distinct, DistinctAll, Honest, HonestAll, NoMore, HasCopy, HasCopies,
}
use operating_systems_iitkgp.Sync.{
  Folder, prepare_dir, prune_item, prune, copy_item, copy_items, sync_dirs,
}
use operating_systems_iitkgp.Sync.Frames.{
  lookup-put_self, within-dir, within_other, remove_other, remove_self, sync_file_other,
  sync_file_self, prepare_dir_other, prepare_dir_self,
}

-- A lookup in a list with one more entry.
pub lookup-entry_self : (n : String) (x : Node) (es : Entries) → lookup n (entry n x es) ≡ some x
unfolding lookup
lookup-entry_self n x es = rw (eq_refl n) refl

pub lookup-entry_other :
    (m n : String) (x : Node) (es : Entries)
    → str_eq m n ≡ false
    → lookup m (entry n x es) ≡ lookup m es
unfolding lookup
lookup-entry_other m n x es h = rw h refl

lookup-end : (n : String) → lookup n end ≡ none
unfolding lookup
lookup-end n = refl

-- A name that is listed is not one that is not.
pub listed-ne :
    (m n : String) (es : Entries) → lookup m es ≢ none → lookup n es ≡ none → str_eq m n ≡ false
listed-ne m n es listed h = elim (Bool-cases (str_eq m n)) [
  | inl same ↦ absurd (listed (ap (λ k. lookup k es) ((eq_iff m n).0 same) ∙ h))
  | inr other ↦ other
]

pub listed-entry :
    (m n : String) (x : Node) (es : Entries) → lookup m es ≢ none → lookup m (entry n x es) ≢ none
unfolding lookup
listed-entry m n x es h = ground (arith, h)

HonestAll-end : (es : Entries) → HonestAll es end
unfolding lookup
HonestAll-end end = tt
HonestAll-end (entry n (file st c) es) = (tt, HonestAll-end es)
HonestAll-end (entry n (dir st ds) es) = (tt, HonestAll-end es)

HonestAll-agree :
    (es ds ds' : Entries)
    → ((m : String) → lookup m es ≢ none → lookup m ds' ≡ lookup m ds)
    → HonestAll es ds
    → HonestAll es ds'
HonestAll-agree end ds ds' agree h = tt
HonestAll-agree (entry n x es) ds ds' agree h = (
  subst (Honest x) (sym (agree n (λ e. cc (lookup-entry_self n x es)))) h.0,
  HonestAll-agree es ds ds' (λ m listed. agree m (listed-entry m n x es listed)) h.1,
)

pub HasCopies-agree :
    (es ds ds' : Entries)
    → ((m : String) → lookup m es ≢ none → lookup m ds' ≡ lookup m ds)
    → HasCopies es ds
    → HasCopies es ds'
HasCopies-agree end ds ds' agree h = tt
HasCopies-agree (entry n x es) ds ds' agree h = (
  subst (HasCopy x) (sym (agree n (λ e. cc (lookup-entry_self n x es)))) h.0,
  HasCopies-agree es ds ds' (λ m listed. agree m (listed-entry m n x es listed)) h.1,
)

module _ (umask : ℕ → ℕ) (clock : List String → ℕ) (allows : ℕ → Bool)
    (free : (mode : ℕ) → allows mode ≡ true) where
  prune_item_keeps :
      (path : List String) (source : Entries) (n : String) (x : Node) (r : Folder) (m : String)
      → (lookup n source ≡ none → str_eq m n ≡ false)
      → lookup m (prune_item umask clock allows path source n x r).entries ≡ lookup m r.entries
  unfolding prune_item
  prune_item_keeps path source n x r m ne = elim (Option-cases (lookup n source)) [
    | inl absent ↦
        rw (absent, prune_item) (remove_other umask clock allows free path n r x m (ne absent))
    | inr (y, h) ↦ rw (h, prune_item) refl
  ]

  prune_item_drops :
      (path : List String) (source : Entries) (n : String) (x : Node) (r : Folder)
      → lookup n source ≡ none
      → lookup n (prune_item umask clock allows path source n x r).entries ≡ none
  unfolding prune_item
  prune_item_drops path source n x r absent =
      rw (absent, prune_item) (remove_self umask clock allows free path n r x)

  prune_keeps :
      (path : List String) (source es : Entries) (r : Folder) (m : String)
      → lookup m source ≢ none
      → lookup m (prune umask clock allows path source es r).entries ≡ lookup m r.entries
  unfolding prune
  prune_keeps path source end r m listed = refl
  prune_keeps path source (entry n x es) r m listed =
      prune_keeps path source es (prune_item umask clock allows path source n x r) m listed
      ∙ prune_item_keeps path source n x r m (listed-ne m n source listed)

  prune_drops :
      (path : List String) (source es : Entries) (r : Folder) (m : String)
      → lookup m source ≡ none
      → (lookup m es ≡ none → lookup m r.entries ≡ none)
      → lookup m (prune umask clock allows path source es r).entries ≡ none
  unfolding prune
  prune_drops path source end r m absent covered = covered (lookup-end m)
  prune_drops path source (entry n x es) r m absent covered =
      prune_drops path source es (prune_item umask clock allows path source n x r) m absent (λ e.
        elim (Bool-cases (str_eq m n)) [
          | inl same ↦
              let eq : m ≡ n = (eq_iff m n).0 same in
              subst (λ k. lookup k (prune_item umask clock allows path source n x r).entries ≡ none)
                (sym eq)
                (prune_item_drops path source n x r (subst (λ k. lookup k source ≡ none) eq absent))
          | inr other ↦
              prune_item_keeps path source n x r m (λ _. other)
              ∙ covered (lookup-entry_other m n x es other ∙ e)
        ])

  copy_item_other :
      (path : List String) (n : String) (x : Node) (r : Folder) (m : String)
      → str_eq m n ≡ false
      → lookup m (copy_item umask clock allows path n x r).entries ≡ lookup m r.entries
  unfolding copy_item
  copy_item_other path n (file st c) r m ne =
      sync_file_other umask clock allows free path n r st c m ne
  copy_item_other path n (dir st source) r m ne =
      within_other n
        (λ c.
          let c' = copy_items umask clock allows (path ++ n ∷ []) source c in
          prune umask clock allows (path ++ n ∷ []) source c'.entries c')
        (prepare_dir umask clock allows path n st r) m ne
      ∙ prepare_dir_other umask clock allows free path n r st m ne

  copy_items_other :
      (path : List String) (es : Entries) (r : Folder) (m : String)
      → lookup m es ≡ none
      → lookup m (copy_items umask clock allows path es r).entries ≡ lookup m r.entries
  unfolding copy_item lookup
  copy_items_other path end r m h = refl
  copy_items_other path (entry n x es) r m h =
      let ne : str_eq m n ≡ false = ground arith in
      let absent : lookup m es ≡ none = ground arith in
      copy_items_other path es (copy_item umask clock allows path n x r) m absent
      ∙ copy_item_other path n x r m ne

  -- The second loop, on what the first one leaves.
  prune-HasCopies :
      (path : List String) (source : Entries) (r : Folder)
      → HasCopies source r.entries
      → HasCopies source (prune umask clock allows path source r.entries r).entries
        × NoMore source (prune umask clock allows path source r.entries r).entries
  prune-HasCopies path source r h = (
    HasCopies-agree source r.entries (prune umask clock allows path source r.entries r).entries
        (λ m listed. prune_keeps path source r.entries r m listed) h,
    λ m absent. prune_drops path source r.entries r m absent (λ e. e),
  )

  mutual
    unfolding copy_item

    copy_item-HasCopy :
        (path : List String) (n : String) (x : Node) (r : Folder)
        → Distinct x
        → Honest x (lookup n r.entries)
        → HasCopy x (lookup n (copy_item umask clock allows path n x r).entries)
    copy_item-HasCopy path n (file st c) r d h =
        sync_file_self umask clock allows free path n r st c
          (λ old e there. subst (Honest (file st c)) there h)
    copy_item-HasCopy path n (dir st source) r d h =
        let (old, es, there, which) = prepare_dir_self umask clock allows free path n r st in
        let r0 = prepare_dir umask clock allows path n st r in
        let inner : Folder = record { stat = old; entries = es; log = r0.log } in
        let honest : HonestAll source es = elim which [
          | inl before ↦ subst (Honest (dir st source)) before h
          | inr empty ↦ subst (HonestAll source) (sym empty) (HonestAll-end source)
        ] in
        let c = copy_items umask clock allows (path ++ n ∷ []) source inner in
        let p = prune umask clock allows (path ++ n ∷ []) source c.entries c in
        let (copies, no_more) =
          prune-HasCopies (path ++ n ∷ []) source c
            (copy_items-HasCopies (path ++ n ∷ []) source inner d honest) in
        (
          p.stat,
          p.entries,
          ap (λ (k : Folder). lookup n k.entries)
                (within-dir n
                  (λ k.
                    let k' = copy_items umask clock allows (path ++ n ∷ []) source k in
                    prune umask clock allows (path ++ n ∷ []) source k'.entries k')
                  r0 old es there)
              ∙ lookup-put_self n (dir p.stat p.entries) r0.entries,
          copies,
          no_more,
        )

    copy_items-HasCopies :
        (path : List String) (es : Entries) (r : Folder)
        → DistinctAll es
        → HonestAll es r.entries
        → HasCopies es (copy_items umask clock allows path es r).entries
    copy_items-HasCopies path end r d h = tt
    copy_items-HasCopies path (entry n x es) r d h =
        let r' = copy_item umask clock allows path n x r in
        (
          subst (HasCopy x) (sym (copy_items_other path es r' n d.1))
              (copy_item-HasCopy path n x r d.0 h.0),
          copy_items-HasCopies path es r' d.2 (
              HonestAll-agree es r.entries r'.entries
                (λ m listed. copy_item_other path n x r m (listed-ne m n es listed d.1)) h.1),
        )

  -- After `sync_dirs` the destination has the files and directories of the source, with the same
  -- contents, and nothing else.
  pub sync_dirs-HasCopies :
      (path : List String) (source : Entries) (r : Folder)
      → DistinctAll source
      → HonestAll source r.entries
      → HasCopies source (sync_dirs umask clock allows path source r).entries
        × NoMore source (sync_dirs umask clock allows path source r).entries
  unfolding sync_dirs
  sync_dirs-HasCopies path source r d h =
      prune-HasCopies path source (copy_items umask clock allows path source r)
        (copy_items-HasCopies path source r d h)
