-- ===== src/Sync/Frames.antt =====
-- What the parts of the two passes do to the entry of one name, and that they leave the others.
use Prim.Native.String.{String}
use text.Mathlib.Text.{◌==◌ as str_eq}
use text.Mathlib.TextPositions.{eq_refl}
use operating_systems_iitkgp.Base.{
  Bool, true, ℕ, ◌≡◌, refl, ap, sym, ◌∙◌, ◌⊎◌, inl, inr, false, ◌&&◌, List, [], ◌∷◌, ◌++◌, none,
  some, arith, ◌==◌, length, Bool-cases,
}
use operating_systems_iitkgp.Sync.Tree.{
  Stat, Node, file, dir, Entries, end, lookup, put, lookup-put, lookup-erase, item_cases,
}
use operating_systems_iitkgp.Sync.{Folder, remove, sync_file, prepare_dir, within, made}

pub lookup-put_self : (n : String) (x : Node) (es : Entries) → lookup n (put n x es) ≡ some x
lookup-put_self n x es = rw (lookup-put n n x es, eq_refl n) refl

pub lookup-put_other :
    (m n : String) (x : Node) (es : Entries)
    → str_eq m n ≡ false
    → lookup m (put n x es) ≡ lookup m es
lookup-put_other m n x es h = rw (lookup-put m n x es, h) refl

module _ (n : String) (f : Folder → Folder) (r : Folder) where
  pub within-dir :
      (st : Stat) (es : Entries)
      → lookup n r.entries ≡ some (dir st es)
      → let c = f (record { stat = st; entries = es; log = r.log }) in
        within n f r
        ≡ record { stat = r.stat; entries = put n (dir c.stat c.entries) r.entries; log = c.log }
  unfolding within
  within-dir st es h = rw (h, within) refl

  pub within_other :
      (m : String) → str_eq m n ≡ false → lookup m (within n f r).entries ≡ lookup m r.entries
  unfolding within
  within_other m ne = elim (item_cases (lookup n r.entries)) [
    | inl h ↦ rw (h, within) refl
    | inr (inl (st, c, h)) ↦ rw (h, within) refl
    | inr (inr (st, es, h)) ↦
        let c = f (record { stat = st; entries = es; log = r.log }) in
        rw (h, within) (lookup-put_other m n (dir c.stat c.entries) r.entries ne)
  ]

module _ (umask : ℕ → ℕ) (clock : List String → ℕ) (allows : ℕ → Bool)
    (free : (mode : ℕ) → allows mode ≡ true) (path : List String) (n : String) (r : Folder) where
  pub remove_other :
      (x : Node) (m : String)
      → str_eq m n ≡ false
      → lookup m (remove umask clock allows path n x r).entries ≡ lookup m r.entries
  unfolding remove
  remove_other x m ne = rw (free r.stat.mode, lookup-erase m n r.entries, ne) refl

  pub remove_self : (x : Node) → lookup n (remove umask clock allows path n x r).entries ≡ none
  unfolding remove
  remove_self x = rw (free r.stat.mode, lookup-erase n n r.entries, eq_refl n) refl

  pub sync_file_other :
      (st : Stat) (c : List ℕ) (m : String)
      → str_eq m n ≡ false
      → lookup m (sync_file umask clock allows path n st c r).entries ≡ lookup m r.entries
  unfolding sync_file
  sync_file_other st c m ne = elim (item_cases (lookup n r.entries)) [
    | inl h ↦ rw (h, sync_file, free) (lookup-put_other m n _ r.entries ne)
    | inr (inl (old, d, h)) ↦ elim (Bool-cases (length c == length d && st.mtime == old.mtime)) [
      | inl same ↦ rw (h, sync_file, same) refl
      | inr differs ↦ rw (h, sync_file, differs, free) (lookup-put_other m n _ r.entries ne)
    ]
    | inr (inr (old, es, h)) ↦
        rw (h, sync_file, free)
          (lookup-put_other m n _ (remove umask clock allows path n (dir old es) r).entries ne
            ∙ remove_other (dir old es) m ne)
  ]

  pub sync_file_self :
      (st : Stat) (c : List ℕ)
      → ((old : Stat) (d : List ℕ)
          → lookup n r.entries ≡ some (file old d)
          → length c ≡ length d
          → st.mtime ≡ old.mtime
          → c ≡ d)
      → (old : Stat) × (lookup n (sync_file umask clock allows path n st c r).entries
          ≡ some (file old c))
  unfolding sync_file
  sync_file_self st c honest = elim (item_cases (lookup n r.entries)) [
    | inl h ↦ (
      made umask clock allows path n st.mode,
      rw (h, sync_file, free) (lookup-put_self n _ r.entries),
    )
    | inr (inl (old, d, h)) ↦ elim (Bool-cases (length c == length d && st.mtime == old.mtime)) [
      | inl same ↦
          let eq : c ≡ d = honest old d h (ground arith) (ground arith) in
          (old, rw (h, sync_file, same) (h ∙ ap (λ x. some (file old x)) (sym eq)))
      | inr differs ↦ (
        record old { mtime = clock (path ++ n ∷ []) },
        rw (h, sync_file, differs, free) (lookup-put_self n _ r.entries),
      )
    ]
    | inr (inr (old, es, h)) ↦ (
      made umask clock allows path n st.mode,
      rw (h, sync_file, free)
          (lookup-put_self n _ (remove umask clock allows path n (dir old es) r).entries),
    )
  ]

  pub prepare_dir_other :
      (st : Stat) (m : String)
      → str_eq m n ≡ false
      → lookup m (prepare_dir umask clock allows path n st r).entries ≡ lookup m r.entries
  unfolding prepare_dir
  prepare_dir_other st m ne = elim (item_cases (lookup n r.entries)) [
    | inl h ↦ rw (h, prepare_dir, free) (lookup-put_other m n _ r.entries ne)
    | inr (inl (old, c, h)) ↦
        rw (h, prepare_dir, free)
          (lookup-put_other m n _ (remove umask clock allows path n (file old c) r).entries ne
            ∙ remove_other (file old c) m ne)
    | inr (inr (old, es, h)) ↦ rw (h, prepare_dir) refl
  ]

  -- Below the name there is a directory, empty or the one that was there.
  pub prepare_dir_self :
      (st : Stat)
      → (old : Stat) × (es : Entries) × (lookup n
            (prepare_dir umask clock allows path n st r).entries
          ≡ some (dir old es))
        × ((lookup n r.entries ≡ some (dir old es)) ⊎ (es ≡ end))
  unfolding prepare_dir
  prepare_dir_self st = elim (item_cases (lookup n r.entries)) [
    | inl h ↦ (
      made umask clock allows path n st.mode,
      end,
      rw (h, prepare_dir, free) (lookup-put_self n _ r.entries),
      inr refl,
    )
    | inr (inl (old, c, h)) ↦ (
      made umask clock allows path n st.mode,
      end,
      rw (h, prepare_dir, free)
          (lookup-put_self n _ (remove umask clock allows path n (file old c) r).entries),
      inr refl,
    )
    | inr (inr (old, es, h)) ↦ (old, es, rw (h, prepare_dir) h, inl h)
  ]
