-- ===== src/Sync/Again.antt =====
-- A destination that is the same as the source already: nothing is written, and nothing reported.
use Prim.Native.String.{String}
use mathlib.Core.List.{append-nil}
use operating_systems_iitkgp.Base.{
  Bool, ℕ, ◌≡◌, inl, inr, refl, ap, sym, ◌∙◌, List, [], ◌∷◌, ◌++◌, some, ==-refl, length,
  Option-cases,
}
use operating_systems_iitkgp.Sync.Tree.{
  Stat, Node, file, dir, Entries, end, entry, lookup, put, put-lookup,
}
use operating_systems_iitkgp.Sync.Mirror.{NoMore, HasSame, HasAllSame}
use operating_systems_iitkgp.Sync.{
  Change, Folder, sync_file, prepare_dir, within, prune_item, prune, copy_item, copy_items,
  sync_dirs, stamp_log, stamp_file, stamp_self, stamp_item, stamp_items, sync_time_permissions,
  synchronize,
}
use operating_systems_iitkgp.Sync.Frames.{within-dir}
use operating_systems_iitkgp.Sync.Copies.{lookup-entry_self, listed-entry}
use operating_systems_iitkgp.Sync.Stamps.{stamped_lem, Mirrors}

-- To write the entries and the log that are there changes nothing.
rewrite_same :
    (r : Folder) (n : String) (x : Node) (log : List Change)
    → lookup n r.entries ≡ some x
    → log ≡ r.log
    → ◌≡◌ {A = Folder} (record { stat = r.stat; entries = put n x r.entries; log = log }) r
rewrite_same r n x log h e =
    λ i. record { stat = r.stat; entries = put-lookup n x r.entries h i; log = e i }

within_same :
    (n : String) (f : Folder → Folder) (r : Folder) (st : Stat) (es : Entries)
    → lookup n r.entries ≡ some (dir st es)
    → f (record { stat = st; entries = es; log = r.log })
      ≡ record { stat = st; entries = es; log = r.log }
    → within n f r ≡ r
within_same n f r st es h same =
    within-dir n f r st es h
    ∙ ap
        (λ (c : Folder). record {
          stat = r.stat;
          entries = put n (dir c.stat c.entries) r.entries;
          log = c.log;
        })
        same
    ∙ rewrite_same r n (dir st es) r.log h refl

module _ (umask : ℕ → ℕ) (clock : List String → ℕ) (allows : ℕ → Bool) where
  sync_file_same :
      (path : List String) (n : String) (st : Stat) (c : List ℕ) (r : Folder)
      → lookup n r.entries ≡ some (file st c)
      → sync_file umask clock allows path n st c r ≡ r
  unfolding sync_file
  sync_file_same path n st c r h =
      rw (h, sync_file) (rw (==-refl (length c), ==-refl st.mtime) refl)

  prepare_dir_same :
      (path : List String) (n : String) (st old : Stat) (es : Entries) (r : Folder)
      → lookup n r.entries ≡ some (dir old es)
      → prepare_dir umask clock allows path n st r ≡ r
  unfolding prepare_dir
  prepare_dir_same path n st old es r h = rw (h, prepare_dir) refl

  prune_same :
      (path : List String) (source es : Entries) (r : Folder)
      → NoMore source es
      → prune umask clock allows path source es r ≡ r
  unfolding prune prune_item
  prune_same path source end r h = refl
  prune_same path source (entry n x es) r h = elim (Option-cases (lookup n source)) [
    | inl absent ↦ cc (h n absent, lookup-entry_self n x es)
    | inr (y, there) ↦
        rw (there, prune_item)
          (prune_same path source es r (λ m absent. elim (Option-cases (lookup m es)) [
            | inl gone ↦ gone
            | inr (z, found) ↦ absurd (listed-entry m n x es (λ e. cc) (h m absent))
          ]))
  ]

  mutual
    unfolding copy_item

    copy_item_same :
        (path : List String) (n : String) (x : Node) (r : Folder)
        → HasSame x (lookup n r.entries)
        → copy_item umask clock allows path n x r ≡ r
    copy_item_same path n (file st c) r h = sync_file_same path n st c r h
    copy_item_same path n (dir st source) r (ds, h, same, no_more) =
        let inner : Folder = record { stat = st; entries = ds; log = r.log } in
        let f : Folder → Folder = λ c.
          let c' = copy_items umask clock allows (path ++ n ∷ []) source c in
          prune umask clock allows (path ++ n ∷ []) source c'.entries c' in
        ap (within n f) (prepare_dir_same path n st st ds r h)
        ∙ within_same n f r st ds h (
            ap (λ (c : Folder). prune umask clock allows (path ++ n ∷ []) source c.entries c)
              (copy_items_same (path ++ n ∷ []) source inner same)
            ∙ prune_same (path ++ n ∷ []) source ds inner no_more)

    copy_items_same :
        (path : List String) (es : Entries) (r : Folder)
        → HasAllSame es r.entries
        → copy_items umask clock allows path es r ≡ r
    copy_items_same path end r h = refl
    copy_items_same path (entry n x es) r h =
        ap (copy_items umask clock allows path es) (copy_item_same path n x r h.0)
        ∙ copy_items_same path es r h.1

stamp_log_same : (path : List String) (st : Stat) → stamp_log path st st ≡ []
unfolding stamp_log
stamp_log_same path st = rw (==-refl st.mode, ==-refl st.mtime) refl

log_same : (path : List String) (st : Stat) (log : List Change) → log ++ stamp_log path st st ≡ log
log_same path st log = rw (stamp_log_same path st) (append-nil log)

stamp_self_same :
    (path : List String) (st : Stat) (r : Folder) → r.stat ≡ st → stamp_self path st r ≡ r
unfolding stamp_self
stamp_self_same path st r e = λ i. record {
  stat = (stamped_lem st r.stat ∙ sym e) i;
  entries = r.entries;
  log = (ap (λ k. r.log ++ stamp_log path st k) e ∙ log_same path st r.log) i;
}

stamp_file_same :
    (path : List String) (n : String) (st : Stat) (c : List ℕ) (r : Folder)
    → lookup n r.entries ≡ some (file st c)
    → stamp_file path n st r ≡ r
unfolding stamp_file
stamp_file_same path n st c r h =
    rw (h, stamp_file)
      (ap
          (λ k. record {
            stat = r.stat;
            entries = put n (file k c) r.entries;
            log = r.log ++ stamp_log (path ++ n ∷ []) st st;
          })
          (stamped_lem st st)
        ∙ rewrite_same r n (file st c) (r.log ++ stamp_log (path ++ n ∷ []) st st) h
            (log_same (path ++ n ∷ []) st r.log))

mutual
  unfolding stamp_item

  stamp_item_same :
      (path : List String) (n : String) (x : Node) (r : Folder)
      → HasSame x (lookup n r.entries)
      → stamp_item path n x r ≡ r
  stamp_item_same path n (file st c) r h = stamp_file_same path n st c r h
  stamp_item_same path n (dir st source) r (ds, h, same, no_more) =
      let inner : Folder = record { stat = st; entries = ds; log = r.log } in
      within_same n (λ c. stamp_self (path ++ n ∷ []) st (stamp_items (path ++ n ∷ []) source c)) r
        st ds h
        (ap (stamp_self (path ++ n ∷ []) st) (stamp_items_same (path ++ n ∷ []) source inner same)
          ∙ stamp_self_same (path ++ n ∷ []) st inner refl)

  stamp_items_same :
      (path : List String) (es : Entries) (r : Folder)
      → HasAllSame es r.entries
      → stamp_items path es r ≡ r
  stamp_items_same path end r h = refl
  stamp_items_same path (entry n x es) r h =
      ap (stamp_items path es) (stamp_item_same path n x r h.0) ∙ stamp_items_same path es r h.1

-- When the destination is the same as the source already, `synchronize` writes nothing and reports
-- nothing.
pub synchronize_again :
    (umask : ℕ → ℕ) (clock : List String → ℕ) (allows : ℕ → Bool) (path : List String) (st : Stat)
    (source : Entries) (r : Folder)
    → Mirrors st source r
    → synchronize umask clock allows path st source r ≡ r
unfolding synchronize sync_dirs sync_time_permissions
synchronize_again umask clock allows path st source r (e, same, no_more) =
    ap
      (λ (k : Folder).
        stamp_self path st
          (stamp_items path source (prune umask clock allows path source k.entries k)))
      (copy_items_same umask clock allows path source r same)
    ∙ ap (λ k. stamp_self path st (stamp_items path source k))
        (prune_same umask clock allows path source r.entries r no_more)
    ∙ ap (stamp_self path st) (stamp_items_same path source r same)
    ∙ stamp_self_same path st r e
