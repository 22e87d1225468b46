-- ===== src/Sync/Stamps.antt =====
-- `sync_time_permissions`: what is a copy gets the times and permissions of the source, and nothing
-- else changes.
use Prim.Native.String.{String}
use text.Mathlib.Text.{◌==◌ as str_eq}
use operating_systems_iitkgp.Base.{
  ℕ, ◌≡◌, refl, ap, sym, ◌∙◌, subst, inl, inr, false, List, [], ◌∷◌, ◌++◌, none, some, arith,
}
use operating_systems_iitkgp.Sync.Tree.{
  Stat, Node, file, dir, Entries, end, entry, lookup, item_cases,
}
use operating_systems_iitkgp.Sync.Mirror.{
  DistinctAll, Distinct, NoMore, HasCopy, HasCopies, HasSame, HasAllSame,
}
use operating_systems_iitkgp.Sync.{
  Folder, stamped, stamp_file, stamp_self, stamp_item, stamp_items, sync_time_permissions,
}
use operating_systems_iitkgp.Sync.Frames.{
  lookup-put_self, lookup-put_other, within-dir, within_other,
}
use operating_systems_iitkgp.Sync.Copies.{listed-ne, HasCopies-agree}

pub stamped_lem : (new old : Stat) → stamped new old ≡ new
unfolding stamped
stamped_lem new old = ground arith

stamp_file_other :
    (path : List String) (n : String) (st : Stat) (r : Folder) (m : String)
    → str_eq m n ≡ false
    → lookup m (stamp_file path n st r).entries ≡ lookup m r.entries
unfolding stamp_file lookup
stamp_file_other path n st r m ne = elim (item_cases (lookup n r.entries)) [
  | inl h ↦ rw (h, stamp_file) refl
  | inr (inl (old, c, h)) ↦
      rw (h, stamp_file) (lookup-put_other m n (file (stamped st old) c) r.entries ne)
  | inr (inr (old, es, h)) ↦
      rw (h, stamp_file) (lookup-put_other m n (dir (stamped st old) es) r.entries ne)
]

stamp_file_self :
    (path : List String) (n : String) (st old : Stat) (c : List ℕ) (r : Folder)
    → lookup n r.entries ≡ some (file old c)
    → lookup n (stamp_file path n st r).entries ≡ some (file st c)
unfolding stamp_file
stamp_file_self path n st old c r h =
    rw (h, stamp_file)
      (lookup-put_self n (file (stamped st old) c) r.entries
        ∙ ap (λ k. some (file k c)) (stamped_lem st old))

stamp_item_other :
    (path : List String) (n : String) (x : Node) (r : Folder) (m : String)
    → str_eq m n ≡ false
    → lookup m (stamp_item path n x r).entries ≡ lookup m r.entries
unfolding stamp_item
stamp_item_other path n (file st c) r m ne = stamp_file_other path n st r m ne
stamp_item_other path n (dir st source) r m ne =
    within_other n (λ c. stamp_self (path ++ n ∷ []) st (stamp_items (path ++ n ∷ []) source c)) r m
      ne

stamp_items_other :
    (path : List String) (es : Entries) (r : Folder) (m : String)
    → lookup m es ≡ none
    → lookup m (stamp_items path es r).entries ≡ lookup m r.entries
unfolding stamp_item lookup
stamp_items_other path end r m h = refl
stamp_items_other path (entry n x es) r m h =
    let ne : str_eq m n ≡ false = ground arith in
    let absent : lookup m es ≡ none = ground arith in
    stamp_items_other path es (stamp_item path n x r) m absent ∙ stamp_item_other path n x r m ne

stamp_items-NoMore :
    (path : List String) (es : Entries) (r : Folder)
    → NoMore es r.entries
    → NoMore es (stamp_items path es r).entries
stamp_items-NoMore path es r h = λ m absent. stamp_items_other path es r m absent ∙ h m absent

mutual
  unfolding stamp_item stamp_self

  stamp_item-HasSame :
      (path : List String) (n : String) (x : Node) (r : Folder)
      → Distinct x
      → HasCopy x (lookup n r.entries)
      → HasSame x (lookup n (stamp_item path n x r).entries)
  stamp_item-HasSame path n (file st c) r d (old, h) = stamp_file_self path n st old c r h
  stamp_item-HasSame path n (dir st source) r d (old, ds, h, copies, no_more) =
      let inner : Folder = record { stat = old; entries = ds; log = r.log } in
      let k = stamp_items (path ++ n ∷ []) source inner in
      let all = stamp_items-HasAllSame (path ++ n ∷ []) source inner d copies in
      (
        k.entries,
        ap (λ (f : Folder). lookup n f.entries)
              (within-dir n
                (λ c. stamp_self (path ++ n ∷ []) st (stamp_items (path ++ n ∷ []) source c)) r old
                ds h)
            ∙ lookup-put_self n (dir (stamped st k.stat) k.entries) r.entries
            ∙ ap (λ s. some (dir s k.entries)) (stamped_lem st k.stat),
        all,
        stamp_items-NoMore (path ++ n ∷ []) source inner no_more,
      )

  stamp_items-HasAllSame :
      (path : List String) (es : Entries) (r : Folder)
      → DistinctAll es
      → HasCopies es r.entries
      → HasAllSame es (stamp_items path es r).entries
  stamp_items-HasAllSame path end r d h = tt
  stamp_items-HasAllSame path (entry n x es) r d h =
      let r' = stamp_item path n x r in
      (
        subst (HasSame x) (sym (stamp_items_other path es r' n d.1))
            (stamp_item-HasSame path n x r d.0 h.0),
        stamp_items-HasAllSame path es r' d.2 (
            HasCopies-agree es r.entries r'.entries
              (λ m listed. stamp_item_other path n x r m (listed-ne m n es listed d.1)) h.1),
      )

-- A folder is the same as the source.
abbrev pub Mirrors : Stat → Entries → Folder → Type 0
Mirrors st source r = (r.stat ≡ st) × HasAllSame source r.entries × NoMore source r.entries

pub sync_time_permissions-Mirrors :
    (path : List String) (st : Stat) (source : Entries) (r : Folder)
    → DistinctAll source
    → HasCopies source r.entries
    → NoMore source r.entries
    → Mirrors st source (sync_time_permissions path st source r)
unfolding sync_time_permissions stamp_self
sync_time_permissions-Mirrors path st source r d copies no_more = (
  stamped_lem st (stamp_items path source r).stat,
  stamp_items-HasAllSame path source r d copies,
  stamp_items-NoMore path source r no_more,
)
