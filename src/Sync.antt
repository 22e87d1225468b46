-- ===== src/Sync.antt =====
-- Assignment 9/sync.c: the directory synchroniser, on trees of regular files and directories. No
-- system call fails but `lstat` and `opendir` on what is not there or is no directory, and what the
-- kernel does not let the process write: `allows` says, for the mode of an item, whether it may write to
-- it, which for a directory is to make and remove entries. All may be read, and a directory that may be
-- removed may be emptied. `umask` is the kernel's share in the mode of what is made, and `clock` the
-- time that it stamps on what is written, by path. Access times, and file descriptors, are left out.
pub mod Tree
pub mod Mirror
pub mod Frames
pub mod Copies
pub mod Stamps
pub mod Runs
pub mod Again
mod Tests
use Prim.Native.String.{String}
use operating_systems_iitkgp.Base.{
  ℕ, ◌≡◌, Bool, true, false, not, ◌&&◌, ◌||◌, List, [], ◌∷◌, ◌++◌, Option, none, some, ◌==◌,
  if◌then◌else◌, length,
}
use operating_systems_iitkgp.Sync.Tree.{
  Stat, Node, file, dir, Entries, end, entry, lookup, put, erase,
}

-- What `report_change` prints: the symbol, and the path below the directory that is synchronised.
pub record Change : Type 0 where
  pub symbol : ℕ
  pub path : List String

-- The destination directory at some moment, and all that has been reported.
pub record Folder : Type 0 where
  pub stat : Stat
  pub entries : Entries
  pub log : List Change

pub report_change : List String → ℕ → Folder → Folder
report_change path symbol r = record r {
  log = r.log ++ record { symbol = symbol; path = path } ∷ [];
}

-- What `remove_directory` reports: all that is below, and then the directory.
mutual
  pub removal_log : List String → Node → List Change
  removal_log path (file st c) = record { symbol = b'-'; path = path } ∷ []
  removal_log path (dir st es) = removal_logs path es ++ record { symbol = b'-'; path = path } ∷ []

  removal_logs : List String → Entries → List Change
  removal_logs path end = []
  removal_logs path (entry n x es) = removal_log (path ++ n ∷ []) x ++ removal_logs path es

-- The call of a function on the directory `n` of the destination. Where there is none its
-- `opendir` fails, and it returns.
pub within : String → (Folder → Folder) → Folder → Folder
within n f r = elim (lookup n r.entries) [
  | some (dir st es) ↦
      let c = f (record { stat = st; entries = es; log = r.log }) in
      record r { entries = put n (dir c.stat c.entries) r.entries; log = c.log }
  | _ ↦ r
]

module _ (umask : ℕ → ℕ) (clock : List String → ℕ) (allows : ℕ → Bool) where
  -- An entry is made or removed, which stamps the directory itself.
  pub link : List String → String → Node → Folder → Folder
  link path n x r = record r {
    stat = record (r.stat) { mtime = clock path };
    entries = put n x r.entries;
  }

  pub unlink : List String → String → Folder → Folder
  unlink path n r = record r {
    stat = record (r.stat) { mtime = clock path };
    entries = erase n r.entries;
  }

  -- `remove` on a file, `remove_directory` on a directory.
  pub remove : List String → String → Node → Folder → Folder
  unfolding unlink removal_log
  remove path n x r =
      let r' = unlink path n r in
      if allows r.stat.mode then record r' { log = r.log ++ removal_log (path ++ n ∷ []) x } else r

  -- What `open` with O_CREAT and `mkdir` make.
  abbrev pub made : List String → String → ℕ → Stat
  made path n mode = record { mode = umask mode; mtime = clock (path ++ n ∷ []) }

  pub make_dir : List String → String → Stat → Folder → Folder
  unfolding link report_change
  make_dir path n st r =
      if allows r.stat.mode
      then report_change (path ++ n ∷ []) b'+' (link path n (dir (made path n st.mode) end) r)
      else r

  pub create_file : List String → String → Stat → List ℕ → Folder → Folder
  unfolding link report_change
  create_file path n st content r =
      if allows r.stat.mode
      then report_change (path ++ n ∷ []) b'+' (link path n (file (made path n st.mode) content) r)
      else r

  -- `open` with O_TRUNC on a file that is there: it keeps its mode.
  pub overwrite : List String → String → Stat → List ℕ → Folder → Folder
  unfolding report_change
  overwrite path n st content r =
      let stamped = record st { mtime = clock (path ++ n ∷ []) } in
      if allows st.mode
      then report_change (path ++ n ∷ []) b'o'
          (record r { entries = put n (file stamped content) r.entries })
      else r

  -- The part of `sync_dirs` on a file of the source, by what the destination has in its place.
  pub sync_file : List String → String → Stat → List ℕ → Folder → Folder
  unfolding create_file remove overwrite
  sync_file path n st content r = elim (lookup n r.entries) [
    | none ↦ create_file path n st content r
    | some (dir old es) ↦ create_file path n st content (remove path n (dir old es) r)
    | some (file old c) ↦
        if length content == length c && st.mtime == old.mtime
        then r
        else overwrite path n old content r
  ]

  -- The part on a directory, before the recursive call.
  pub prepare_dir : List String → String → Stat → Folder → Folder
  unfolding make_dir remove
  prepare_dir path n st r = elim (lookup n r.entries) [
    | none ↦ make_dir path n st r
    | some (file old c) ↦ make_dir path n st (remove path n (file old c) r)
    | some (dir old es) ↦ r
  ]

  -- One round of the second loop of `sync_dirs`: what the source has not is removed.
  pub prune_item : List String → Entries → String → Node → Folder → Folder
  unfolding remove
  prune_item path source n x r = elim (lookup n source) [ none ↦ remove path n x r | some y ↦ r ]

  pub prune : List String → Entries → Entries → Folder → Folder
  unfolding prune_item
  prune path source end r = r
  prune path source (entry n x es) r = prune path source es (prune_item path source n x r)

  -- The first loop of `sync_dirs`, with the recursive calls.
  mutual
    unfolding prune within prepare_dir sync_file

    pub copy_item : List String → String → Node → Folder → Folder
    copy_item path n (file st content) r = sync_file path n st content r
    copy_item path n (dir st source) r =
        within n
          (λ c.
            let c' = copy_items (path ++ n ∷ []) source c in
            prune (path ++ n ∷ []) source c'.entries c')
          (prepare_dir path n st r)

    pub copy_items : List String → Entries → Folder → Folder
    copy_items path end r = r
    copy_items path (entry n x source) r = copy_items path source (copy_item path n x r)

  pub sync_dirs : List String → Entries → Folder → Folder
  unfolding prune copy_item
  sync_dirs path source r = let r' = copy_items path source r in prune path source r'.entries r'

-- `futimes`, then `fchmod` where the modes differ: the new times and permissions.
pub stamped : Stat → Stat → Stat
stamped new old = record {
  mode = if new.mode == old.mode then old.mode else new.mode;
  mtime = new.mtime;
}

-- What is reported of them.
pub stamp_log : List String → Stat → Stat → List Change
stamp_log path new old =
    (if new.mtime == old.mtime then [] else record { symbol = b't'; path = path } ∷ [])
    ++ (if new.mode == old.mode then [] else record { symbol = b'p'; path = path } ∷ [])

pub stamp_file : List String → String → Stat → Folder → Folder
unfolding stamped stamp_log
stamp_file path n new r = elim (lookup n r.entries) [
  | none ↦ r
  | some (file old c) ↦ record r {
    entries = put n (file (stamped new old) c) r.entries;
    log = r.log ++ stamp_log (path ++ n ∷ []) new old;
  }
  | some (dir old es) ↦ record r {
    entries = put n (dir (stamped new old) es) r.entries;
    log = r.log ++ stamp_log (path ++ n ∷ []) new old;
  }
]

-- The end of `sync_time_permissions`, on the directory itself.
pub stamp_self : List String → Stat → Folder → Folder
unfolding stamped stamp_log
stamp_self path new r = record r {
  stat = stamped new r.stat;
  log = r.log ++ stamp_log path new r.stat;
}

-- The loop of `sync_time_permissions`, with the recursive calls.
mutual
  unfolding within stamp_file stamp_self

  pub stamp_item : List String → String → Node → Folder → Folder
  stamp_item path n (file st content) r = stamp_file path n st r
  stamp_item path n (dir st source) r =
      within n (λ c. stamp_self (path ++ n ∷ []) st (stamp_items (path ++ n ∷ []) source c)) r

  pub stamp_items : List String → Entries → Folder → Folder
  stamp_items path end r = r
  stamp_items path (entry n x source) r = stamp_items path source (stamp_item path n x r)

pub sync_time_permissions : List String → Stat → Entries → Folder → Folder
unfolding stamp_item stamp_self
sync_time_permissions path st source r = stamp_self path st (stamp_items path source r)

-- The source is the directory with the status `st` and the entries `source`.
pub synchronize :
    (ℕ → ℕ) → (List String → ℕ) → (ℕ → Bool) → List String → Stat → Entries → Folder → Folder
unfolding sync_dirs sync_time_permissions
synchronize umask clock allows path st source r =
    sync_time_permissions path st source (sync_dirs umask clock allows path source r)
