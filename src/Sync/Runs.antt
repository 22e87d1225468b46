-- ===== src/Sync/Runs.antt =====
-- A whole run of the synchroniser.
use Prim.Native.String.{String}
use operating_systems_iitkgp.Base.{Bool, true, ℕ, ◌≡◌, List}
use operating_systems_iitkgp.Sync.Tree.{Stat, Entries}
use operating_systems_iitkgp.Sync.Mirror.{DistinctAll, HonestAll}
use operating_systems_iitkgp.Sync.{Folder, sync_dirs, synchronize}
use operating_systems_iitkgp.Sync.Copies.{sync_dirs-HasCopies}
use operating_systems_iitkgp.Sync.Stamps.{Mirrors, sync_time_permissions-Mirrors}
use operating_systems_iitkgp.Sync.Again.{synchronize_again}

module _ (umask : ℕ → ℕ) (clock : List String → ℕ) (allows : ℕ → Bool)
    (free : (mode : ℕ) → allows mode ≡ true) (path : List String) (st : Stat) (source : Entries)
    (r : Folder) (distinct : DistinctAll source) (honest : HonestAll source r.entries) where
  -- Let the kernel let the process write to every item, as it does for root, let no name stand twice
  -- in a directory of the source, and let files that agree in size and time agree in content. Whatever
  -- else the destination holds, and whatever the kernel does to the modes and times of what is made,
  -- after `synchronize` it is the same as the source: at every level it has the files and directories of
  -- the source, with the same contents, times and permissions, and nothing else.
  pub synchronize-Mirrors : Mirrors st source (synchronize umask clock allows path st source r)
  unfolding synchronize
  synchronize-Mirrors =
      let (copies, no_more) =
        sync_dirs-HasCopies umask clock allows free path source r distinct honest in
      sync_time_permissions-Mirrors path st source (sync_dirs umask clock allows path source r)
        distinct copies no_more

  -- Let the kernel let the process write to every item, as it does for root, let no name stand twice in
  -- a directory of the source, and let files that agree in size and time agree in content. Then a second
  -- run of `synchronize` changes nothing, and reports nothing.
  pub synchronize-synchronize :
      synchronize umask clock allows path st source
        (synchronize umask clock allows path st source r)
      ≡ synchronize umask clock allows path st source r
  synchronize-synchronize =
      synchronize_again umask clock allows path st source
        (synchronize umask clock allows path st source r) synchronize-Mirrors
