-- ===== src/Sync/Mirror.antt =====
-- What it means that a directory has the files of another one: with the same contents, and with the
-- same contents, times and permissions.
use Prim.Native.String.{String}
use operating_systems_iitkgp.Base.{◌≡◌, Option, none, some, length}
use operating_systems_iitkgp.Sync.Tree.{Stat, Node, file, dir, Entries, end, entry, lookup}

-- No name stands twice in a directory of the source.
abbrev mutual
  pub Distinct : Node → Type 0
  Distinct (file st c) = Unit
  Distinct (dir st es) = DistinctAll es

  pub DistinctAll : Entries → Type 0
  DistinctAll end = Unit
  DistinctAll (entry n x es) = Distinct x × (lookup n es ≡ none) × DistinctAll es

-- Files of one size and time, at the same place of both directories, have the same content.
abbrev mutual
  pub Honest : Node → Option Node → Type 0
  Honest (file st c) (some (file old d)) = length c ≡ length d → st.mtime ≡ old.mtime → c ≡ d
  Honest (dir st es) (some (dir old ds)) = HonestAll es ds
  Honest x o = Unit

  pub HonestAll : Entries → Entries → Type 0
  HonestAll end ds = Unit
  HonestAll (entry n x es) ds = Honest x (lookup n ds) × HonestAll es ds

-- The second directory has no entry but those of the first.
abbrev pub NoMore : Entries → Entries → Type 0
NoMore es ds = (m : String) → lookup m es ≡ none → lookup m ds ≡ none

-- Below a name the destination has the item of the source, with any status.
abbrev mutual
  pub HasCopy : Node → Option Node → Type 0
  HasCopy (file st c) o = (old : Stat) × (o ≡ some (file old c))
  HasCopy (dir st es) o =
      (old : Stat) × (ds : Entries) × (o ≡ some (dir old ds)) × HasCopies es ds × NoMore es ds

  pub HasCopies : Entries → Entries → Type 0
  HasCopies end ds = Unit
  HasCopies (entry n x es) ds = HasCopy x (lookup n ds) × HasCopies es ds

-- The same, and every status is that of the source.
abbrev mutual
  pub HasSame : Node → Option Node → Type 0
  HasSame (file st c) o = o ≡ some (file st c)
  HasSame (dir st es) o = (ds : Entries) × (o ≡ some (dir st ds)) × HasAllSame es ds × NoMore es ds

  pub HasAllSame : Entries → Entries → Type 0
  HasAllSame end ds = Unit
  HasAllSame (entry n x es) ds = HasSame x (lookup n ds) × HasAllSame es ds
