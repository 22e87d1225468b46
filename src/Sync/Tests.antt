-- ===== src/Sync/Tests.antt =====
-- The theorems about the synchroniser at a small tree, and what it reports there.
use Prim.Native.String.{String}
use operating_systems_iitkgp.Base.{ℕ, true, ◌≡◌, refl, List, [], ◌∷◌, arith}
use operating_systems_iitkgp.Sync.Tree.{Stat, file, dir, Entries, end, entry, lookup, put, erase}
use operating_systems_iitkgp.Sync.Mirror.{DistinctAll, HonestAll}
use operating_systems_iitkgp.Sync.{Folder, Change, synchronize}
use operating_systems_iitkgp.Sync.Stamps.{Mirrors}
use operating_systems_iitkgp.Sync.Runs.{synchronize-Mirrors, synchronize-synchronize}

abbrev status : ℕ → ℕ → Stat
status mode mtime = record { mode = mode; mtime = mtime }

-- A file that the destination has with another time, and a directory where it has a file.
abbrev source : Entries
source =
    entry "a" (file (status 420 7) (1 ∷ 2 ∷ []))
      (entry "d" (dir (status 493 8) (entry "b" (file (status 420 9) (3 ∷ [])) end)) end)

abbrev destination : Folder
destination = record {
  stat = status 493 1;
  entries = entry "a" (file (status 384 6) (1 ∷ 5 ∷ [])) (
      entry "d" (file (status 420 2) [])
        (entry "old" (dir (status 493 3) (entry "x" (file (status 420 3) []) end)) end));
  log = [];
}

abbrev masked : ℕ → ℕ
masked mode = mode

abbrev noon : List String → ℕ
noon path = 50

source-Distinct : DistinctAll source
unfolding lookup
source-Distinct = (tt, refl, ((tt, refl, tt), refl, tt))

destination-Honest : HonestAll source destination.entries
unfolding lookup
destination-Honest = (λ s t. absurd (omega arith), (tt, tt))

synchronize-Mirrors_example :
    Mirrors
      (status 493 4)
      source
      (synchronize masked noon (λ mode. true) [] (status 493 4) source destination)
synchronize-Mirrors_example =
    synchronize-Mirrors masked noon (λ mode. true) (λ mode. refl) [] (status 493 4) source
      destination source-Distinct destination-Honest

synchronize-synchronize_example :
    synchronize masked noon
      (λ mode. true)
      []
      (status 493 4)
      source
      (synchronize masked noon (λ mode. true) [] (status 493 4) source destination)
    ≡ synchronize masked noon (λ mode. true) [] (status 493 4) source destination
synchronize-synchronize_example =
    synchronize-synchronize masked noon (λ mode. true) (λ mode. refl) [] (status 493 4) source
      destination source-Distinct destination-Honest

abbrev change : ℕ → List String → Change
change symbol path = record { symbol = symbol; path = path }

reports :
    (synchronize masked noon (λ mode. true) [] (status 493 4) source destination).log
    ≡ change b'o' ("a" ∷ [])
      ∷ change b'-' ("d" ∷ [])
      ∷ change b'+' ("d" ∷ [])
      ∷ change b'+' ("d" ∷ "b" ∷ [])
      ∷ change b'-' ("old" ∷ "x" ∷ [])
      ∷ change b'-' ("old" ∷ [])
      ∷ change b't' ("a" ∷ [])
      ∷ change b'p' ("a" ∷ [])
      ∷ change b't' ("d" ∷ "b" ∷ [])
      ∷ change b't' ("d" ∷ [])
      ∷ change b't' []
      ∷ []
unfolding synchronize lookup put erase
reports = refl
