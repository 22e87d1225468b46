-- ===== src/Sync/Tree.antt =====
-- Directory trees, as Assignment 9/sync.c finds them on the file system: regular files and
-- directories, with the permissions and the modification time that `lstat` reports.
use Prim.Native.String.{String}
use text.Mathlib.Text.{◌==◌ as str_eq}
use text.Mathlib.TextEquality.{eq_iff}
use operating_systems_iitkgp.Base.{
  ℕ, ◌≡◌, refl, ◌⊎◌, inl, inr, List, Option, none, some, arith, if◌then◌else◌,
}

pub record Stat : Type 0 where
  pub mode : ℕ
  pub mtime : ℕ

mutual
  pub data Node : Type 0 where
    file : Stat → List ℕ → Node
    dir : Stat → Entries → Node

  pub data Entries : Type 0 where
    end : Entries
    entry : String → Node → Entries → Entries

unfoldable pub lookup : String → Entries → Option Node
lookup m end = none
lookup m (entry n x es) = if str_eq m n then some x else lookup m es

-- The entry of a name, made or replaced.
unfoldable pub put : String → Node → Entries → Entries
put m x end = entry m x end
put m x (entry n y es) = if str_eq m n then entry n x es else entry n y (put m x es)

unfoldable pub erase : String → Entries → Entries
erase m end = end
erase m (entry n y es) = let rest = erase m es in if str_eq m n then rest else entry n y rest

pub lookup-put :
    (m n : String) (x : Node) (es : Entries)
    → lookup m (put n x es) ≡ (if str_eq m n then some x else lookup m es)
unfolding lookup put
lookup-put m n x end = refl
lookup-put m n x (entry k y es) =
    ground (arith, eq_iff m n, eq_iff n k, eq_iff m k, lookup-put m n x es)

pub lookup-erase :
    (m n : String) (es : Entries)
    → lookup m (erase n es) ≡ (if str_eq m n then none else lookup m es)
unfolding lookup erase
lookup-erase m n end = ground arith
lookup-erase m n (entry k y es) =
    ground (arith, eq_iff m n, eq_iff n k, eq_iff m k, lookup-erase m n es)

-- To write what is there changes nothing.
pub put-lookup : (n : String) (x : Node) (es : Entries) → lookup n es ≡ some x → put n x es ≡ es
unfolding lookup put
put-lookup n x end h = cc
put-lookup n x (entry k y es) h = ground (arith, put-lookup n x es)

-- What stands below a name, to split on.
pub item_cases :
    (o : Option Node)
    → (o ≡ none)
      ⊎ ((st : Stat) × (c : List ℕ) × (o ≡ some (file st c)))
      ⊎ ((st : Stat) × (es : Entries) × (o ≡ some (dir st es)))
item_cases none = inl refl
item_cases (some (file st c)) = inr (inl (st, c, refl))
item_cases (some (dir st es)) = inr (inr (st, es, refl))
