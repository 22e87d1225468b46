-- ===== src/Proctree.antt =====
-- "Assignment 1/proctree.c": each node of a tree is printed by a process of its own. The file and a
-- node are lists of character codes, of which a node has no zero. The rest of a line stands for the
-- position in it; a position beyond the end of a line is `none`. A line that `fgets` returns has less
-- than `max_len` characters, and so have the names and the number that are copied from it. The
-- processes are nested calls, since each waits for its child; their numbers are not modelled.
pub mod Lines
pub mod Rows
pub mod Outline
mod Tests
use operating_systems_iitkgp.Base.{
  ℕ, zero, suc, ◌+◌, ◌-◌, ◌*◌, Bool, ◌||◌, List, [], ◌∷◌, ◌++◌, Option, none, some, ltb, ◌==◌,
  if◌then◌else◌, ◌>>=◌,
}

abbrev pub Text : Type 0
Text = List ℕ

-- The size of the buffer of a line.
abbrev pub max_len : ℕ
max_len = 100

-- The line that is read and the lines after it, of which the first is empty at the end of the file.
abbrev pub all_lines : Text × List Text → List Text
all_lines ([], more) = more
all_lines (c ∷ line, more) = (c ∷ line) ∷ more

-- The lines that the calls of `fgets` return: each ends at an end of line, or when the buffer is full.
-- The first of them has room for a number of characters.
pub fgets : ℕ → Text → Text × List Text
fgets room [] = ([], [])
fgets room (c ∷ file) =
    let ends = c == b'\n' || room == 1 in
    let next = fgets (if ends then max_len - 1 else room - 1) file in
    if ends then (c ∷ [], all_lines next) else (c ∷ next.0, next.1)

-- The loop that compares a line with the node: what comes after the node and a blank.
pub after_node : Text → Text → Option Text
after_node [] [] = none
after_node [] (c ∷ line) = if c == b' ' then some line else none
after_node (c ∷ node) [] = none
after_node (c ∷ node) (d ∷ line) = let rest = after_node node line in if c == d then rest else none

or_else : Option Text → Option Text → Option Text
or_else none other = other
or_else (some rest) other = some rest

-- The loop over the lines.
pub find_node : List Text → Text → Option Text
unfolding after_node or_else
find_node [] node = none
find_node (line ∷ file) node = or_else (after_node node line) (find_node file node)

-- The digits, as `atoi` reads them, and what comes after them.
pub num_child : ℕ → Text → ℕ × Text
num_child n [] = (n, [])
num_child n (c ∷ line) =
    let next = num_child (n * 10 + (c - b'0')) line in
    if ltb c b'0' || ltb b'9' c then (n, c ∷ line) else next

-- The characters up to a blank, an end of line or a zero, and the rest from there.
pub new_node : Text → Text × Text
new_node [] = ([], [])
new_node (c ∷ line) =
    let (node, rest) = new_node line in
    if c == b' ' || c == b'\n' || c == 0 then ([], c ∷ line) else (c ∷ node, rest)

-- A node that is printed with its indentation, or one that is not found.
pub data Printed : Type 0 where
  printed : ℕ → Text → Printed
  not_found : Text → Printed

-- The loop over the children; `visit` is the process of a child.
pub children : (Text → Option (List Printed)) → ℕ → Text → Option (List Printed)
unfolding new_node
children visit zero line = some []
children visit (suc k) [] = none
children visit (suc k) (c ∷ line) = do
  lines ← visit ((new_node line).0)
  more ← children visit k ((new_node line).1)
  some (lines ++ more)

pub print_node : (Text → Option (List Printed)) → ℕ → Text → Option Text → Option (List Printed)
unfolding children num_child
print_node visit indent node none = some (not_found node ∷ [])
print_node visit indent node (some line) = do
  lines ← children visit ((num_child 0 line).0) ((num_child 0 line).1)
  some (printed indent node ∷ lines)

-- The process of a node, with fuel for the depth of the tree.
pub proctree : Text → ℕ → ℕ → Text → Option (List Printed)
unfolding fgets find_node print_node
proctree file zero indent node = none
proctree file (suc fuel) indent node =
    print_node (λ child. proctree file fuel (indent + 1) child) indent node
      (find_node (all_lines (fgets (max_len - 1) file)) node)
