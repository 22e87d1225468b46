-- ===== src/Cse/Tests.antt =====
-- The theorems about CSE.c at a concrete run.
use operating_systems_iitkgp.Base.{
  ◌<◌, ◌≡◌, refl, ◌⊎◌, Bool, true, false, List, [], ◌∷◌, ◌++◌, some, arith, length, All,
}
use operating_systems_iitkgp.Cse.{
  Line, swaprole, exit, tokens, Mode, command_input, execute, Shell, Who, first, second, Cse,
  type_line, receive, start_cse, Reach, start, types, receives,
}
use operating_systems_iitkgp.Cse.Order.{commands_of, IsShort, lines_in_order, shells_go_on}

-- "ls -l", with a blank too many.
abbrev list_files : Line
list_files = 108 ∷ 115 ∷ 32 ∷ 32 ∷ 45 ∷ 108 ∷ []

abbrev split : List Line
split = (108 ∷ 115 ∷ []) ∷ (45 ∷ 108 ∷ []) ∷ []

abbrev shell : Mode → Bool → Bool → Shell
shell mode state ended = record { mode = mode; state = state; ended = ended }

abbrev asked : Cse
asked = record start_cse { pipe1 = list_files ∷ [] }

asked_run : type_line start_cse first list_files ≡ some asked
unfolding type_line
asked_run = refl

abbrev leaving : Cse
leaving = record asked { shell1 = shell execute true false; pipe1 = list_files ∷ swaprole ∷ [] }

leaving_run : type_line asked first swaprole ≡ some leaving
unfolding type_line
leaving_run = refl

abbrev listed : Cse
listed = record leaving { pipe1 = swaprole ∷ []; executed = split ∷ [] }

listed_run : receive leaving second ≡ some (list_files, listed)
unfolding receive
listed_run = refl

abbrev swapped : Cse
swapped = record listed { shell2 = shell command_input true false; pipe1 = [] }

swapped_run : receive listed second ≡ some (swaprole, swapped)
unfolding receive
swapped_run = refl

abbrev closing : Cse
closing = record swapped { shell2 = shell command_input true true; pipe2 = exit ∷ [] }

closing_run : type_line swapped second exit ≡ some closing
unfolding type_line
closing_run = refl

closing-Reach : Reach (list_files ∷ swaprole ∷ exit ∷ []) (list_files ∷ swaprole ∷ []) closing
closing-Reach =
    types second exit
      (receives second
        (receives second (types first swaprole (types first list_files start asked_run) leaving_run)
          listed_run)
        swapped_run)
      closing_run

lines_in_order_example :
    (list_files ∷ swaprole ∷ exit ∷ []
      ≡ (list_files ∷ swaprole ∷ []) ++ (closing.pipe1 ++ closing.pipe2))
    × (closing.executed ≡ commands_of (list_files ∷ swaprole ∷ []))
lines_in_order_example =
    lines_in_order (list_files ∷ swaprole ∷ exit ∷ []) (list_files ∷ swaprole ∷ []) closing
      closing-Reach

IsShort-entered : All IsShort (list_files ∷ swaprole ∷ exit ∷ [])
unfolding tokens
IsShort-entered = (omega arith, (omega arith, (omega arith, tt)))

shells_go_on_example :
    ((who : Who) × ((line : Line)
        → length line < 50
        → (s' : Cse) × (type_line closing who line ≡ some s')))
    ⊎ (((who : Who) × (line : Line) × (s' : Cse) × (receive closing who ≡ some (line, s')))
        ⊎ ((closing.shell1.ended ≡ true)
            × (closing.shell2.ended ≡ true)
            × (list_files ∷ swaprole ∷ exit ∷ [] ≡ list_files ∷ swaprole ∷ [])))
shells_go_on_example =
    shells_go_on (list_files ∷ swaprole ∷ exit ∷ []) (list_files ∷ swaprole ∷ []) closing
      closing-Reach IsShort-entered
