-- ===== src/Cse/Phases.antt =====
-- The phases of the two shells of CSE.c, and that every step leads from one to one.
use mathlib.Core.List.{append-nil}
use operating_systems_iitkgp.Base.{
  ◌≡◌, refl, ap, ◌∙◌, ◌⊎◌, inl, inr, Bool, true, false, List, [], ◌∷◌, ◌++◌, All,
}
use operating_systems_iitkgp.Cse.{
  Line, swaps, ends, runs, kind, Mode, command_input, execute, Shell, Who, first, second, Cse,
  shell_of, with_shell, pipe_of, with_pipe, flipped,
}

abbrev pub shell : Mode → Bool → Bool → Shell
shell mode state ended = record { mode = mode; state = state; ended = ended }

-- Who takes the commands for a value of `state`, and who runs them.
abbrev pub writer : Bool → Who
writer false = first
writer true = second

abbrev pub reader : Bool → Who
reader st = writer (flipped st)

abbrev pub IsRun : Line → Type 0
IsRun line = kind line ≡ runs

-- Between two changes of the modes; from "swaprole" until the reader has taken it; from "exit" until the
-- reader has taken it; after both have ended.
pub data Phase (s : Cse) : Type 0 where
  talks :
      (st : Bool)
      → shell_of s (writer st) ≡ shell command_input st false
      → shell_of s (reader st) ≡ shell execute st false
      → All IsRun (pipe_of s st)
      → pipe_of s (flipped st) ≡ []
      → Phase s
  swapping :
      (st : Bool) (q : List Line) (line : Line)
      → shell_of s (writer st) ≡ shell execute (flipped st) false
      → shell_of s (reader st) ≡ shell execute st false
      → pipe_of s st ≡ q ++ line ∷ []
      → kind line ≡ swaps
      → All IsRun q
      → pipe_of s (flipped st) ≡ []
      → Phase s
  ending :
      (st : Bool) (q : List Line) (line : Line)
      → (shell_of s (writer st)).ended ≡ true
      → shell_of s (reader st) ≡ shell execute st false
      → pipe_of s st ≡ q ++ line ∷ []
      → kind line ≡ ends
      → All IsRun q
      → pipe_of s (flipped st) ≡ []
      → Phase s
  over :
      (st : Bool)
      → (shell_of s (writer st)).ended ≡ true
      → (shell_of s (reader st)).ended ≡ true
      → pipe_of s st ≡ []
      → pipe_of s (flipped st) ≡ []
      → Phase s

pub who_cases : (st : Bool) (who : Who) → (who ≡ writer st) ⊎ (who ≡ reader st)
who_cases false first = inl refl
who_cases false second = inr refl
who_cases true first = inr refl
who_cases true second = inl refl

module _ (s : Cse) (x : Shell) (q : List Line) where
  pub shell_of-with_pipe : (st : Bool) (w : Who) → shell_of (with_pipe s st q) w ≡ shell_of s w
  unfolding shell_of with_pipe
  shell_of-with_pipe false first = refl
  shell_of-with_pipe false second = refl
  shell_of-with_pipe true first = refl
  shell_of-with_pipe true second = refl

  pub shell_of-with_shell : (w : Who) → shell_of (with_shell s w x) w ≡ x
  unfolding shell_of with_shell
  shell_of-with_shell first = refl
  shell_of-with_shell second = refl

  pub reader-with_shell :
      (st : Bool) → shell_of (with_shell s (writer st) x) (reader st) ≡ shell_of s (reader st)
  unfolding shell_of with_shell
  reader-with_shell false = refl
  reader-with_shell true = refl

  pub writer-with_shell :
      (st : Bool) → shell_of (with_shell s (reader st) x) (writer st) ≡ shell_of s (writer st)
  unfolding shell_of with_shell
  writer-with_shell false = refl
  writer-with_shell true = refl

  pub pipe_of-with_shell : (w : Who) (st : Bool) → pipe_of (with_shell s w x) st ≡ pipe_of s st
  unfolding pipe_of with_shell
  pipe_of-with_shell first false = refl
  pipe_of-with_shell first true = refl
  pipe_of-with_shell second false = refl
  pipe_of-with_shell second true = refl

  pub pipe_of-with_pipe : (st : Bool) → pipe_of (with_pipe s st q) st ≡ q
  unfolding pipe_of with_pipe
  pipe_of-with_pipe false = refl
  pipe_of-with_pipe true = refl

  pub flipped-with_pipe :
      (st : Bool) → pipe_of (with_pipe s st q) (flipped st) ≡ pipe_of s (flipped st)
  unfolding pipe_of with_pipe
  flipped-with_pipe false = refl
  flipped-with_pipe true = refl

  pub executed-with_shell : (w : Who) → (with_shell s w x).executed ≡ s.executed
  unfolding with_shell
  executed-with_shell first = refl
  executed-with_shell second = refl

  pub executed-with_pipe : (st : Bool) → (with_pipe s st q).executed ≡ s.executed
  unfolding with_pipe
  executed-with_pipe false = refl
  executed-with_pipe true = refl

-- What is on its way.
abbrev pub flow : Cse → List Line
flow s = s.pipe1 ++ s.pipe2

pub flow-pipe_of : (s : Cse) (st : Bool) → pipe_of s (flipped st) ≡ [] → flow s ≡ pipe_of s st
unfolding pipe_of
flow-pipe_of s false h = ap (λ k. s.pipe1 ++ k) h ∙ append-nil s.pipe1
flow-pipe_of s true h = ap (λ k. k ++ s.pipe2) h

pub flipped-flipped : (st : Bool) → flipped (flipped st) ≡ st
flipped-flipped false = refl
flipped-flipped true = refl
