-- ===== src/Cse.antt =====
-- "Assignment 3/CSE.c": two shells and two pipes. The shell in command-input mode sends the lines of its
-- user to the other one, which runs them; "swaprole" changes the modes. A line is the list of its
-- character codes. A pipe holds what has been written and not been
-- taken, also by the buffer of stdin. `buff` has 50 entries and `args`
-- has 10: a line or a command that is longer is no step.
pub mod Phases
pub mod Typing
pub mod Taking
pub mod Receiving
pub mod Order
mod Tests
use operating_systems_iitkgp.Base.{
  ℕ, ◌≡◌, Bool, true, false, List, [], ◌∷◌, ◌++◌, Option, none, some, ltb, ◌==◌, ◌&&◌,
  if◌then◌else◌, ◌>>=◌, length,
}

abbrev pub Line : Type 0
Line = List ℕ

-- "swaprole" and "exit".
abbrev pub swaprole : Line
swaprole = 115 ∷ 119 ∷ 97 ∷ 112 ∷ 114 ∷ 111 ∷ 108 ∷ 101 ∷ []

abbrev pub exit : Line
exit = 101 ∷ 120 ∷ 105 ∷ 116 ∷ []

-- `strcmp(buff, ...) == 0`.
pub strcmp : Line → Line → Bool
strcmp [] [] = true
strcmp [] (d ∷ k) = false
strcmp (c ∷ l) [] = false
strcmp (c ∷ l) (d ∷ k) = c == d && strcmp l k

pub data Kind : Type 0 where
  swaps ends runs : Kind

pub kind : Line → Kind
unfolding strcmp
kind line = if strcmp line swaprole then swaps else if strcmp line exit then ends else runs

-- The loop over strtok: `token` is what has been read of the next one.
token_end : Line → List Line → List Line
token_end [] rest = rest
token_end (c ∷ token) rest = (c ∷ token) ∷ rest

pub tokens : Line → Line → List Line
unfolding token_end
tokens [] token = token_end token []
tokens (c ∷ line) token =
    let next = tokens line [] in
    let on = tokens line (token ++ c ∷ []) in if c == 32 then token_end token next else on

-- The entry after the last token is NULL.
pub args_of : Line → Option (List Line)
unfolding tokens
args_of line = if ltb (length (tokens line [])) 10 then some (tokens line []) else none

-- Mode 2 and mode 3.
pub data Mode : Type 0 where
  command_input execute : Mode

pub record Shell : Type 0 where
  pub mode : Mode
  pub state : Bool
  pub ended : Bool

pub data Who : Type 0 where
  first second : Who

-- `executed` is what the shells have run so far, the arguments of each.
pub record Cse : Type 0 where
  pub shell1 : Shell
  pub shell2 : Shell
  pub pipe1 : List Line
  pub pipe2 : List Line
  pub executed : List (List Line)

pub shell_of : Cse → Who → Shell
shell_of s first = s.shell1
shell_of s second = s.shell2

pub with_shell : Cse → Who → Shell → Cse
with_shell s first x = record s { shell1 = x }
with_shell s second x = record s { shell2 = x }

-- The pipe that both modes take for a value of `state`.
pub pipe_of : Cse → Bool → List Line
pipe_of s false = s.pipe1
pipe_of s true = s.pipe2

pub with_pipe : Cse → Bool → List Line → Cse
with_pipe s false q = record s { pipe1 = q }
with_pipe s true q = record s { pipe2 = q }

-- `state = 1 - state`.
abbrev pub flipped : Bool → Bool
flipped false = true
flipped true = false

-- After a line of the user.
pub sent : Shell → Kind → Shell
sent x swaps = record x { mode = execute; state = flipped x.state }
sent x ends = record x { ended = true }
sent x runs = x

pub type_at : Cse → Who → Line → Shell → Mode → Option Cse
unfolding with_shell with_pipe pipe_of sent kind
type_at s who line x execute = none
type_at s who line x command_input =
    if ltb (length line) 50
    then some
        (with_shell (with_pipe s x.state (pipe_of s x.state ++ line ∷ [])) who (sent x (kind line)))
    else none

-- The user of a shell enters a line.
pub type_line : Cse → Who → Line → Option Cse
unfolding shell_of type_at
type_line s who line =
    if (shell_of s who).ended
    then none
    else type_at s who line (shell_of s who) ((shell_of s who).mode)

-- After a line from the pipe.
pub received : Cse → Who → Line → Shell → Kind → Option Cse
unfolding with_shell args_of
received s who line x swaps =
    some (with_shell s who (record x { mode = command_input; state = flipped x.state }))
received s who line x ends = some (with_shell s who (record x { ended = true }))
received s who line x runs = do
  args ← args_of line
  some (record s { executed = s.executed ++ args ∷ [] })

pub receive_at : Cse → Who → Shell → Mode → List Line → Option (Line × Cse)
unfolding with_pipe received kind
receive_at s who x command_input q = none
receive_at s who x execute [] = none
receive_at s who x execute (line ∷ q) = do
  next ← received (with_pipe s x.state q) who line x (kind line)
  some (line, next)

-- A shell takes a line from its pipe, and says which. `none` says that it waits.
pub receive : Cse → Who → Option (Line × Cse)
unfolding shell_of pipe_of receive_at
receive s who =
    if (shell_of s who).ended
    then none
    else receive_at s who (shell_of s who) ((shell_of s who).mode)
        (pipe_of s ((shell_of s who).state))

abbrev pub start_cse : Cse
start_cse = record {
  shell1 = record { mode = command_input; state = false; ended = false };
  shell2 = record { mode = execute; state = false; ended = false };
  pipe1 = [];
  pipe2 = [];
  executed = [];
}

-- What the shells reach, when the users have entered the first lines and the shells have taken the
-- second ones, in that order.
pub data Reach : List Line → List Line → Cse → Type 0 where
  start : Reach [] [] start_cse
  types :
      {entered taken : List Line} {s s' : Cse} (who : Who) (line : Line)
      → Reach entered taken s
      → type_line s who line ≡ some s'
      → Reach (entered ++ line ∷ []) taken s'
  receives :
      {entered taken : List Line} {s s' : Cse} {line : Line} (who : Who)
      → Reach entered taken s
      → receive s who ≡ some (line, s')
      → Reach entered (taken ++ line ∷ []) s'
