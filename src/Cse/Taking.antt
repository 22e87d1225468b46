-- ===== src/Cse/Taking.antt =====
-- The step of CSE.c in which a shell takes a line from its pipe.
use mathlib.Core.Option.{some-injective}
use mathlib.Core.List.{append-nil}
use operating_systems_iitkgp.Base.{
  ◌≡◌, refl, sym, ap, subst, ◌∙◌, inl, inr, Bool, true, false, List, [], ◌∷◌, ◌++◌, none, some, ltb,
  ◌>>=◌, length, All, Bool-cases,
}
use operating_systems_iitkgp.Cse.{
  Line, Kind, swaps, ends, runs, kind, tokens, args_of, Mode, command_input, execute, Who, first,
  second, Cse, shell_of, with_shell, pipe_of, with_pipe, flipped, received, receive_at, receive,
}
use operating_systems_iitkgp.Cse.Phases.{
  shell, writer, reader, IsRun, Phase, talks, over, shell_of-with_pipe, shell_of-with_shell,
  writer-with_shell, pipe_of-with_shell, pipe_of-with_pipe, flipped-with_pipe, executed-with_shell,
  executed-with_pipe, flow, flow-pipe_of, flipped-flipped,
}

-- The commands among the lines taken, each split into its arguments.
abbrev pub command_of : Line → Kind → List (List Line)
command_of line swaps = []
command_of line ends = []
command_of line runs = tokens line [] ∷ []

pub receive-ended : (s : Cse) (who : Who) → (shell_of s who).ended ≡ true → receive s who ≡ none
unfolding receive
receive-ended s who h = rw (h) refl

module _ (s : Cse) (who : Who) (st : Bool) where
  pub receive-input : shell_of s who ≡ shell command_input st false → receive s who ≡ none
  unfolding receive receive_at
  receive-input h = rw (h) refl

  pub receive-execute :
      shell_of s who ≡ shell execute st false
      → receive s who ≡ receive_at s who (shell execute st false) execute (pipe_of s st)
  unfolding receive
  receive-execute h = rw (h) refl

  pub receive-empty :
      shell_of s who ≡ shell execute st false → pipe_of s st ≡ [] → receive s who ≡ none
  unfolding receive_at
  receive-empty h p = receive-execute h ∙ ap (receive_at s who (shell execute st false) execute) p

  pub receive-line :
      (line : Line) (q : List Line)
      → shell_of s who ≡ shell execute st false
      → pipe_of s st ≡ line ∷ q
      → receive s who ≡ (
          received (with_pipe s st q) who line (shell execute st false) (kind line) >>= λ next.
          some (line, next))
  unfolding receive_at
  receive-line line q h p =
      receive-execute h ∙ ap (receive_at s who (shell execute st false) execute) p

-- The line was the first on its way, and what it says has been run.
abbrev pub Taken : Cse → Line → Cse → Type 0
Taken s line s' =
    Phase s' × (flow s ≡ line ∷ flow s') × (s'.executed ≡ s.executed ++ command_of line (kind line))

module _ (s : Cse) (st : Bool) (line : Line) (q : List Line) where
  abbrev pub rest : Cse
  rest = with_pipe s st q

  abbrev pub changed : Mode → Bool → Bool → Cse
  changed mode state ended = with_shell rest (reader st) (shell mode state ended)

  rest-shell : (w : Who) → shell_of rest w ≡ shell_of s w
  rest-shell w = shell_of-with_pipe s (shell execute st false) q st w

  changed-pipe : (m : Mode) (b e : Bool) → pipe_of (changed m b e) st ≡ q
  changed-pipe m b e =
      pipe_of-with_shell rest (shell m b e) [] (reader st) st
      ∙ pipe_of-with_pipe s (shell execute st false) q st

  changed-flipped :
      (m : Mode) (b e : Bool) → pipe_of (changed m b e) (flipped st) ≡ pipe_of s (flipped st)
  changed-flipped m b e =
      pipe_of-with_shell rest (shell m b e) [] (reader st) (flipped st)
      ∙ flipped-with_pipe s (shell execute st false) q st

  changed-writer :
      (m : Mode) (b e : Bool) → shell_of (changed m b e) (writer st) ≡ shell_of s (writer st)
  changed-writer m b e = writer-with_shell rest (shell m b e) [] st ∙ rest-shell (writer st)

  taken_flow :
      (s' : Cse)
      → pipe_of s st ≡ line ∷ q
      → pipe_of s (flipped st) ≡ []
      → pipe_of s' st ≡ q
      → pipe_of s' (flipped st) ≡ []
      → flow s ≡ line ∷ flow s'
  taken_flow s' p o p' o' =
      flow-pipe_of s st o ∙ p ∙ ap (λ k. line ∷ k) (sym p' ∙ sym (flow-pipe_of s' st o'))

  changed-executed : (m : Mode) (b e : Bool) → (changed m b e).executed ≡ s.executed ++ []
  changed-executed m b e =
      executed-with_shell rest (shell m b e) [] (reader st)
      ∙ executed-with_pipe s (shell execute st false) q st
      ∙ sym (append-nil s.executed)

  pub swaps-Taken :
      shell_of s (writer st) ≡ shell execute (flipped st) false
      → pipe_of s st ≡ line ∷ q
      → q ≡ []
      → kind line ≡ swaps
      → pipe_of s (flipped st) ≡ []
      → Taken s line (changed command_input (flipped st) false)
  swaps-Taken w p last k o =
      let s' : Cse = changed command_input (flipped st) false in
      let none_left : pipe_of s' (flipped st) ≡ [] =
        changed-flipped command_input (flipped st) false ∙ o in
      (
        talks (flipped st)
            (shell_of-with_shell rest (shell command_input (flipped st) false) [] (reader st))
            (ap (λ b. shell_of s' (writer b)) (flipped-flipped st)
              ∙ changed-writer command_input (flipped st) false
              ∙ w)
            (subst (All IsRun) (sym none_left) tt)
            (ap (pipe_of s') (flipped-flipped st)
              ∙ changed-pipe command_input (flipped st) false
              ∙ last),
        taken_flow s' p o (changed-pipe command_input (flipped st) false) none_left,
        changed-executed command_input (flipped st) false
            ∙ ap (λ c. s.executed ++ command_of line c) (sym k),
      )

  pub ends-Taken :
      (shell_of s (writer st)).ended ≡ true
      → pipe_of s st ≡ line ∷ q
      → q ≡ []
      → kind line ≡ ends
      → pipe_of s (flipped st) ≡ []
      → Taken s line (changed execute st true)
  ends-Taken w p last k o =
      let s' : Cse = changed execute st true in
      let none_left : pipe_of s' (flipped st) ≡ [] = changed-flipped execute st true ∙ o in
      (
        over st (ap (λ x. x.ended) (changed-writer execute st true) ∙ w)
            (ap (λ x. x.ended) (shell_of-with_shell rest (shell execute st true) [] (reader st)))
            (changed-pipe execute st true ∙ last) none_left,
        taken_flow s' p o (changed-pipe execute st true) none_left,
        changed-executed execute st true ∙ ap (λ c. s.executed ++ command_of line c) (sym k),
      )

  -- A command leaves the phase as it is.
  abbrev pub ran : List Line → Cse
  ran args = record rest { executed = rest.executed ++ args ∷ [] }

  pub ran-shell : (args : List Line) (w : Who) → shell_of (ran args) w ≡ shell_of s w
  unfolding shell_of
  ran-shell args first = rest-shell first
  ran-shell args second = rest-shell second

  pub ran-pipe : (args : List Line) (b : Bool) → pipe_of (ran args) b ≡ pipe_of rest b
  unfolding pipe_of
  ran-pipe args false = refl
  ran-pipe args true = refl

  pub ran-Taken :
      (args : List Line)
      → args_of line ≡ some args
      → pipe_of s st ≡ line ∷ q
      → kind line ≡ runs
      → pipe_of s (flipped st) ≡ []
      → Phase (ran args)
      → Taken s line (ran args)
  unfolding args_of
  ran-Taken args split p k o phase =
      let is : tokens line [] ≡ args = elim (Bool-cases (ltb (length (tokens line [])) 10)) [
        | inl y ↦
            let e : args_of line ≡ some (tokens line []) = rw (y) refl in
            some-injective (tokens line []) args (sym e ∙ split)
        | inr z ↦ let e : args_of line ≡ none = rw (z) refl in cc
      ] in
      (
        phase,
        taken_flow (ran args) p o
            (ran-pipe args st ∙ pipe_of-with_pipe s (shell execute st false) q st)
            (ran-pipe args (flipped st) ∙ flipped-with_pipe s (shell execute st false) q st ∙ o),
        ap (λ c. c ++ args ∷ []) (executed-with_pipe s (shell execute st false) q st)
            ∙ ap (λ a. s.executed ++ a ∷ []) (sym is)
            ∙ ap (λ c. s.executed ++ command_of line c) (sym k),
      )
