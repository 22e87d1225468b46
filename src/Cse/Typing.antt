-- ===== src/Cse/Typing.antt =====
-- The step of CSE.c in which a user enters a line.
use mathlib.Core.Option.{some-injective}
use operating_systems_iitkgp.Base.{
  ◌≡◌, refl, sym, ap, subst, ◌∙◌, inl, inr, Bool, true, false, [], ◌∷◌, ◌++◌, none, some, ltb,
  if◌then◌else◌, length, All, All-append, Bool-cases,
}
use operating_systems_iitkgp.Cse.{
  Line, Kind, swaps, ends, runs, kind, command_input, execute, Who, Cse, shell_of, with_shell,
  pipe_of, with_pipe, flipped, sent, type_at, type_line,
}
use operating_systems_iitkgp.Cse.Phases.{
  shell, writer, reader, IsRun, Phase, talks, swapping, ending, over, who_cases, shell_of-with_pipe,
  shell_of-with_shell, reader-with_shell, pipe_of-with_shell, pipe_of-with_pipe, flipped-with_pipe,
  executed-with_shell, executed-with_pipe, flow, flow-pipe_of,
}

module _ (s : Cse) (who : Who) (line : Line) where
  type_line-ended : (shell_of s who).ended ≡ true → type_line s who line ≡ none
  unfolding type_line
  type_line-ended h = rw (h) refl

  type_line-execute :
      (st : Bool) → shell_of s who ≡ shell execute st false → type_line s who line ≡ none
  unfolding type_line type_at
  type_line-execute st h = rw (h) refl

  abbrev pub typed : Bool → Kind → Cse
  typed st k =
      with_shell (with_pipe s st (pipe_of s st ++ line ∷ [])) who
        (sent (shell command_input st false) k)

  pub type_line-input :
      (st : Bool)
      → shell_of s who ≡ shell command_input st false
      → type_line s who line ≡ (if ltb (length line) 50 then some (typed st (kind line)) else none)
  unfolding type_line type_at
  type_line-input st h = rw (h) refl

module _ (s : Cse) (line : Line) (st : Bool) where
  abbrev longer : Cse
  longer = with_pipe s st (pipe_of s st ++ line ∷ [])

  typed-pipe : (k : Kind) → pipe_of (typed s (writer st) line st k) st ≡ pipe_of s st ++ line ∷ []
  typed-pipe k =
      pipe_of-with_shell longer (sent (shell command_input st false) k) [] (writer st) st
      ∙ pipe_of-with_pipe s (shell execute st false) (pipe_of s st ++ line ∷ []) st

  typed-flipped :
      (k : Kind) → pipe_of (typed s (writer st) line st k) (flipped st) ≡ pipe_of s (flipped st)
  typed-flipped k =
      pipe_of-with_shell longer (sent (shell command_input st false) k) [] (writer st) (flipped st)
      ∙ flipped-with_pipe s (shell execute st false) (pipe_of s st ++ line ∷ []) st

  typed-reader :
      (k : Kind) → shell_of (typed s (writer st) line st k) (reader st) ≡ shell_of s (reader st)
  typed-reader k =
      reader-with_shell longer (sent (shell command_input st false) k) [] st
      ∙ shell_of-with_pipe s (shell execute st false) (pipe_of s st ++ line ∷ []) st (reader st)

  typed-Phase :
      (k : Kind)
      → kind line ≡ k
      → shell_of s (reader st) ≡ shell execute st false
      → All IsRun (pipe_of s st)
      → pipe_of s (flipped st) ≡ []
      → Phase (typed s (writer st) line st k)
  unfolding sent
  typed-Phase swaps e r a o =
      swapping st (pipe_of s st) line
        (shell_of-with_shell longer (sent (shell command_input st false) swaps) [] (writer st))
        (typed-reader swaps ∙ r) (typed-pipe swaps) e a (typed-flipped swaps ∙ o)
  typed-Phase ends e r a o =
      ending st (pipe_of s st) line
        (ap (λ x. x.ended)
          (shell_of-with_shell longer (sent (shell command_input st false) ends) [] (writer st)))
        (typed-reader ends ∙ r) (typed-pipe ends) e a (typed-flipped ends ∙ o)
  typed-Phase runs e r a o =
      talks st
        (shell_of-with_shell longer (sent (shell command_input st false) runs) [] (writer st))
        (typed-reader runs ∙ r)
        (subst (All IsRun) (sym (typed-pipe runs))
          (All-append IsRun (pipe_of s st) (line ∷ []) a (e, tt)))
        (typed-flipped runs ∙ o)

  typed-flow :
      (k : Kind)
      → pipe_of s (flipped st) ≡ []
      → flow (typed s (writer st) line st k) ≡ flow s ++ line ∷ []
  typed-flow k o =
      flow-pipe_of (typed s (writer st) line st k) st (typed-flipped k ∙ o)
      ∙ typed-pipe k
      ∙ ap (λ q. q ++ line ∷ []) (sym (flow-pipe_of s st o))

  typed-executed : (k : Kind) → (typed s (writer st) line st k).executed ≡ s.executed
  typed-executed k =
      executed-with_shell longer (sent (shell command_input st false) k) [] (writer st)
      ∙ executed-with_pipe s (shell execute st false) (pipe_of s st ++ line ∷ []) st

-- The line is on its way behind the others, and no command has been run.
abbrev pub Entered : Cse → Line → Cse → Type 0
Entered s line s' = Phase s' × (flow s' ≡ flow s ++ line ∷ []) × (s'.executed ≡ s.executed)

module _ (s s' : Cse) (line : Line) where
  Entered-nothing :
      (who : Who) → type_line s who line ≡ none → type_line s who line ≡ some s' → Entered s line s'
  Entered-nothing who z h = cc

  pub type_line-Phase : (who : Who) → Phase s → type_line s who line ≡ some s' → Entered s line s'
  type_line-Phase who (talks st w r a o) h = elim (who_cases st who) [
    | inr e ↦ Entered-nothing who (type_line-execute s who line st (ap (shell_of s) e ∙ r)) h
    | inl e ↦
        let went = ap (λ k. type_line s k line) (sym e) ∙ h in
        elim (Bool-cases (ltb (length line) 50)) [
          | inr z ↦
              Entered-nothing who
                (ap (λ k. type_line s k line) e
                  ∙ type_line-input s (writer st) line st w
                  ∙ rw (z) refl)
                h
          | inl y ↦
              let goes : type_line s (writer st) line
                  ≡ some (typed s (writer st) line st (kind line)) =
                type_line-input s (writer st) line st w ∙ rw (y) refl in
              subst (Entered s line)
                (some-injective (typed s (writer st) line st (kind line)) s' (sym goes ∙ went))
                (
                  typed-Phase s line st (kind line) refl r a o,
                  typed-flow s line st (kind line) o,
                  typed-executed s line st (kind line),
                )
        ]
  ]
  type_line-Phase who (swapping st q l w r p k a o) h = elim (who_cases st who) [
    | inr e ↦ Entered-nothing who (type_line-execute s who line st (ap (shell_of s) e ∙ r)) h
    | inl e ↦
        Entered-nothing who (type_line-execute s who line (flipped st) (ap (shell_of s) e ∙ w)) h
  ]
  type_line-Phase who (ending st q l w r p k a o) h = elim (who_cases st who) [
    | inr e ↦ Entered-nothing who (type_line-execute s who line st (ap (shell_of s) e ∙ r)) h
    | inl e ↦
        Entered-nothing who (type_line-ended s who line (ap (λ v. (shell_of s v).ended) e ∙ w)) h
  ]
  type_line-Phase who (over st w r p o) h = elim (who_cases st who) [
    | inr e ↦
        Entered-nothing who (type_line-ended s who line (ap (λ v. (shell_of s v).ended) e ∙ r)) h
    | inl e ↦
        Entered-nothing who (type_line-ended s who line (ap (λ v. (shell_of s v).ended) e ∙ w)) h
  ]
