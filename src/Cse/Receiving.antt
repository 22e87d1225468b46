-- ===== src/Cse/Receiving.antt =====
-- Every line that a shell of CSE.c takes leads from a phase to a phase.
use mathlib.Core.Option.{some-injective}
use operating_systems_iitkgp.Base.{
  ◌≡◌, refl, sym, ap, subst, ◌∙◌, inl, inr, Bool, true, false, List, [], ◌∷◌, ◌++◌, none, some,
  ◌>>=◌, All, Option-cases,
}
use operating_systems_iitkgp.Cse.{
  Line, Kind, swaps, ends, runs, kind, args_of, Mode, command_input, execute, Who, Cse, shell_of,
  pipe_of, flipped, received, receive,
}
use operating_systems_iitkgp.Cse.Phases.{
  shell, writer, reader, IsRun, Phase, talks, swapping, ending, over, who_cases, pipe_of-with_pipe,
  flipped-with_pipe,
}
use operating_systems_iitkgp.Cse.Taking.{
  receive-ended, receive-input, receive-empty, receive-line, Taken, rest, changed, ran, ran-shell,
  ran-pipe, swaps-Taken, ends-Taken, ran-Taken,
}

module _ (s s' : Cse) (line : Line) where
  Taken-nothing :
      (who : Who) → receive s who ≡ none → receive s who ≡ some (line, s') → Taken s line s'
  Taken-nothing who z h = cc

  went :
      (who : Who) (l : Line) (t : Cse)
      → receive s who ≡ some (l, t)
      → receive s who ≡ some (line, s')
      → Taken s l t
      → Taken s line s'
  went who l t goes h taken =
      let e : (l, t) ≡ (line, s') = some-injective (l, t) (line, s') (sym goes ∙ h) in
      subst (λ p. Taken s p.0 p.1) e taken

  module _ (st : Bool) (r : shell_of s (reader st) ≡ shell execute st false)
      (o : pipe_of s (flipped st) ≡ []) where
    -- A command at the head of the pipe.
    runs_Taken :
        (l : Line) (q : List Line)
        → pipe_of s st ≡ l ∷ q
        → kind l ≡ runs
        → ((args : List Line) → Phase (ran s st l q args))
        → receive s (reader st) ≡ some (line, s')
        → Taken s line s'
    unfolding received
    runs_Taken l q p k phase h =
        let goes : receive s (reader st) ≡ (
            received (rest s st l q) (reader st) l (shell execute st false) runs >>= λ next.
            some (l, next)) =
          receive-line s (reader st) st l q r p
          ∙ ap
              (λ c. received (rest s st l q) (reader st) l (shell execute st false) c >>= λ next.
                some (l, next))
              k in
        elim (Option-cases (args_of l)) [
          | inl z ↦ Taken-nothing (reader st) (goes ∙ rw (z) refl) h
          | inr (args, y) ↦
              went (reader st) l (ran s st l q args) (goes ∙ rw (y) refl) h
                (ran-Taken s st l q args y p k o (phase args))
        ]

    -- "swaprole" or "exit" there, or nothing.
    changes_Taken :
        (l : Line) (k : Kind) (m : Mode) (b e : Bool)
        → pipe_of s st ≡ l ∷ []
        → kind l ≡ k
        → received (rest s st l []) (reader st) l (shell execute st false) k
          ≡ some (changed s st l [] m b e)
        → Taken s l (changed s st l [] m b e)
        → receive s (reader st) ≡ some (line, s')
        → Taken s line s'
    changes_Taken l k m b e p is does taken h =
        went (reader st) l (changed s st l [] m b e)
          (receive-line s (reader st) st l [] r p
            ∙ ap
                (λ c. received (rest s st l []) (reader st) l (shell execute st false) c >>= λ next.
                  some (l, next))
                is
            ∙ ap (λ n. n >>= λ next. some (l, next)) does)
          h taken

    ran-reader :
        (l : Line) (q : List Line) (args : List Line)
        → shell_of (ran s st l q args) (reader st) ≡ shell execute st false
    ran-reader l q args = ran-shell s st l q args (reader st) ∙ r

    ran-rest : (l : Line) (q : List Line) (args : List Line) → pipe_of (ran s st l q args) st ≡ q
    ran-rest l q args =
        ran-pipe s st l q args st ∙ pipe_of-with_pipe s (shell execute st false) q st

    ran-flipped :
        (l : Line) (q : List Line) (args : List Line)
        → pipe_of (ran s st l q args) (flipped st) ≡ []
    ran-flipped l q args =
        ran-pipe s st l q args (flipped st) ∙ flipped-with_pipe s (shell execute st false) q st ∙ o

    talks_Taken :
        (q : List Line)
        → shell_of s (writer st) ≡ shell command_input st false
        → pipe_of s st ≡ q
        → All IsRun q
        → receive s (reader st) ≡ some (line, s')
        → Taken s line s'
    talks_Taken [] w p a h = Taken-nothing (reader st) (receive-empty s (reader st) st r p) h
    talks_Taken (l ∷ q) w p (k, a) h =
        runs_Taken l q p k
          (λ args.
            talks st (ran-shell s st l q args (writer st) ∙ w) (ran-reader l q args)
              (subst (All IsRun) (sym (ran-rest l q args)) a) (ran-flipped l q args))
          h

    swapping_Taken :
        (q : List Line) (l : Line)
        → shell_of s (writer st) ≡ shell execute (flipped st) false
        → pipe_of s st ≡ q ++ l ∷ []
        → kind l ≡ swaps
        → All IsRun q
        → receive s (reader st) ≡ some (line, s')
        → Taken s line s'
    unfolding received
    swapping_Taken [] l w p k a h =
        changes_Taken l swaps command_input (flipped st) false p k refl
          (swaps-Taken s st l [] w p refl k o) h
    swapping_Taken (x ∷ q) l w p k (kx, a) h =
        runs_Taken x (q ++ l ∷ []) p kx
          (λ args.
            swapping st q l (ran-shell s st x (q ++ l ∷ []) args (writer st) ∙ w)
              (ran-reader x (q ++ l ∷ []) args) (ran-rest x (q ++ l ∷ []) args) k a
              (ran-flipped x (q ++ l ∷ []) args))
          h

    ending_Taken :
        (q : List Line) (l : Line)
        → (shell_of s (writer st)).ended ≡ true
        → pipe_of s st ≡ q ++ l ∷ []
        → kind l ≡ ends
        → All IsRun q
        → receive s (reader st) ≡ some (line, s')
        → Taken s line s'
    unfolding received
    ending_Taken [] l w p k a h =
        changes_Taken l ends execute st true p k refl (ends-Taken s st l [] w p refl k o) h
    ending_Taken (x ∷ q) l w p k (kx, a) h =
        runs_Taken x (q ++ l ∷ []) p kx
          (λ args.
            ending st q l (ap (λ v. v.ended) (ran-shell s st x (q ++ l ∷ []) args (writer st)) ∙ w)
              (ran-reader x (q ++ l ∷ []) args) (ran-rest x (q ++ l ∷ []) args) k a
              (ran-flipped x (q ++ l ∷ []) args))
          h

  as_seen :
      (who w : Who) → who ≡ w → receive s who ≡ some (line, s') → receive s w ≡ some (line, s')
  as_seen who w e h = ap (receive s) (sym e) ∙ h

  pub receive-Phase : (who : Who) → Phase s → receive s who ≡ some (line, s') → Taken s line s'
  receive-Phase who (talks st w r a o) h = elim (who_cases st who) [
    | inl e ↦ Taken-nothing who (receive-input s who st (ap (shell_of s) e ∙ w)) h
    | inr e ↦ talks_Taken st r o (pipe_of s st) w refl a (as_seen who (reader st) e h)
  ]
  receive-Phase who (swapping st q l w r p k a o) h = elim (who_cases st who) [
    | inl e ↦ Taken-nothing who (receive-empty s who (flipped st) (ap (shell_of s) e ∙ w) o) h
    | inr e ↦ swapping_Taken st r o q l w p k a (as_seen who (reader st) e h)
  ]
  receive-Phase who (ending st q l w r p k a o) h = elim (who_cases st who) [
    | inl e ↦ Taken-nothing who (receive-ended s who (ap (λ v. (shell_of s v).ended) e ∙ w)) h
    | inr e ↦ ending_Taken st r o q l w p k a (as_seen who (reader st) e h)
  ]
  receive-Phase who (over st w r p o) h = elim (who_cases st who) [
    | inl e ↦ Taken-nothing who (receive-ended s who (ap (λ v. (shell_of s v).ended) e ∙ w)) h
    | inr e ↦ Taken-nothing who (receive-ended s who (ap (λ v. (shell_of s v).ended) e ∙ r)) h
  ]
