-- ===== src/Cse/Order.antt =====
-- The lines between the two shells of CSE.c keep their order, and nobody is stuck.
use mathlib.Core.List.{append_assoc, append-nil}
use operating_systems_iitkgp.Base.{
  ◌<◌, ◌≡◌, refl, sym, ap, subst, ◌∙◌, ◌⊎◌, inl, inr, Bool, true, false, List, [], ◌∷◌, ◌++◌, some,
  arith, ltb, length, All,
}
use operating_systems_iitkgp.Cse.{
  Line, Kind, swaps, ends, runs, kind, tokens, args_of, execute, Shell, Who, Cse, shell_of, pipe_of,
  with_pipe, type_line, received, receive, start_cse, Reach, start, types, receives,
}
use operating_systems_iitkgp.Cse.Phases.{
  shell, writer, reader, Phase, talks, swapping, ending, over, flow, flow-pipe_of,
}
use operating_systems_iitkgp.Cse.Typing.{typed, type_line-input, type_line-Phase}
use operating_systems_iitkgp.Cse.Taking.{command_of, receive-line}
use operating_systems_iitkgp.Cse.Receiving.{receive-Phase}

-- The arguments of the commands among some lines, in their order.
pub commands_of : List Line → List (List Line)
commands_of [] = []
commands_of (line ∷ lines) = command_of line (kind line) ++ commands_of lines

commands_of-append :
    (lines : List Line) (line : Line)
    → commands_of (lines ++ line ∷ []) ≡ commands_of lines ++ command_of line (kind line)
unfolding commands_of
commands_of-append [] line = append-nil (command_of line (kind line))
commands_of-append (l ∷ lines) line =
    ap (λ c. command_of l (kind l) ++ c) (commands_of-append lines line)
    ∙ sym (append_assoc (command_of l (kind l)) (commands_of lines) (command_of line (kind line)))

abbrev Ordered : List Line → List Line → Cse → Type 0
Ordered entered taken s =
    Phase s × (entered ≡ taken ++ (s.pipe1 ++ s.pipe2)) × (s.executed ≡ commands_of taken)

start-Phase : Phase start_cse
unfolding shell_of pipe_of
start-Phase = talks false refl refl tt refl

Reach-Ordered :
    (entered taken : List Line) (s : Cse) → Reach entered taken s → Ordered entered taken s
unfolding commands_of
Reach-Ordered _ _ _ start = (start-Phase, refl, refl)
Reach-Ordered _ taken s' (types {entered} {s = s} who line r h) =
    let (phase, order, run) = Reach-Ordered entered taken s r in
    let (phase', more, same) = type_line-Phase s s' line who phase h in
    (
      phase',
      ap (λ e. e ++ line ∷ []) order
          ∙ append_assoc taken (flow s) (line ∷ [])
          ∙ ap (λ f. taken ++ f) (sym more),
      same ∙ run,
    )
Reach-Ordered entered _ s' (receives {taken = taken} {s = s} {line = line} who r h) =
    let (phase, order, run) = Reach-Ordered entered taken s r in
    let (phase', less, more) = receive-Phase s s' line who phase h in
    (
      phase',
      order ∙ ap (λ f. taken ++ f) less ∙ sym (append_assoc taken (line ∷ []) (flow s')),
      more ∙ ap (λ c. c ++ command_of line (kind line)) run ∙ sym (commands_of-append taken line),
    )

-- In any order of the steps, whoever enters lines and however often the modes change: the lines entered
-- are those taken, followed by those in the pipes; and the shells have run the commands among the lines
-- taken, split at the blanks, in the order in which they were entered.
pub lines_in_order :
    (entered taken : List Line) (s : Cse)
    → Reach entered taken s
    → (entered ≡ taken ++ (s.pipe1 ++ s.pipe2)) × (s.executed ≡ commands_of taken)
lines_in_order entered taken s r =
    let (phase, order, run) = Reach-Ordered entered taken s r in (order, run)

-- A line that does not have too many arguments.
abbrev pub IsShort : Line → Type 0
IsShort line = length (tokens line []) < 10

IsShort-behind : (xs ys : List Line) → All IsShort (xs ++ ys) → All IsShort ys
IsShort-behind [] ys a = a
IsShort-behind (x ∷ xs) ys (p, a) = IsShort-behind xs ys a

received-some :
    (s : Cse) (who : Who) (line : Line) (x : Shell) (k : Kind)
    → IsShort line
    → (s' : Cse) × (received s who line x k ≡ some s')
unfolding received args_of
received-some s who line x swaps h = (_, refl)
received-some s who line x ends h = (_, refl)
received-some s who line x runs h =
    let y : ltb (length (tokens line [])) 10 ≡ true = ground arith in
    let split : args_of line ≡ some (tokens line []) = rw (y) refl in
    (record s { executed = s.executed ++ tokens line [] ∷ [] }, rw (split) refl)

abbrev CanTake : Cse → Type 0
CanTake s = (who : Who) × (line : Line) × (s' : Cse) × (receive s who ≡ some (line, s'))

takes_some :
    (s : Cse) (st : Bool) (line : Line) (q : List Line)
    → shell_of s (reader st) ≡ shell execute st false
    → pipe_of s st ≡ line ∷ q
    → IsShort line
    → CanTake s
takes_some s st line q r p short =
    let (s', eq) =
      received-some (with_pipe s st q) (reader st) line (shell execute st false) (kind line)
        short in
    (reader st, line, s', receive-line s (reader st) st line q r p ∙ rw (eq) refl)

-- There is a first line when there is a last one.
takes_first :
    (s : Cse) (st : Bool) (q : List Line) (line : Line)
    → shell_of s (reader st) ≡ shell execute st false
    → pipe_of s st ≡ q ++ line ∷ []
    → All IsShort (pipe_of s st)
    → CanTake s
takes_first s st [] line r p a = takes_some s st line [] r p ((subst (All IsShort) p a).0)
takes_first s st (x ∷ q) line r p a =
    takes_some s st x (q ++ line ∷ []) r p ((subst (All IsShort) p a).0)

both_ended :
    (s : Cse) (st : Bool)
    → (shell_of s (writer st)).ended ≡ true
    → (shell_of s (reader st)).ended ≡ true
    → (s.shell1.ended ≡ true) × (s.shell2.ended ≡ true)
unfolding shell_of
both_ended s false w r = (w, r)
both_ended s true w r = (r, w)

-- In any order of the steps, if no line has more than nine arguments: a user can enter any line that
-- fits, or a shell can take a line, or both shells have ended and all lines have been taken.
pub shells_go_on :
    (entered taken : List Line) (s : Cse)
    → Reach entered taken s
    → All IsShort entered
    → ((who : Who) × ((line : Line)
          → length line < 50
          → (s' : Cse) × (type_line s who line ≡ some s')))
      ⊎ (((who : Who) × (line : Line) × (s' : Cse) × (receive s who ≡ some (line, s')))
          ⊎ ((s.shell1.ended ≡ true) × (s.shell2.ended ≡ true) × (entered ≡ taken)))
shells_go_on entered taken s r short =
    let (phase, order, run) = Reach-Ordered entered taken s r in
    let on_way : All IsShort (flow s) =
      IsShort-behind taken (flow s) (subst (All IsShort) order short) in
    elim phase [
      | talks st w r a o ↦ inl (
        writer st,
        λ line fits.
            let y : ltb (length line) 50 ≡ true = ground arith in
            (
              typed s (writer st) line st (kind line),
              type_line-input s (writer st) line st w ∙ rw (y) refl,
            ),
      )
      | swapping st q l w r p k a o ↦
          inr (inl (takes_first s st q l r p (subst (All IsShort) (flow-pipe_of s st o) on_way)))
      | ending st q l w r p k a o ↦
          inr (inl (takes_first s st q l r p (subst (All IsShort) (flow-pipe_of s st o) on_way)))
      | over st w r p o ↦
          let empty : flow s ≡ [] = flow-pipe_of s st o ∙ p in
          let (x, y) = both_ended s st w r in
          inr (inr (x, y, order ∙ ap (λ f. taken ++ f) empty ∙ append-nil taken))
    ]
