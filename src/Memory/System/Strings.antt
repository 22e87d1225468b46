-- ===== src/Memory/System/Strings.antt =====
-- A turn over the string of master.c is the turn over its page numbers.
use mathlib.Core.Option
use operating_systems_iitkgp.Base.{
  ℕ, zero, suc, ◌≤◌, ◌≡◌, refl, ◌∙◌, List, [], ◌∷◌, Option, none, some, arith, length,
  length-append, ◌<◌,
}
use operating_systems_iitkgp.Base.Int.{ℤ, pos, negsuc}
use operating_systems_iitkgp.Memory.Mmu.{Mmu, Sent, Outcome, running, exited, fault, serve}
use operating_systems_iitkgp.Memory.Refstr.{reference_str, next_page, IsDecimal}
use operating_systems_iitkgp.Memory.Refstr.Laws.{
  reference_str-nil, reference_str-cons, next_page-reference_str,
}
use operating_systems_iitkgp.Memory.System.{
  answer, Turn, tell, take_answer, ask, leave, run_process, run_pages,
}

-- A turn with what is left written in another way.
abbrev pub rewritten : (List ℕ → List ℕ) → Turn (List ℕ) → Turn (List ℕ)
rewritten g t = record t { waiting = Option.map g t.waiting }

module _ (g : List ℕ → List ℕ) where
  tell-rewritten :
      (before : List (ℕ × ℕ)) (o : Option (Turn (List ℕ)))
      → tell before (Option.map (rewritten g) o) ≡ Option.map (rewritten g) (tell before o)
  tell-rewritten before none = refl
  tell-rewritten before (some t) = refl

  take_answer-rewritten :
      (s : List ℕ) (more more' : Mmu → Option (Turn (List ℕ))) (m : Mmu) (sent : List Sent)
      (o : Option ℤ)
      → ((m : Mmu) → more' m ≡ Option.map (rewritten g) (more m))
      → take_answer (g s) more' m sent o ≡ Option.map (rewritten g) (take_answer s more m sent o)
  take_answer-rewritten s more more' m sent none same = refl
  take_answer-rewritten s more more' m sent (some (pos frame)) same =
      rw (same m) (tell-rewritten _ (more m))
  take_answer-rewritten s more more' m sent (some (negsuc zero)) same = refl
  take_answer-rewritten s more more' m sent (some (negsuc (suc zero))) same = refl
  take_answer-rewritten s more more' m sent (some (negsuc (suc (suc n)))) same =
      rw (same m) (tell-rewritten _ (more m))

  ask-rewritten :
      (pid : ℕ) (s : List ℕ) (more more' : Mmu → Option (Turn (List ℕ))) (o : Outcome)
      → ((m : Mmu) → more' m ≡ Option.map (rewritten g) (more m))
      → ask pid (g s) more' o ≡ Option.map (rewritten g) (ask pid s more o)
  ask-rewritten pid s more more' (running m sent) same =
      take_answer-rewritten s more more' m sent (answer pid sent) same
  ask-rewritten pid s more more' exited same = refl
  ask-rewritten pid s more more' fault same = refl

  leave-rewritten : (o : Outcome) → leave o ≡ Option.map (rewritten g) (leave o)
  leave-rewritten (running m sent) = refl
  leave-rewritten exited = refl
  leave-rewritten fault = refl

run_process-step :
    (fuel pid : ℕ) (s rest : List ℕ) (page : ℕ) (m : Mmu)
    → 0 < length s
    → next_page 0 s ≡ some (page, rest)
    → run_process (suc fuel) pid s m
      ≡ ask pid s (run_process fuel pid rest) (serve m pid (pos page))
unfolding run_process
run_process-step fuel pid [] rest page m some_left eq = absurd (omega arith)
run_process-step fuel pid (c ∷ s) rest page m some_left eq = rw (eq) refl

module _ (print : ℕ → List ℕ) (d : IsDecimal print) where
  reference_str-left : (page : ℕ) (pages : List ℕ) → 0 < length (reference_str print (page ∷ pages))
  reference_str-left page pages =
      rw (reference_str-cons print page pages)
        (omega (arith, length-append {0} (print page) (b'.' ∷ reference_str print pages)))

  -- The loop of process.c over the string that master.c has written is the loop over its page
  -- numbers, for any fuel from the number of the pages on; what is left of the string is the string
  -- of the pages that are left.
  pub run_process-run_pages :
      (pages : List ℕ) (fuel pid : ℕ) (m : Mmu)
      → length pages ≤ fuel
      → run_process fuel pid (reference_str print pages) m
        ≡ Option.map (rewritten (reference_str print)) (run_pages pid pages m)
  unfolding run_process run_pages
  run_process-run_pages [] fuel pid m enough =
      rw (reference_str-nil print) (leave-rewritten (reference_str print) (serve m pid (negsuc 8)))
  run_process-run_pages (page ∷ pages) zero pid m enough = absurd (omega arith)
  run_process-run_pages (page ∷ pages) (suc fuel) pid m enough =
      run_process-step fuel pid (reference_str print (page ∷ pages)) (reference_str print pages)
        page m (reference_str-left page pages) (next_page-reference_str print d page pages)
      ∙ ask-rewritten (reference_str print) pid (page ∷ pages) (run_pages pid pages)
          (run_process fuel pid (reference_str print pages)) (serve m pid (pos page))
          (λ m. run_process-run_pages pages fuel pid m (omega arith))
