-- ===== src/Memory/Mmu/Frames.antt =====
-- The list of frames (SM2): what the search for a free frame and the release of one do to it.
use operating_systems_iitkgp.Base.{
  ℕ, zero, suc, ◌+◌, ◌*◌, ◌≤◌, ◌<◌, ◌≡◌, refl, ap, ◌∙◌, List, [], ◌∷◌, some, arith, ◌==◌,
  if◌then◌else◌, length, get_elem?, set, total,
}
use mathlib.Core.Path.{fun_ext}
use operating_systems_iitkgp.Memory.Table.{Cell, free, occupied, end}
use operating_systems_iitkgp.Memory.Mmu.{Search, found, full, past_end, shift, take_frame}

abbrev pub is_occupied : Cell → ℕ
is_occupied free = 0
is_occupied occupied = 1
is_occupied end = 0

abbrev pub is_free : Cell → ℕ
is_free free = 1
is_free occupied = 0
is_free end = 0

-- The last cell, and no other, is the end mark.
abbrev pub Ends : List Cell → Type 0
Ends [] = ⊥
Ends (free ∷ cs) = Ends cs
Ends (occupied ∷ cs) = Ends cs
Ends (end ∷ cs) = cs ≡ []

-- The occupied frames, each with its weight `g`.
abbrev pub taken : (ℕ → ℕ) → List Cell → ℕ
taken g [] = 0
taken g (c ∷ cs) = is_occupied c * g 0 + taken (λ i. g (suc i)) cs

-- The weight that counts the frame `x` alone.
abbrev pub only : ℕ → ℕ → ℕ
only x i = if i == x then 1 else 0

pub taken-set :
    (g : ℕ → ℕ) (cs : List Cell) (i : ℕ) (c : Cell) {old : Cell}
    → get_elem? cs i ≡ some old
    → taken g (set cs i c) + is_occupied old * g i ≡ taken g cs + is_occupied c * g i
taken-set g [] i c h = cc
taken-set g (d ∷ cs) zero c h = ground arith
taken-set g (d ∷ cs) (suc i) c h = omega (arith, taken-set (λ j. g (suc j)) cs i c h)

pub taken-zero : (cs : List Cell) → taken (λ i. 0) cs ≡ 0
taken-zero [] = refl
taken-zero (c ∷ cs) = omega (arith, taken-zero cs)

taken-shift : (x : ℕ) (cs : List Cell) → taken (λ i. only (suc x) (suc i)) cs ≡ taken (only x) cs
taken-shift x cs = ap (λ g. taken g cs) (fun_ext λ i. ground arith)

taken-after : (cs : List Cell) → taken (λ i. only 0 (suc i)) cs ≡ 0
taken-after cs = ap (λ g. taken g cs) (fun_ext λ i. ground arith) ∙ taken-zero cs

pub taken-only-le : (x : ℕ) (cs : List Cell) → taken (only x) cs ≤ 1
taken-only-le x [] = omega arith
taken-only-le zero (c ∷ cs) = ground (arith, taken-after cs)
taken-only-le (suc x) (c ∷ cs) = ground (arith, taken-shift x cs, taken-only-le x cs)

pub taken-only-occupied :
    (x : ℕ) (cs : List Cell) → 0 < taken (only x) cs → get_elem? cs x ≡ some occupied
taken-only-occupied x [] h = absurd (omega arith)
taken-only-occupied zero (c ∷ cs) h = ground (arith, taken-after cs)
taken-only-occupied (suc x) (c ∷ cs) h = ground (arith, taken-shift x cs, taken-only-occupied x cs)

-- An occupied frame that is set free leaves the end mark where it is.
pub Ends-set :
    (cs : List Cell) (i : ℕ) → Ends cs → get_elem? cs i ≡ some occupied → Ends (set cs i free)
Ends-set [] i h e = h
Ends-set (free ∷ cs) zero h e = h
Ends-set (occupied ∷ cs) zero h e = h
Ends-set (end ∷ cs) zero h e = cc
Ends-set (free ∷ cs) (suc i) h e = Ends-set cs i h e
Ends-set (occupied ∷ cs) (suc i) h e = Ends-set cs i h e
Ends-set (end ∷ cs) (suc i) h e = ground arith

-- The frames that are free, and those that are not, are all frames.
pub free_and_taken :
    (cs : List Cell) → Ends cs → total is_free cs + taken (λ i. 1) cs + 1 ≡ length cs
free_and_taken [] h = absurd h
free_and_taken (free ∷ cs) h = omega (arith, free_and_taken cs h)
free_and_taken (occupied ∷ cs) h = omega (arith, free_and_taken cs h)
free_and_taken (end ∷ cs) h = rw h (omega arith)

-- What the search comes to: a free frame that is now occupied, or no frame is free.
pub record Found (cells : List Cell) (f : ℕ) (after : List Cell) : Type 0 where
  pub was_free : get_elem? cells f ≡ some free
  pub after_set : after ≡ set cells f occupied
  pub ends : Ends after

abbrev pub Searched : List Cell → Search → Type 0
Searched cells (found f after) = Found cells f after
Searched cells full = total is_free cells ≡ 0
Searched cells past_end = ⊥

-- The search never runs past the end mark.
pub take_frame-Searched : (cells : List Cell) → Ends cells → Searched cells (take_frame cells)
unfolding take_frame
take_frame-Searched [] h = h
take_frame-Searched (free ∷ cells) h = record { was_free = refl; after_set = refl; ends = h }
take_frame-Searched (occupied ∷ cells) h = go (take_frame cells) (take_frame-Searched cells h)
  where
    go : (s : Search) → Searched cells s → Searched (occupied ∷ cells) (shift occupied s)
    go (found f after) r = record {
      was_free = r.was_free;
      after_set = ap (◌∷◌ occupied) r.after_set;
      ends = r.ends;
    }
    go full r = omega arith
    go past_end r = r
take_frame-Searched (end ∷ cells) h = rw h
