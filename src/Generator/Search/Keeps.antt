-- ===== src/Generator/Search/Keeps.antt =====
-- What holds of the state through the try block and the rounds of the search in
-- src/connectcoin_p2c_tools/generator.py.
use connectcoin_p2c_tools.Common.{
  ℕ, suc, ◌≡◌, inl, inr, refl, ap, Bool, true, false, not, if◌then◌else◌, List, [], ◌∷◌, Option,
  none, some, ◌==◌, length, arith, Bool-cases,
}
use connectcoin_p2c_tools.Common.Outcome.{bind_inv, Result, ok, raises, out_of_fuel, ◌>>=◌, ◌>>◌}
use connectcoin_p2c_tools.Generator.Search.{Attempt, Search}
use connectcoin_p2c_tools.Generator.Search.Attempts.{
  GenerationResult, Step, going, found, pop, is_caught, Tried, settle,
}

-- A property of the numbers of pending, started and completed attempts.
abbrev pub Counts : Type 1
Counts = ℕ → ℕ → ℕ → Type 0

abbrev pub CountsOf : Counts → Search → Type 0
CountsOf B s = B (length s.pending) s.attempts_started s.attempts_completed

-- `Q` holds of what is found, and `B` of the numbers where the search goes on.
abbrev pub OfOption : (GenerationResult → Type 0) → Result (Option GenerationResult) → Type 0
OfOption Q (ok (some result)) = Q result
OfOption Q (ok none) = Unit
OfOption Q (raises e) = Unit
OfOption Q out_of_fuel = Unit

-- What a test of the target, or a check, leaves to be shown.
pub OfOption-met :
    (Q : GenerationResult → Type 0) (next : Result (Option GenerationResult)) (met : Result Bool)
    → (met ≡ ok true → OfOption Q next)
    → OfOption Q (met >>= λ m. if not m then ok none else next)
OfOption-met Q next (ok true) k = k refl
OfOption-met Q next (ok false) k = tt
OfOption-met Q next (raises e) k = tt
OfOption-met Q next out_of_fuel k = tt

pub OfOption-then :
    (Q : GenerationResult → Type 0) (next : Result (Option GenerationResult))
    (check : Result (Unit {0}))
    → (check ≡ ok tt → OfOption Q next)
    → OfOption Q (check >> next)
OfOption-then Q next (ok u) k = k refl
OfOption-then Q next (raises e) k = tt
OfOption-then Q next out_of_fuel k = tt

abbrev pub OfTried : (GenerationResult → Type 0) → Counts → Tried → Type 0
OfTried Q B (s, r) = CountsOf B s × OfOption Q r

abbrev pub OfStep : (GenerationResult → Type 0) → Counts → Result Step → Type 0
OfStep Q B (ok (found result)) = Q result
OfStep Q B (ok (going s)) = CountsOf B s
OfStep Q B (raises e) = Unit
OfStep Q B out_of_fuel = Unit

pub settle-OfStep :
    (Q : GenerationResult → Type 0) (B : Counts) (t : Tried) → OfTried Q B t → OfStep Q B (settle t)
unfolding settle
settle-OfStep Q B (s, ok (some result)) h = h.1
settle-OfStep Q B (s, ok none) h = h.0
settle-OfStep Q B (s, raises e) h = elim (Bool-cases (is_caught e)) [
  | inl c ↦ rw c h.0
  | inr c ↦ rw c tt
]
settle-OfStep Q B (s, out_of_fuel) h = tt

-- A step after a step.
pub bind-OfStep :
    (Q : GenerationResult → Type 0) (B C : Counts) (r : Result Step) (rest : Step → Result Step)
    → OfStep Q B r
    → ((g : GenerationResult) → Q g → OfStep Q C (rest (found g)))
    → ((s : Search) → CountsOf B s → OfStep Q C (rest (going s)))
    → OfStep Q C (r >>= rest)
bind-OfStep Q B C (ok (found g)) rest h k go = k g h
bind-OfStep Q B C (ok (going s)) rest h k go = go s h
bind-OfStep Q B C (raises e) rest h k go = tt
bind-OfStep Q B C out_of_fuel rest h k go = tt

-- A pending attempt is taken out.
pub pop_lem :
    (number : ℕ) (pending left : List Attempt)
    → pop number pending ≡ ok left
    → length pending ≡ suc (length left)
pop_lem number [] left h = cc
pop_lem number (a ∷ pending) left h = elim (Bool-cases (a.number == number)) [
  | inl e ↦ omega (arith, ap length (ok_eq pending left (rw e at h)))
  | inr e ↦
      let (rest, popped, h') =
        bind_inv (λ (rest : List Attempt). ok (a ∷ rest)) (pop number pending) (rw e at h) in
      omega (arith, pop_lem number pending rest popped, ap length (ok_eq (a ∷ rest) left h'))
]
  where
    ok_eq : (p l : List Attempt) → ok p ≡ ok l → p ≡ l
    ok_eq p l h = cc
