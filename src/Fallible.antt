-- ===== src/Fallible.antt =====
-- Computations that change a state and may fail: the services' methods, whose statements and
-- commands return errors.
pub mod Triples
use auto_restic.Shared.{Bool, true}
use auto_restic.Exec.{Error, Result, ok, err}

-- A computation on a state.
abbrev pub M : Type 0 → Type 0 → Type 0
M S A = S → S × Result A

abbrev pub continue_with : {S A B : Type 0} → (A → M S B) → S × Result A → S × Result B
continue_with f (s, ok a) = f a s
continue_with f (s, err e) = (s, err e)

infixl 5 ◌>>=◌
abbrev pub ◌>>=◌ : {S A B : Type 0} → M S A → (A → M S B) → M S B
m >>= f = λ s. continue_with f (m s)

abbrev pub return : {S A : Type 0} → A → M S A
return a = λ s. (s, ok a)

abbrev pub asks : {S A : Type 0} → (S → A) → M S A
asks read = λ s. (s, ok (read s))

abbrev pub throw : {S A : Type 0} → Error → M S A
throw e = λ s. (s, err e)

-- the two of a result that is not propagated
abbrev pub as_value : {S A : Type 0} → S × Result A → S × Result (Result A)
as_value (s, r) = (s, ok r)

abbrev pub attempt : {S A : Type 0} → M S A → M S (Result A)
attempt m = λ s. as_value (m s)

-- `_ = m`
abbrev pub ignore : {S A : Type 0} → M S A → M S Bool
ignore m = attempt m >>= λ r. return true

abbrev pub lift : {S A : Type 0} → Result A → M S A
lift r = λ s. (s, r)
