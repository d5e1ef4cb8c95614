-- ===== src/Fallible/Triples.antt =====
-- Reasoning on computations that may fail: what holds before, what holds after a result, and what
-- holds after an error.
use auto_restic.Exec.{Error, Result, ok, err}
use auto_restic.Fallible.{M, ◌>>=◌, continue_with, attempt, ignore, return, throw}

-- The outcome of a computation, as a predicate on it.
abbrev pub Ends : {S A : Type 0} → (A → S → Type 0) → (S → Type 0) → S × Result A → Type 0
Ends Q E (s, ok a) = Q a s
Ends Q E (s, err e) = E s

pub record Triple {S A : Type 0} (P : S → Type 0) (m : M S A) (Q : A → S → Type 0) (E : S → Type 0)
    : Type 0 where
  pub ends : (s : S) → P s → Ends Q E (m s)

module _ {S A B : Type 0} {P E : S → Type 0} {Q : A → S → Type 0} {R : B → S → Type 0} where
  pub Triple-bind :
      {m : M S A} {f : A → M S B}
      → Triple P m Q E
      → ((a : A) → Triple (Q a) (f a) R E)
      → Triple P (m >>= f) R E
  Triple-bind {m = m} {f = f} first next = record { ends = λ s p. go (m s) (first.ends s p) }
    where
      go : (v : S × Result A) → Ends Q E v → Ends R E (continue_with f v)
      go (s', ok a) h = (next a).ends s' h
      go (s', err e) h = h

-- A computation that keeps a predicate, whether it fails or not.
abbrev pub Keeps : {S A : Type 0} → (S → Type 0) → M S A → Type 0
Keeps P m = Triple P m (λ a s. P s) P

module _ {S A : Type 0} {P : S → Type 0} where
  pub Keeps-attempt : {m : M S A} → Keeps P m → Keeps P (attempt m)
  Keeps-attempt {m = m} kept = record { ends = λ s p. go (m s) (kept.ends s p) }
    where
      go : (v : S × Result A) → Ends (λ a s. P s) P v → P v.0
      go (s', ok a) h = h
      go (s', err e) h = h

  pub Keeps-ignore : {m : M S A} → Keeps P m → Keeps P (ignore m)
  Keeps-ignore kept = record { ends = (Keeps-attempt kept).ends }

-- `attempt`, by what its result was
pub Triple-attempt :
    {S A : Type 0} {P E : S → Type 0} {Q : A → S → Type 0} {m : M S A}
    → Triple P m Q E
    → Triple P (attempt m) (λ r s. Ends Q E (s, r)) E
Triple-attempt {S} {A} {P} {E} {Q} {m} t = record { ends = λ s p. go (m s) (t.ends s p) }
  where
    go : (v : S × Result A) → Ends Q E v → Ends Q E (v.0, v.1)
    go (s', ok a) h = h
    go (s', err e) h = h

module _ {S A : Type 0} {P E : S → Type 0} {Q : A → S → Type 0} {m : M S A} where
  pub Triple-on_error :
      {E' : S → Type 0} → Triple P m Q E → ((s : S) → E s → E' s) → Triple P m Q E'
  Triple-on_error {E'} t weaker = record { ends = λ s p. go (m s) (t.ends s p) }
    where
      go : (v : S × Result A) → Ends Q E v → Ends Q E' v
      go (s', ok a) h = h
      go (s', err e) h = weaker s' h

pub Triple-return :
    {S A : Type 0} {P E : S → Type 0} {Q : A → S → Type 0} {a : A}
    → ((s : S) → P s → Q a s)
    → Triple P (return a) Q E
Triple-return h = record { ends = h }

pub Triple-throw :
    {S A : Type 0} {P E : S → Type 0} {Q : A → S → Type 0} {e : Error}
    → ((s : S) → P s → E s)
    → Triple P (throw {A = A} e) Q E
Triple-throw h = record { ends = h }

-- A step that keeps what holds may stand before any other.
pub Triple-keep :
    {S A B : Type 0} {P E : S → Type 0} {R : B → S → Type 0} {m : M S A} {f : A → M S B}
    → Keeps P m
    → ((s : S) → P s → E s)
    → ((a : A) → Triple P (f a) R E)
    → Triple P (m >>= f) R E
Triple-keep kept weaker next = Triple-bind (Triple-on_error kept weaker) next

pub Triple-pre :
    {S A : Type 0} {P P' E : S → Type 0} {Q : A → S → Type 0} {m : M S A}
    → ((s : S) → P' s → P s)
    → Triple P m Q E
    → Triple P' m Q E
Triple-pre stronger t = record { ends = λ s p. t.ends s (stronger s p) }

-- A precondition that does not depend on the rows.
pub Triple-given :
    {S A : Type 0} {G : Type 0} {P E : S → Type 0} {Q : A → S → Type 0} {m : M S A}
    → (G → Triple P m Q E)
    → Triple (λ s. G × P s) m Q E
Triple-given t = record { ends = λ s h. (t h.0).ends s h.1 }

-- A computation whose error is ignored does not fail.
pub Triple-ignore :
    {S A : Type 0} {P E : S → Type 0} {m : M S A} → Keeps P m → Triple P (ignore m) (λ a s. P s) E
Triple-ignore {S} {A} {P} {E} {m} kept = record { ends = λ s p. go (m s) (kept.ends s p) }
  where
    go : (v : S × Result A) → Ends (λ a s. P s) P v → P v.0
    go (s', ok a) h = h
    go (s', err e) h = h

-- What comes behind a step that cannot succeed.
pub Triple-never :
    {S A : Type 0} {E : S → Type 0} {Q : A → S → Type 0} {m : M S A} → Triple (λ s. ⊥) m Q E
Triple-never = record { ends = λ s never. absurd never }

pub Triple-post :
    {S A : Type 0} {P E : S → Type 0} {Q Q' : A → S → Type 0} {m : M S A}
    → ((a : A) (s : S) → Q a s → Q' a s)
    → Triple P m Q E
    → Triple P m Q' E
Triple-post {S} {A} {P} {E} {Q} {Q'} {m} weaker t = record { ends = λ s p. go (m s) (t.ends s p) }
  where
    go : (v : S × Result A) → Ends Q E v → Ends Q' E v
    go (s', ok a) h = weaker a s' h
    go (s', err e) h = h
