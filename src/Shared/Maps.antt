-- ===== src/Shared/Maps.antt =====
-- Go maps as association lists. Keys are compared by an instance of `Eq`.
use mathlib.Core.Path.{◌≡◌, refl, subst}
use mathlib.Core.Logic.{inl, inr}
use mathlib.Core.Bool.{false}
use mathlib.Core.Option.{Option, none, some}
use mathlib.Core.List.{List, [], ◌∷◌}
use auto_restic.Shared.Lists.{All}
use auto_restic.Shared.Tests.{Eq, ◌==◌, if◌then◌else◌, Bool-cases}
use native.Mathlib.Omega.{arith}

module _ {ℓ κ} {K : Type ℓ} {V : Type κ} ⦃e : Eq K⦄ where
  -- m[k], with `none` for a key that is absent
  unfoldable pub lookup : K → List (K × V) → Option V
  lookup k [] = none
  lookup k ((j, v) ∷ m) = if j == k then some v else lookup k m

  -- m[k] = v
  unfoldable pub insert : K → V → List (K × V) → List (K × V)
  insert k v [] = (k, v) ∷ []
  insert k v ((j, w) ∷ m) = if j == k then (k, v) ∷ m else (j, w) ∷ insert k v m

  -- delete(m, k)
  unfoldable pub erase : K → List (K × V) → List (K × V)
  erase k [] = []
  erase k ((j, v) ∷ m) = let rest = erase k m in if j == k then rest else (j, v) ∷ rest

  pub lookup-insert :
      (key other : K) (value : V) (entries : List (K × V))
      → lookup other (insert key value entries)
        ≡ (if key == other then some value else lookup other entries)
  unfolding lookup insert
  lookup-insert key other value [] = refl
  lookup-insert key other value ((first, w) ∷ entries) = ground (
    arith,
    lookup-insert key other value entries,
    e.equal_iff key other,
    e.equal_iff first key,
    e.equal_iff first other,
  )

  pub lookup-erase :
      (key other : K) (entries : List (K × V))
      → lookup other (erase key entries) ≡ (if key == other then none else lookup other entries)
  unfolding lookup erase
  lookup-erase key other [] = ground arith
  lookup-erase key other ((first, w) ∷ entries) = ground (
    arith,
    lookup-erase key other entries,
    e.equal_iff key other,
    e.equal_iff first key,
    e.equal_iff first other,
  )

pub ruleset map_laws = (lookup-insert, lookup-erase)

-- A predicate of every entry of a map.
module _ {ℓ κ μ} {K : Type ℓ} {V : Type κ} ⦃e : Eq K⦄ (P : K × V → Type μ) where
  pub All-insert : (k : K) (v : V) (m : List (K × V)) → P (k, v) → All P m → All P (insert k v m)
  unfolding insert
  All-insert k v [] p h = (p, tt)
  All-insert k v ((j, w) ∷ m) p h = elim (Bool-cases (j == k)) [
    | inl same ↦ rw same (p, h.1)
    | inr other ↦ rw other (h.0, All-insert k v m p h.1)
  ]

  pub lookup-All : (k : K) (v : V) (m : List (K × V)) → lookup k m ≡ some v → All P m → P (k, v)
  unfolding lookup
  lookup-All k v [] found h = cc
  lookup-All k v ((j, w) ∷ m) found h = elim (Bool-cases (j == k)) [
    | inl same ↦
        let at_key : j ≡ k = (e.equal_iff j k).0 same in
        let value : w ≡ v = cc (rw same at found) in
        subst (λ (x : K). P (x, v)) at_key (subst (λ (x : V). P (j, x)) value h.0)
    | inr other ↦ lookup-All k v m (rw other at found) h.1
  ]

-- What holds of every entry holds, with another key, of the entries that stay.
module _ {ℓ κ μ} {K : Type ℓ} {V : Type κ} ⦃e : Eq K⦄ (P : K × V → Type μ) (Q : K × V → Type μ)
    (k : K) (keep : (j : K) (v : V) → (j == k) ≡ false → P (j, v) → Q (j, v)) where
  pub All-erase : (m : List (K × V)) → All P m → All Q (erase k m)
  unfolding erase
  All-erase [] h = tt
  All-erase ((j, w) ∷ m) h = elim (Bool-cases (j == k)) [
    | inl same ↦ rw (same, erase) (All-erase m h.1)
    | inr other ↦ rw (other, erase) (keep j w other h.0, All-erase m h.1)
  ]
