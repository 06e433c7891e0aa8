-- ===== src/Prelude/Assoc.antt =====
-- Go maps keyed by strings, as association lists. `insert` writes, `delete` removes a key.
use mathlib.Core.Path.{◌≡◌, refl}
use mathlib.Core.Option.{Option, none, some}
use mathlib.Core.List.{List, [], ◌∷◌}
use native.Mathlib.Omega.{arith}
use mathlib.Core.Logic.{inl, inr}
use rallish.Prelude.Lists.{All}
use rallish.Prelude.Tests.{if◌then◌else◌, Bool-cases, some-injective}
use rallish.Prelude.Strings.{Text, str_eq, str_eq_iff}

module _ {ℓ} {V : Type ℓ} where
  unfoldable pub lookup : Text → List (Text × V) → Option V
  lookup k [] = none
  lookup k ((j, v) ∷ m) = if str_eq j k then some v else lookup k m

  unfoldable pub insert : Text → V → List (Text × V) → List (Text × V)
  insert k v [] = (k, v) ∷ []
  insert k v ((j, w) ∷ m) = if str_eq j k then (k, v) ∷ m else (j, w) ∷ insert k v m

  unfoldable pub delete : Text → List (Text × V) → List (Text × V)
  delete k [] = []
  delete k ((j, w) ∷ m) = if str_eq j k then delete k m else (j, w) ∷ delete k m

  pub lookup-insert :
      (k j : Text) (v : V) (m : List (Text × V))
      → lookup j (insert k v m) ≡ (if str_eq k j then some v else lookup j m)
  unfolding lookup insert
  lookup-insert k j v [] = refl
  lookup-insert k j v ((i, w) ∷ m) =
      ground (arith, str_eq_iff k j, str_eq_iff i k, str_eq_iff i j, lookup-insert k j v m)

  pub lookup-delete :
      (k j : Text) (m : List (Text × V))
      → lookup j (delete k m) ≡ (if str_eq k j then none else lookup j m)
  unfolding lookup delete
  lookup-delete k j [] = ground arith
  lookup-delete k j ((i, w) ∷ m) =
      ground (arith, str_eq_iff k j, str_eq_iff i k, str_eq_iff i j, lookup-delete k j m)

module _ {ℓ κ} {V : Type ℓ} (P : V → Type κ) where
  -- What holds of every value of a map.
  abbrev pub AllValues : List (Text × V) → Type κ
  AllValues = All (λ e. P e.1)

  pub lookup-All :
      (k : Text) (m : List (Text × V)) {v : V} → AllValues m → lookup k m ≡ some v → P v
  unfolding lookup
  lookup-All k [] a e = cc
  lookup-All k ((j, w) ∷ m) a e = elim (Bool-cases (str_eq j k)) [
    | inl here ↦ let same : w ≡ _ = some-injective (rw here at e) in rw (← same) a.0
    | inr there ↦ lookup-All k m a.1 (rw there at e)
  ]

  pub insert-All :
      (k : Text) (v : V) (m : List (Text × V)) → P v → AllValues m → AllValues (insert k v m)
  unfolding insert
  insert-All k v [] p a = (p, tt)
  insert-All k v ((j, w) ∷ m) p a = elim (Bool-cases (str_eq j k)) [
    | inl here ↦ rw here (p, a.1)
    | inr there ↦ rw there (a.0, insert-All k v m p a.1)
  ]
