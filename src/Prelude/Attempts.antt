-- ===== src/Prelude/Attempts.antt =====
-- A Go result with an error, `(T, error)`, over any type of errors.
use mathlib.Core.Path.{◌≡◌, refl}
use mathlib.Core.Logic.{◌⊎◌, inl, inr}

pub data Attempt {ε κ} (E : Type ε) (T : Type κ) : Type (ε ⊔ κ) where
  raised : E → Attempt E T
  returned : T → Attempt E T

-- The rest of a body that returns early on an error.
abbrev pub after {ε κ ι} :
    {E : Type ε} {S : Type κ} {T : Type ι} → Attempt E S → (S → Attempt E T) → Attempt E T
after (raised code) rest = raised code
after (returned s) rest = rest s

pub raised≢returned {ε κ} :
    {E : Type ε} {T : Type κ} {code : E} {t : T}
    → ◌≡◌ {A = Attempt E T} (raised code) (returned t)
    → ⊥
raised≢returned h = cc

pub returned-injective {ε κ} :
    {E : Type ε} {T : Type κ} {s t : T} → ◌≡◌ {A = Attempt E T} (returned s) (returned t) → s ≡ t
returned-injective h = cc

pub Attempt-cases {ε κ} :
    {E : Type ε} {T : Type κ} (a : Attempt E T)
    → ((code : E) × (a ≡ raised code)) ⊎ ((t : T) × (a ≡ returned t))
Attempt-cases (raised code) = inl (code, refl)
Attempt-cases (returned t) = inr (t, refl)
