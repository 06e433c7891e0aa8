-- ===== src/Prelude/Strings.antt =====
-- Go strings as lists of bytes, and the functions of package strings that the program calls.
use Prim.Native.Nat.{ℕ}
use Prim.Native.Char.{code}
use Prim.Native.String.{String}
use mathlib.Core.Path.{◌≡◌, refl, ap₂}
use mathlib.Core.Logic.{◌≢◌, ◌↔◌}
use mathlib.Core.Bool.{Bool, true, false, ◌&&◌, ◌||◌}
use mathlib.Core.List.{List, [], ◌∷◌}
use native.Mathlib.Omega.{arith}
use rallish.Prelude.Tests.{◌==◌, ==_iff, and_eq_true}

abbrev pub Text : Type 0
Text = List ℕ

-- The bytes of an ASCII literal.
abbrev pub codes : String → Text
codes String.[] = []
codes (String.◌∷◌ c s) = code c ∷ codes s

unfoldable pub str_eq : Text → Text → Bool
str_eq [] [] = true
str_eq [] (y ∷ ys) = false
str_eq (x ∷ xs) [] = false
str_eq (x ∷ xs) (y ∷ ys) = x == y && str_eq xs ys

pub str_eq→eq : (s t : Text) → str_eq s t ≡ true → s ≡ t
unfolding str_eq
str_eq→eq [] [] h = refl
str_eq→eq [] (y ∷ ys) h = cc
str_eq→eq (x ∷ xs) [] h = cc
str_eq→eq (x ∷ xs) (y ∷ ys) h =
    let (p, q) = and_eq_true (x == y) (str_eq xs ys) h in
    ap₂ ◌∷◌ ((==_iff x y).0 p) (str_eq→eq xs ys q)

pub str_eq_refl : (s : Text) → str_eq s s ≡ true
unfolding str_eq
str_eq_refl [] = refl
str_eq_refl (x ∷ xs) = ground (arith, str_eq_refl xs)

pub eq→str_eq : (s t : Text) → s ≡ t → str_eq s t ≡ true
eq→str_eq s t e = rw e (str_eq_refl t)

pub str_eq_false→ne : (s t : Text) → str_eq s t ≡ false → s ≢ t
str_eq_false→ne s t h e = cc (eq→str_eq s t e)

-- strings.HasPrefix and strings.Contains.
unfoldable pub has_prefix : Text → Text → Bool
has_prefix s [] = true
has_prefix [] (p ∷ ps) = false
has_prefix (c ∷ s) (p ∷ ps) = c == p && has_prefix s ps

unfoldable pub contains : Text → Text → Bool
unfolding has_prefix
contains [] t = has_prefix [] t
contains (c ∷ s) t = has_prefix (c ∷ s) t || contains s t

pub str_eq_iff : (s t : Text) → (str_eq s t ≡ true) ↔ (s ≡ t)
str_eq_iff s t = (str_eq→eq s t, eq→str_eq s t)

pub str_eq_comm : (s t : Text) → str_eq s t ≡ str_eq t s
unfolding str_eq
str_eq_comm [] [] = refl
str_eq_comm [] (y ∷ ys) = refl
str_eq_comm (x ∷ xs) [] = refl
str_eq_comm (x ∷ xs) (y ∷ ys) = ground (arith, str_eq_comm xs ys)
