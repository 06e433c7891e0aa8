-- ===== src/Prelude/Spaces.antt =====
-- strings.TrimSpace, on the UTF-8 bytes of a text.
use Prim.Native.Nat.{ℕ, zero, suc}
use mathlib.Core.Bool.{Bool, true, false, ◌&&◌, ◌||◌}
use mathlib.Core.List.{[], ◌∷◌, reverse}
use rallish.Prelude.Tests.{leb, ◌==◌, if◌then◌else◌}
use rallish.Prelude.Lists.{length, drop}
use rallish.Prelude.Strings.{Text}

-- The ASCII spaces, then the others that unicode.IsSpace knows, by their two or three bytes.
abbrev pub is_space_1 : ℕ → Bool
is_space_1 c = (leb 9 c && leb c 13) || c == 32

abbrev pub is_space_2 : ℕ → ℕ → Bool
is_space_2 a b = a == 194 && (b == 133 || b == 160)

abbrev pub is_space_3 : ℕ → ℕ → ℕ → Bool
is_space_3 a b c =
    (a == 225 && b == 154 && c == 128)
    || (a == 226 && b == 128 && (leb 128 c && leb c 138 || c == 168 || c == 169 || c == 175))
    || (a == 226 && b == 129 && c == 159)
    || (a == 227 && b == 128 && c == 128)

-- The bytes of the space that a text begins with.
unfoldable pub first_space : Text → ℕ
first_space [] = 0
first_space (a ∷ []) = if is_space_1 a then 1 else 0
first_space (a ∷ b ∷ []) = if is_space_1 a then 1 else if is_space_2 a b then 2 else 0
first_space (a ∷ b ∷ c ∷ s) =
    if is_space_1 a then 1 else if is_space_2 a b then 2 else if is_space_3 a b c then 3 else 0

-- The same of a text that is given in reverse.
unfoldable pub last_space : Text → ℕ
last_space [] = 0
last_space (a ∷ []) = if is_space_1 a then 1 else 0
last_space (b ∷ a ∷ []) = if is_space_1 b then 1 else if is_space_2 a b then 2 else 0
last_space (c ∷ b ∷ a ∷ s) =
    if is_space_1 c then 1 else if is_space_2 b c then 2 else if is_space_3 a b c then 3 else 0

-- Each round takes a byte off, so the text's length is enough fuel.
unfoldable pub trim_fuel : (Text → ℕ) → ℕ → Text → Text
trim_fuel space zero s = s
trim_fuel space (suc fuel) s = elim (space s) [
  | zero ↦ s
  | suc n ↦ trim_fuel space fuel (drop (suc n) s)
]

unfoldable pub trim_space : Text → Text
unfolding trim_fuel first_space last_space
trim_space s =
    let left : Text = trim_fuel first_space (length s) s in
    reverse (trim_fuel last_space (length left) (reverse left))

abbrev pub is_empty : Text → Bool
is_empty [] = true
is_empty (c ∷ s) = false
