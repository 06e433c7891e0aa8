-- ===== src/Prelude/Decimal.antt =====
-- Decimal print of a number, as fmt's %d and strconv do for one that is not negative.
use rallish.Prelude.Tests.{ltb, if◌then◌else◌}
use Prim.Native.Nat.{ℕ, zero, suc, ◌+◌, ◌/◌, ◌%◌}
use mathlib.Core.List.{[], ◌∷◌, ◌++◌}
use rallish.Prelude.Int.{ℤ, pos, negsuc}
use rallish.Prelude.Strings.{Text}

-- A number has at most as many digits as it counts, plus one.
unfoldable pub decimal_fuel : ℕ → ℕ → Text
decimal_fuel zero n = (b'0' + n % 10) ∷ []
decimal_fuel (suc fuel) n =
    let more : Text = decimal_fuel fuel (n / 10) ++ (b'0' + n % 10) ∷ [] in
    if ltb n 10 then (b'0' + n) ∷ [] else more

unfoldable pub decimal : ℕ → Text
unfolding decimal_fuel
decimal n = decimal_fuel n n

-- %d of a signed number.
unfoldable pub decimal_ℤ : ℤ → Text
unfolding decimal
decimal_ℤ (pos n) = decimal n
decimal_ℤ (negsuc n) = b'-' ∷ decimal (suc n)
