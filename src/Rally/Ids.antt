-- ===== src/Rally/Ids.antt =====
-- generateRallyID of internal/broker/rally.go against NewSessionID of pkg/contract/rally.go.
use rallish.Prelude.{
  ℕ, zero, suc, ◌+◌, ◌/◌, ◌%◌, ◌<◌, ◌≡◌, refl, ap, inl, inr, Bool, true, false, ◌&&◌, ◌||◌, List,
  [], ◌∷◌, ◌++◌, arith, Text, Bool-cases, has_prefix, leb, ltb, ltb→lt, decimal, decimal_fuel,
}
use rallish.Hex.{encode, hex_digit, AreBytes}
use rallish.Rally.Types.{
  ok, is_digit, all_lower_hex, matches_digits, matches_session_id, new_session_id,
}
use rallish.Rally.Session.{generate_rally_id}

is_digit-decimal : (d : ℕ) → d < 10 → is_digit (b'0' + d) ≡ true
is_digit-decimal d h = ground arith

append-last : (xs : Text) (d : ℕ) (rest : Text) → (xs ++ d ∷ []) ++ rest ≡ xs ++ d ∷ rest
append-last [] d rest = refl
append-last (x ∷ xs) d rest = ap (◌∷◌ x) (append-last xs d rest)

-- The digits of a number lead matches_digits on to what follows.
decimal_fuel-digits :
    (fuel n : ℕ) (seen : Bool) (rest : Text)
    → matches_digits seen (decimal_fuel fuel n ++ rest) ≡ matches_digits true rest
unfolding decimal_fuel matches_digits
decimal_fuel-digits zero n seen rest = rw (is_digit-decimal (n % 10) (omega arith))
decimal_fuel-digits (suc fuel) n seen rest = elim (Bool-cases (ltb n 10)) [
  | inl small ↦ rw (small, decimal_fuel, is_digit-decimal n (ltb→lt n 10 small))
  | inr large ↦ rw (
    large,
    decimal_fuel,
    append-last (decimal_fuel fuel (n / 10)) (b'0' + n % 10) rest,
    decimal_fuel-digits fuel (n / 10) seen ((b'0' + n % 10) ∷ rest),
    is_digit-decimal (n % 10) (omega arith),
  )
]

hex_digit-lower :
    (d : ℕ)
    → d < 16
    → (is_digit (hex_digit d) || (leb b'a' (hex_digit d) && leb (hex_digit d) b'f')) ≡ true
unfolding hex_digit
hex_digit-lower d h = ground arith

encode-lower : (bytes : List ℕ) → AreBytes bytes → all_lower_hex (encode bytes) ≡ true
unfolding encode all_lower_hex
encode-lower [] a = refl
encode-lower (b ∷ bytes) a = rw (
  hex_digit-lower (b / 16) (omega (arith, a.0)),
  hex_digit-lower (b % 16) (omega (arith, a.0)),
  encode-lower bytes a.1,
)

generate_rally_id-matches :
    (now_ms a b : ℕ)
    → a < 256
    → b < 256
    → matches_session_id (generate_rally_id now_ms (a ∷ b ∷ [])) ≡ true
unfolding matches_session_id generate_rally_id decimal has_prefix
generate_rally_id-matches now_ms a b ha hb =
    let lower = encode-lower (a ∷ b ∷ []) (ha, (hb, tt)) in
    rw (decimal_fuel-digits now_ms now_ms false (b'_' ∷ encode (a ∷ b ∷ []))) lower

-- For a clock of any value and any two random bytes, the id that createRallySession generates is one
-- that the handlers' check of a session's id accepts, unchanged.
pub generate_rally_id-IsAccepted :
    (now_ms a b : ℕ)
    → a < 256
    → b < 256
    → new_session_id (generate_rally_id now_ms (a ∷ b ∷ []))
      ≡ ok (generate_rally_id now_ms (a ∷ b ∷ []))
unfolding new_session_id
generate_rally_id-IsAccepted now_ms a b ha hb = rw (generate_rally_id-matches now_ms a b ha hb)
