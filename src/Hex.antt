-- ===== src/Hex.antt =====
-- Package encoding/hex, as pkg/contract calls it: lower-case digits out, both cases in.
use rallish.Prelude.{
  ℕ, ◌+◌, ◌-◌, ◌*◌, ◌/◌, ◌%◌, ◌<◌, ◌≡◌, refl, ◌&&◌, Option, none, some, List, [], ◌∷◌, ap, arith,
  leb, ltb, if◌then◌else◌, All, length, Text,
}

unfoldable pub hex_digit : ℕ → ℕ
hex_digit d = if ltb d 10 then b'0' + d else b'a' + (d - 10)

unfoldable pub from_hex_char : ℕ → Option ℕ
from_hex_char c =
    if leb b'0' c && leb c b'9'
    then some (c - b'0')
    else if leb b'a' c && leb c b'f'
    then some (c - b'a' + 10)
    else if leb b'A' c && leb c b'F'
    then some (c - b'A' + 10)
    else none

-- hex.EncodeToString.
unfoldable pub encode : List ℕ → Text
unfolding hex_digit
encode [] = []
encode (b ∷ bs) = hex_digit (b / 16) ∷ hex_digit (b % 16) ∷ encode bs

abbrev pub join_byte : Option ℕ → Option ℕ → Option (List ℕ) → Option (List ℕ)
join_byte (some hi) (some lo) (some bs) = some ((hi * 16 + lo) ∷ bs)
join_byte _ _ _ = none

-- hex.DecodeString; `none` is its error, for a foreign character or an odd length.
unfoldable pub decode : Text → Option (List ℕ)
unfolding from_hex_char
decode [] = some []
decode (a ∷ []) = none
decode (a ∷ b ∷ cs) = join_byte (from_hex_char a) (from_hex_char b) (decode cs)

from_hex_char-hex_digit : (d : ℕ) → d < 16 → from_hex_char (hex_digit d) ≡ some d
unfolding from_hex_char hex_digit
from_hex_char-hex_digit d h = ground arith

abbrev pub AreBytes : List ℕ → Type 0
AreBytes = All (λ b. b < 256)

module _ (b : ℕ) (h : b < 256) where
  high_digit : from_hex_char (hex_digit (b / 16)) ≡ some (b / 16)
  high_digit = from_hex_char-hex_digit (b / 16) (omega arith)

  low_digit : from_hex_char (hex_digit (b % 16)) ≡ some (b % 16)
  low_digit = from_hex_char-hex_digit (b % 16) (omega arith)

  join_digits : (b / 16) * 16 + b % 16 ≡ b
  join_digits = omega arith

-- Decoding gives back every list of bytes that was encoded.
pub decode-encode : (bs : List ℕ) → AreBytes bs → decode (encode bs) ≡ some bs
unfolding decode encode
decode-encode [] h = refl
decode-encode (b ∷ bs) h =
    rw (high_digit b h.0, low_digit b h.0, decode-encode bs h.1)
      (ap (λ (x : ℕ). some (x ∷ bs)) (join_digits b h.0))

-- So two lists of bytes with one encoding are equal.
pub encode-injective :
    (xs ys : List ℕ) → AreBytes xs → AreBytes ys → encode xs ≡ encode ys → xs ≡ ys
encode-injective xs ys hx hy e = cc (decode-encode xs hx, decode-encode ys hy, ap decode e)

pub length-encode : (bs : List ℕ) → length (encode bs) ≡ 2 * length bs
unfolding encode
length-encode [] = refl
length-encode (b ∷ bs) = omega (arith, length-encode bs)

hex_digit-lt : (d : ℕ) → d < 16 → hex_digit d < 128
unfolding hex_digit
hex_digit-lt d h = ground arith

-- Hex text is ASCII.
pub encode-IsAscii : (bs : List ℕ) → AreBytes bs → All (λ c. c < 128) (encode bs)
unfolding encode
encode-IsAscii [] h = tt
encode-IsAscii (b ∷ bs) h =
    (hex_digit-lt (b / 16) (high b h.0), (hex_digit-lt (b % 16) (low b), encode-IsAscii bs h.1))
  where
    high : (n : ℕ) → n < 256 → n / 16 < 16
    high n l = omega arith

    low : (n : ℕ) → n % 16 < 16
    low n = omega arith
