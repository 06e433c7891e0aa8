-- ===== src/Rally/Types.antt =====
-- pkg/contract/rally.go: validated names and ids, patterns, session states, and the wire types; the
-- errors of pkg/contract/errors.go. A Go string is a list of bytes.
use rallish.Prelude.{
  ◌≡◌, refl, inl, inr, Bool-cases, ℕ, ◌+◌, Bool, true, false, ◌&&◌, ◌||◌, not, Option, none, some,
  List, [], ◌∷◌, ◌++◌, Text, codes, leb, ◌==◌, if◌then◌else◌, length, take, drop, str_eq,
  has_prefix,
}
use rallish.Prelude.Int.{ℤ}

pub data RallyError : Type 0 where
  invalid_name invalid_session_id invalid_pattern not_holder session_not_found : RallyError
  duplicate_name too_few_participants self_handoff session_interrupted : RallyError
  already_connected handoff_to_not_member first_holder_not_member : RallyError
  not_a_participant generate_id : RallyError

-- What a function of the program that returns `(T, error)` gives.
pub data Result {κ} (T : Type κ) : Type κ where
  err : RallyError → Result T
  ok : T → Result T

-- An early return on an error that is not nil.
infixl 5 ◌>>=◌ ◌>>◌
abbrev pub ◌>>=◌ {ι κ} : {S : Type ι} {T : Type κ} → Result S → (S → Result T) → Result T
err code >>= next = err code
ok value >>= next = next value

abbrev pub guard : Bool → RallyError → Result (Unit {0})
guard false code = err code
guard true code = ok tt

abbrev pub ◌>>◌ {κ} : {T : Type κ} → Result (Unit {0}) → Result T → Result T
test >> next = test >>= λ _. next

abbrev pub is_digit : ℕ → Bool
is_digit c = leb b'0' c && leb c b'9'

-- [a-zA-Z0-9_-]
unfoldable pub is_name_char : ℕ → Bool
is_name_char c =
    (leb b'a' c && leb c b'z') || (leb b'A' c && leb c b'Z') || is_digit c || c == b'_' || c == b'-'

unfoldable pub all_name_chars : Text → Bool
unfolding is_name_char
all_name_chars [] = true
all_name_chars (c ∷ s) = is_name_char c && all_name_chars s

-- ^[a-zA-Z0-9_-]{1,16}$
unfoldable pub matches_name : Text → Bool
unfolding all_name_chars
matches_name s = leb 1 (length s) && leb (length s) 16 && all_name_chars s

unfoldable pub new_participant_name : Text → Result Text
new_participant_name s = if not (matches_name s) then err invalid_name else ok s

-- [0-9a-f]
unfoldable pub all_lower_hex : Text → Bool
all_lower_hex [] = true
all_lower_hex (c ∷ s) = (is_digit c || (leb b'a' c && leb c b'f')) && all_lower_hex s

-- [0-9]+_[0-9a-f]{4}$, with whether a digit was seen.
unfoldable pub matches_digits : Bool → Text → Bool
unfolding all_lower_hex
matches_digits seen [] = false
matches_digits seen (c ∷ s) =
    if is_digit c
    then matches_digits true s
    else seen && c == b'_' && length s == 4 && all_lower_hex s

unfoldable pub matches_session_id : Text → Bool
unfolding matches_digits has_prefix
matches_session_id s = has_prefix s (codes "rly_") && matches_digits false (drop 4 s)

unfoldable pub new_session_id : Text → Result Text
new_session_id s = if not (matches_session_id s) then err invalid_session_id else ok s

pub data Pattern : Type 0 where
  unknown freeform cycle discuss help : Pattern

abbrev pub pattern_name : Pattern → Text
pattern_name freeform = codes "freeform"
pattern_name cycle = codes "cycle"
pattern_name discuss = codes "discuss"
pattern_name help = codes "help"
pattern_name unknown = codes "unknown"

-- strings.Index of one byte, and strings.TrimLeft of spaces.
unfoldable pub index_byte : ℕ → Text → Option ℕ
index_byte b [] = none
index_byte b (c ∷ s) =
    if c == b then some 0 else elim (index_byte b s) [ none ↦ none | some i ↦ some (i + 1) ]

unfoldable pub trim_left_spaces : Text → Text
trim_left_spaces [] = []
trim_left_spaces (c ∷ s) = if c == b' ' then trim_left_spaces s else c ∷ s

abbrev pub pattern_tag : Text
pattern_tag = codes "[pattern:"

unfoldable pub pattern_of_name : Text → Text → Result (Pattern × Text)
unfolding str_eq
pattern_of_name name rest =
    if str_eq name (codes "freeform")
    then ok (freeform, rest)
    else if str_eq name (codes "cycle")
    then ok (cycle, rest)
    else if str_eq name (codes "discuss")
    then ok (discuss, rest)
    else if str_eq name (codes "help")
    then ok (help, rest)
    else err invalid_pattern

unfoldable pub parse_pattern : Text → Result (Pattern × Text)
unfolding has_prefix index_byte trim_left_spaces pattern_of_name
parse_pattern s =
    if not (has_prefix s pattern_tag) then ok (freeform, s) else elim (index_byte b']' s) [
      | none ↦ err invalid_pattern
      | some end ↦
          pattern_of_name (drop (length pattern_tag) (take end s))
            (trim_left_spaces (drop (end + 1) s))
    ]

-- RallyState: a text.
abbrev pub rally_state_idle : Text
rally_state_idle = codes "idle"

abbrev pub rally_state_interrupted : Text
rally_state_interrupted = codes "interrupted"

unfoldable pub rally_turn_state : Text → Text
rally_turn_state name = name ++ codes "_turn"

pub record BatonHandoff : Type 0 where
  pub from : Text
  pub to : Text
  pub turn_n : ℕ
  pub note : Text
  pub at : ℤ

pub record BatonEvent : Type 0 where
  pub turn_n : ℕ
  pub from : Text
  pub note : Text
  pub closed : Bool

pub record DoneRequest : Type 0 where
  pub note : Text
  pub handoff_to : Text

pub record NewRallyRequest : Type 0 where
  pub participants : List Text
  pub repo : Text
  pub task : Text
  pub first_holder : Text

-- The public snapshot.
pub record RallySession : Type 0 where
  pub id : Text
  pub participants : List Text
  pub repo : Text
  pub task : Text
  pub holder : Text
  pub turn_n : ℕ
  pub status : Text
  pub last_seen : List (Text × ℤ)
  pub history : List BatonHandoff
  pub created_at : ℤ

-- A chain of steps that succeeds, taken apart at its first step.
pub >>=-eq-ok {ι κ} :
    {S : Type ι} {T : Type κ} (first : Result S) (next : S → Result T) {value : T}
    → (first >>= next) ≡ ok value
    → (s : S) × (first ≡ ok s) × (next s ≡ ok value)
>>=-eq-ok (err code) next e = cc
>>=-eq-ok (ok s) next e = (s, refl, e)

pub guard-eq-ok {κ} :
    {T : Type κ} (test : Bool) (code : RallyError) (next : Result T) {value : T}
    → (guard test code >> next) ≡ ok value
    → (test ≡ true) × (next ≡ ok value)
guard-eq-ok false code next e = cc
guard-eq-ok true code next e = (refl, e)

pub ok-injective {ℓ} : {A : Type ℓ} {a b : A} → ok a ≡ ok b → a ≡ b
ok-injective h = cc

pub err≢ok {ℓ} : {A : Type ℓ} {a : A} {e : RallyError} → err e ≡ ok a → ⊥
err≢ok h = cc

pub new_participant_name-ok :
    (s name : Text) → new_participant_name s ≡ ok name → (s ≡ name) × (matches_name name ≡ true)
unfolding new_participant_name
new_participant_name-ok s name h = elim (Bool-cases (matches_name s)) [
  | inl good ↦ let same : s ≡ name = ok-injective (rw good at h) in (same, rw (← same) good)
  | inr bad ↦ absurd (err≢ok (rw bad at h))
]
