-- ===== src/Contract/Json.antt =====
-- Package encoding/json on the values of one type, as an interface. Unmarshal reads back what Marshal
-- wrote of a value whose texts are valid UTF-8 (Marshal replaces other bytes).
use rallish.Prelude.{ℕ, ◌<◌, ◌≡◌, ◌≢◌, Bool, true, Option, some, [], Text, All}
use rallish.Contract.Ledger.{HarnessLedgerEntry}

pub record Json {ℓ} (A : Type ℓ) : Type ℓ where
  pub marshal : A → Option Text
  pub unmarshal : Text → Option A
  pub is_utf8 : A → Bool
  pub unmarshal-marshal :
      (a : A) (text : Text) → is_utf8 a ≡ true → marshal a ≡ some text → unmarshal text ≡ some a

abbrev pub newline : ℕ
newline = b'\n'

abbrev pub HasNoNewline : Text → Type 0
HasNoNewline = All (λ c. c ≢ newline)

-- Marshal of an entry gives one line, which is never empty: newlines in strings are escaped. Hashes
-- are ASCII, so a valid entry stays valid when it gets them.
abbrev pub IsAscii : Text → Type 0
IsAscii = All (λ c. c < 128)

pub record EntryJson : Type 0 where
  pub json : Json HarnessLedgerEntry
  pub marshal_one_line :
      (e : HarnessLedgerEntry) (line : Text)
      → json.marshal e ≡ some line
      → HasNoNewline line × (line ≢ [])
  pub is_utf8-hashes :
      (e : HarnessLedgerEntry) (prev hash : Text)
      → IsAscii prev
      → IsAscii hash
      → json.is_utf8 e ≡ true
      → json.is_utf8 (record e { prev_hash = prev; hash = hash }) ≡ true
