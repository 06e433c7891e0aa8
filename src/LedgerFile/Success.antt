-- ===== src/LedgerFile/Success.antt =====
-- internal/cycle/ledger.go: Append when no call of the operating system fails.
use rallish.Prelude.{
  ◌≡◌, refl, inl, inr, Option-cases, true, none, some, List, [], ◌++◌, Text, returned,
}
use rallish.Digest.{Sha256}
use rallish.Hex.{encode}
use rallish.Contract.Ledger.{HarnessLedgerEntry}
use rallish.Contract.Json.{EntryJson}
use rallish.Chain.{ledger_genesis_hash, chain_hash}
use rallish.Chain.Links.{tip}
use rallish.LedgerFile.{
  Io, LedgerPath, read_last_hash, lock_for_ledger, append_locked, append, write_line,
}
use rallish.LedgerFile.Lines.{IsFileOf-nil, keep_hash-IsFileOf}
use rallish.LedgerFile.Appends.{Holds, link}

-- No call fails.
abbrev pub IsGood : Io → Type 0
IsGood io =
    (io.can_clean ≡ true)
    × (io.can_read ≡ true)
    × (io.can_mkdir ≡ true)
    × (io.can_open ≡ true)
    × (io.short_write ≡ none)

module _ (h : Sha256) (ej : EntryJson)
    (marshals : (e : HarnessLedgerEntry) → (text : Text) × (ej.json.marshal e ≡ some text)) where
  lock_for_ledger-returned :
      (es : List HarnessLedgerEntry) (p : LedgerPath) (io : Io)
      → Holds h ej es p
      → IsGood io
      → lock_for_ledger ej.json io p ≡ returned (tip ledger_genesis_hash es)
  unfolding lock_for_ledger read_last_hash
  lock_for_ledger-returned es p io w (clean, readable, _, _, _) = elim w.cached [
    | inr known ↦ rw known refl
    | inl unknown ↦ elim (Option-cases p.content) [
      | inl absent ↦ rw (unknown, clean, absent, IsFileOf-nil ej es (rw absent at w.file)) refl
      | inr (bytes, present) ↦
          rw (unknown, clean, present, readable)
            (keep_hash-IsFileOf ej es bytes ledger_genesis_hash (rw present at w.file))
    ]
  ]

  chain_hash_defined :
      (e : HarnessLedgerEntry) (prev : Text)
      → (hash : Text) × (chain_hash h ej.json.marshal e prev ≡ some hash)
  unfolding chain_hash
  chain_hash_defined e prev =
      let (text, m) = marshals (record e { hash = [] }) in
      (encode (h.sum (text ++ prev)), rw (chain_hash, m) refl)

  -- When no call fails and every entry marshals, Append on a path that holds linked entries answers no
  -- error.
  pub append_succeeds :
      (es : List HarnessLedgerEntry) (p : LedgerPath) (io : Io) (e : HarnessLedgerEntry)
      → Holds h ej es p
      → IsGood io
      → (append h ej.json io e p).1 ≡ none
  unfolding append append_locked write_line
  append_succeeds es p io e w good =
      let prev = tip ledger_genesis_hash es in
      let (hash, hashed) = chain_hash_defined (record e { prev_hash = prev }) prev in
      let (line, m) = marshals (link e prev hash) in
      rw (append, lock_for_ledger-returned es p io w good)
        (rw (good.2, hashed) (rw (m, good.3, good.4) refl))
