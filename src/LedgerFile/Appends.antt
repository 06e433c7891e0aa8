-- ===== src/LedgerFile/Appends.antt =====
-- internal/cycle/ledger.go: Append against an abstract ledger, a list of linked entries.
use rallish.Prelude.{
  ◌≡◌, refl, sym, ap, ◌∙◌, ◌⊎◌, inl, inr, Bool-cases, Option-cases, true, Option, none, some, List,
  [], ◌∷◌, ◌++◌, Text, raised, returned,
}
use mathlib.Core.List.{append-nil}
use rallish.Digest.{Sha256}
use rallish.Hex.{encode-IsAscii}
use rallish.Contract.Ledger.{HarnessLedgerEntry}
use rallish.Contract.Json.{EntryJson, newline, IsAscii}
use rallish.Chain.{ledger_genesis_hash, chain_hash}
use rallish.Chain.Links.{IsLink, IsChain, tip}
use rallish.LedgerFile.{
  LedgerError, write_entry, clean_path, open_ledger, mkdir_ledger, hash_entry, marshal_entry, Io,
  LedgerPath, bytes_of, read_last_hash, lock_for_ledger, write_line, append_locked, append,
}
use rallish.LedgerFile.Lines.{IsFileOf, IsFileOf-append, IsFileOf-nil, keep_hash-IsFileOf}

-- A write that fails has written nothing.
abbrev pub IsWhole : Io → Type 0
IsWhole io = (io.short_write ≡ none) ⊎ (io.short_write ≡ some 0)

-- An entry that Append has linked.
abbrev pub link : HarnessLedgerEntry → Text → Text → HarnessLedgerEntry
link e prev hash = record e { prev_hash = prev; hash = hash }

tip-append :
    (prev : Text) (es : List HarnessLedgerEntry) (e : HarnessLedgerEntry)
    → tip prev (es ++ e ∷ []) ≡ e.hash
tip-append prev [] e = refl
tip-append prev (x ∷ es) e = tip-append x.hash es e

module _ (h : Sha256) (ej : EntryJson) where
  IsChain-append :
      (prev : Text) (es : List HarnessLedgerEntry) (e : HarnessLedgerEntry)
      → IsChain h ej.json.marshal prev es
      → IsLink h ej.json.marshal (tip prev es) e
      → IsChain h ej.json.marshal prev (es ++ e ∷ [])
  IsChain-append prev [] e chain l = (l, tt)
  IsChain-append prev (x ∷ es) e chain l = (chain.0, IsChain-append x.hash es e chain.1 l)

  chain_hash-IsAscii :
      (e : HarnessLedgerEntry) (prev hash : Text)
      → chain_hash h ej.json.marshal e prev ≡ some hash
      → IsAscii hash
  unfolding chain_hash
  chain_hash-IsAscii e prev hash c =
      elim (Option-cases (ej.json.marshal (record e { hash = [] }))) [
        | inl failed ↦ absurd (none≢hash (rw (chain_hash, failed) at c))
        | inr (text, m) ↦
            rw (← (hashed (rw (chain_hash, m) at c)))
              (encode-IsAscii _ (h.sum-IsDigest (text ++ prev)).1)
      ]
    where
      none≢hash : ◌≡◌ {A = Option Text} none (some hash) → ⊥
      none≢hash q = cc

      hashed : {a : Text} → some a ≡ some hash → a ≡ hash
      hashed q = cc

  chain_hash-link :
      (e : HarnessLedgerEntry) (prev hash : Text)
      → chain_hash h ej.json.marshal (link e prev hash) prev
        ≡ chain_hash h ej.json.marshal (record e { prev_hash = prev }) prev
  unfolding chain_hash
  chain_hash-link e prev hash = refl

  -- The path holds these entries: they are the file, they are a chain, and the cache has its last hash.
  pub record Holds (es : List HarnessLedgerEntry) (p : LedgerPath) : Type 0 where
    pub file : IsFileOf ej es (bytes_of p.content)
    pub chain : IsChain h ej.json.marshal ledger_genesis_hash es
    pub ascii : IsAscii (tip ledger_genesis_hash es)
    pub cached : (p.last_hash ≡ none) ⊎ (p.last_hash ≡ some (tip ledger_genesis_hash es))

  lock_for_ledger-Holds :
      (es : List HarnessLedgerEntry) (p : LedgerPath) (io : Io)
      → Holds es p
      → (lock_for_ledger ej.json io p ≡ returned (tip ledger_genesis_hash es))
        ⊎ ((code : LedgerError) × (lock_for_ledger ej.json io p ≡ raised code))
  unfolding lock_for_ledger read_last_hash
  lock_for_ledger-Holds es p io w = elim w.cached [
    | inr known ↦ inl (rw known refl)
    | inl unknown ↦ rw unknown (first p.content refl)
  ]
    where
      found :
          (content : Option Text)
          → p.content ≡ content
          → io.can_clean ≡ true
          → (read_last_hash ej.json io p ≡ returned (tip ledger_genesis_hash es))
            ⊎ ((code : LedgerError) × (read_last_hash ej.json io p ≡ raised code))
      found none e clean = inl (
          rw (read_last_hash, clean, e)
            (ap (λ xs. returned (tip ledger_genesis_hash xs))
              (sym (IsFileOf-nil ej es (rw e at w.file)))))
      found (some bytes) e clean = elim (Bool-cases io.can_read) [
        | inr unreadable ↦ inr (open_ledger, rw (read_last_hash, clean, e, unreadable) refl)
        | inl readable ↦ inl (
            rw (read_last_hash, clean, e, readable)
              (keep_hash-IsFileOf ej es bytes ledger_genesis_hash (rw e at w.file)))
      ]

      first :
          (content : Option Text)
          → p.content ≡ content
          → (read_last_hash ej.json io p ≡ returned (tip ledger_genesis_hash es))
            ⊎ ((code : LedgerError) × (read_last_hash ej.json io p ≡ raised code))
      first content e = elim (Bool-cases io.can_clean) [
        | inr unclean ↦ inr (clean_path, rw (read_last_hash, unclean) refl)
        | inl clean ↦ found content e clean
      ]

  -- The new state of the path, and the error that Append returns.
  abbrev Appended :
      List HarnessLedgerEntry → HarnessLedgerEntry → LedgerPath × Option LedgerError → Type 0
  Appended es e out =
      ((hash : Text) × (out.1 ≡ none)
        × Holds (es ++ link e (tip ledger_genesis_hash es) hash ∷ []) out.0)
      ⊎ ((code : LedgerError) × (out.1 ≡ some code) × Holds es out.0)

  write_line-Holds :
      (es : List HarnessLedgerEntry) (p : LedgerPath) (io : Io) (e : HarnessLedgerEntry)
      (hash line : Text)
      → Holds es p
      → IsWhole io
      → ej.json.is_utf8 e ≡ true
      → chain_hash h ej.json.marshal
          (record e { prev_hash = tip ledger_genesis_hash es })
          (tip ledger_genesis_hash es)
        ≡ some hash
      → ej.json.marshal (link e (tip ledger_genesis_hash es) hash) ≡ some line
      → Appended es e (write_line io (line ++ newline ∷ []) hash p)
  unfolding write_line
  write_line-Holds es p io e hash line w whole u c m = elim whole [
    | inr nothing ↦ inr (
      write_entry,
      rw nothing refl,
      rw nothing (record {
        file = rw (append-nil (bytes_of p.content)) w.file;
        chain = w.chain;
        ascii = w.ascii;
        cached = w.cached;
      }),
    )
    | inl all ↦ inl (
      hash,
      rw all refl,
      rw all (record {
        file =
            IsFileOf-append ej es (link e (tip ledger_genesis_hash es) hash) (bytes_of p.content)
              line w.file m
              (ej.is_utf8-hashes e (tip ledger_genesis_hash es) hash w.ascii
                (chain_hash-IsAscii _ _ hash c) u);
        chain =
            IsChain-append ledger_genesis_hash es (link e (tip ledger_genesis_hash es) hash) w.chain
              (refl, chain_hash-link e (tip ledger_genesis_hash es) hash ∙ c);
        ascii =
            rw (tip-append ledger_genesis_hash es (link e (tip ledger_genesis_hash es) hash))
              (chain_hash-IsAscii _ _ hash c);
        cached = inr (
            ap some
              (sym (tip-append ledger_genesis_hash es (link e (tip ledger_genesis_hash es) hash))));
      }),
    )
  ]

  append_locked-Holds :
      (es : List HarnessLedgerEntry) (p : LedgerPath) (io : Io) (e : HarnessLedgerEntry)
      → Holds es p
      → IsWhole io
      → ej.json.is_utf8 e ≡ true
      → Appended es e (append_locked h ej.json io e (tip ledger_genesis_hash es) p)
  unfolding append_locked
  append_locked-Holds es p io e w whole u = elim (Bool-cases io.can_mkdir) [
    | inr stuck ↦ inr (mkdir_ledger, rw stuck refl, rw stuck w)
    | inl made ↦
        elim (Option-cases (
          chain_hash h ej.json.marshal (record e { prev_hash = tip ledger_genesis_hash es })
            (tip ledger_genesis_hash es))) [
              | inl failed ↦ inr (hash_entry, rw (made, failed) refl, rw (made, failed) w)
              | inr (hash, hashed) ↦
                  elim (Option-cases (ej.json.marshal (link e (tip ledger_genesis_hash es) hash))) [
                    | inl failed ↦ inr (
                      marshal_entry,
                      rw (made, hashed) (rw failed refl),
                      rw (made, hashed) (rw failed w),
                    )
                    | inr (line, m) ↦ elim (Bool-cases io.can_open) [
                      | inr closed ↦ inr (
                        open_ledger,
                        rw (made, hashed) (rw (m, closed) refl),
                        rw (made, hashed) (rw (m, closed) w),
                      )
                      | inl opened ↦
                          rw (made, hashed)
                            (rw (m, opened)
                              (write_line-Holds es p io e hash line w whole u hashed m))
                    ]
                  ]
            ]
  ]

  -- From a path that holds a list of linked entries, for an entry whose texts are valid UTF-8, when a
  -- failed write leaves no bytes behind: Append either answers no error, and the path holds the list with the entry at its end, linked to the last
  -- hash; or it answers an error, and the path holds the list as before.
  pub append-Holds :
      (es : List HarnessLedgerEntry) (p : LedgerPath) (io : Io) (e : HarnessLedgerEntry)
      → Holds es p
      → IsWhole io
      → ej.json.is_utf8 e ≡ true
      → Appended es e (append h ej.json io e p)
  unfolding append
  append-Holds es p io e w whole u = elim (lock_for_ledger-Holds es p io w) [
    | inr (code, failed) ↦ inr (code, rw (append, failed) refl, rw (append, failed) w)
    | inl locked ↦
        rw (append, locked)
          (append_locked-Holds es (record p { last_hash = some (tip ledger_genesis_hash es) }) io e
            (record { file = w.file; chain = w.chain; ascii = w.ascii; cached = inr refl }) whole u)
  ]
