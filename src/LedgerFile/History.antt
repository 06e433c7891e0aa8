-- ===== src/LedgerFile/History.antt =====
-- internal/cycle/ledger.go: a history of a ledger file, of calls of Append with any errors and of restarts
-- of the process, which lose the cached hash.
use rallish.Prelude.{
  ◌≡◌, refl, sym, ap, inl, inr, Option, none, some, List, [], ◌∷◌, ◌++◌, map, Text, All, true, Bool,
  ◌&&◌, Option-cases, Bool-cases, ◌⊎◌, raised, and_eq_true, ltb, ltb→lt, returned,
}
use mathlib.Core.List.{append-nil, append_assoc}
use rallish.Digest.{Sha256}
use rallish.Contract.Ledger.{HarnessLedgerEntry}
use rallish.Contract.Json.{EntryJson, IsAscii}
use rallish.Chain.{ledger_genesis_hash, no_broken_link, verify_chain}
use rallish.Chain.Links.{verify_chain-accepts, tip}
use rallish.LedgerFile.{LedgerError, open_ledger, Io, LedgerPath, append, read_all}
use rallish.LedgerFile.Lines.{collect-IsFileOf, IsFileOf-nil}
use rallish.LedgerFile.Appends.{Holds, IsWhole, link, append-Holds}

pub data Event : Type 0 where
  restarted : Event
  appended : Io → HarnessLedgerEntry → Event

-- No file, in a new process.
abbrev pub no_ledger : LedgerPath
no_ledger = record { content = none; last_hash = none }

-- An entry without the hashes that Append writes.
abbrev pub unlinked : HarnessLedgerEntry → HarnessLedgerEntry
unlinked e = link e [] []

abbrev all_ascii : Text → Bool
all_ascii [] = true
all_ascii (c ∷ s) = ltb c 128 && all_ascii s

all_ascii-IsAscii : (s : Text) → all_ascii s ≡ true → IsAscii s
all_ascii-IsAscii [] e = tt
all_ascii-IsAscii (c ∷ s) e =
    let (p, q) = and_eq_true (ltb c 128) (all_ascii s) e in (ltb→lt c 128 p, all_ascii-IsAscii s q)

genesis-IsAscii : IsAscii ledger_genesis_hash
genesis-IsAscii = all_ascii-IsAscii ledger_genesis_hash refl

module _ (h : Sha256) (ej : EntryJson) where
  -- The path after the events, and the entries that Append acknowledged with no error, in order.
  unfoldable pub history : List Event → LedgerPath → LedgerPath × List HarnessLedgerEntry
  unfolding append
  history [] p = (p, [])
  history (restarted ∷ events) p = history events (record p { last_hash = none })
  history (appended io e ∷ events) p =
      let out : LedgerPath × Option LedgerError = append h ej.json io e p in
      let later : LedgerPath × List HarnessLedgerEntry = history events out.0 in
      elim out.1 [ none ↦ (later.0, e ∷ later.1) | some code ↦ later ]

  abbrev pub IsValidEvent : Event → Type 0
  IsValidEvent restarted = Unit {0}
  IsValidEvent (appended io e) = (ej.json.is_utf8 e ≡ true) × IsWhole io

  history-Holds :
      (events : List Event) (p : LedgerPath) (es : List HarnessLedgerEntry)
      → Holds h ej es p
      → All IsValidEvent events
      → (new : List HarnessLedgerEntry) × Holds h ej (es ++ new) (history events p).0
        × (map unlinked new ≡ map unlinked (history events p).1)
  unfolding history
  history-Holds [] p es w a = ([], rw (append-nil es) w, refl)
  history-Holds (restarted ∷ events) p es w a =
      history-Holds events (record p { last_hash = none }) es
        (record { file = w.file; chain = w.chain; ascii = w.ascii; cached = inl refl }) a.1
  history-Holds (appended io e ∷ events) p es w a =
      elim (append-Holds h ej es p io e w a.0.1 a.0.0) [
        | inr (code, failed, w') ↦
            rw (history, failed) (history-Holds events (append h ej.json io e p).0 es w' a.1)
        | inl (hash, done, w') ↦
            let e' = link e (tip ledger_genesis_hash es) hash in
            let (new, holds, same) =
              history-Holds events (append h ej.json io e p).0 (es ++ e' ∷ []) w' a.1 in
            (
              e' ∷ new,
              rw (history, done, ← (append_assoc es (e' ∷ []) new)) holds,
              rw (history, done) (ap (◌∷◌ (unlinked e)) same),
            )
      ]

  pub read_all-Holds :
      (es : List HarnessLedgerEntry) (p : LedgerPath) (io : Io)
      → Holds h ej es p
      → io.can_read ≡ true
      → read_all ej.json io p ≡ returned es
  unfolding read_all
  read_all-Holds es p io w readable = elim (Option-cases p.content) [
    | inl absent ↦ rw absent (ap returned (sym (IsFileOf-nil ej es (rw absent at w.file))))
    | inr (bytes, present) ↦
        rw (present, readable) (collect-IsFileOf ej es bytes (rw present at w.file))
  ]

  -- Whatever the operating system answers, ReadAll gives the entries or an error.
  pub read_all-cases :
      (es : List HarnessLedgerEntry) (p : LedgerPath) (io : Io)
      → Holds h ej es p
      → (read_all ej.json io p ≡ returned es)
        ⊎ ((code : LedgerError) × (read_all ej.json io p ≡ raised code))
  unfolding read_all
  read_all-cases es p io w = elim (Bool-cases io.can_read) [
    | inl readable ↦ inl (read_all-Holds es p io w readable)
    | inr unread ↦ elim (Option-cases p.content) [
      | inl absent ↦
          inl
            (simp (read_all, absent) (ap returned (sym (IsFileOf-nil ej es (rw absent at w.file)))))
      | inr (bytes, present) ↦ inr (open_ledger, simp (read_all, present, unread) refl)
    ]
  ]

  pub no_ledger-Holds : Holds h ej [] no_ledger
  no_ledger-Holds = record { file = refl; chain = tt; ascii = genesis-IsAscii; cached = inl refl }

  -- After any history of an absent file, whose entries are valid UTF-8 and whose failed writes leave no
  -- bytes behind: ReadAll of the readable file gives the entries that Append acknowledged, in their order
  -- and with the hashes it added, and VerifyChain accepts them.
  pub read_all-history :
      (events : List Event) (io : Io)
      → All IsValidEvent events
      → io.can_read ≡ true
      → (es : List HarnessLedgerEntry) × (read_all ej.json io (history events no_ledger).0
          ≡ returned es)
        × (map unlinked es ≡ map unlinked (history events no_ledger).1)
        × (verify_chain h ej.json.marshal es ≡ (no_broken_link, true))
  read_all-history events io a readable =
      let (es, holds, same) = history-Holds events no_ledger [] no_ledger-Holds a in
      (
        es,
        read_all-Holds es (history events no_ledger).0 io holds readable,
        same,
        (verify_chain-accepts h ej.json.marshal es).1 holds.chain,
      )
