-- ===== src/StateFile/RoundTrip.antt =====
-- internal/cycle/sync.go: Read after Write.
use rallish.Prelude.{
  ◌≡◌, refl, sym, ap, ◌∙◌, ◌⊎◌, inl, inr, Bool-cases, Option-cases, true, Option, none, some, Text,
  raised, returned,
}
use rallish.Contract.CycleState.{CycleState}
use rallish.Cycle.Outcome.{CycleError, marshal_state, read_state, write_state}
use rallish.StateFile.{
  StateJson, Io, StateFile, BackupWrite, written, unopened, cut_short, read, write, keep_backup,
}

module _ (json : StateJson) where
  keep_backup-primary :
      (io : Io) (new prior : Text) (backup : Option Text)
      → (keep_backup json io new prior backup).0.primary ≡ some new
  unfolding keep_backup
  keep_backup-primary io new prior backup = go io.backup_write refl
    where
      go :
          (b : BackupWrite)
          → io.backup_write ≡ b
          → (keep_backup json io new prior backup).0.primary ≡ some new
      go written e = rw (keep_backup, e) refl
      go unopened e = rw (keep_backup, e) refl
      go (cut_short n) e = rw (keep_backup, e) refl

  -- The primary file after a write: the new text, or what it was.
  abbrev Wrote : CycleState → StateFile → StateFile × Option CycleError → Type 0
  Wrote s f out =
      ((text : Text) × (json.marshal_indent s ≡ some text) × (out.0.primary ≡ some text))
      ⊎ ((out.0 ≡ f) × ((code : CycleError) × (out.1 ≡ some code)))

  write-Wrote : (io : Io) (s : CycleState) (f : StateFile) → Wrote s f (write json io s f)
  unfolding write
  write-Wrote io s f = elim (Option-cases (json.marshal_indent s)) [
    | inl failed ↦ rw (write, failed) (inr (refl, (marshal_state, refl)))
    | inr (text, m) ↦ elim (Bool-cases io.can_mkdir) [
      | inr unmade ↦ rw (write, m, unmade) (inr (refl, (write_state, refl)))
      | inl made ↦ elim (Bool-cases io.can_replace) [
        | inr kept ↦ elim (Option-cases f.primary) [
          | inl absent ↦ simp (write, m, made, absent, kept) (inr (refl, (write_state, refl)))
          | inr (prior, present) ↦ elim (Bool-cases io.can_read) [
            | inl readable ↦
                simp (write, m, made, present, readable, kept) (inr (refl, (write_state, refl)))
            | inr unread ↦ simp (write, m, made, present, unread) (inr (refl, (write_state, refl)))
          ]
        ]
        | inl replaced ↦ elim (Option-cases f.primary) [
          | inl absent ↦ simp (write, m, made, absent, replaced) (inl (text, refl, refl))
          | inr (prior, present) ↦ elim (Bool-cases io.can_read) [
            | inl readable ↦
                simp (write, m, made, present, readable, replaced)
                  (inl (text, refl, keep_backup-primary io text prior f.backup))
            | inr unread ↦ simp (write, m, made, present, unread) (inr (refl, (write_state, refl)))
          ]
        ]
      ]
    ]
  ]

  -- A write of a state whose texts are valid UTF-8 is all or nothing, whichever of its steps fails: either it has changed nothing and returns an
  -- error, or every later read of the readable file gives the state that was written, even when the write
  -- of the backup has returned an error.
  pub write_atomic :
      (io : Io) (s : CycleState) (f : StateFile)
      → json.is_utf8 s ≡ true
      → ((io' : Io) → io'.can_read ≡ true → read json io' (write json io s f).0 ≡ returned s)
        ⊎ (((write json io s f).0 ≡ f)
            × ((code : CycleError) × ((write json io s f).1 ≡ some code)))
  unfolding read
  write_atomic io s f valid = elim (write-Wrote io s f) [
    | inr nothing ↦ inr nothing
    | inl (text, m, new) ↦ inl (λ io' readable.
        simp (read, new, readable, json.unmarshal-marshal_indent s text m)
          (ap returned (json.clean-is_utf8 s valid)))
  ]

  -- After a write without an error, a read gives what was written or an error.
  pub read-write :
      (io io' : Io) (s : CycleState) (f : StateFile)
      → (write json io s f).1 ≡ none
      → (read json io' (write json io s f).0 ≡ returned (json.clean s))
        ⊎ ((code : CycleError) × (read json io' (write json io s f).0 ≡ raised code))
  unfolding read
  read-write io io' s f e = elim (write-Wrote io s f) [
    | inr (same, (code, bad)) ↦ absurd (failed (sym bad ∙ e))
    | inl (text, m, new) ↦ elim (Bool-cases io'.can_read) [
      | inl readable ↦ inl (simp (read, new, readable, json.unmarshal-marshal_indent s text m) refl)
      | inr unread ↦ inr (read_state, simp (read, new, unread) refl)
    ]
  ]
    where
      failed : {code : CycleError} → ◌≡◌ {A = Option CycleError} (some code) none → ⊥
      failed q = cc
