-- ===== src/Cycle/Greens.antt =====
-- internal/cycle/driver.go and reviver.go: a green step unseals the ledger.
use rallish.Prelude.{
  ◌≡◌, refl, sym, ap, ap₂, ◌∙◌, inl, inr, true, false, none, some, List, [], ◌∷◌, ◌++◌, map,
  if◌then◌else◌, All, Text,
}
use mathlib.Core.List.{append-nil, append_assoc}
use rallish.Prelude.Int.{ℤ}
use rallish.Digest.{Sha256}
use rallish.Contract.Ledger.{
  HarnessLedgerEntry, LedgerEventType, gates_pinned, gate_passed, gate_failed, validation_green,
  cycle_completed, new_harness_ledger_entry,
}
use rallish.Contract.Turns.{GateReport, new_gate_ledger_entry}
use rallish.Contract.CycleState.{CycleState}
use rallish.Contract.Pins.{GatePin, pin_gates, new_gates_pinned_entry}
use rallish.Cycle.Reviver.{is_halted, is_green, ledger_seals_resume}
use rallish.Cycle.Reviving.{ledger_seals_resume-green}
use rallish.Cycle.Pipeline.{Gate, execute}
use rallish.Cycle.Stores.{LedgerStore}
use rallish.Cycle.Driver.{note_all, completion_entries, step}
use rallish.Cycle.Steps.{pin_step-note, step_recorded}

abbrev pub types : List HarnessLedgerEntry → List LedgerEventType
types es = map (λ (e : HarnessLedgerEntry). e.type) es

types-append : (xs ys : List HarnessLedgerEntry) → types (xs ++ ys) ≡ types xs ++ types ys
types-append [] ys = refl
types-append (x ∷ xs) ys = ap (◌∷◌ x.type) (types-append xs ys)

-- A list whose images end in two elements ends in two elements with these images.
last_two {ℓ κ} :
    {A : Type ℓ} {B : Type κ} (f : A → B) (new : List A) (bs : List B) (b c : B)
    → map f new ≡ bs ++ b ∷ c ∷ []
    → (before : List A) × (x : A) × (y : A) × (new ≡ before ++ x ∷ y ∷ []) × (f x ≡ b) × (f y ≡ c)
last_two f [] [] b c e = cc
last_two f [] (d ∷ bs) b c e = cc
last_two f (x ∷ []) [] b c e = cc
last_two f (x ∷ []) (d ∷ []) b c e = cc
last_two f (x ∷ []) (d ∷ d' ∷ bs) b c e = cc
last_two f (x ∷ y ∷ []) [] b c e = ([], x, y, refl, cc, cc)
last_two f (x ∷ y ∷ z ∷ new) [] b c e = cc
last_two f (x ∷ y ∷ new) (d ∷ bs) b c e =
    let (before, p, q, same, fp, fq) = last_two f (y ∷ new) bs b c (cc) in
    (x ∷ before, p, q, ap (◌∷◌ x) same, fp, fq)

-- The events of a green step: the pins, each gate, the green and the completion.
abbrev gate_type : GateReport → LedgerEventType
gate_type r = if r.passed then gate_passed else gate_failed

abbrev pub green_types : List GateReport → List LedgerEventType
green_types reports =
    gates_pinned ∷ map gate_type reports ++ validation_green ∷ cycle_completed ∷ []

gates-types :
    (now : ℤ) (id : Text) (reports : List GateReport)
    → types (map (new_gate_ledger_entry now id) reports) ≡ map gate_type reports
unfolding new_gate_ledger_entry new_harness_ledger_entry
gates-types now id [] = refl
gates-types now id (r ∷ reports) = ap (◌∷◌ (gate_type r)) (gates-types now id reports)

completion_entries-types :
    (now : ℤ) (id : Text) (reports : List GateReport)
    → types (completion_entries now id reports)
      ≡ map gate_type reports ++ validation_green ∷ cycle_completed ∷ []
unfolding completion_entries new_harness_ledger_entry
completion_entries-types now id reports =
    types-append (map (new_gate_ledger_entry now id) reports) _
    ∙ ap (λ ts. ts ++ validation_green ∷ cycle_completed ∷ []) (gates-types now id reports)

pinned-type :
    (now : ℤ) (id digest : Text) (pins : List GatePin)
    → (new_gates_pinned_entry now id digest pins false).type ≡ gates_pinned
unfolding new_gates_pinned_entry new_harness_ledger_entry
pinned-type now id digest pins = refl

module _ (store : LedgerStore) where
  abbrev pub IsValidEntry : HarnessLedgerEntry → Type 0
  IsValidEntry e = store.is_valid e ≡ true

  note-Holds :
      (es : List HarnessLedgerEntry) (s : store.Store) (e : HarnessLedgerEntry)
      → store.Holds es s
      → store.Works s
      → IsValidEntry e
      → (e' : HarnessLedgerEntry) × store.Holds (es ++ e' ∷ []) (store.append e s).0
        × store.Works (store.append e s).0
        × (e'.type ≡ e.type)
  note-Holds es s e holds works valid =
      let (good, works') = store.append-Works es s e holds works in
      elim (store.append-Holds es s e holds valid) [
        | inr (code, bad, w) ↦ absurd (cc)
        | inl (e', fine, same, w) ↦ (e', w, works', ap (λ x. x.type) (sym same))
      ]

  note_all-Holds :
      (entries es : List HarnessLedgerEntry) (s : store.Store)
      → store.Holds es s
      → store.Works s
      → All IsValidEntry entries
      → (new : List HarnessLedgerEntry) × (s' : store.Store) × (note_all store entries (some s)
          ≡ some s')
        × store.Holds (es ++ new) s'
        × (types new ≡ types entries)
  note_all-Holds [] es s holds works valid = ([], s, refl, rw (append-nil es) holds, refl)
  note_all-Holds (e ∷ entries) es s holds works valid =
      let (e', holds', works', same) = note-Holds es s e holds works valid.0 in
      let (new, s', noted, w, types') =
        note_all-Holds entries (es ++ e' ∷ []) (store.append e s).0 holds' works' valid.1 in
      (e' ∷ new, s', noted, rw (← (append_assoc es (e' ∷ []) new)) w, ap₂ ◌∷◌ same types')

  -- From a ledger that holds entries, when no call of it fails and the entries of the step are valid: a step without an error adds
  -- to the ledger the pins, one entry for each gate's report, a validation_green and a cycle_completed, in
  -- this order, and LedgerSealsResume finds the ledger unsealed then, whatever halts it held before.
  pub step-unseals :
      (h : Sha256) (now : ℤ) (pipeline : List Gate) (state : CycleState)
      → (es : List HarnessLedgerEntry) (ledger : store.Store) → store.Holds es ledger
      → store.Works ledger
      → IsValidEntry (
          new_gates_pinned_entry now state.id
            (pin_gates h state.local_gates).0
            (pin_gates h state.local_gates).1
            false)
      → All IsValidEntry (
          completion_entries now
            (execute now pipeline state).value.id
            (execute now pipeline state).reports)
      → (step h store now pipeline state (some ledger)).0.err ≡ none
      → (new : List HarnessLedgerEntry) × (ledger' : store.Store) × ((step h store now pipeline
            state
            (some ledger)).1
          ≡ some ledger')
        × store.Holds (es ++ new) ledger'
        × (types new ≡ green_types (step h store now pipeline state (some ledger)).0.reports)
        × (ledger_seals_resume (es ++ new) ≡ none)
  step-unseals h now pipeline state es ledger holds works pin_valid valid e =
      let (last, reports, done, reported, recorded) =
        step_recorded h store now pipeline state (some ledger) e in
      let pinned =
        new_gates_pinned_entry now state.id (pin_gates h state.local_gates).0
          (pin_gates h state.local_gates).1 false in
      let (p, holds', works', p_type) = note-Holds es ledger pinned holds works pin_valid in
      let (new, ledger', noted, w, same) =
        note_all-Holds (completion_entries now last.id reports) (es ++ p ∷ [])
          (store.append pinned ledger).0 holds' works' (rw done at valid) in
      let new_types = same ∙ completion_entries-types now last.id reports in
      let (before, x, y, split, tx, ty) =
        last_two (λ (t : HarnessLedgerEntry). t.type) new (map gate_type reports) _ _ new_types in
      (
        p ∷ new,
        ledger',
        recorded
            ∙ ap (note_all store (completion_entries now last.id reports))
                (pin_step-note h store now state (some ledger))
            ∙ noted,
        rw (← (append_assoc es (p ∷ []) new)) w,
        ap₂ ◌∷◌ (p_type ∙ pinned-type now state.id _ _) new_types ∙ ap green_types (sym reported),
        ap (λ t. ledger_seals_resume (es ++ p ∷ t)) split
            ∙ ap ledger_seals_resume (sym (append_assoc es (p ∷ before) (x ∷ y ∷ [])))
            ∙ ledger_seals_resume-green (es ++ p ∷ before) (y ∷ []) x (ap is_green tx)
                (ap is_halted ty, tt),
      )
