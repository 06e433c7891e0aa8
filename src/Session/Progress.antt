-- ===== src/Session/Progress.antt =====
-- internal/session/stuck.go: DryRounds and the no-progress rule against the turns at the end of a history.
use rallish.Prelude.{
  true≢false, ℕ, zero, suc, ◌+◌, ◌≤◌, ◌≡◌, refl, sym, ap, ◌∙◌, ◌⊎◌, inl, inr, ◌↔◌, Bool, true,
  false, Bool-cases, not, ◌&&◌, and_eq_true, is_empty, some, none, none≢some, List, [], ◌∷◌, ◌++◌,
  Text, codes, length, length-append, ltb, leb, leb→le, arith,
}
use rallish.Prelude.Int.{ℤ, pos, negsuc, leb_ℤ}
use rallish.Session.Records.{
  TurnRecord, collect_new_artifacts, has_none, is_dry, count_dry, dry_rounds, dry_in_window,
  detect_no_progress,
}
use rallish.Session.Dryness.{
  IsIn, IsDryTurn, DryAfter, DryAfter-IsWithin, seen_after, seen_after-IsWithin, EndsDry,
  collect-in, collect-from, collect_none, collect_old, collect_same,
}

none_of : (t : Text) → is_empty t ≡ true → t ≡ []
none_of [] h = refl
none_of (c ∷ t) h = cc

is_dry_lem :
    (seen : List Text) (rec : TurnRecord)
    → is_dry rec (collect_new_artifacts seen rec.resp.artifacts).0 ≡ true
    → IsDryTurn seen rec × ((collect_new_artifacts seen rec.resp.artifacts).1 ≡ seen)
is_dry_lem seen rec h =
    let arts : List Text = rec.resp.artifacts in
    let new : List Text = (collect_new_artifacts seen arts).0 in
    let (first, empty) =
      and_eq_true (has_none new && not rec.resp.done) (is_empty rec.resp.handoff_to) h in
    let (no_new, going) = and_eq_true (has_none new) (not rec.resp.done) first in
    (
      (collect_none seen arts no_new, flip rec.resp.done going, none_of rec.resp.handoff_to empty),
      collect_same seen arts no_new,
    )
  where
    flip : (b : Bool) → not b ≡ true → b ≡ false
    flip true q = sym q
    flip false q = refl

is_dry-true :
    (seen : List Text) (rec : TurnRecord)
    → IsDryTurn seen rec
    → is_dry rec (collect_new_artifacts seen rec.resp.artifacts).0 ≡ true
is_dry-true seen rec (all, going, nobody) =
    rw (collect_old seen rec.resp.artifacts all, going, nobody) refl

-- What the rest of a history makes of the count: it is dry to its end, or ends in dry turns behind one that
-- is not.
DryEnd : List Text → ℕ → ℕ → List TurnRecord → Type 0
DryEnd seen c k records =
    (DryAfter seen records × (k ≤ c + length records)) ⊎ EndsDry seen k records

EndsDry-cons :
    (seen seen' : List Text) (k : ℕ) (rec : TurnRecord) (records : List TurnRecord)
    → ((a : Text) → IsIn a seen' → IsIn a (rec.resp.artifacts ++ seen))
    → EndsDry seen' k records
    → EndsDry seen k (rec ∷ records)
EndsDry-cons seen seen' k rec records w d = record {
  before = rec ∷ d.before;
  tail = d.tail;
  same = ap (◌∷◌ rec) d.same;
  long = d.long;
  dry =
      DryAfter-IsWithin _ _ d.tail
        (seen_after-IsWithin seen' (rec.resp.artifacts ++ seen) d.before w) d.dry;
}

count_dry-DryEnd :
    (seen : List Text) (c k : ℕ) (records : List TurnRecord)
    → k ≤ count_dry seen c records
    → DryEnd seen c k records
unfolding count_dry DryEnd
count_dry-DryEnd seen c k [] h = inl (tt, omega arith)
count_dry-DryEnd seen c k (rec ∷ records) h =
    let arts : List Text = rec.resp.artifacts in
    let seen' : List Text = (collect_new_artifacts seen arts).1 in
    let w = collect-from seen arts in
    elim (Bool-cases (is_dry rec (collect_new_artifacts seen arts).0)) [
      | inl dry ↦ elim (count_dry-DryEnd seen' (c + 1) k records (rw (count_dry, dry) at h)) [
        | inl (rest, long) ↦
            let (turn, same) = is_dry_lem seen rec dry in inl ((turn, rw same at rest), omega arith)
        | inr ends ↦ inr (EndsDry-cons seen seen' k rec records w ends)
      ]
      | inr wet ↦ elim (count_dry-DryEnd seen' 0 k records (rw (count_dry, wet) at h)) [
        | inl (rest, long) ↦ inr (record {
          before = rec ∷ [];
          tail = records;
          same = refl;
          long = omega arith;
          dry = DryAfter-IsWithin seen' (arts ++ seen) records w rest;
        })
        | inr ends ↦ inr (EndsDry-cons seen seen' k rec records w ends)
      ]
    ]

count_dry-DryAfter :
    (seen : List Text) (c : ℕ) (records : List TurnRecord)
    → DryAfter seen records
    → count_dry seen c records ≡ c + length records
unfolding count_dry
count_dry-DryAfter seen c [] d = omega arith
count_dry-DryAfter seen c (rec ∷ records) (turn, d) =
    let dry = is_dry-true seen rec turn in
    let same = collect_same seen rec.resp.artifacts (no_new dry) in
    let rest = count_dry-DryAfter seen (c + 1) records d in
    rw (count_dry, dry) (rw same (rest ∙ omega arith))
  where
    no_new :
        is_dry rec (collect_new_artifacts seen rec.resp.artifacts).0 ≡ true
        → has_none (collect_new_artifacts seen rec.resp.artifacts).0 ≡ true
    no_new q =
        let new : List Text = (collect_new_artifacts seen rec.resp.artifacts).0 in
        (and_eq_true (has_none new) (not rec.resp.done)
          (and_eq_true (has_none new && not rec.resp.done) (is_empty rec.resp.handoff_to) q).0).0

count_dry-tail :
    (seen : List Text) (c k : ℕ) (before tail : List TurnRecord)
    → k ≤ length tail
    → DryAfter (seen_after seen before) tail
    → k ≤ count_dry seen c (before ++ tail)
unfolding count_dry
count_dry-tail seen c k [] tail long d = omega (arith, count_dry-DryAfter seen c tail d)
count_dry-tail seen c k (rec ∷ before) tail long d =
    let seen' : List Text = (collect_new_artifacts seen rec.resp.artifacts).1 in
    let w =
      seen_after-IsWithin (rec.resp.artifacts ++ seen) seen' before
        (collect-in seen rec.resp.artifacts) in
    count_dry-tail seen' _ k before tail long (DryAfter-IsWithin _ _ tail w d)

-- The count of the loop reaches k exactly in the histories that end in k dry turns.
count_dry-EndsDry :
    (k : ℕ) (records : List TurnRecord) → (k ≤ count_dry [] 0 records) ↔ EndsDry [] k records
unfolding DryEnd
count_dry-EndsDry k records = (
  λ h. elim (count_dry-DryEnd [] 0 k records h) [
    | inl (d, long) ↦ record {
      before = [];
      tail = records;
      same = refl;
      long = omega arith;
      dry = d;
    }
    | inr ends ↦ ends
  ],
  λ d. rw d.same (count_dry-tail [] 0 k d.before d.tail d.long d.dry),
)

dry_in_window-count_dry :
    (records : List TurnRecord) (seen : List Text) (c : ℕ)
    → dry_in_window seen c records ≡ count_dry seen c records
unfolding dry_in_window count_dry
dry_in_window-count_dry [] seen c = refl
dry_in_window-count_dry (rec ∷ records) seen c = dry_in_window-count_dry records _ _

-- DryRounds answers true exactly when the threshold is positive and the history ends in at least so many
-- turns without an artifact that no turn before had, without Done and without a handoff.
pub dry_rounds-EndsDry :
    (records : List TurnRecord) (threshold : ℤ)
    → (dry_rounds records threshold ≡ true)
      ↔ ((k : ℕ) × (threshold ≡ pos (suc k)) × EndsDry [] (suc k) records)
unfolding dry_rounds
dry_rounds-EndsDry records (pos zero) = (λ h. true≢false (sym h), λ (k, same, d). cc)
dry_rounds-EndsDry records (negsuc m) =
    let off : leb_ℤ (negsuc m) (pos 0) ≡ true = ground arith in
    (λ h. true≢false (sym (rw off at h)), λ (k, same, d). cc)
dry_rounds-EndsDry records (pos (suc k)) = (
  λ h. (k, refl, (count_dry-EndsDry (suc k) records).0 (ground arith)),
  λ (j, same, d).
      let many = (count_dry-EndsDry (suc j) records).1 d in
      let numbers : k ≡ j = cc in ground arith,
)

EndsDry-length : (k : ℕ) (records : List TurnRecord) → EndsDry [] k records → k ≤ length records
EndsDry-length k records d = omega (arith, ap length d.same, length-append d.before d.tail, d.long)

nothing_found :
    (records : List TurnRecord)
    → leb 6 (dry_in_window [] 0 records) ≡ false
    → detect_no_progress records ≡ none
unfolding detect_no_progress
nothing_found records few = elim (Bool-cases (ltb (length records) 6)) [
  | inl short ↦ rw (detect_no_progress, short) refl
  | inr many ↦ rw (detect_no_progress, many, few) refl
]

-- The rule of no progress applies exactly to the histories that end in at least six such turns.
pub detect_no_progress-EndsDry :
    (records : List TurnRecord)
    → (detect_no_progress records ≡ some (codes "no progress")) ↔ EndsDry [] 6 records
unfolding detect_no_progress
detect_no_progress-EndsDry records =
    let counted = dry_in_window-count_dry records [] 0 in
    elim (Bool-cases (leb 6 (dry_in_window [] 0 records))) [
      | inl enough ↦ (
        λ _.
            (count_dry-EndsDry 6 records).0
              (omega (arith, counted, leb→le 6 (dry_in_window [] 0 records) enough)),
        λ d.
            let six = EndsDry-length 6 records d in
            let many : ltb (length records) 6 ≡ false = ground arith in
            rw (detect_no_progress, many, enough) refl,
      )
      | inr few ↦ (
        λ h. absurd (none≢some (sym (nothing_found records few) ∙ h)),
        λ d.
            let six = (count_dry-EndsDry 6 records).1 d in
            true≢false (sym (leb_6 (omega (arith, counted, six))) ∙ few),
      )
    ]
  where
    leb_6 : 6 ≤ dry_in_window [] 0 records → leb 6 (dry_in_window [] 0 records) ≡ true
    leb_6 h = ground arith
