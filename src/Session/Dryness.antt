-- ===== src/Session/Dryness.antt =====
-- internal/session/stuck.go: dry turns, and collectNewArtifacts on them.
use rallish.Prelude.{
  true≢false, sym, ℕ, ◌≤◌, ◌≡◌, refl, ap, ◌⊎◌, inl, inr, true, false, Bool-cases, List, [], ◌∷◌,
  ◌++◌, All, Text, str_eq, str_eq→eq, str_eq_iff, length, arith,
}
use mathlib.Core.Path.{subst}
use rallish.Session.Records.{TurnRecord, is_seen, collect_new_artifacts, has_none}

abbrev pub IsIn : Text → List Text → Type 0
IsIn a [] = ⊥
IsIn a (s ∷ seen) = (s ≡ a) ⊎ IsIn a seen

-- A turn with no artifact but seen ones, which is not done and hands off to nobody.
abbrev pub IsDryTurn : List Text → TurnRecord → Type 0
IsDryTurn seen rec =
    All (λ a. IsIn a seen) rec.resp.artifacts × (rec.resp.done ≡ false) × (rec.resp.handoff_to ≡ [])

abbrev pub DryAfter : List Text → List TurnRecord → Type 0
DryAfter seen [] = Unit {0}
DryAfter seen (rec ∷ records) = IsDryTurn seen rec × DryAfter seen records

-- The artifacts of the turns before.
abbrev pub seen_after : List Text → List TurnRecord → List Text
seen_after seen [] = seen
seen_after seen (rec ∷ records) = seen_after (rec.resp.artifacts ++ seen) records

-- The history ends in at least k dry turns.
pub record EndsDry (seen : List Text) (k : ℕ) (records : List TurnRecord) : Type 0 where
  pub before : List TurnRecord
  pub tail : List TurnRecord
  pub same : records ≡ before ++ tail
  pub long : k ≤ length tail
  pub dry : DryAfter (seen_after seen before) tail

abbrev pub IsWithin : List Text → List Text → Type 0
IsWithin xs ys = (a : Text) → IsIn a xs → IsIn a ys

pub All-IsWithin :
    (xs ys arts : List Text)
    → IsWithin xs ys
    → All (λ a. IsIn a xs) arts
    → All (λ a. IsIn a ys) arts
All-IsWithin xs ys [] w all = tt
All-IsWithin xs ys (a ∷ arts) w all = (w a all.0, All-IsWithin xs ys arts w all.1)

pub DryAfter-IsWithin :
    (xs ys : List Text) (records : List TurnRecord)
    → IsWithin xs ys
    → DryAfter xs records
    → DryAfter ys records
DryAfter-IsWithin xs ys [] w d = tt
DryAfter-IsWithin xs ys (rec ∷ records) w (turn, d) = (
  (All-IsWithin xs ys rec.resp.artifacts w turn.0, turn.1, turn.2),
  DryAfter-IsWithin xs ys records w d,
)

pub append-IsWithin : (arts xs ys : List Text) → IsWithin xs ys → IsWithin (arts ++ xs) (arts ++ ys)
append-IsWithin [] xs ys w = w
append-IsWithin (a ∷ arts) xs ys w =
    λ b p. elim p [ inl here ↦ inl here | inr there ↦ inr (append-IsWithin arts xs ys w b there) ]

pub seen_after-IsWithin :
    (xs ys : List Text) (records : List TurnRecord)
    → IsWithin xs ys
    → IsWithin (seen_after xs records) (seen_after ys records)
seen_after-IsWithin xs ys [] w = w
seen_after-IsWithin xs ys (rec ∷ records) w =
    seen_after-IsWithin (rec.resp.artifacts ++ xs) (rec.resp.artifacts ++ ys) records
      (append-IsWithin rec.resp.artifacts xs ys w)

is_seen_lem : (a : Text) (seen : List Text) → is_seen a seen ≡ true → IsIn a seen
is_seen_lem a [] h = cc
is_seen_lem a (s ∷ seen) h = elim (Bool-cases (str_eq s a)) [
  | inl here ↦ inl (str_eq→eq s a here)
  | inr other ↦ inr (is_seen_lem a seen (rw other at h))
]

is_seen-true : (a : Text) (seen : List Text) → IsIn a seen → is_seen a seen ≡ true
is_seen-true a [] p = elim p [ ]
is_seen-true a (s ∷ seen) (inl here) = rw ((str_eq_iff s a).1 here) refl
is_seen-true a (s ∷ seen) (inr there) = let rest = is_seen-true a seen there in ground arith

-- An artifact is seen after the collection when it was, or is among the collected ones.
pub collect-in :
    (seen arts : List Text) → IsWithin (arts ++ seen) (collect_new_artifacts seen arts).1
unfolding collect_new_artifacts
collect-in seen [] = λ b p. p
collect-in seen (a ∷ arts) = elim (Bool-cases (is_seen a seen)) [
  | inl old ↦
      rw (collect_new_artifacts, old)
        (λ b p. elim p [
          | inl here ↦
              collect-in seen arts b
                (later_in arts seen b (subst (λ t. IsIn t seen) here (is_seen_lem a seen old)))
          | inr there ↦ collect-in seen arts b there
        ])
  | inr fresh ↦
      rw (collect_new_artifacts, fresh)
        (λ b p. collect-in (a ∷ seen) arts b (elim p [
          | inl here ↦ later_in arts (a ∷ seen) b (inl here)
          | inr there ↦ append-IsWithin arts seen (a ∷ seen) (λ c q. inr q) b there
        ]))
]
  where
    later_in : (xs ys : List Text) → IsWithin ys (xs ++ ys)
    later_in [] ys b p = p
    later_in (x ∷ xs) ys b p = inr (later_in xs ys b p)

pub collect-from :
    (seen arts : List Text) → IsWithin (collect_new_artifacts seen arts).1 (arts ++ seen)
unfolding collect_new_artifacts
collect-from seen [] = λ b p. p
collect-from seen (a ∷ arts) = elim (Bool-cases (is_seen a seen)) [
  | inl old ↦ rw (collect_new_artifacts, old) (λ b p. inr (collect-from seen arts b p))
  | inr fresh ↦
      rw (collect_new_artifacts, fresh) (λ b p. moved arts b (collect-from (a ∷ seen) arts b p))
]
  where
    moved : (xs : List Text) → IsWithin (xs ++ a ∷ seen) (a ∷ xs ++ seen)
    moved [] b p = p
    moved (x ∷ xs) b (inl here) = inr (inl here)
    moved (x ∷ xs) b (inr there) = elim (moved xs b there) [
      | inl same ↦ inl same
      | inr rest ↦ inr (inr rest)
    ]

pub collect_none :
    (seen arts : List Text)
    → has_none (collect_new_artifacts seen arts).0 ≡ true
    → All (λ a. IsIn a seen) arts
unfolding collect_new_artifacts
collect_none seen [] h = tt
collect_none seen (a ∷ arts) h = elim (Bool-cases (is_seen a seen)) [
  | inl old ↦
      (is_seen_lem a seen old, collect_none seen arts (rw (collect_new_artifacts, old) at h))
  | inr fresh ↦ true≢false (sym (rw (collect_new_artifacts, fresh) at h))
]

pub collect_old :
    (seen arts : List Text)
    → All (λ a. IsIn a seen) arts
    → collect_new_artifacts seen arts ≡ ([], seen)
unfolding collect_new_artifacts
collect_old seen [] all = refl
collect_old seen (a ∷ arts) all =
    rw (collect_new_artifacts, is_seen-true a seen all.0) (collect_old seen arts all.1)

pub collect_same :
    (seen arts : List Text)
    → has_none (collect_new_artifacts seen arts).0 ≡ true
    → (collect_new_artifacts seen arts).1 ≡ seen
collect_same seen arts h = ap (λ p. p.1) (collect_old seen arts (collect_none seen arts h))
