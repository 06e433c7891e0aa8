-- ===== src/Cycle/Violations.antt =====
-- internal/cycle/state.go: AppendViolations by the keys of violations.
use rallish.Prelude.{
  ◌≡◌, refl, sym, ap, ◌∙◌, inl, inr, Bool-cases, Bool, true, false, ◌||◌, List, [], ◌∷◌, ◌++◌, Text,
  All, str_eq, arith, str_eq_refl, str_eq_comm,
}
use mathlib.Core.Path.{subst}
use mathlib.Core.List.{append-nil, append_assoc}
use rallish.Prelude.Int.{ℤ}
use rallish.Contract.Turns.{Violation}
use rallish.Contract.CycleState.{CycleState}
use rallish.Cycle.State.{violation_key, has_key, merge_violations, append_violations}

-- No two violations with one key.
abbrev pub AreDistinct : List Violation → Type 0
AreDistinct [] = Unit {0}
AreDistinct (v ∷ vs) = (has_key (violation_key v) vs ≡ false) × AreDistinct vs

or_false : (a b : Bool) → (a || b) ≡ false → (a ≡ false) × (b ≡ false)
or_false a b h = ground arith

neither : (a b : Bool) → a ≡ false → b ≡ false → (a || (b || false)) ≡ false
neither a b p q = ground arith

first : (a b : Bool) → a ≡ true → (a || b) ≡ true
first a b p = ground arith

second : (a b : Bool) → b ≡ true → (a || (b || false)) ≡ true
second a b p = ground arith

has_key-append :
    (k : Text) (vs ws : List Violation) → has_key k (vs ++ ws) ≡ (has_key k vs || has_key k ws)
has_key-append k [] ws = refl
has_key-append k (v ∷ vs) ws =
    rw (has_key-append k vs ws)
      (or_assoc (str_eq (violation_key v) k) (has_key k vs) (has_key k ws))
  where
    or_assoc : (a b c : Bool) → (a || (b || c)) ≡ ((a || b) || c)
    or_assoc true b c = refl
    or_assoc false b c = refl

AreDistinct-snoc :
    (vs : List Violation) (v : Violation)
    → AreDistinct vs
    → has_key (violation_key v) vs ≡ false
    → AreDistinct (vs ++ v ∷ [])
AreDistinct-snoc [] v d new = (refl, tt)
AreDistinct-snoc (w ∷ vs) v d new =
    let (other, new') = or_false (str_eq (violation_key w) (violation_key v)) _ new in
    (
      has_key-append (violation_key w) vs (v ∷ [])
          ∙ neither _ _ d.0 (str_eq_comm (violation_key v) (violation_key w) ∙ other),
      AreDistinct-snoc vs v d.1 new',
    )

has_key-kept :
    (k : Text) (vs new out : List Violation)
    → out ≡ vs ++ new
    → has_key k vs ≡ true
    → has_key k out ≡ true
has_key-kept k vs new out same has = ap (has_key k) same ∙ has_key-append k vs new ∙ first _ _ has

has_key-snoc :
    (vs : List Violation) (v : Violation) → has_key (violation_key v) (vs ++ v ∷ []) ≡ true
has_key-snoc vs v =
    has_key-append (violation_key v) vs (v ∷ []) ∙ second _ _ (str_eq_refl (violation_key v))

module _ (found : List Violation) (v : Violation) (vs : List Violation) where
  merge_violations-seen :
      has_key (violation_key v) found ≡ true
      → merge_violations found (v ∷ vs) ≡ merge_violations found vs
  unfolding merge_violations
  merge_violations-seen seen = rw (merge_violations, seen) refl

  merge_violations-fresh :
      has_key (violation_key v) found ≡ false
      → merge_violations found (v ∷ vs) ≡ merge_violations (found ++ v ∷ []) vs
  unfolding merge_violations
  merge_violations-fresh fresh = rw (merge_violations, fresh) refl

-- What the merge keeps, and what it adds.
abbrev pub Merged : List Violation → List Violation → List Violation → Type 0
Merged found vs out =
    ((new : List Violation) × (out ≡ found ++ new))
    × AreDistinct out
    × All (λ v. has_key (violation_key v) out ≡ true) vs

merge_violations-Merged :
    (found vs : List Violation) → AreDistinct found → Merged found vs (merge_violations found vs)
unfolding merge_violations
merge_violations-Merged found [] d = (([], sym (append-nil found)), d, tt)
merge_violations-Merged found (v ∷ vs) d = elim (Bool-cases (has_key (violation_key v) found)) [
  | inl seen ↦
      let ((new, same), d', all) = merge_violations-Merged found vs d in
      subst (Merged found (v ∷ vs)) (sym (merge_violations-seen found v vs seen))
        ((new, same), d', (has_key-kept (violation_key v) found new _ same seen, all))
  | inr fresh ↦
      let found' = found ++ v ∷ [] in
      let ((new, same), d', all) =
        merge_violations-Merged found' vs (AreDistinct-snoc found v d fresh) in
      subst (Merged found (v ∷ vs)) (sym (merge_violations-fresh found v vs fresh)) (
        (v ∷ new, same ∙ append_assoc found (v ∷ []) new),
        d',
        (has_key-kept (violation_key v) found' new _ same (has_key-snoc found v), all),
      )
]

-- When no two violations of a state have one key: AppendViolations keeps them as they are, in front; no
-- two of its result have one key; and every violation that it is given has its key there.
pub append_violations-Merged :
    (now : ℤ) (vs : List Violation) (s : CycleState)
    → AreDistinct s.violations_found
    → Merged s.violations_found vs (append_violations now vs s).value.violations_found
unfolding append_violations
append_violations-Merged now vs s d = merge_violations-Merged s.violations_found vs d
