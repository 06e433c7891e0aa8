-- ===== src/Cycle/Alternation.antt =====
-- Alternating fingerprints, as pingPongStuck of internal/cycle/stuck.go looks for them: the stretch
-- that is looked for, and the rounds of the loop on it.
use rallish.Prelude.{
  ℕ, suc, ◌+◌, ◌≤◌, ◌≡◌, ◌≢◌, sym, inl, inr, Bool, true, false, Option, none, some, List, [], ◌∷◌,
  ◌++◌, arith, Text, if◌then◌else◌, ltb, leb, Bool-cases, length, length-append, str_eq,
  str_eq_refl, str_eq→eq,
}
use rallish.Cycle.Stuck.{next_run, ping_pong_from, ping_pong_start, ping_pong_stuck}

-- Somewhere a, b, a, b, a, b with two different fingerprints.
abbrev pub HasPingPong : List Text → Type 0
HasPingPong fps =
    (before : List Text) × (a : Text) × (b : Text) × (after : List Text) × (a ≢ b)
    × (fps ≡ before ++ a ∷ b ∷ a ∷ b ∷ a ∷ b ∷ after)

if_true : (t rest : Bool) → rest ≡ true → (if t then true else rest) ≡ true
if_true t rest h = ground arith

-- A fingerprint that is the one before the last, and not the last, lengthens the run.
alternate :
    (x y : Text) (n run : ℕ) (fps : List Text)
    → x ≢ y
    → n ≤ run
    → ((run' : ℕ) → suc n ≤ run' → ping_pong_from (some y) x run' fps ≡ true)
    → ping_pong_from (some x) y run (x ∷ fps) ≡ true
unfolding ping_pong_from
alternate x y n run fps ne le later = elim (Bool-cases (str_eq x y)) [
  | inl same ↦ absurd (ne (str_eq→eq x y same))
  | inr other ↦
      rw (other, str_eq_refl x) (if_true (leb 6 (run + 1)) _ (later (run + 1) (omega (arith, le))))
]

-- The last step of six ends the loop.
alternate_last :
    (x y : Text) (run : ℕ) (fps : List Text)
    → x ≢ y
    → 5 ≤ run
    → ping_pong_from (some x) y run (x ∷ fps) ≡ true
unfolding ping_pong_from
alternate_last x y run fps ne le = elim (Bool-cases (str_eq x y)) [
  | inl same ↦ absurd (ne (str_eq→eq x y same))
  | inr other ↦ let long : leb 6 (run + 1) ≡ true = ground arith in rw (other, str_eq_refl x, long)
]

-- Any other change of fingerprint starts a run of two at least.
change :
    (before_prev : Option Text) (x y : Text) (run : ℕ) (fps : List Text)
    → x ≢ y
    → 1 ≤ run
    → ((run' : ℕ) → 2 ≤ run' → ping_pong_from (some y) x run' fps ≡ true)
    → ping_pong_from before_prev y run (x ∷ fps) ≡ true
unfolding ping_pong_from
change before_prev x y run fps ne le later =
    if_true _ _ (later (next_run before_prev y x run) (long before_prev))
  where
    long : (before_prev : Option Text) → 2 ≤ next_run before_prev y x run
    long none = elim (Bool-cases (str_eq x y)) [
      | inl same ↦ absurd (ne (str_eq→eq x y same))
      | inr other ↦ rw other (omega arith)
    ]
    long (some p) = elim (Bool-cases (str_eq x y)) [
      | inl same ↦ absurd (ne (str_eq→eq x y same))
      | inr other ↦ elim (Bool-cases (str_eq x p)) [
        | inl again ↦ rw (other, again) (omega (arith, le))
        | inr new ↦ rw (other, new) (omega arith)
      ]
    ]

next_run-positive :
    (before_prev : Option Text) (prev cur : Text) (run : ℕ) → 1 ≤ next_run before_prev prev cur run
next_run-positive none prev cur run = ground arith
next_run-positive (some p) prev cur run = ground arith

-- From any state, six alternating fingerprints are found.
finds_six :
    (a b : Text) (after : List Text) (before_prev : Option Text) (prev : Text) (run : ℕ)
    → a ≢ b
    → ping_pong_from before_prev prev run (a ∷ b ∷ a ∷ b ∷ a ∷ b ∷ after) ≡ true
unfolding ping_pong_from
finds_six a b after before_prev prev run ne = if_true _ _ (
    finds_five (some prev) (next_run before_prev prev a run)
      (next_run-positive before_prev prev a run))
  where
    back : b ≢ a
    back e = ne (sym e)

    finds_five :
        (before_prev : Option Text) (run : ℕ)
        → 1 ≤ run
        → ping_pong_from before_prev a run (b ∷ a ∷ b ∷ a ∷ b ∷ after) ≡ true
    finds_five before_prev run le =
        change before_prev b a run (a ∷ b ∷ a ∷ b ∷ after) back le (λ r2 h2.
          alternate a b 2 r2 (b ∷ a ∷ b ∷ after) ne h2 (λ r3 h3.
            alternate b a 3 r3 (a ∷ b ∷ after) back h3 (λ r4 h4.
              alternate a b 4 r4 (b ∷ after) ne h4 (λ r5 h5. alternate_last b a r5 after back h5))))

finds_after :
    (before : List Text) (a b : Text) (after : List Text) (before_prev : Option Text) (prev : Text)
    (run : ℕ)
    → a ≢ b
    → ping_pong_from before_prev prev run (before ++ a ∷ b ∷ a ∷ b ∷ a ∷ b ∷ after) ≡ true
unfolding ping_pong_from
finds_after [] a b after before_prev prev run ne = finds_six a b after before_prev prev run ne
finds_after (x ∷ before) a b after before_prev prev run ne =
    if_true _ _ (finds_after before a b after (some prev) x (next_run before_prev prev x run) ne)

finds_start :
    (before : List Text) (a b : Text) (after : List Text)
    → a ≢ b
    → ping_pong_start (before ++ a ∷ b ∷ a ∷ b ∷ a ∷ b ∷ after) ≡ true
finds_start [] a b after ne =
    change none b a 1 (a ∷ b ∷ a ∷ b ∷ after) (λ e. ne (sym e)) (omega arith)
      (λ r2 h2. alternate a b 2 r2 (b ∷ a ∷ b ∷ after) ne h2 (λ r3 h3.
        alternate b a 3 r3 (a ∷ b ∷ after) (λ e. ne (sym e)) h3
          (λ r4 h4.
            alternate a b 4 r4 (b ∷ after) ne h4
              (λ r5 h5. alternate_last b a r5 after (λ e. ne (sym e)) h5))))
finds_start (x ∷ before) a b after ne = finds_after before a b after none x 1 ne

pub HasPingPong-stuck : (fps : List Text) → HasPingPong fps → ping_pong_stuck fps ≡ true
unfolding ping_pong_stuck
HasPingPong-stuck fps (before, a, b, after, ne, e) =
    let whole = a ∷ b ∷ a ∷ b ∷ a ∷ b ∷ after in
    let long : ltb (length (before ++ whole)) 6 ≡ false =
      not_shorter (length (before ++ whole)) (omega (arith, length-append before whole)) in
    rw (e, ping_pong_stuck, long) (finds_start before a b after ne)
  where
    not_shorter : (n : ℕ) → 6 ≤ n → ltb n 6 ≡ false
    not_shorter n h = ground arith
