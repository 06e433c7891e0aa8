-- ===== src/Cycle/PingPong.antt =====
-- pingPongStuck of internal/cycle/stuck.go: what its loop knows after each round.
use rallish.Prelude.{
  ℕ, zero, suc, ◌≤◌, ◌≡◌, ◌≢◌, refl, sym, ap, ◌∙◌, ◌↔◌, inl, inr, true, false, Option, none, some,
  List, [], ◌∷◌, ◌++◌, arith, Text, ltb, leb, leb→le, leb_false→lt, guard_passed, Bool-cases,
  length, str_eq, str_eq→eq, str_eq_false→ne, some-injective,
}
use rallish.Cycle.Stuck.{next_run, ping_pong_from, ping_pong_start, ping_pong_stuck}
use rallish.Cycle.Alternation.{HasPingPong, HasPingPong-stuck}

-- n alternating fingerprints, of which the last is x and the one before it y.
abbrev alternating : ℕ → Text → Text → List Text
alternating zero x y = []
alternating (suc n) x y = alternating n y x ++ x ∷ []

-- What the loop knows of the fingerprints that it has read: they end in an alternating run.
abbrev EndsInRun : Option Text → Text → ℕ → List Text → Type 0
EndsInRun before_prev prev n done =
    (before : List Text) × (y : Text) × (done ≡ before ++ alternating (suc n) prev y)
    × (1 ≤ n → (before_prev ≡ some y) × (y ≢ prev))

append_assoc : (xs ys zs : List Text) → (xs ++ ys) ++ zs ≡ xs ++ (ys ++ zs)
append_assoc [] ys zs = refl
append_assoc (x ∷ xs) ys zs = ap (◌∷◌ x) (append_assoc xs ys zs)

-- A run of one more.
EndsInRun-again :
    (before_prev prev cur : Text) (n : ℕ) (done : List Text)
    → cur ≢ prev
    → cur ≡ before_prev
    → EndsInRun (some before_prev) prev n done
    → EndsInRun (some prev) cur (suc n) (done ++ cur ∷ [])
EndsInRun-again before_prev prev cur zero done ne again (before, y, e, turns) = (
  before,
  prev,
  ap (λ (l : List Text). l ++ cur ∷ []) e ∙ append_assoc before (prev ∷ []) (cur ∷ []),
  λ _. (refl, λ s. ne (sym s)),
)
EndsInRun-again before_prev prev cur (suc n) done ne again (before, y, e, turns) =
    let same : y ≡ cur = sym (some-injective (turns (omega arith)).0) ∙ sym again in
    (
      before,
      prev,
      ap (λ (l : List Text). l ++ cur ∷ []) e
          ∙ append_assoc before (alternating (suc (suc n)) prev y) (cur ∷ [])
          ∙ ap (λ (z : Text). before ++ (alternating (suc (suc n)) prev z ++ cur ∷ [])) same,
      λ _. (refl, λ s. ne (sym s)),
    )

-- A run of two.
EndsInRun-new :
    (before_prev : Option Text) (prev cur : Text) (n : ℕ) (done : List Text)
    → cur ≢ prev
    → EndsInRun before_prev prev n done
    → EndsInRun (some prev) cur 1 (done ++ cur ∷ [])
EndsInRun-new before_prev prev cur n done ne (before, y, e, turns) = (
  before ++ alternating n y prev,
  prev,
  ap (λ (l : List Text). l ++ cur ∷ []) e
      ∙ ap (λ (l : List Text). l ++ cur ∷ [])
          (sym (append_assoc before (alternating n y prev) (prev ∷ [])))
      ∙ append_assoc (before ++ alternating n y prev) (prev ∷ []) (cur ∷ []),
  λ _. (refl, λ s. ne (sym s)),
)

-- A run of one.
EndsInRun-same :
    (prev cur : Text) (done : List Text) → EndsInRun (some prev) cur 0 (done ++ cur ∷ [])
EndsInRun-same prev cur done = (done, prev, refl, λ h. absurd (omega (arith, h)))

short_run : (n : ℕ) → n ≤ 4 → leb 6 (suc n) ≡ false
short_run n h = ground arith

-- Six in a row are the stretch that is looked for.
EndsInRun-HasPingPong :
    (before_prev : Option Text) (cur : Text) (done fps : List Text)
    → EndsInRun before_prev cur 5 done
    → HasPingPong (done ++ fps)
EndsInRun-HasPingPong before_prev cur done fps (before, y, e, turns) = (
  before,
  y,
  cur,
  fps,
  (turns (omega arith)).1,
  ap (λ (l : List Text). l ++ fps) e ∙ append_assoc before (alternating 6 cur y) fps,
)

-- One round, given what the rounds after it find.
sound_round :
    (cur : Text) (fps : List Text) (before_prev : Option Text) (prev : Text) (n : ℕ)
    (done : List Text)
    → n ≤ 4
    → EndsInRun before_prev prev n done
    → ((n' : ℕ)
        → n' ≤ 4
        → EndsInRun (some prev) cur n' (done ++ cur ∷ [])
        → ping_pong_from (some prev) cur (suc n') fps ≡ true
        → HasPingPong ((done ++ cur ∷ []) ++ fps))
    → ping_pong_from before_prev prev (suc n) (cur ∷ fps) ≡ true
    → HasPingPong (done ++ cur ∷ fps)
unfolding ping_pong_from
sound_round cur fps before_prev prev n done le run rounds h = elim (Bool-cases (str_eq cur prev)) [
  | inl same ↦ go_on 0 (omega arith) (EndsInRun-same prev cur done) (next_same before_prev same)
  | inr other ↦ changed before_prev run refl other (str_eq_false→ne cur prev other)
]
  where
    next_same : (bp : Option Text) → str_eq cur prev ≡ true → next_run bp prev cur (suc n) ≡ 1
    next_same none same = rw same
    next_same (some p) same = rw same

    go_on :
        (n' : ℕ)
        → n' ≤ 4
        → EndsInRun (some prev) cur n' (done ++ cur ∷ [])
        → next_run before_prev prev cur (suc n) ≡ suc n'
        → HasPingPong (done ++ cur ∷ fps)
    go_on n' le' run' next =
        let later : ping_pong_from (some prev) cur (suc n') fps ≡ true =
          rw (next, short_run n' le') at h in
        rw (← append_assoc done (cur ∷ []) fps) (rounds n' le' run' later)

    changed :
        (bp : Option Text)
        → EndsInRun bp prev n done
        → bp ≡ before_prev
        → str_eq cur prev ≡ false
        → cur ≢ prev
        → HasPingPong (done ++ cur ∷ fps)
    changed none run0 is other ne =
        go_on 1 (omega arith) (EndsInRun-new none prev cur n done ne run0) (rw (← is, other))
    changed (some p) run0 is other ne = elim (Bool-cases (str_eq cur p)) [
      | inr new ↦
          go_on 1 (omega arith) (EndsInRun-new (some p) prev cur n done ne run0)
            (rw (← is, other, new))
      | inl again ↦
          let run' = EndsInRun-again p prev cur n done ne (str_eq→eq cur p again) run0 in
          elim (Bool-cases (leb n 3)) [
            | inl short ↦
                go_on (suc n) (omega (arith, leb→le n 3 short)) run'
                  (rw (← is, other, again) (omega arith))
            | inr long ↦
                let last : n ≡ 4 = omega (arith, le, leb_false→lt n 3 long) in
                rw (← append_assoc done (cur ∷ []) fps)
                  (EndsInRun-HasPingPong (some prev) cur (done ++ cur ∷ []) fps (rw last at run'))
          ]
    ]

sound_from :
    (fps : List Text) (before_prev : Option Text) (prev : Text) (n : ℕ) (done : List Text)
    → n ≤ 4
    → EndsInRun before_prev prev n done
    → ping_pong_from before_prev prev (suc n) fps ≡ true
    → HasPingPong (done ++ fps)
unfolding ping_pong_from
sound_from [] before_prev prev n done le run h = absurd (cc)
sound_from (cur ∷ fps) before_prev prev n done le run h =
    sound_round cur fps before_prev prev n done le run
      (λ n' le' run' later. sound_from fps (some prev) cur n' (done ++ cur ∷ []) le' run' later) h

start_sound : (fps : List Text) → ping_pong_start fps ≡ true → HasPingPong fps
start_sound [] h = absurd (cc)
start_sound (fp ∷ fps) h =
    sound_from fps none fp 0 (fp ∷ []) (omega arith)
      ([], fp, refl, λ le. absurd (omega (arith, le))) h

-- pingPongStuck answers true exactly when two different fingerprints alternate for six turns in a row,
-- anywhere in the ledger.
pub ping_pong_stuck-HasPingPong : (fps : List Text) → (ping_pong_stuck fps ≡ true) ↔ HasPingPong fps
unfolding ping_pong_stuck
ping_pong_stuck-HasPingPong fps = (
  λ h. start_sound fps (guard_passed (ltb (length fps) 6) (ping_pong_start fps) h).1,
  HasPingPong-stuck fps,
)
