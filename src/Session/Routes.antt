-- ===== src/Session/Routes.antt =====
-- internal/router/router.go: the roles that Next answers.
use rallish.Prelude.{
  ℕ, suc, zero, ◌%◌, ◌<◌, ◌≡◌, inl, inr, Bool-cases, Option-cases, Bool, true, false, ◌&&◌, ◌||◌,
  not, Option, none, some, List, [], ◌∷◌, Text, codes, str_eq, str_eq_refl, length, arith, is_empty,
  and_eq_true, none≢some, some-injective, if◌then◌else◌, Attempt, raised, returned,
}
use native.Mathlib.Nat.{mod-lt}
use rallish.Prelude.Int.{ℤ, pos, negsuc, ◌-ℤ◌}
use rallish.Contract.Turns.{TurnResponse}
use rallish.Contract.Requests.{Role, Preset}
use rallish.Session.Router.{
  RouterError, is_valid_role, find_reviewer, role_id_at, role_of_slot, round_robin_role, handoff_of,
  handoff_or, writer_turn, route, is_blocked_turn, next_role,
}

either : (a b : Bool) → b ≡ true → (a || b) ≡ true
either a b p = ground arith

this : (a b : Bool) → a ≡ true → (a || b) ≡ true
this a b p = ground arith

role_id_at-IsValid :
    (roles : List Role) (i : ℕ) → i < length roles → is_valid_role roles (role_id_at roles i) ≡ true
unfolding is_valid_role
role_id_at-IsValid [] i h = absurd (omega arith)
role_id_at-IsValid (role ∷ roles) zero h = this _ _ (str_eq_refl role.id)
role_id_at-IsValid (role ∷ roles) (suc i) h = either _ _ (role_id_at-IsValid roles i (omega arith))

role_of_slot-IsValid :
    (roles : List Role) (d : ℤ)
    → 0 < length roles
    → is_valid_role roles (role_of_slot roles d) ≡ true
role_of_slot-IsValid roles (pos n) h = role_id_at-IsValid roles (n % length roles) (mod-lt n h)
role_of_slot-IsValid roles (negsuc n) h = role_id_at-IsValid roles 0 h

round_robin_role-IsValid :
    (roles : List Role) (turn : ℤ)
    → 0 < length roles
    → is_valid_role roles (round_robin_role roles turn) ≡ true
unfolding round_robin_role
round_robin_role-IsValid [] turn h = absurd (omega arith)
round_robin_role-IsValid (role ∷ roles) turn h =
    role_of_slot-IsValid (role ∷ roles) (turn -ℤ pos 1) h

find_reviewer-IsValid :
    (roles : List Role)
    → is_empty (find_reviewer roles) ≡ false
    → is_valid_role roles (find_reviewer roles) ≡ true
unfolding find_reviewer is_valid_role
find_reviewer-IsValid [] h = cc
find_reviewer-IsValid (role ∷ roles) h = elim (Bool-cases (str_eq role.id (codes "reviewer"))) [
  | inl found ↦ rw (find_reviewer, found) (this _ _ (str_eq_refl role.id))
  | inr other ↦
      rw (find_reviewer, other)
        (either _ _ (find_reviewer-IsValid roles (rw (find_reviewer, other) at h)))
]

handoff_of-IsValid :
    (roles : List Role) (prev : Option TurnResponse) (role : Text)
    → handoff_of roles prev ≡ some role
    → is_valid_role roles role ≡ true
unfolding handoff_of
handoff_of-IsValid roles none role h = cc
handoff_of-IsValid roles (some resp) role h =
    elim (Bool-cases (not (is_empty resp.handoff_to) && is_valid_role roles resp.handoff_to)) [
      | inr refused ↦ absurd (none≢some (rw (handoff_of, refused) at h))
      | inl given ↦
          let same : resp.handoff_to ≡ role = some-injective (rw (handoff_of, given) at h) in
          rw (← same) (and_eq_true _ _ given).1
    ]

module _ (preset : Preset) (some_role : 0 < length preset.roles) where
  -- An answer that is an error, or a role of the preset.
  abbrev pub IsRouted : Attempt RouterError Text → Type 0
  IsRouted (raised code) = Unit {0}
  IsRouted (returned role) = is_valid_role preset.roles role ≡ true

  if-IsRouted :
      (b : Bool) (x y : Attempt RouterError Text)
      → IsRouted x
      → IsRouted y
      → IsRouted (if b then x else y)
  if-IsRouted true x y p q = p
  if-IsRouted false x y p q = q

  handoff_or-IsRouted :
      (prev : Option TurnResponse) (slot : Text)
      → is_valid_role preset.roles slot ≡ true
      → IsRouted (handoff_or (handoff_of preset.roles prev) slot)
  handoff_or-IsRouted prev slot valid = elim (Option-cases (handoff_of preset.roles prev)) [
    | inl nobody ↦ rw nobody valid
    | inr (role, given) ↦ rw given (handoff_of-IsValid preset.roles prev role given)
  ]

  route-IsRouted : (prev : Option TurnResponse) (turn : ℤ) → IsRouted (route preset prev turn)
  unfolding route
  route-IsRouted prev turn =
      let slot = round_robin_role-IsValid preset.roles in
      elim (Bool-cases (
        str_eq preset.routing (codes "round_robin")
        || str_eq preset.routing (codes "handoff_then_round_robin"))) [
          | inl plain ↦ rw (route, plain) (handoff_or-IsRouted prev _ (slot turn some_role))
          | inr other ↦ elim (Bool-cases (str_eq preset.routing (codes "strict_round_robin"))) [
            | inl strict ↦ rw (route, other, strict) (slot turn some_role)
            | inr lax ↦ elim (Bool-cases (str_eq preset.routing (codes "last_writer_wins"))) [
              | inl last ↦
                  rw (route, other, lax, last)
                    (handoff_or-IsRouted prev _ (slot (writer_turn prev turn) some_role))
              | inr unknown ↦ rw (route, other, lax, unknown) tt
            ]
          ]
        ]

  -- With a preset that has roles, Next answers an error or one of them, whatever the routing rule and the
  -- response before it.
  pub next_role-IsRouted :
      (ctx_done : Bool) (prev : Option TurnResponse) (turn : ℤ)
      → IsRouted (next_role ctx_done preset prev turn)
  unfolding next_role
  next_role-IsRouted true prev turn = tt
  next_role-IsRouted false prev turn = elim (Bool-cases (is_blocked_turn prev)) [
    | inr free ↦ rw (next_role, free) (route-IsRouted prev turn)
    | inl stopped ↦ elim (Bool-cases (is_empty (find_reviewer preset.roles))) [
      | inl nobody ↦ rw (next_role, stopped, nobody) tt
      | inr reviewer ↦
          rw (next_role, stopped, reviewer) (find_reviewer-IsValid preset.roles reviewer)
    ]
  ]
