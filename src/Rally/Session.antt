-- ===== src/Rally/Session.antt =====
-- internal/broker/rally.go: rallySession, nextParticipant, generateRallyID and toPublic.
use rallish.Prelude.{
  ℕ, ◌+◌, ◌%◌, Bool, false, ◌||◌, Option, none, some, List, [], ◌∷◌, ◌++◌, Text, codes,
  if◌then◌else◌, length, get_elem?, str_eq, decimal,
}
use rallish.Prelude.Int.{ℤ}
use rallish.Hex.{encode}
use rallish.Rally.Types.{BatonHandoff, Pattern, RallySession}

-- `streams` maps a participant to the number of a channel in the heap (Rally/Channels).
pub record Session : Type 0 where
  pub id : Text
  pub participants : List Text
  pub repo : Text
  pub task : Text
  pub pattern : Pattern
  pub holder : Text
  pub turn_n : ℕ
  pub status : Text
  pub last_seen : List (Text × ℤ)
  pub history : List BatonHandoff
  pub created_at : ℤ
  pub streams : List (Text × ℕ)
  pub stale_threshold : ℤ

unfoldable pub is_member : List Text → Text → Bool
is_member [] as' = false
is_member (p ∷ ps) as' = str_eq p as' || is_member ps as'

unfoldable pub index_of : List Text → Text → Option ℕ
index_of [] current = none
index_of (p ∷ ps) current =
    if str_eq p current
    then some 0
    else elim (index_of ps current) [ none ↦ none | some i ↦ some (i + 1) ]

-- An index into the participants. Each one used is in range (Rally/Validity); the program would
-- panic at another.
abbrev pub participant_at : List Text → ℕ → Text
participant_at ps i = elim (get_elem? ps i) [ some p ↦ p | none ↦ [] ]

unfoldable pub round_robin : List Text → Text → Text
unfolding index_of
round_robin ps current = elim (index_of ps current) [
  | some i ↦ participant_at ps ((i + 1) % length ps)
  | none ↦ participant_at ps 0
]

unfoldable pub next_participant : List Text → Text → Text → Text
unfolding is_member round_robin str_eq
next_participant ps current [] = round_robin ps current
next_participant ps current (c ∷ preferred) =
    if is_member ps (c ∷ preferred) then c ∷ preferred else round_robin ps current

-- The two random bytes and the clock are arguments.
unfoldable pub generate_rally_id : ℕ → List ℕ → Text
unfolding decimal encode
generate_rally_id now_ms bytes = codes "rly_" ++ (decimal now_ms ++ (codes "_" ++ encode bytes))

unfoldable pub to_public : Session → RallySession
to_public s = record {
  id = s.id;
  participants = s.participants;
  repo = s.repo;
  task = s.task;
  holder = s.holder;
  turn_n = s.turn_n;
  status = s.status;
  last_seen = s.last_seen;
  history = s.history;
  created_at = s.created_at;
}
