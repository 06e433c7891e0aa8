-- ===== src/Session/Records.antt =====
-- internal/session/stuck.go: DryRounds and Stuck, over the turn records of internal/session/session.go.
-- fmt's %q of a list of texts is an argument.
use rallish.Prelude.{
  ℕ, ◌+◌, Bool, true, false, not, ◌&&◌, ◌||◌, Option, none, some, List, [], ◌∷◌, ◌++◌, map, Text,
  codes, str_eq, ltb, leb, ◌==◌, length, take, if◌then◌else◌, is_empty,
}
use rallish.Prelude.Int.{ℤ, pos, leb_ℤ}
use rallish.Contract.Turns.{TurnResponse}
use rallish.Contract.Requests.{TurnRequest}

pub record TurnRecord : Type 0 where
  pub turn : ℤ
  pub time : ℤ
  pub req : TurnRequest
  pub resp : TurnResponse

abbrev pub is_seen : Text → List Text → Bool
is_seen a [] = false
is_seen a (s ∷ seen) = str_eq s a || is_seen a seen

-- The new artifacts, and the artifacts seen after them.
unfoldable pub collect_new_artifacts : List Text → List Text → List Text × List Text
unfolding str_eq
collect_new_artifacts seen [] = ([], seen)
collect_new_artifacts seen (a ∷ artifacts) = elim (is_seen a seen) [
  | true ↦ collect_new_artifacts seen artifacts
  | false ↦ let (new, seen') = collect_new_artifacts (a ∷ seen) artifacts in (a ∷ new, seen')
]

abbrev pub has_none : List Text → Bool
has_none [] = true
has_none (t ∷ ts) = false

abbrev pub is_dry : TurnRecord → List Text → Bool
is_dry rec new_artifacts =
    has_none new_artifacts && not rec.resp.done && is_empty rec.resp.handoff_to

-- The loop over the records, with the artifacts seen and the dry turns in a row.
unfoldable pub count_dry : List Text → ℕ → List TurnRecord → ℕ
unfolding collect_new_artifacts
count_dry seen consecutive [] = consecutive
count_dry seen consecutive (rec ∷ records) =
    let (new, seen') = collect_new_artifacts seen rec.resp.artifacts in
    count_dry seen' (if is_dry rec new then consecutive + 1 else 0) records

unfoldable pub dry_rounds : List TurnRecord → ℤ → Bool
unfolding count_dry
dry_rounds records threshold =
    if leb_ℤ threshold (pos 0) then false else leb_ℤ threshold (pos (count_dry [] 0 records))

-- The loop of detectNoProgress, with its own artifacts seen and its own count.
unfoldable pub dry_in_window : List Text → ℕ → List TurnRecord → ℕ
unfolding collect_new_artifacts
dry_in_window seen dry [] = dry
dry_in_window seen dry (rec ∷ records) =
    let (new, seen') = collect_new_artifacts seen rec.resp.artifacts in
    dry_in_window seen' (if is_dry rec new then dry + 1 else 0) records

unfoldable pub detect_no_progress : List TurnRecord → Option Text
unfolding dry_in_window
detect_no_progress records =
    if ltb (length records) 6
    then none
    else if leb 6 (dry_in_window [] 0 records)
    then some (codes "no progress")
    else none

unfoldable pub all_dry : List Text → List TurnRecord → Bool
unfolding collect_new_artifacts
all_dry seen [] = true
all_dry seen (rec ∷ window) =
    let (new, seen') = collect_new_artifacts seen rec.resp.artifacts in
    let rest : Bool = all_dry seen' window in if not (is_dry rec new) then false else rest

abbrev pub alternates : List Text → Bool
alternates (a ∷ b ∷ a' ∷ b' ∷ a'' ∷ b'' ∷ []) =
    str_eq a a' && str_eq a' a'' && str_eq b b' && str_eq b' b'' && not (str_eq a b)
alternates _ = false

abbrev pub ping_pong_reason : List Text → Text
ping_pong_reason (a ∷ b ∷ roles) = codes "ping-pong " ++ (a ++ (codes "/" ++ b))
ping_pong_reason _ = []

-- The scan of the windows of six turns, at each start.
unfoldable pub detect_ping_pong : List TurnRecord → Option Text
unfolding all_dry str_eq
detect_ping_pong [] = none
detect_ping_pong (rec ∷ records) =
    let window : List TurnRecord = take 6 (rec ∷ records) in
    let roles : List Text = map (λ (r : TurnRecord). r.req.role) window in
    let later : Option Text = detect_ping_pong records in
    if alternates roles && all_dry [] window then some (ping_pong_reason roles) else later

-- slices.Sort of texts.
abbrev pub text_leb : Text → Text → Bool
text_leb [] t = true
text_leb (c ∷ s) [] = false
text_leb (c ∷ s) (d ∷ t) = ltb c d || (c == d && text_leb s t)

abbrev pub insert_text : Text → List Text → List Text
insert_text t [] = t ∷ []
insert_text t (s ∷ ss) = if text_leb t s then t ∷ s ∷ ss else s ∷ insert_text t ss

abbrev pub sort_texts : List Text → List Text
sort_texts [] = []
sort_texts (t ∷ ts) = insert_text t (sort_texts ts)

module _ (quote_list : List Text → Text) where
  abbrev pub fingerprint : TurnRecord → Text
  fingerprint rec = rec.resp.summary ++ (codes "|" ++ quote_list (sort_texts rec.resp.artifacts))

  -- How often the loop has met a key.
  abbrev pub count_of : Text → List Text → ℕ
  count_of key [] = 0
  count_of key (k ∷ keys) = if str_eq k key then count_of key keys + 1 else count_of key keys

  unfoldable pub detect_repeated_from : List Text → List TurnRecord → Option Text
  unfolding str_eq
  detect_repeated_from met [] = none
  detect_repeated_from met (rec ∷ records) =
      let met' : List Text = fingerprint rec ∷ met in
      let later : Option Text = detect_repeated_from met' records in
      if leb 4 (count_of (fingerprint rec) met') then some (codes "repeated fingerprint") else later

  unfoldable pub session_stuck : List TurnRecord → Option Text
  unfolding detect_ping_pong detect_no_progress detect_repeated_from
  session_stuck records = elim (detect_ping_pong records) [
    | some reason ↦ some reason
    | none ↦ elim (detect_no_progress records) [
      | some reason ↦ some reason
      | none ↦ detect_repeated_from [] records
    ]
  ]
