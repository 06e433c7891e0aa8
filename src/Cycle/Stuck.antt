-- ===== src/Cycle/Stuck.antt =====
-- internal/cycle/stuck.go: Stuck, its four predicates and the fingerprints that they compare. A Go map
-- of counts is read only through "some key was counted n times", so it is the list of its keys.
use rallish.Prelude.{
  ℕ, ◌+◌, ◌-◌, Bool, true, false, not, ◌&&◌, ◌||◌, Option, none, some, List, [], ◌∷◌, ◌++◌, map,
  Text, str_eq, if◌then◌else◌, ltb, leb, length, take, drop,
}
use rallish.Prelude.Int.{ℤ, leb_ℤ}
use rallish.Contract.Ledger.{LedgerEventType, gate_failed, HarnessLedgerEntry}
use rallish.Cycle.Halt.{HaltReason, stuck}
use rallish.Cycle.Reviver.{is_green}
use rallish.Cycle.Budget.{is_turn}

abbrev pub stuck_repeat_turn_threshold : ℕ
stuck_repeat_turn_threshold = 4

abbrev pub stuck_repeat_gate_fail_threshold : ℕ
stuck_repeat_gate_fail_threshold = 3

abbrev pub stuck_ping_pong_threshold : ℕ
stuck_ping_pong_threshold = 6

abbrev pub stuck_no_progress_window : ℕ
stuck_no_progress_window = 5

-- strings.Join(files, "\x00").
abbrev pub joined_files : List Text → Text
joined_files [] = []
joined_files (f ∷ []) = f
joined_files (f ∷ g ∷ files) = f ++ 0 ∷ joined_files (g ∷ files)

unfoldable pub turn_fingerprint : HarnessLedgerEntry → Text
turn_fingerprint e = e.summary ++ 0 ∷ joined_files e.files

abbrev pub is_gate_failure : LedgerEventType → Bool
is_gate_failure gate_failed = true
is_gate_failure _ = false

unfoldable pub filter_entries :
    (LedgerEventType → Bool) → List HarnessLedgerEntry → List HarnessLedgerEntry
filter_entries f [] = []
filter_entries f (e ∷ es) = if f e.type then e ∷ filter_entries f es else filter_entries f es

-- Whether a key occurs n times in a list of keys.
unfoldable pub count_key {ℓ} : {A : Type ℓ} → (A → A → Bool) → A → List A → ℕ
count_key eq k [] = 0
count_key eq k (j ∷ keys) = if eq j k then count_key eq k keys + 1 else count_key eq k keys

unfoldable pub any_repeated {ℓ} : {A : Type ℓ} → (A → A → Bool) → ℕ → List A → List A → Bool
unfolding count_key
any_repeated eq n all [] = false
any_repeated eq n all (k ∷ keys) = leb n (count_key eq k all) || any_repeated eq n all keys

abbrev pub same_gate_failure : HarnessLedgerEntry → HarnessLedgerEntry → Bool
same_gate_failure d e = str_eq d.gate e.gate && str_eq d.summary e.summary

-- The length of the alternating run that ends in the current fingerprint, from the two before it.
abbrev pub next_run : Option Text → Text → Text → ℕ → ℕ
next_run none prev cur run = if str_eq cur prev then 1 else 2
next_run (some before_prev) prev cur run =
    if str_eq cur prev then 1 else if str_eq cur before_prev then run + 1 else 2

unfoldable pub ping_pong_from : Option Text → Text → ℕ → List Text → Bool
unfolding str_eq
ping_pong_from before_prev prev run [] = false
ping_pong_from before_prev prev run (cur ∷ fps) =
    let rest : Bool = ping_pong_from (some prev) cur (next_run before_prev prev cur run) fps in
    if leb stuck_ping_pong_threshold (next_run before_prev prev cur run) then true else rest

abbrev pub ping_pong_start : List Text → Bool
ping_pong_start [] = false
ping_pong_start (fp ∷ fps) = ping_pong_from none fp 1 fps

unfoldable pub ping_pong_stuck : List Text → Bool
unfolding ping_pong_from
ping_pong_stuck fps =
    if ltb (length fps) stuck_ping_pong_threshold then false else ping_pong_start fps

unfoldable pub has_fingerprint : Text → List Text → Bool
unfolding str_eq
has_fingerprint fp [] = false
has_fingerprint fp (f ∷ fps) = str_eq f fp || has_fingerprint fp fps

unfoldable pub all_seen : List Text → List Text → Bool
unfolding has_fingerprint
all_seen prior [] = true
all_seen prior (fp ∷ fps) = has_fingerprint fp prior && all_seen prior fps

unfoldable pub any_green_since : ℤ → List HarnessLedgerEntry → Bool
any_green_since at [] = false
any_green_since at (e ∷ es) = (is_green e.type && leb_ℤ at e.at) || any_green_since at es

-- The green since the first turn of the window; the window is not empty.
abbrev pub green_since_first : List HarnessLedgerEntry → List HarnessLedgerEntry → Bool
green_since_first [] all = false
green_since_first (e ∷ window) all = any_green_since e.at all

unfoldable pub no_progress_stuck : List HarnessLedgerEntry → List HarnessLedgerEntry → Bool
unfolding all_seen any_green_since turn_fingerprint
no_progress_stuck all turns =
    let window_start : ℕ = length turns - stuck_no_progress_window in
    if ltb (length turns) stuck_no_progress_window
    then false
    else if not (
        all_seen (take window_start (map turn_fingerprint turns))
          (drop window_start (map turn_fingerprint turns)))
    then false
    else not (green_since_first (drop window_start turns) all)

-- `some HaltStuck` for (HaltStuck, true), `none` for ("", false).
unfoldable pub stuck_reason : List HarnessLedgerEntry → Option HaltReason
unfolding filter_entries turn_fingerprint any_repeated ping_pong_stuck no_progress_stuck str_eq
stuck_reason entries =
    let turns : List HarnessLedgerEntry = filter_entries is_turn entries in
    let failures : List HarnessLedgerEntry = filter_entries is_gate_failure entries in
    let fps : List Text = map turn_fingerprint turns in
    if any_repeated str_eq stuck_repeat_turn_threshold fps fps
      || any_repeated same_gate_failure stuck_repeat_gate_fail_threshold failures failures
      || ping_pong_stuck fps
      || no_progress_stuck entries turns
    then some stuck
    else none
