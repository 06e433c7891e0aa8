-- ===== src/Rally/Uses.antt =====
-- How often the streams of the sessions of internal/broker/rally.go, and the list of channels to
-- close, name a channel.
use rallish.Prelude.{
  ℕ, zero, suc, ◌+◌, ◌≤◌, ◌≡◌, ◌≢◌, inl, inr, none, some, List, [], ◌∷◌, ◌++◌, arith, Text,
  if◌then◌else◌, ◌==◌, Bool-cases, some-injective, str_eq, lookup, insert, delete, get_elem?,
}
use rallish.Rally.Session.{Session}
use rallish.Rally.System.{System, remove_at}

abbrev pub once : ℕ → ℕ → ℕ
once c d = if c == d then 1 else 0

abbrev pub count : ℕ → List ℕ → ℕ
count c [] = 0
count c (d ∷ ds) = once c d + count c ds

abbrev pub count_streams : ℕ → List (Text × ℕ) → ℕ
count_streams c [] = 0
count_streams c ((_, d) ∷ streams) = once c d + count_streams c streams

abbrev pub count_sessions : ℕ → List (Text × Session) → ℕ
count_sessions c [] = 0
count_sessions c ((_, s) ∷ sessions) = count_streams c s.streams + count_sessions c sessions

abbrev pub uses : ℕ → System → ℕ
uses c sys = count_sessions c sys.store.sessions + count c sys.to_close

pub once_self : (c : ℕ) → once c c ≡ 1
once_self c = ground arith

pub once_other : (c d : ℕ) → d ≢ c → once c d ≡ 0
once_other c d ne = ground arith

pub count-append : (c : ℕ) (xs ys : List ℕ) → count c (xs ++ ys) ≡ count c xs + count c ys
count-append c [] ys = omega arith
count-append c (x ∷ xs) ys = omega (arith, count-append c xs ys)

pub count-remove_at :
    (c k d : ℕ) (xs : List ℕ)
    → get_elem? xs k ≡ some d
    → count c (remove_at k xs) + once c d ≡ count c xs
unfolding remove_at
count-remove_at c k d [] e = cc
count-remove_at c zero d (x ∷ xs) e = let same : x ≡ d = some-injective e in rw same (omega arith)
count-remove_at c (suc k) d (x ∷ xs) e = omega (arith, count-remove_at c k d xs e)

pub count_streams-insert :
    (c : ℕ) (name : Text) (d : ℕ) (streams : List (Text × ℕ))
    → lookup name streams ≡ none
    → count_streams c (insert name d streams) ≡ count_streams c streams + once c d
unfolding lookup insert
count_streams-insert c name d [] e = omega arith
count_streams-insert c name d ((n, x) ∷ streams) e = elim (Bool-cases (str_eq n name)) [
  | inl here ↦ absurd (cc (rw here at e))
  | inr there ↦ rw there (omega (arith, count_streams-insert c name d streams (rw there at e)))
]

pub count_streams-delete :
    (c : ℕ) (name : Text) (streams : List (Text × ℕ))
    → count_streams c (delete name streams) ≤ count_streams c streams
unfolding delete
count_streams-delete c name [] = omega arith
count_streams-delete c name ((n, x) ∷ streams) = elim (Bool-cases (str_eq n name)) [
  | inl here ↦ rw here (omega (arith, count_streams-delete c name streams))
  | inr there ↦ rw there (omega (arith, count_streams-delete c name streams))
]

-- Replacing a session trades its streams for the new one's.
pub count_sessions-insert :
    (c : ℕ) (id : Text) (s s' : Session) (sessions : List (Text × Session))
    → lookup id sessions ≡ some s
    → count_sessions c (insert id s' sessions) + count_streams c s.streams
      ≡ count_sessions c sessions + count_streams c s'.streams
unfolding lookup insert
count_sessions-insert c id s s' [] e = cc
count_sessions-insert c id s s' ((i, x) ∷ sessions) e = elim (Bool-cases (str_eq i id)) [
  | inl here ↦ let same : x ≡ s = some-injective (rw here at e) in rw (here, same) (omega arith)
  | inr there ↦ rw there (omega (arith, count_sessions-insert c id s s' sessions (rw there at e)))
]

pub count_sessions-insert_le :
    (c : ℕ) (id : Text) (s' : Session) (sessions : List (Text × Session))
    → count_sessions c (insert id s' sessions)
      ≤ count_sessions c sessions + count_streams c s'.streams
unfolding insert
count_sessions-insert_le c id s' [] = omega arith
count_sessions-insert_le c id s' ((i, x) ∷ sessions) = elim (Bool-cases (str_eq i id)) [
  | inl here ↦ rw here (omega arith)
  | inr there ↦ rw there (omega (arith, count_sessions-insert_le c id s' sessions))
]

-- A session that the store holds names no channel more often than the store does.
pub count_streams-le :
    (c : ℕ) (id : Text) (s : Session) (sessions : List (Text × Session))
    → lookup id sessions ≡ some s
    → count_streams c s.streams ≤ count_sessions c sessions
unfolding lookup
count_streams-le c id s [] e = cc
count_streams-le c id s ((i, x) ∷ sessions) e = elim (Bool-cases (str_eq i id)) [
  | inl here ↦ let same : x ≡ s = some-injective (rw here at e) in rw same (omega arith)
  | inr there ↦ omega (arith, count_streams-le c id s sessions (rw there at e))
]

pub lookup-count :
    (name : Text) (d : ℕ) (streams : List (Text × ℕ))
    → lookup name streams ≡ some d
    → 1 ≤ count_streams d streams
unfolding lookup
lookup-count name d [] e = cc
lookup-count name d ((n, x) ∷ streams) e = elim (Bool-cases (str_eq n name)) [
  | inl here ↦
      let same : x ≡ d = some-injective (rw here at e) in rw same (omega (arith, once_self d))
  | inr there ↦ omega (arith, lookup-count name d streams (rw there at e))
]
