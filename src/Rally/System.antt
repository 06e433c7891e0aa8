-- ===== src/Rally/System.antt =====
-- internal/broker/rally.go as a whole: the store, the channels that ended sessions have left to be
-- closed, and the calls that reach them in any order. A handler's sections under the lock, its
-- receives, its cleanup and each close outside the lock are calls of their own, so every interleaving
-- of the goroutines is a list of calls. `none` is a panic.
use rallish.Prelude.{ℕ, zero, suc, Option, none, some, List, [], ◌∷◌, ◌++◌, Text, get_elem?}
use rallish.Prelude.Int.{ℤ}
use rallish.Rally.Types.{DoneRequest, NewRallyRequest}
use rallish.Rally.Channels.{close, receive}
use rallish.Rally.Store.{Store, create_rally_session, handle_rally_baton, cleanup_stream, heartbeat}
use rallish.Rally.Baton.{handle_rally_done, interrupt_rally_session, close_all_rallies}

pub record System : Type 0 where
  pub store : Store
  pub to_close : List ℕ

abbrev pub new_system : System
new_system = record { store = record { sessions = []; heap = [] }; to_close = [] }

pub data Call : Type 0 where
  create : Text → ℤ → NewRallyRequest → Call
  join : Text → Text → ℤ → Call
  done : Text → Text → DoneRequest → ℤ → Call
  interrupt : Text → Call
  close_all : Call
  close_pending receive_from : ℕ → Call
  leave : Text → Text → Call
  beat : Text → Text → ℤ → Call

-- The list without its entry at an index.
unfoldable pub remove_at : ℕ → List ℕ → List ℕ
remove_at k [] = []
remove_at zero (c ∷ cs) = cs
remove_at (suc k) (c ∷ cs) = c ∷ remove_at k cs

abbrev pub with_store : System → Store → System
with_store sys store = record sys { store = store }

-- One channel of the loop that closes them after the lock is released.
unfoldable pub close_one : ℕ → System → Option System
unfolding close remove_at
close_one k sys = elim (get_elem? sys.to_close k) [
  | none ↦ some sys
  | some c ↦ elim (close sys.store.heap c) [
    | none ↦ none
    | some heap ↦
        some
          (record { store = record sys.store { heap = heap }; to_close = remove_at k sys.to_close })
  ]
]

unfoldable pub step : Call → System → Option System
unfolding create_rally_session handle_rally_baton handle_rally_done interrupt_rally_session
    close_all_rallies close_one receive cleanup_stream heartbeat
step (create id now_ms req) sys =
    some (with_store sys (create_rally_session id now_ms req sys.store).0)
step (join raw_id as_raw now_ms) sys = elim (handle_rally_baton raw_id as_raw now_ms sys.store) [
  | none ↦ none
  | some (store, _) ↦ some (with_store sys store)
]
step (done raw_id as_raw req now_ms) sys =
    elim (handle_rally_done raw_id as_raw req now_ms sys.store) [
      | none ↦ none
      | some (store, _) ↦ some (with_store sys store)
    ]
step (interrupt id) sys = elim (interrupt_rally_session id sys.store) [
  | none ↦ none
  | some (store, more, _) ↦ some (record { store = store; to_close = sys.to_close ++ more })
]
step close_all sys = elim (close_all_rallies sys.store) [
  | none ↦ none
  | some (store, more) ↦ some (record { store = store; to_close = sys.to_close ++ more })
]
step (close_pending k) sys = close_one k sys
step (receive_from c) sys =
    some (with_store sys (record sys.store { heap = (receive sys.store.heap c).0 }))
step (leave id participant) sys = some (with_store sys (cleanup_stream id participant sys.store))
step (beat id participant now_ms) sys =
    some (with_store sys (heartbeat id participant now_ms sys.store))

unfoldable pub run : List Call → System → Option System
unfolding step
run [] sys = some sys
run (call ∷ calls) sys = elim (step call sys) [ none ↦ none | some sys' ↦ run calls sys' ]
