-- ===== src/Rally/Channels.antt =====
-- Go channels of BatonEvents on an explicit heap: a channel is a number, and each has room for one
-- event (`make(chan contract.BatonEvent, 1)`). `none` is the panic of a send on a closed channel or
-- of a second close.
use rallish.Prelude.{
  ℕ, zero, suc, Bool, true, false, Option, none, some, List, [], ◌∷◌, if◌then◌else◌, get_elem?,
}
use rallish.Rally.Types.{BatonEvent}

pub record Channel : Type 0 where
  pub buffer : List BatonEvent
  pub closed : Bool

abbrev pub Heap : Type 0
Heap = List Channel

abbrev pub empty_channel : Channel
empty_channel = record { buffer = []; closed = false }

unfoldable pub set_channel : Heap → ℕ → Channel → Heap
set_channel [] i c = []
set_channel (x ∷ heap) zero c = c ∷ heap
set_channel (x ∷ heap) (suc i) c = x ∷ set_channel heap i c

-- `select { case ch <- evt: default: }`: a full channel loses the event.
abbrev pub offer : Channel → BatonEvent → Option Channel
offer c evt =
    if c.closed
    then none
    else elim c.buffer [ [] ↦ some (record c { buffer = evt ∷ [] }) | _ ∷ _ ↦ some c ]

unfoldable pub send : Heap → ℕ → BatonEvent → Option Heap
unfolding set_channel
send heap i evt = elim (get_elem? heap i) [
  | none ↦ none
  | some c ↦ elim (offer c evt) [ none ↦ none | some c' ↦ some (set_channel heap i c') ]
]

-- `ch <- evt`, which waits for room: under the store's lock a full channel would stop every
-- handler, so `none` stands for that too.
unfoldable pub put : Heap → ℕ → BatonEvent → Option Heap
unfolding set_channel
put heap i evt = elim (get_elem? heap i) [
  | none ↦ none
  | some c ↦ if c.closed then none else elim c.buffer [
    | [] ↦ some (set_channel heap i (record c { buffer = evt ∷ [] }))
    | _ ∷ _ ↦ none
  ]
]

unfoldable pub close : Heap → ℕ → Option Heap
unfolding set_channel
close heap i = elim (get_elem? heap i) [
  | none ↦ none
  | some c ↦ if c.closed then none else some (set_channel heap i (record c { closed = true }))
]

-- What a receive finds; a closed channel gives its last event before it reports the end.
pub data Received : Type 0 where
  event : BatonEvent → Received
  ended blocked : Received

unfoldable pub receive : Heap → ℕ → Heap × Received
unfolding set_channel
receive heap i = elim (get_elem? heap i) [
  | none ↦ (heap, blocked)
  | some c ↦ elim c.buffer [
    | evt ∷ rest ↦ (set_channel heap i (record c { buffer = rest }), event evt)
    | [] ↦ (heap, if c.closed then ended else blocked)
  ]
]
