-- ===== src/Rally/Open.antt =====
-- The open channels of internal/broker/rally.go under sends, receives and closes.
use rallish.Prelude.{
  Bool, ap₂, ℕ, zero, suc, ◌<◌, ◌≡◌, ◌≢◌, refl, sym, ap, inl, inr, true, false, some, List, [], ◌∷◌,
  ◌++◌, ◌∙◌, arith, eq-cases, Option-cases, some-injective, length, get_elem?,
}
use rallish.Rally.Types.{BatonEvent}
use rallish.Rally.Channels.{Channel, Heap, empty_channel, set_channel, send, put, close, receive}

abbrev pub IsOpen : Heap → ℕ → Type 0
IsOpen heap c = (ch : Channel) × (get_elem? heap c ≡ some ch) × (ch.closed ≡ false)

abbrev pub KeepsOpen : Heap → Heap → Type 0
KeepsOpen heap heap' = (c : ℕ) → IsOpen heap c → IsOpen heap' c

pub set_channel-same :
    (heap : Heap) (i : ℕ) (x : Channel) {y : Channel}
    → get_elem? heap i ≡ some y
    → get_elem? (set_channel heap i x) i ≡ some x
unfolding set_channel
set_channel-same [] i x e = cc
set_channel-same (z ∷ heap) zero x e = refl
set_channel-same (z ∷ heap) (suc i) x e = set_channel-same heap i x e

set_channel-other :
    (heap : Heap) (i j : ℕ) (x : Channel)
    → i ≢ j
    → get_elem? (set_channel heap i x) j ≡ get_elem? heap j
unfolding set_channel
set_channel-other [] i j x ne = refl
set_channel-other (z ∷ heap) zero zero x ne = absurd (ne refl)
set_channel-other (z ∷ heap) zero (suc j) x ne = refl
set_channel-other (z ∷ heap) (suc i) zero x ne = refl
set_channel-other (z ∷ heap) (suc i) (suc j) x ne =
    set_channel-other heap i j x (λ e. ne (ap suc e))

-- A write that keeps a channel's flag.
set_channel-KeepsOpen :
    (heap : Heap) (i : ℕ) (x y : Channel)
    → get_elem? heap i ≡ some y
    → x.closed ≡ y.closed
    → KeepsOpen heap (set_channel heap i x)
set_channel-KeepsOpen heap i x y found same c (ch, e, opened) = elim (eq-cases i c) [
  | inl here ↦
      let both : y ≡ ch = some-injective (sym found ∙ (rw here e)) in
      (x, rw (← here) (set_channel-same heap i x found), same ∙ (rw both opened))
  | inr other ↦ (ch, set_channel-other heap i c x other ∙ e, opened)
]

-- A send to an open channel succeeds.
pub send_open :
    (heap : Heap) (i : ℕ) (evt : BatonEvent)
    → IsOpen heap i
    → (heap' : Heap) × (send heap i evt ≡ some heap') × KeepsOpen heap heap'
unfolding send
send_open heap i evt (ch, e, opened) = offered ch.buffer refl
  where
    offered :
        (events : List BatonEvent)
        → ch.buffer ≡ events
        → (heap' : Heap) × (send heap i evt ≡ some heap') × KeepsOpen heap heap'
    offered [] empty =
        let x : Channel = record { buffer = evt ∷ []; closed = false } in
        (
          set_channel heap i x,
          rw (e, send, opened, empty)
              (ap
                (λ (b : Bool). some (set_channel heap i (record { buffer = evt ∷ []; closed = b })))
                opened),
          set_channel-KeepsOpen heap i x ch e (sym opened),
        )
    offered (b ∷ bs) full = (
      set_channel heap i ch,
      rw (e, send, opened, full)
          (ap₂
            (λ (events : List BatonEvent) (b : Bool).
              some (set_channel heap i (record { buffer = events; closed = b })))
            full opened),
      set_channel-KeepsOpen heap i ch ch e refl,
    )

pub receive-KeepsOpen : (heap : Heap) (i : ℕ) → KeepsOpen heap (receive heap i).0
unfolding receive
receive-KeepsOpen heap i = elim (Option-cases (get_elem? heap i)) [
  | inl missing ↦ rw (missing, receive) (λ c opened. opened)
  | inr (ch, e) ↦ taken ch e ch.buffer refl
]
  where
    taken :
        (ch : Channel)
        → get_elem? heap i ≡ some ch
        → (events : List BatonEvent) → ch.buffer ≡ events
        → KeepsOpen heap (receive heap i).0
    taken ch e [] empty = rw (e, receive, empty) (λ c opened. opened)
    taken ch e (b ∷ bs) full =
        rw (e, receive, full) (set_channel-KeepsOpen heap i (record ch { buffer = bs }) ch e refl)

-- A close of an open channel succeeds, and leaves the others as they were.
pub close-IsOpen :
    (heap : Heap) (i : ℕ)
    → IsOpen heap i
    → (heap' : Heap) × (close heap i ≡ some heap')
      × ((c : ℕ) → i ≢ c → IsOpen heap c → IsOpen heap' c)
unfolding close
close-IsOpen heap i (ch, e, opened) =
    let x = record ch { closed = true } in
    (
      set_channel heap i x,
      rw (e, close, opened),
      λ c other (ch', e', opened'). (ch', set_channel-other heap i c x other ∙ e', opened'),
    )

-- A new channel stands empty at the end of the heap, and has room for an event.
pub append_empty :
    (heap : Heap) → get_elem? (heap ++ empty_channel ∷ []) (length heap) ≡ some empty_channel
append_empty [] = refl
append_empty (x ∷ heap) = append_empty heap

pub append-IsOpen : (heap : Heap) → IsOpen (heap ++ empty_channel ∷ []) (length heap)
append-IsOpen heap = (empty_channel, append_empty heap, refl)

pub put_empty :
    (heap : Heap) (i : ℕ) (evt : BatonEvent)
    → get_elem? heap i ≡ some empty_channel
    → (heap' : Heap) × (put heap i evt ≡ some heap') × KeepsOpen heap heap'
unfolding put
put_empty heap i evt e =
    let x : Channel = record { buffer = evt ∷ []; closed = false } in
    (set_channel heap i x, rw (e, put), set_channel-KeepsOpen heap i x empty_channel e refl)

pub append-KeepsOpen : (heap : Heap) → KeepsOpen heap (heap ++ empty_channel ∷ [])
append-KeepsOpen [] c (ch, e, opened) = cc
append-KeepsOpen (x ∷ heap) zero o = o
append-KeepsOpen (x ∷ heap) (suc c) o = append-KeepsOpen heap c o

-- No channel past the end of the heap is open.
pub IsOpen-lt : (heap : Heap) (c : ℕ) → IsOpen heap c → c < length heap
IsOpen-lt [] c (ch, e, opened) = cc
IsOpen-lt (x ∷ heap) zero o = omega arith
IsOpen-lt (x ∷ heap) (suc c) o = omega (arith, IsOpen-lt heap c o)
