-- ===== src/Broadcast.antt =====
-- pkg/broadcast.go: a channel whose messages go to every listener. The channels that `Subscribe`
-- hands out are numbered, and their buffers and closed flags are kept in the state. A method runs
-- under the mutex, so it is one step; a send on a closed channel, or closing one twice, panics,
-- which is `none`.
pub mod Counts
pub mod Invariant
pub mod Delivery
pub mod Subsequence
pub mod Runs
pub mod Ends
use radio_chatter.Common.{
  ℕ, suc, ◌+◌, Bool, true, false, List, [], ◌∷◌, ◌++◌, Option, none, some, ◌==◌, ltb, length,
  if◌then◌else◌,
}

module _ (T : Type 0) where
  -- `chan T`
  pub record Channel : Type 0 where
    pub buffer : List T
    pub closed : Bool

  -- `broadcast[T]`, with the channels made so far: those numbered below `next`.
  pub record Broadcast : Type 0 where
    pub capacity : ℕ
    pub listeners : List ℕ
    pub next : ℕ
    pub channel : ℕ → Channel

module _ {T : Type 0} where
  abbrev pub update : (ℕ → Channel T) → ℕ → Channel T → ℕ → Channel T
  update channels id c other = if other == id then c else channels other

  -- `NewBroadcastChannel`
  abbrev pub new_broadcast : Broadcast T
  new_broadcast = record {
    capacity = 1;
    listeners = [];
    next = 0;
    channel = λ id. record { buffer = []; closed = false };
  }

  -- `Subscribe`: the new channel, whose `cancel` is `unregister` of it.
  unfoldable pub subscribe : Broadcast T → Broadcast T × ℕ
  subscribe b = (
    record b {
      listeners = b.listeners ++ (b.next ∷ []);
      next = suc b.next;
      channel = update b.channel b.next (record { buffer = []; closed = false });
    },
    b.next,
  )

  -- `select { case listener <- msg: default: }`
  unfoldable pub try_send : T → ℕ → Broadcast T → Option (Broadcast T)
  try_send msg id b =
      let c = b.channel id in
      if c.closed
      then none
      else if ltb (length c.buffer) b.capacity
      then some (record b {
        channel = update b.channel id (record c { buffer = c.buffer ++ (msg ∷ []) });
      })
      else some b

  -- The loop over the listeners, for one message.
  unfoldable pub send_all : T → List ℕ → Broadcast T → Option (Broadcast T)
  send_all msg [] b = some b
  send_all msg (id ∷ ids) b = elim (try_send msg id b) [
    | none ↦ none
    | some b' ↦ send_all msg ids b'
  ]

  unfoldable pub broadcast_message : T → Broadcast T → Option (Broadcast T)
  broadcast_message msg b = send_all msg b.listeners b

  -- `close(listener)`
  unfoldable pub close : ℕ → Broadcast T → Option (Broadcast T)
  close id b =
      let c = b.channel id in
      if c.closed
      then none
      else some (record b { channel = update b.channel id (record c { closed = true }) })

  unfoldable pub close_all : List ℕ → Broadcast T → Option (Broadcast T)
  close_all [] b = some b
  close_all (id ∷ ids) b = elim (close id b) [ none ↦ none | some b' ↦ close_all ids b' ]

  -- `clear`
  unfoldable pub clear : Broadcast T → Option (Broadcast T)
  clear b = elim (close_all b.listeners b) [
    | none ↦ none
    | some b' ↦ some (record b' { listeners = [] })
  ]

-- The last of `id ∷ ids`, and all but the last.
abbrev pub last_of : ℕ → List ℕ → ℕ
last_of id [] = id
last_of id (other ∷ ids) = last_of other ids

abbrev pub all_but_last : ℕ → List ℕ → List ℕ
all_but_last id [] = []
all_but_last id (other ∷ ids) = id ∷ all_but_last other ids

-- The first place where `id` stands takes the last listener, and the list loses its last place.
unfoldable pub swap_remove : ℕ → List ℕ → List ℕ
swap_remove id [] = []
swap_remove id (other ∷ ids) =
    if other == id
    then elim ids [ [] ↦ [] | first ∷ rest ↦ last_of first rest ∷ all_but_last first rest ]
    else other ∷ swap_remove id ids

unfoldable pub contains : ℕ → List ℕ → Bool
contains id [] = false
contains id (other ∷ ids) = if other == id then true else contains id ids

module _ {T : Type 0} where
  -- `unregister`: a channel that is no listener any more is left alone.
  unfoldable pub unregister : ℕ → Broadcast T → Option (Broadcast T)
  unregister id b =
      if contains id b.listeners
      then close id (record b { listeners = swap_remove id b.listeners })
      else some b

  -- A listener takes a message from its channel.
  unfoldable pub receive : ℕ → Broadcast T → Broadcast T × Option T
  receive id b = elim (b.channel id).buffer [
    | [] ↦ (b, none)
    | msg ∷ rest ↦ (
      record b {
        channel = update b.channel id (record { buffer = rest; closed = (b.channel id).closed });
      },
      some msg,
    )
  ]
