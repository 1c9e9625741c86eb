-- ===== src/Broadcast/Runs.antt =====
-- Whole runs: any interleaving of messages, subscriptions, cancellations, receives and the end of
-- the input.
use radio_chatter.Common.{
  ℕ, ◌≡◌, refl, Bool, true, false, List, [], ◌∷◌, ◌++◌, ◌==◌, ltb, ltb→lt, if◌then◌else◌, arith,
  Option, none, some, Bool-cases, inl, inr, append-nil, append_assoc, subst,
}
use radio_chatter.Broadcast.{
  Broadcast, update, new_broadcast, subscribe, broadcast_message, clear, unregister, receive,
  contains,
}
use radio_chatter.Broadcast.Invariant.{
  buffer, Inv, new_broadcast-Inv, subscribe-Inv, receive-Inv, clear-closes, unregister-closes,
}
use radio_chatter.Broadcast.Delivery.{put, broadcast_message-delivers}
use radio_chatter.Broadcast.Subsequence.{
  IsSubsequence, nil, IsSubsequence-more, IsSubsequence-put, IsSubsequence-prefix,
}

-- What the goroutine of `NewBroadcastChannel` and the users of its channels do. A channel can only
-- be cancelled or received from once it has been handed out, and the input ends once.
pub data Action (T : Type 0) : Type 0 where
  message : T → Action T
  end_of_input : Action T
  subscribes : Action T
  cancels : ℕ → Action T
  receives : ℕ → Action T

-- The state, whether the goroutine still runs, and a record of what was sent and received.
pub record World (T : Type 0) : Type 0 where
  pub state : Broadcast T
  pub running : Bool
  pub sent : List T
  pub got : ℕ → List T

module _ {T : Type 0} where
  abbrev pub new_world : World T
  new_world = record { state = new_broadcast; running = true; sent = []; got = λ id. [] }

  abbrev pub in_state : World T → Option (Broadcast T) → Option (World T)
  in_state w none = none
  in_state w (some b) = some (record w { state = b })

  abbrev pub log_got : ℕ → Broadcast T × Option T → World T → World T
  log_got id (b, none) w = record w { state = b }
  log_got id (b, some msg) w = record w {
    state = b;
    got = λ other. if other == id then w.got id ++ (msg ∷ []) else w.got other;
  }

  -- An action that cannot happen in this state changes nothing; `none` is a panic.
  unfoldable pub act : Action T → World T → Option (World T)
  act (message msg) w =
      if w.running
      then in_state (record w { sent = w.sent ++ (msg ∷ []) }) (broadcast_message msg w.state)
      else some w
  act end_of_input w =
      if w.running then in_state (record w { running = false }) (clear w.state) else some w
  act subscribes w = some (record w { state = (subscribe w.state).0 })
  act (cancels id) w = if ltb id w.state.next then in_state w (unregister id w.state) else some w
  act (receives id) w =
      if ltb id w.state.next then some (log_got id (receive id w.state) w) else some w

  unfoldable pub act_all : List (Action T) → World T → Option (World T)
  act_all [] w = some w
  act_all (a ∷ actions) w = elim (act a w) [ none ↦ none | some w' ↦ act_all actions w' ]

  -- What holds between two actions.
  pub record IsGood (w : World T) : Type 0 where
    pub inv : Inv w.state
    pub in_order : (id : ℕ) → IsSubsequence (w.got id ++ buffer w.state id) w.sent

  -- The log after a message.
  message-IsGood :
      (msg : T) (w : World T) (b' : Broadcast T)
      → IsGood w
      → Inv b'
      → ((id : ℕ)
          → buffer b' id ≡ (
              if contains id w.state.listeners
              then put msg (buffer w.state id)
              else buffer w.state id))
      → IsGood (record w { state = b'; sent = w.sent ++ (msg ∷ []) })
  message-IsGood msg w b' g v buffers = record {
    inv = v;
    in_order = λ id. rw (buffers id) (elim (Bool-cases (contains id w.state.listeners)) [
      | inl c ↦ rw c (IsSubsequence-put (w.got id) (buffer w.state id) w.sent msg (g.in_order id))
      | inr c ↦ rw c (IsSubsequence-more msg (g.in_order id))
    ]);
  }

  -- A change of the state that leaves the buffers alone.
  pub same-IsGood :
      (w : World T) (running : Bool) (b' : Broadcast T)
      → IsGood w
      → Inv b'
      → ((id : ℕ) → buffer b' id ≡ buffer w.state id)
      → IsGood (record w { state = b'; running = running })
  same-IsGood w running b' g v same = record {
    inv = v;
    in_order = λ id. rw (same id) (g.in_order id);
  }

  subscribe-buffer :
      (b : Broadcast T) (id : ℕ)
      → buffer (subscribe b).0 id ≡ (if id == b.next then [] else buffer b id)
  unfolding subscribe
  subscribe-buffer b id = ground arith

  pub subscribes-IsGood :
      (w : World T) → IsGood w → IsGood (record w { state = (subscribe w.state).0 })
  subscribes-IsGood w g = record {
    inv = subscribe-Inv w.state g.inv;
    in_order = λ id. rw (subscribe-buffer w.state id) (elim (Bool-cases (id == w.state.next)) [
      | inl new ↦ rw new (
          rw append-nil
            (IsSubsequence-prefix (w.got id) (buffer w.state id) w.sent (g.in_order id)))
      | inr old ↦ rw old (g.in_order id)
    ]);
  }

  receive_nil : (id : ℕ) (b : Broadcast T) → buffer b id ≡ [] → receive id b ≡ (b, none)
  unfolding receive
  receive_nil id b e = ground arith

  abbrev taken : ℕ → Broadcast T → List T → Broadcast T
  taken id b rest = record b {
    channel = update b.channel id (record { buffer = rest; closed = (b.channel id).closed });
  }

  taken-buffer :
      (id : ℕ) (b : Broadcast T) (rest : List T) (other : ℕ)
      → buffer (taken id b rest) other ≡ (if other == id then rest else buffer b other)
  taken-buffer id b rest other = ground arith

  receive_cons :
      (id : ℕ) (b : Broadcast T) (msg : T) (rest : List T)
      → buffer b id ≡ msg ∷ rest
      → receive id b ≡ (taken id b rest, some msg)
  unfolding receive
  receive_cons id b msg rest e = ground arith

  pub receives-IsGood :
      (id : ℕ) (w : World T) → IsGood w → IsGood (log_got id (receive id w.state) w)
  receives-IsGood id w g = by_buffer (buffer w.state id) refl
    where
      by_buffer :
          (buf : List T) → buffer w.state id ≡ buf → IsGood (log_got id (receive id w.state) w)
      by_buffer [] e = rw (receive_nil id w.state e) g
      by_buffer (msg ∷ rest) e =
          let v : Inv (taken id w.state rest) =
            subst (λ r. Inv r.0) (receive_cons id w.state msg rest e)
              (receive-Inv id w.state g.inv) in
          rw (receive_cons id w.state msg rest e) (record {
            inv = v;
            in_order = λ other.
                rw (taken-buffer id w.state rest other) (elim (Bool-cases (other == id)) [
                  | inl same ↦ rw same (rw append_assoc (rw e at (g.in_order id)))
                  | inr differ ↦ rw differ (g.in_order other)
                ]);
          })

  pub act-IsGood :
      (a : Action T) (w : World T) → IsGood w → (w' : World T) × (act a w ≡ some w') × IsGood w'
  unfolding act
  act-IsGood (message msg) w g = elim (Bool-cases w.running) [
    | inl r ↦
        let (b', e, v, s, buffers) = broadcast_message-delivers msg w.state g.inv in
        (
          record w { state = b'; sent = w.sent ++ (msg ∷ []) },
          simp (r, e) refl,
          message-IsGood msg w b' g v buffers,
        )
    | inr r ↦ (w, simp r refl, g)
  ]
  act-IsGood end_of_input w g = elim (Bool-cases w.running) [
    | inl r ↦
        let (b', e, v, closed, next, same) = clear-closes w.state g.inv in
        (
          record w { state = b'; running = false },
          simp (r, e) refl,
          same-IsGood w false b' g v same,
        )
    | inr r ↦ (w, simp r refl, g)
  ]
  act-IsGood subscribes w g =
      (record w { state = (subscribe w.state).0 }, refl, subscribes-IsGood w g)
  act-IsGood (cancels id) w g = elim (Bool-cases (ltb id w.state.next)) [
    | inl r ↦
        let (b', e, v, closed, others, same, next) =
          unregister-closes id w.state g.inv (ltb→lt _ _ r) in
        (record w { state = b' }, simp (r, e) refl, same-IsGood w w.running b' g v same)
    | inr r ↦ (w, rw r, g)
  ]
  act-IsGood (receives id) w g = elim (Bool-cases (ltb id w.state.next)) [
    | inl r ↦ (log_got id (receive id w.state) w, rw r, receives-IsGood id w g)
    | inr r ↦ (w, rw r, g)
  ]

  act_all-IsGood :
      (actions : List (Action T)) (w : World T)
      → IsGood w
      → (w' : World T) × (act_all actions w ≡ some w') × IsGood w'
  unfolding act_all
  act_all-IsGood [] w g = (w, refl, g)
  act_all-IsGood (a ∷ actions) w g =
      let (mid, e, h) = act-IsGood a w g in
      let (w', e', h') = act_all-IsGood actions mid h in (w', rw (e, act_all) e', h')

  -- In any interleaving of messages, subscriptions, cancellations, receives and the end of the input
  -- nothing panics. At its end every channel handed out is in the list of listeners exactly once or
  -- closed, never both; no buffer holds more than one message; and what a listener has received and
  -- still holds are messages that were sent, in the order in which they were sent, none twice.
  pub run_never_panics :
      (actions : List (Action T)) → (w : World T) × (act_all actions new_world ≡ some w) × IsGood w
  run_never_panics actions =
      act_all-IsGood actions new_world (record { inv = new_broadcast-Inv; in_order = λ id. nil [] })
