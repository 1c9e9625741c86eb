-- ===== src/Broadcast/Ends.antt =====
-- The end of the input: which channels it closes, and which stay open for ever.
use radio_chatter.Common.{
  ℕ, suc, ◌<◌, ◌≡◌, ◌≢◌, refl, sym, ◌∙◌, true, false, List, [], ◌∷◌, ltb, ltb→lt, arith, Option,
  none, some, Bool-cases, inl, inr,
}
use radio_chatter.Broadcast.{Broadcast, subscribe, receive}
use radio_chatter.Broadcast.Invariant.{
  closed_bit, SameShape, receive-SameShape, clear-closes, unregister-closes,
}
use radio_chatter.Broadcast.Runs.{
  Action, message, end_of_input, subscribes, cancels, receives, World, act, act_all, log_got,
  IsGood, same-IsGood, subscribes-IsGood, receives-IsGood,
}

module _ {T : Type 0} where
  -- In any state that a run can be in, while the goroutine still runs, the end of the input
  -- does not panic, ends the goroutine, and closes every channel that was handed out before it.
  pub end_closes_all :
      (w : World T)
      → IsGood w
      → w.running ≡ true
      → (w' : World T) × (act end_of_input w ≡ some w')
        × (w'.running ≡ false)
        × ((id : ℕ) → id < w.state.next → closed_bit w'.state id ≡ 1)
  unfolding act
  end_closes_all w g r =
      let (b', e, v, closed, next, same) = clear-closes w.state g.inv in
      (record w { state = b'; running = false }, simp (r, e) refl, refl, closed)

  -- An action other than the cancellation of this channel.
  abbrev pub Spares : ℕ → Action T → Type 0
  Spares id (cancels other) = other ≢ id
  Spares id a = Unit

  abbrev pub AllSpare : ℕ → List (Action T) → Type 0
  AllSpare id [] = Unit
  AllSpare id (a ∷ actions) = Spares id a × AllSpare id actions

  -- An open channel after the end of the input.
  pub record IsStranded (id : ℕ) (w : World T) : Type 0 where
    pub good : IsGood w
    pub ended : w.running ≡ false
    pub made : id < w.state.next
    pub live : closed_bit w.state id ≡ 0

  subscribe-closed_bit :
      (b : Broadcast T) (id : ℕ) → id < b.next → closed_bit (subscribe b).0 id ≡ closed_bit b id
  unfolding subscribe
  subscribe-closed_bit b id h = ground arith

  subscribe-next : (b : Broadcast T) → (subscribe b).0.next ≡ suc b.next
  unfolding subscribe
  subscribe-next b = refl

  log_got-IsStranded :
      (id other : ℕ) (w : World T) (r : Broadcast T × Option T)
      → SameShape w.state r.0
      → IsStranded id w
      → IsGood (log_got other r w)
      → IsStranded id (log_got other r w)
  log_got-IsStranded id other w (b, none) s st g = record {
    good = g;
    ended = st.ended;
    made = rw s.next_same st.made;
    live = s.closed_same id ∙ st.live;
  }
  log_got-IsStranded id other w (b, some msg) s st g = record {
    good = g;
    ended = st.ended;
    made = rw s.next_same st.made;
    live = s.closed_same id ∙ st.live;
  }

  act-IsStranded :
      (id : ℕ) (a : Action T) (w : World T)
      → Spares id a
      → IsStranded id w
      → (w' : World T) × (act a w ≡ some w') × IsStranded id w'
  unfolding act
  act-IsStranded id (message msg) w sp st = (w, simp st.ended refl, st)
  act-IsStranded id end_of_input w sp st = (w, simp st.ended refl, st)
  act-IsStranded id subscribes w sp st = (
    record w { state = (subscribe w.state).0 },
    refl,
    record {
      good = subscribes-IsGood w st.good;
      ended = st.ended;
      made = rw subscribe-next (omega (arith, st.made));
      live = subscribe-closed_bit w.state id st.made ∙ st.live;
    },
  )
  act-IsStranded id (cancels other) w sp st = elim (Bool-cases (ltb other w.state.next)) [
    | inl r ↦
        let (b', e, v, closed, others, same, next) =
          unregister-closes other w.state st.good.inv (ltb→lt _ _ r) in
        (
          record w { state = b' },
          simp (r, e) refl,
          record {
            good = same-IsGood w w.running b' st.good v same;
            ended = st.ended;
            made = rw next st.made;
            live = others id (λ h. sp (sym h)) ∙ st.live;
          },
        )
    | inr r ↦ (w, rw r, st)
  ]
  act-IsStranded id (receives other) w sp st = elim (Bool-cases (ltb other w.state.next)) [
    | inl r ↦ (
      log_got other (receive other w.state) w,
      rw r,
      log_got-IsStranded id other w (receive other w.state) (receive-SameShape other w.state) st
          (receives-IsGood other w st.good),
    )
    | inr r ↦ (w, rw r, st)
  ]

  -- Once the input has ended, a channel that is handed out is never closed by anything but its own
  -- cancellation: whatever happens afterwards, the channel is still open, so a reader of it waits
  -- for ever.
  pub stranded :
      (id : ℕ) (actions : List (Action T)) (w : World T)
      → AllSpare id actions
      → IsStranded id w
      → (w' : World T) × (act_all actions w ≡ some w') × IsStranded id w'
  unfolding act_all
  stranded id [] w sp st = (w, refl, st)
  stranded id (a ∷ actions) w sp st =
      let (mid, e, h) = act-IsStranded id a w sp.0 st in
      let (w', e', h') = stranded id actions mid sp.1 h in (w', rw (e, act_all) e', h')

  -- A listener that subscribes after the end of the input gets a channel that is never closed:
  -- whatever is done afterwards, except cancelling this very channel, it is still open, so a
  -- reader of it waits for ever.
  pub late_subscriber :
      (actions : List (Action T)) (w : World T)
      → IsGood w
      → w.running ≡ false
      → AllSpare w.state.next actions
      → (w' : World T) × (act_all (subscribes ∷ actions) w ≡ some w')
        × (closed_bit w'.state w.state.next ≡ 0)
  unfolding act_all act
  late_subscriber actions w g r sp =
      let next = record w { state = (subscribe w.state).0 } in
      let (w', e, st) =
        stranded w.state.next actions (record w { state = (subscribe w.state).0 }) sp
          (record {
            good = subscribes-IsGood w g;
            ended = r;
            made = rw subscribe-next (omega arith);
            live = unfold subscribe in ground arith;
          }) in
      (w', e, st.live)
