-- ===== src/Tests/Broadcast.antt =====
-- Listeners that come, read, and go.
use radio_chatter.Common.{ℕ, ◌<◌, ◌≡◌, refl, false, List, [], ◌∷◌, ◌++◌, some, arith, if◌then◌else◌}
use radio_chatter.Broadcast.{Broadcast, new_broadcast, subscribe, broadcast_message, contains}
use radio_chatter.Broadcast.Invariant.{
  new_broadcast-Inv, subscribe-Inv, Inv, SameShape, closed_bit, buffer,
}
use radio_chatter.Broadcast.Delivery.{put, broadcast_message-delivers}
use radio_chatter.Broadcast.Runs.{
  Action, message, end_of_input, subscribes, cancels, receives, World, new_world, act_all, IsGood,
  run_never_panics,
}
use radio_chatter.Broadcast.Subsequence.{nil}
use radio_chatter.Broadcast.Ends.{late_subscriber}

-- Two listeners: one reads the first message, the other leaves before the second.
abbrev busy : List (Action ℕ)
busy = subscribes ∷ subscribes ∷ message 7 ∷ receives 0 ∷ cancels 1 ∷ message 8 ∷ message 9 ∷ []

run_never_panics_example :
    (w : World ℕ) × (act_all (busy ++ (end_of_input ∷ subscribes ∷ [])) new_world ≡ some w)
    × IsGood w
run_never_panics_example = run_never_panics (busy ++ (end_of_input ∷ subscribes ∷ []))

-- Two listeners, and no message yet.
abbrev two_listeners : Broadcast ℕ
two_listeners = (subscribe (subscribe new_broadcast).0).0

two_listeners-Inv : Inv two_listeners
two_listeners-Inv =
    subscribe-Inv (subscribe new_broadcast).0 (subscribe-Inv new_broadcast new_broadcast-Inv)

broadcast_message-delivers_example :
    (b' : Broadcast ℕ) × (broadcast_message 7 two_listeners ≡ some b')
    × Inv b'
    × SameShape two_listeners b'
    × ((id : ℕ)
        → buffer b' id ≡ (
            if contains id two_listeners.listeners
            then put 7 (buffer two_listeners id)
            else buffer two_listeners id))
broadcast_message-delivers_example = broadcast_message-delivers 7 two_listeners two_listeners-Inv

two_listeners-next : 1 < two_listeners.next
unfolding subscribe
two_listeners-next = omega arith

-- The world in which those two listeners wait.
abbrev waiting_world : World ℕ
waiting_world = record new_world { state = two_listeners }

two_listeners-empty : (id : ℕ) → buffer two_listeners id ≡ []
unfolding subscribe
two_listeners-empty id = ground arith

waiting_world-IsGood : IsGood waiting_world
waiting_world-IsGood = record {
  inv = two_listeners-Inv;
  in_order = λ id. rw (two_listeners-empty id) (nil []);
}

-- After the end of the input.
abbrev ended_world : World ℕ
ended_world = record new_world { running = false }

ended_world-IsGood : IsGood ended_world
ended_world-IsGood = record { inv = new_broadcast-Inv; in_order = λ id. nil [] }

late_subscriber_example :
    (w' : World ℕ) × (act_all (subscribes ∷ message 7 ∷ receives 0 ∷ []) ended_world ≡ some w')
    × (closed_bit w'.state 0 ≡ 0)
late_subscriber_example =
    late_subscriber (message 7 ∷ receives 0 ∷ []) ended_world ended_world-IsGood refl (tt, (tt, tt))
