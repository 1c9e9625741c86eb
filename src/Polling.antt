-- ===== src/Polling.antt =====
-- pkg/graphql/helpers.go: `poll` and the loop of `poller.begin`, over a table whose query is a
-- parameter. `created_at` is in nanoseconds.
pub mod Rounds
use radio_chatter.Common.{
  ℕ, ◌<◌, ◌≡◌, List, [], ◌∷◌, Option, none, some, take, length, leb, Result, ok, err, map,
  if◌then◌else◌,
}

-- The query of `poll`, its filter included: the rows created at the given time or later.
pub record Source (Row : Type 0) : Type 1 where
  pub State : Type 0
  pub Error : Type 0
  pub created_at : Row → ℕ
  pub find : ℕ → State → Result Error (List Row)

-- How a round ends: `logger.Fatal` ends the whole process; the context is cancelled after some sends;
-- or all items are sent, and the time of the last check is moved.
pub data Round (Row : Type 0) : Type 0 where
  exits : Round Row
  cancelled : List Row → Round Row
  polled : List Row → ℕ → Round Row

module _ {Row : Type 0} (F : Source Row) where
  -- `lastCheck = p.getCreatedAt(item)`, for each item that is sent.
  abbrev pub last_check : ℕ → List Row → ℕ
  last_check last [] = last
  last_check last (item ∷ items) = last_check (F.created_at item) items

  -- The sends, of which `room` go through before the context is done; `none` is no cancellation.
  abbrev pub send_items : Option ℕ → ℕ → List Row → Round Row
  send_items none last items = polled items (last_check last items)
  send_items (some room) last items =
      if leb (length items) room
      then polled items (last_check last items)
      else cancelled (take room items)

  unfoldable pub poll_round : Option ℕ → ℕ → F.State → Round Row
  poll_round room last db = elim (F.find last db) [
    | err e ↦ exits
    | ok items ↦ send_items room last items
  ]
