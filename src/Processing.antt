-- ===== src/Processing.antt =====
-- pkg/process.go: the loop of `archive`, which executes the operations that come through the channel.
pub mod Ops
pub mod Jobs
pub mod Reported
pub mod Pipeline
use radio_chatter.Common.{ℕ, suc, List, [], ◌∷◌, Bytes, Result, ok, err}
use radio_chatter.Duration.{Duration}
use radio_chatter.Archiver.{ArchiveOperation}
use radio_chatter.Blob.{Storage}
use radio_chatter.Models.{Stream, Database}
use radio_chatter.Split.{World}
use radio_chatter.Execute.{Outside, ExecuteError, execute}

-- What the `select` of a round takes: an operation, the end of the channel, or the context.
pub data Event : Type 0 where
  operation : ArchiveOperation → Event
  channel_closed : Event
  context_done : Event

-- All operations of a channel that is closed behind them.
abbrev pub then_closed : List ArchiveOperation → List Event
then_closed [] = channel_closed ∷ []
then_closed (op ∷ ops) = operation op ∷ then_closed ops

-- How the loop stands when the events are used up: it waits, or it has returned.
pub data Returned (E : Type 0) : Type 0 where
  waits : Returned E
  returned : Result E (Unit {0}) → Returned E

module _ (S : Storage) (D : Database) {E : Type 0} (seconds : Duration → Bytes)
    (stream : Stream) where
  -- `archive`; `out i` is what round `i` meets.
  unfoldable pub archive :
      (ℕ → Outside E)
      → ℕ
      → List Event
      → World S D
      → World S D × Returned (ExecuteError E S.Error D.Error)
  archive out i [] w = (w, waits)
  archive out i (channel_closed ∷ events) w = (w, returned (ok tt))
  archive out i (context_done ∷ events) w = (w, returned (ok tt))
  archive out i (operation op ∷ events) w =
      let (w', r) = execute S D seconds stream (out i) op w in
      elim r [ err e ↦ (w', returned (err e)) | ok done ↦ archive out (suc i) events w' ]
