-- ===== src/Graphql/Subscriptions.antt =====
-- pkg/graphql/schema.resolvers.go: the resolvers of subscriptions, each of which starts a poller of
-- pkg/graphql/helpers.go. The names of the tables in their joins are those that `tableName` gives.
use radio_chatter.Common.{
  ℕ, zero, List, [], ◌∷◌, ◌++◌, map, Bytes, Option, none, some, codes, Result, ok, err,
}
use radio_chatter.Common.Int.{pos}
use radio_chatter.Duration.{Duration}
use radio_chatter.Archiver.{chunk_length}
use radio_chatter.Models.{Chunk, Transmission, Transcription}
use radio_chatter.Ids.{IdError, decode_model_id}
use radio_chatter.Polling.{Source, exits, cancelled, polled, poll_round}
use radio_chatter.Graphql.Nodes.{
  ChunkNode, TransmissionNode, TranscriptionNode, stream_name, chunk_to_graphql,
  transmission_to_graphql, transcription_to_graphql,
}
use radio_chatter.Graphql.Gorm.{Join, Scope, everything, Gorm, zero_stream, polled_rows}

-- `poller`: the database and its filter are the source. `getCreatedAt` is a part of it, as it takes
-- the time of the converted row.
pub record Poller (Row Generated : Type 0) : Type 1 where
  pub source : Source Row
  pub map_func : Row → Generated
  pub interval : Duration

-- The interval that `begin` polls with: without one, it is the length of a chunk.
abbrev pub poll_interval : Duration → Duration
poll_interval (pos zero) = chunk_length
poll_interval interval = interval

-- `JOIN table ON table.id = other.key`
abbrev pub join_on : Bytes → Bytes → Bytes → Join
join_on table other key = record {
  table = table;
  on = record { table = table; column = codes "id" };
  is = record { table = other; column = key };
  also = none;
}

module _ {Float64 : Type 0} (seconds : Duration → Float64) (G : Gorm) (interval : Duration) where
  -- The filters of `Transmissions` and `Transcriptions`.
  abbrev pub transmissions_filter : ℕ → Scope
  transmissions_filter id = record {
    joins =
        join_on G.streams.table_name G.chunks.table_name (codes "stream_id")
        ∷ join_on G.chunks.table_name G.transmissions.table_name (codes "chunk_id")
        ∷ [];
    where_stream = some (record zero_stream { id = id });
  }

  abbrev pub transcriptions_filter : ℕ → Scope
  transcriptions_filter id = record {
    joins = join_on G.streams.table_name G.transcriptions.table_name (codes "stream_id") ∷ [];
    where_stream = some (record zero_stream { id = id });
  }

  abbrev pub transmissions_poller : Scope → Poller Transmission (TransmissionNode Float64)
  transmissions_poller filter = record {
    source =
        polled_rows G (λ r. (transmission_to_graphql seconds r).created_at) filter G.transmissions;
    map_func = transmission_to_graphql seconds;
    interval = poll_interval interval;
  }

  abbrev pub transcriptions_poller : Scope → Poller Transcription TranscriptionNode
  transcriptions_poller filter = record {
    source = polled_rows G (λ r. (transcription_to_graphql r).created_at) filter G.transcriptions;
    map_func = transcription_to_graphql;
    interval = poll_interval interval;
  }

  -- `subscriptionResolver.Chunks`
  abbrev pub all_chunks : Poller Chunk ChunkNode
  all_chunks = record {
    source = polled_rows G (λ r. (chunk_to_graphql r).created_at) everything G.chunks;
    map_func = chunk_to_graphql;
    interval = poll_interval interval;
  }

  -- `AllTransmissions` and `AllTranscriptions`
  abbrev pub all_transmissions : Poller Transmission (TransmissionNode Float64)
  all_transmissions = transmissions_poller everything

  abbrev pub all_transcriptions : Poller Transcription TranscriptionNode
  all_transcriptions = transcriptions_poller everything

  -- `Transmissions` and `Transcriptions`
  unfoldable pub new_transmissions :
      Bytes → Result IdError (Poller Transmission (TransmissionNode Float64))
  new_transmissions stream_id = elim (decode_model_id stream_name stream_id) [
    | err e ↦ err e
    | ok id ↦ ok (transmissions_poller (transmissions_filter id))
  ]

  unfoldable pub new_transcriptions :
      Bytes → Result IdError (Poller Transcription TranscriptionNode)
  new_transcriptions stream_id = elim (decode_model_id stream_name stream_id) [
    | err e ↦ err e
    | ok id ↦ ok (transcriptions_poller (transcriptions_filter id))
  ]

-- What the loop of `begin` waits for: a tick of the timer, where the poll finds the database in a state
-- and the sends find some room before the context is done; or the end of the context.
pub data Tick (State : Type 0) : Type 0 where
  timer : Option ℕ → State → Tick State
  context_done : Tick State

-- How the loop stands when the ticks are used up: it waits, it has closed its channel, or it has ended
-- the process.
pub data Ended : Type 0 where
  waits closed exited : Ended

-- The loop of `begin`: what is sent on the channel.
module _ {Row Generated : Type 0} (p : Poller Row Generated) where
  unfoldable pub begin : ℕ → List (Tick p.source.State) → List Generated × Ended
  begin last [] = ([], waits)
  begin last (context_done ∷ ticks) = ([], closed)
  begin last (timer room db ∷ ticks) = elim (poll_round p.source room last db) [
    | exits ↦ ([], exited)
    | cancelled items ↦ (map p.map_func items, closed)
    | polled items last' ↦ let more = begin last' ticks in (map p.map_func items ++ more.0, more.1)
  ]
