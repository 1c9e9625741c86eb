-- ===== src/Graphql/Resolvers.antt =====
-- pkg/graphql/schema.resolvers.go: the resolvers of queries, mutations and fields. Log lines are left
-- out. `seconds` is `Duration.Seconds`.
use radio_chatter.Common.{ℕ, List, [], ◌∷◌, Bytes, Option, none, some, codes, Result, ok, err}
use radio_chatter.Common.Int.{ℤ, pos}
use radio_chatter.Duration.{Duration}
use radio_chatter.Ffmpeg.{Time}
use radio_chatter.Blob.{Storage}
use radio_chatter.Models.{Stream, Chunk, Transmission}
use radio_chatter.Ids.{IdError, decode_model_id}
use radio_chatter.Lookup.{
  record_not_found, failed, LookupError, bad_id, child_failed, get_by_id, get_parent_object,
  UrlError, signed_url,
}
use radio_chatter.Paging.{Paginator, PageInfo, PageError, invalid_id, page}
use radio_chatter.Graphql.Nodes.{
  StreamNode, ChunkNode, TransmissionNode, TranscriptionNode, Connection, stream_name, chunk_name,
  transmission_name, stream_to_graphql, chunk_to_graphql, transmission_to_graphql,
  transcription_to_graphql,
}
use radio_chatter.Graphql.Gorm.{
  Join, Scope, everything, Gorm, zero_stream, zero_chunk, zero_transmission, keyed_streams,
  keyed_chunks, keyed_transmissions, keyed_transcriptions, paged_streams, paged_chunks,
  paged_transmissions,
}

-- `chunkResolver.DownloadURL` and `transmissionResolver.DownloadURL`; a panic is `none`.
module _ (S : Storage) where
  abbrev pub chunk_download_url :
      ChunkNode → S.State → Option (Result (UrlError S.Error) (Option S.Url))
  chunk_download_url obj blobs = signed_url S obj.sha256 blobs

  abbrev pub transmission_download_url :
      {Float64 : Type 0}
      → TransmissionNode Float64
      → S.State
      → Option (Result (UrlError S.Error) (Option S.Url))
  transmission_download_url obj blobs = signed_url S obj.sha256 blobs

-- `makeConn`
abbrev pub make_conn :
    {E Node : Type 0} → Result E (List Node × PageInfo) → Result E (Connection Node)
make_conn (err e) = err e
make_conn (ok (edges, info)) = ok (record { edges = edges; page_info = info })

pub record RegisterStreamVariables : Type 0 where
  pub display_name : Bytes
  pub url : Bytes

-- What a mutation fails with: an identifier, or the database.
pub data MutationError (E : Type 0) : Type 0 where
  bad_stream_id : IdError → MutationError E
  database : E → MutationError E

-- The join of `streamResolver.Transmissions`.
abbrev pub join_chunks_of : ℕ → Join
join_chunks_of stream_id = record {
  table = codes "chunks";
  on = record { table = codes "chunks"; column = codes "id" };
  is = record { table = codes "transmissions"; column = codes "chunk_id" };
  also = some (record { table = codes "chunks"; column = codes "stream_id" }, stream_id);
}

abbrev pub scope_of_stream : ℕ → Scope
scope_of_stream stream_id = record { joins = join_chunks_of stream_id ∷ []; where_stream = none }

module _ {Float64 : Type 0} (seconds : Duration → Float64) (G : Gorm) where
  -- The paginators of the resolvers.
  abbrev pub streams_paginator : Option Time → Paginator Stream StreamNode
  streams_paginator created_after = record {
    map_model = stream_to_graphql;
    filter = none;
    created_after = created_after;
    limit = pos 5;
  }

  abbrev pub chunks_paginator : ℕ → Option Time → Paginator Chunk ChunkNode
  chunks_paginator stream_id created_after = record {
    map_model = chunk_to_graphql;
    filter = some (record zero_chunk { stream_id = stream_id });
    created_after = created_after;
    limit = pos 30;
  }

  abbrev pub chunk_transmissions_paginator :
      ℕ → Option Time → Paginator Transmission (TransmissionNode Float64)
  chunk_transmissions_paginator chunk_id created_after = record {
    map_model = transmission_to_graphql seconds;
    filter = some (record zero_transmission { chunk_id = chunk_id });
    created_after = created_after;
    limit = pos 30;
  }

  abbrev pub stream_transmissions_paginator :
      Option Time → Paginator Transmission (TransmissionNode Float64)
  stream_transmissions_paginator created_after = record {
    map_model = transmission_to_graphql seconds;
    filter = none;
    created_after = created_after;
    limit = pos 30;
  }

  -- `chunkResolver.Transmissions`
  unfoldable pub chunk_transmissions :
      ChunkNode
      → Option Bytes
      → Option Time
      → ℤ
      → G.State
      → Result (PageError G.Error) (Connection (TransmissionNode Float64))
  chunk_transmissions obj after created_after count db = elim (decode_model_id chunk_name obj.id) [
    | err e ↦ err (invalid_id e)
    | ok chunk_id ↦ make_conn (
        page (paged_transmissions G everything)
          (chunk_transmissions_paginator chunk_id created_after) after count db)
  ]

  -- `chunkResolver.Stream`
  unfoldable pub chunk_stream :
      ChunkNode → G.State → Result (LookupError G.Error G.Error) StreamNode
  chunk_stream obj db =
      get_parent_object (keyed_chunks G) (keyed_streams G) (λ c. c.stream_id) stream_to_graphql
        obj.id db db

  -- `mutationResolver.RegisterStream`
  unfoldable pub register_stream :
      RegisterStreamVariables → G.State → G.State × Result (MutationError G.Error) StreamNode
  register_stream input db =
      let stream : Stream = record zero_stream {
        display_name = input.display_name;
        url = input.url;
      } in
      let (db', r) = G.save_stream stream db in
      elim r [
        | err e ↦ (db', err (database e))
        | ok stream' ↦ (db', ok (stream_to_graphql stream'))
      ]

  -- `mutationResolver.RemoveStream`
  unfoldable pub remove_stream :
      Bytes → G.State → G.State × Result (MutationError G.Error) StreamNode
  remove_stream id db = elim (decode_model_id stream_name id) [
    | err e ↦ (db, err (bad_stream_id e))
    | ok real_id ↦
        let (db', r) = G.delete_stream zero_stream real_id db in
        elim r [
          | err e ↦ (db', err (database e))
          | ok stream ↦ (db', ok (stream_to_graphql stream))
        ]
  ]

  -- `queryResolver.GetStreams`
  unfoldable pub get_streams :
      Option Bytes → Option Time → ℤ → G.State → Result (PageError G.Error) (Connection StreamNode)
  get_streams after created_after count db =
      make_conn (page (paged_streams G everything) (streams_paginator created_after) after count db)

  -- `queryResolver.GetStreamByID`, `GetChunkByID` and `GetTransmissionByID`
  abbrev pub get_stream_by_id :
      Bytes → G.State → Result (LookupError G.Error G.Error) (Option StreamNode)
  get_stream_by_id id db = get_by_id (keyed_streams G) stream_to_graphql id db

  abbrev pub get_chunk_by_id :
      Bytes → G.State → Result (LookupError G.Error G.Error) (Option ChunkNode)
  get_chunk_by_id id db = get_by_id (keyed_chunks G) chunk_to_graphql id db

  abbrev pub get_transmission_by_id :
      Bytes → G.State → Result (LookupError G.Error G.Error) (Option (TransmissionNode Float64))
  get_transmission_by_id id db =
      get_by_id (keyed_transmissions G) (transmission_to_graphql seconds) id db

  -- `streamResolver.Chunks`
  unfoldable pub stream_chunks :
      StreamNode
      → Option Bytes
      → Option Time
      → ℤ
      → G.State
      → Result (PageError G.Error) (Connection ChunkNode)
  stream_chunks obj after created_after count db = elim (decode_model_id stream_name obj.id) [
    | err e ↦ err (invalid_id e)
    | ok stream_id ↦
        make_conn (
          page (paged_chunks G everything) (chunks_paginator stream_id created_after) after count
            db)
  ]

  -- `streamResolver.Transmissions`
  unfoldable pub stream_transmissions :
      StreamNode
      → Option Bytes
      → Option Time
      → ℤ
      → G.State
      → Result (PageError G.Error) (Connection (TransmissionNode Float64))
  stream_transmissions obj after created_after count db =
      elim (decode_model_id stream_name obj.id) [
        | err e ↦ err (invalid_id e)
        | ok stream_id ↦ make_conn (
            page (paged_transmissions G (scope_of_stream stream_id))
              (stream_transmissions_paginator created_after) after count db)
      ]

  -- `transcriptionResolver.Transmission`
  unfoldable pub transcription_transmission :
      TranscriptionNode → G.State → Result (LookupError G.Error G.Error) (TransmissionNode Float64)
  transcription_transmission obj db =
      get_parent_object (keyed_transcriptions G) (keyed_transmissions G) (λ c. c.transmission_id)
        (transmission_to_graphql seconds) obj.id db db

  -- `transmissionResolver.Transcription`
  unfoldable pub transmission_transcription :
      TransmissionNode Float64
      → G.State
      → Result (LookupError G.Error G.Error) (Option TranscriptionNode)
  transmission_transcription obj db = elim (decode_model_id transmission_name obj.id) [
    | err e ↦ err (bad_id e)
    | ok real_id ↦ elim (G.transcriptions.first real_id db) [
      | err record_not_found ↦ ok none
      | err (failed e) ↦ err (child_failed (failed e))
      | ok model ↦ ok (some (transcription_to_graphql model))
    ]
  ]

  -- `transmissionResolver.Chunk`
  unfoldable pub transmission_chunk :
      TransmissionNode Float64 → G.State → Result (LookupError G.Error G.Error) ChunkNode
  transmission_chunk obj db =
      get_parent_object (keyed_transmissions G) (keyed_chunks G) (λ c. c.chunk_id) chunk_to_graphql
        obj.id db db
