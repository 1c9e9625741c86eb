-- ===== src/Graphql/Nodes.antt =====
-- pkg/graphql/model/models.generated.go, the types of the API, and the conversions of the rows to them
-- in pkg/graphql/helpers.go. `UTC` leaves the instant of a time as it is. The fields that a resolver
-- answers, which no conversion fills in, are left out.
use radio_chatter.Common.{ℕ, List, Bytes, codes}
use radio_chatter.Duration.{Duration}
use radio_chatter.Ffmpeg.{Time}
use radio_chatter.Models.{Stream, Chunk, Transmission, Transcription}
use radio_chatter.Ids.{model_id}
use radio_chatter.Paging.{PageInfo}

pub record StreamNode : Type 0 where
  pub id : Bytes
  pub created_at : ℕ
  pub updated_at : ℕ
  pub display_name : Bytes
  pub url : Bytes

pub record ChunkNode : Type 0 where
  pub id : Bytes
  pub created_at : ℕ
  pub updated_at : ℕ
  pub timestamp : Time
  pub sha256 : Bytes

-- The length is in seconds.
pub record TransmissionNode (Float64 : Type 0) : Type 0 where
  pub id : Bytes
  pub created_at : ℕ
  pub updated_at : ℕ
  pub timestamp : Time
  pub length : Float64
  pub sha256 : Bytes

pub record TranscriptionNode : Type 0 where
  pub id : Bytes
  pub created_at : ℕ
  pub updated_at : ℕ
  pub content : Bytes

-- `StreamsConnection`, `ChunksConnection` and `TransmissionsConnection`
pub record Connection (Node : Type 0) : Type 0 where
  pub edges : List Node
  pub page_info : PageInfo

-- What `reflect` calls the types of the rows.
abbrev pub stream_name : Bytes
stream_name = codes "Stream"

abbrev pub chunk_name : Bytes
chunk_name = codes "Chunk"

abbrev pub transmission_name : Bytes
transmission_name = codes "Transmission"

abbrev pub transcription_name : Bytes
transcription_name = codes "Transcription"

abbrev pub stream_to_graphql : Stream → StreamNode
stream_to_graphql t = record {
  id = model_id stream_name t.id;
  created_at = t.created_at;
  updated_at = t.updated_at;
  display_name = t.display_name;
  url = t.url;
}

abbrev pub chunk_to_graphql : Chunk → ChunkNode
chunk_to_graphql t = record {
  id = model_id chunk_name t.id;
  created_at = t.created_at;
  updated_at = t.updated_at;
  timestamp = t.timestamp;
  sha256 = t.sha256;
}

-- `Duration.Seconds` is a parameter, as floating point numbers are.
abbrev pub transmission_to_graphql :
    {Float64 : Type 0} → (Duration → Float64) → Transmission → TransmissionNode Float64
transmission_to_graphql seconds t = record {
  id = model_id transmission_name t.id;
  created_at = t.created_at;
  updated_at = t.updated_at;
  timestamp = t.timestamp;
  length = seconds t.length;
  sha256 = t.sha256;
}

abbrev pub transcription_to_graphql : Transcription → TranscriptionNode
transcription_to_graphql t = record {
  id = model_id transcription_name t.id;
  created_at = t.created_at;
  updated_at = t.updated_at;
  content = t.content;
}
