-- ===== src/Graphql/Gorm.antt =====
-- The database behind `gorm`, which is a parameter of the resolvers, and the tables in it that the
-- helpers of pkg/graphql/helpers.go and pkg/graphql/pagination.go use.
use radio_chatter.Common.{ℕ, List, [], Option, none, Bytes, Result}
use radio_chatter.Common.Int.{pos}
use radio_chatter.Models.{Stream, Chunk, Transmission, Transcription}
use radio_chatter.Lookup.{FirstError, KeyedTable}
use radio_chatter.Paging.{Query, Table}
use radio_chatter.Polling.{Source}
use radio_chatter.Graphql.Nodes.{stream_name, chunk_name, transmission_name, transcription_name}

pub record Column : Type 0 where
  pub table : Bytes
  pub column : Bytes

-- `JOIN table ON on = is`, and `AND also.0 = also.1` if there is such a condition.
pub record Join : Type 0 where
  pub table : Bytes
  pub on : Column
  pub is : Column
  pub also : Option (Column × ℕ)

-- What narrows a query down: its joins, and a `Where` with a stream, whose zero fields ask for
-- nothing.
pub record Scope : Type 0 where
  pub joins : List Join
  pub where_stream : Option Stream

abbrev pub everything : Scope
everything = record { joins = []; where_stream = none }

-- The table of one model: its name, `First` and `Find` by the primary key, and the queries of a page
-- and of a poll.
pub record Rows (State Error Row : Type 0) : Type 0 where
  pub table_name : Bytes
  pub first : ℕ → State → Result (FirstError Error) Row
  pub find : ℕ → State → Result Error (Option Row)
  pub find_page : Scope → Query Row → State → Result Error (List Row)
  pub find_since : Scope → ℕ → State → Result Error (List Row)

-- `Save` and `Delete` give back what they leave in the row that they were given.
pub record Gorm : Type 1 where
  pub State : Type 0
  pub Error : Type 0
  pub streams : Rows State Error Stream
  pub chunks : Rows State Error Chunk
  pub transmissions : Rows State Error Transmission
  pub transcriptions : Rows State Error Transcription
  pub save_stream : Stream → State → State × Result Error Stream
  pub delete_stream : Stream → ℕ → State → State × Result Error Stream

-- The zero values of the rows, `var stream radiochatter.Stream` and so on.
abbrev pub zero_stream : Stream
zero_stream = record { id = 0; created_at = 0; updated_at = 0; display_name = []; url = [] }

abbrev pub zero_chunk : Chunk
zero_chunk = record {
  id = 0;
  created_at = 0;
  updated_at = 0;
  timestamp = pos 0;
  sha256 = [];
  stream_id = 0;
  transmissions = none;
}

abbrev pub zero_transmission : Transmission
zero_transmission = record {
  id = 0;
  created_at = 0;
  updated_at = 0;
  timestamp = pos 0;
  length = pos 0;
  sha256 = [];
  chunk_id = 0;
  transcription = none;
}

abbrev pub zero_transcription : Transcription
zero_transcription = record {
  id = 0;
  created_at = 0;
  updated_at = 0;
  transmission_id = 0;
  content = [];
}

module _ (G : Gorm) where
  abbrev keyed : {Row : Type 0} → Bytes → Row → Rows G.State G.Error Row → KeyedTable Row
  keyed name zero_row rows = record {
    State = G.State;
    Error = G.Error;
    type_name = name;
    zero_row = zero_row;
    first = rows.first;
    find = rows.find;
  }

  abbrev pub keyed_streams : KeyedTable Stream
  keyed_streams = keyed stream_name zero_stream G.streams

  abbrev pub keyed_chunks : KeyedTable Chunk
  keyed_chunks = keyed chunk_name zero_chunk G.chunks

  abbrev pub keyed_transmissions : KeyedTable Transmission
  keyed_transmissions = keyed transmission_name zero_transmission G.transmissions

  abbrev pub keyed_transcriptions : KeyedTable Transcription
  keyed_transcriptions = keyed transcription_name zero_transcription G.transcriptions

  -- The tables that the pages are taken from.
  abbrev paged : {Row : Type 0} → Bytes → (Row → ℕ) → Scope → Rows G.State G.Error Row → Table Row
  paged name id_of scope rows = record {
    State = G.State;
    Error = G.Error;
    type_name = name;
    id_of = id_of;
    find = rows.find_page scope;
  }

  abbrev pub paged_streams : Scope → Table Stream
  paged_streams scope = paged stream_name (λ r. r.id) scope G.streams

  abbrev pub paged_chunks : Scope → Table Chunk
  paged_chunks scope = paged chunk_name (λ r. r.id) scope G.chunks

  abbrev pub paged_transmissions : Scope → Table Transmission
  paged_transmissions scope = paged transmission_name (λ r. r.id) scope G.transmissions

  -- What a poll asks; `created_at` is that of the converted row.
  abbrev pub polled_rows :
      {Row : Type 0} → (Row → ℕ) → Scope → Rows G.State G.Error Row → Source Row
  polled_rows created_at scope rows = record {
    State = G.State;
    Error = G.Error;
    created_at = created_at;
    find = rows.find_since scope;
  }
