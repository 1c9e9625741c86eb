-- ===== src/Graphql/Navigation.antt =====
-- From a stream to its transmissions and back, and from a transmission to its transcription.
use radio_chatter.Common.{
  ℕ, min, suc, ◌^◌, ◌<◌, ◌≡◌, ◌≢◌, refl, sym, ap, ◌∙◌, List, [], ◌∷◌, map, Option, none, some,
  length, All, Bytes, ok, ok-injective, arith,
}
use radio_chatter.Common.Int.{ℤ, pos}
use radio_chatter.Duration.{Duration}
use radio_chatter.Ffmpeg.{Time}
use radio_chatter.Models.{Stream, Chunk, Transmission, Transcription}
use radio_chatter.Ids.{decode_model_id}
use radio_chatter.Lookup.Rows.{own_id, get_parent_object-or_zero}
use radio_chatter.Paging.{page}
use radio_chatter.Paging.Order.{All-member, All-members}
use radio_chatter.Paging.Walk.{Fits, Serves, Gathers}
use radio_chatter.Graphql.Nodes.{
  ChunkNode, stream_name, chunk_name, transmission_name, stream_to_graphql, chunk_to_graphql,
  transmission_to_graphql, transcription_to_graphql,
}
use radio_chatter.Graphql.Gorm.{
  everything, Gorm, keyed_chunks, keyed_transmissions, keyed_transcriptions, paged_transmissions,
}
use radio_chatter.Graphql.Resolvers.{
  make_conn, scope_of_stream, chunk_transmissions_paginator, stream_transmissions_paginator,
  chunk_transmissions, stream_transmissions, chunk_stream, transmission_chunk,
  transmission_transcription, transcription_transmission,
}
use radio_chatter.Graphql.Pages.{follow, follow-Gathers, chunk_stream-back}

module _ {Float64 : Type 0} (seconds : Duration → Float64) (G : Gorm) (db : G.State) where
  -- The chunk of a transmission, as the tables find both by their ids.
  abbrev pub ChunkOf : Transmission → Chunk → Type 0
  ChunkOf t c =
      (G.transmissions.first t.id db ≡ ok t)
      × (G.chunks.find t.chunk_id db ≡ ok (some c))
      × (G.chunks.first c.id db ≡ ok c)
      × (c.id < 2 ^ 63)

  -- The transmissions of the chunks of a stream.
  abbrev pub TransmissionsOf : Stream → List Transmission → Type 0
  TransmissionsOf s = All (λ t. (c : Chunk) × ChunkOf t c × (c.stream_id ≡ s.id))

  transmission_chunk-back :
      (t : Transmission) (c : Chunk)
      → t.id < 2 ^ 63
      → ChunkOf t c
      → transmission_chunk seconds G (transmission_to_graphql seconds t) db
        ≡ ok (chunk_to_graphql c)
  unfolding transmission_chunk
  transmission_chunk-back t c lt (child, there, own, small) =
      get_parent_object-or_zero (keyed_transmissions G) (keyed_chunks G) (λ t. t.chunk_id)
        chunk_to_graphql t.id t (some c) db db (ground arith) lt child there

  abbrev InStream : Stream → Transmission → Type 0
  InStream s t = (t.id < 2 ^ 63) × ((c : Chunk) × ChunkOf t c × (c.stream_id ≡ s.id))

  transmissions_lead_back :
      (s : Stream) (got : List Transmission)
      → G.streams.find s.id db ≡ ok (some s)
      → All (InStream s) got
      → All
          (λ node.
            (chunk : ChunkNode) × (transmission_chunk seconds G node db ≡ ok chunk)
            × (chunk_stream seconds G chunk db ≡ ok (stream_to_graphql s)))
          (map (transmission_to_graphql seconds) got)
  transmissions_lead_back s [] there of = tt
  transmissions_lead_back s (t ∷ got) there ((small, (c, of, key)), others) = (
    (
      chunk_to_graphql c,
      transmission_chunk-back t c small of,
      chunk_stream-back seconds G db s c of.3 there of.2 key,
    ),
    transmissions_lead_back s got there others,
  )

  stream_transmissions-page :
      (s : Stream) (after : Option Bytes) (created_after : Option Time) (count : ℤ)
      → s.id < 2 ^ 63
      → stream_transmissions seconds G (stream_to_graphql s) after created_after count db
        ≡ make_conn (
            page
              (paged_transmissions G (scope_of_stream s.id))
              (stream_transmissions_paginator seconds G created_after)
              after
              count
              db)
  unfolding stream_transmissions
  stream_transmissions-page s after created_after count lt =
      rw (own_id stream_name s.id (ground arith) lt, stream_transmissions) refl

  -- If the database answers the pages of the joined tables from `rows`, the transmissions of the
  -- chunks of a stream, in any order, whose ids fit into an int64, then a client that asks for pages
  -- of at least one transmission, and follows the end cursors, comes to an end, with at most one page
  -- more than there are transmissions, and without an error. It gets nothing but transmissions of the
  -- stream, and if there are fewer than it asks for, and than 30, it gets every one; and each of them
  -- leads over its chunk back to the stream.
  pub stream_transmissions-Gathers :
      (s : Stream) (rows : List Transmission) (created_after : Option Time) (n : ℕ)
      → 0 < n
      → s.id < 2 ^ 63
      → G.streams.find s.id db ≡ ok (some s)
      → TransmissionsOf s rows
      → Serves
          (paged_transmissions G (scope_of_stream s.id))
          (stream_transmissions_paginator seconds G created_after)
          rows
          db
      → Fits
          (paged_transmissions G (scope_of_stream s.id))
          (stream_transmissions_paginator seconds G created_after)
          rows
      → (got : List Transmission) × (follow
            (suc (length rows))
            (λ after.
              stream_transmissions seconds G (stream_to_graphql s) after created_after (pos n) db)
            none
          ≡ some (map (transmission_to_graphql seconds) got))
        × Gathers
            (paged_transmissions G (scope_of_stream s.id))
            (stream_transmissions_paginator seconds G created_after)
            (min n 30)
            rows
            got
        × All
            (λ node.
              (chunk : ChunkNode) × (transmission_chunk seconds G node db ≡ ok chunk)
              × (chunk_stream seconds G chunk db ≡ ok (stream_to_graphql s)))
            (map (transmission_to_graphql seconds) got)
  stream_transmissions-Gathers s rows created_after n h lt there of serves fits =
      let (got, followed, gathers) =
        follow-Gathers (paged_transmissions G (scope_of_stream s.id))
          (stream_transmissions_paginator seconds G created_after) db
          (λ after.
            stream_transmissions seconds G (stream_to_graphql s) after created_after (pos n) db)
          rows n (λ after. stream_transmissions-page s after created_after (pos n) lt) refl h serves
          (ground arith) fits in
      (
        got,
        followed,
        gathers,
        transmissions_lead_back s got there (
            All-members (InStream s) got (λ t m.
              let here = gathers.only t m in
              (
                All-member (λ t. t.id < 2 ^ 63) rows t fits here,
                All-member (λ t. (c : Chunk) × ChunkOf t c × (c.stream_id ≡ s.id)) rows t of here,
              ))),
      )

  chunk_transmissions-page :
      (c : Chunk) (after : Option Bytes) (created_after : Option Time) (count : ℤ)
      → c.id < 2 ^ 63
      → chunk_transmissions seconds G (chunk_to_graphql c) after created_after count db
        ≡ make_conn (
            page
              (paged_transmissions G everything)
              (chunk_transmissions_paginator seconds G c.id created_after)
              after
              count
              db)
  unfolding chunk_transmissions
  chunk_transmissions-page c after created_after count lt =
      rw (own_id chunk_name c.id (ground arith) lt, chunk_transmissions) refl

  chunk_transmissions_lead_back :
      (c : Chunk) (got : List Transmission)
      → All (λ t. (t.id < 2 ^ 63) × ChunkOf t c) got
      → All
          (λ node. transmission_chunk seconds G node db ≡ ok (chunk_to_graphql c))
          (map (transmission_to_graphql seconds) got)
  chunk_transmissions_lead_back c [] of = tt
  chunk_transmissions_lead_back c (t ∷ got) ((small, of), others) =
      (transmission_chunk-back t c small of, chunk_transmissions_lead_back c got others)

  -- In the same way the pages of a chunk give its transmissions, and each leads back to it.
  pub chunk_transmissions-Gathers :
      (c : Chunk) (rows : List Transmission) (created_after : Option Time) (n : ℕ)
      → 0 < n
      → c.id < 2 ^ 63
      → All (λ t. ChunkOf t c) rows
      → Serves
          (paged_transmissions G everything)
          (chunk_transmissions_paginator seconds G c.id created_after)
          rows
          db
      → Fits
          (paged_transmissions G everything)
          (chunk_transmissions_paginator seconds G c.id created_after)
          rows
      → (got : List Transmission) × (follow
            (suc (length rows))
            (λ after.
              chunk_transmissions seconds G (chunk_to_graphql c) after created_after (pos n) db)
            none
          ≡ some (map (transmission_to_graphql seconds) got))
        × Gathers
            (paged_transmissions G everything)
            (chunk_transmissions_paginator seconds G c.id created_after)
            (min n 30)
            rows
            got
        × All
            (λ node. transmission_chunk seconds G node db ≡ ok (chunk_to_graphql c))
            (map (transmission_to_graphql seconds) got)
  chunk_transmissions-Gathers c rows created_after n h lt of serves fits =
      let (got, followed, gathers) =
        follow-Gathers (paged_transmissions G everything)
          (chunk_transmissions_paginator seconds G c.id created_after) db
          (λ after.
            chunk_transmissions seconds G (chunk_to_graphql c) after created_after (pos n) db)
          rows n (λ after. chunk_transmissions-page c after created_after (pos n) lt) refl h serves
          (ground arith) fits in
      (
        got,
        followed,
        gathers,
        chunk_transmissions_lead_back c got (
            All-members (λ t. (t.id < 2 ^ 63) × ChunkOf t c) got
              (λ t m.
                let here = gathers.only t m in
                (
                  All-member (λ t. t.id < 2 ^ 63) rows t fits here,
                  All-member (λ t. ChunkOf t c) rows t of here,
                ))),
      )

  -- The transcription that a transmission is answered with is the one with the transmission's own id,
  -- which may belong to any other transmission: that one is what it leads back to, under another
  -- identifier. Assumed is that the ids fit into an int64, and that the database finds the rows
  -- that are asked for by their ids.
  pub wrong_transcription :
      (t other : Transmission) (r : Transcription)
      → t.id < 2 ^ 63
      → r.id < 2 ^ 63
      → other.id < 2 ^ 63
      → G.transcriptions.first t.id db ≡ ok r
      → G.transcriptions.first r.id db ≡ ok r
      → G.transmissions.find r.transmission_id db ≡ ok (some other)
      → other.id ≢ t.id
      → (transmission_transcription seconds G (transmission_to_graphql seconds t) db
          ≡ ok (some (transcription_to_graphql r)))
        × (transcription_transmission seconds G (transcription_to_graphql r) db
            ≡ ok (transmission_to_graphql seconds other))
        × ((transmission_to_graphql seconds other).id ≢ (transmission_to_graphql seconds t).id)
  unfolding transmission_transcription transcription_transmission
  wrong_transcription t other r lt lt' lt'' found own there differ =
      let name = own_id transmission_name t.id (ground arith) lt in
      let name' = own_id transmission_name other.id (ground arith) lt'' in
      (
        rw (name, transmission_transcription) (rw found refl),
        get_parent_object-or_zero (keyed_transcriptions G) (keyed_transmissions G)
            (λ r. r.transmission_id) (transmission_to_graphql seconds) r.id r (some other) db db
            (ground arith) lt' own there,
        λ same.
            differ (ok-injective (sym name' ∙ ap (decode_model_id transmission_name) same ∙ name)),
      )
