-- ===== src/Tests/Graphql.antt =====
-- The resolvers over small tables.
use radio_chatter.Common.{
  ℕ, ◌≤◌, ◌/◌, ◌≡◌, ◌≢◌, refl, ◌∙◌, List, [], ◌∷◌, map, Bool, true, false, ◌&&◌, Option, none, some,
  take, All, Bytes, codes, equal, Result, ok, err, ok-injective, sym, ap, subst, Bool-cases, inl,
  inr, ltb, ◌==◌, if◌then◌else◌, arith,
}
use radio_chatter.Common.Int.{pos, pos_part}
use radio_chatter.Duration.{Duration}
use radio_chatter.Models.{Stream, Chunk, Transmission, Transcription}
use radio_chatter.Ids.{other_type, model_id}
use radio_chatter.Lookup.{FirstError, record_not_found, bad_id}
use radio_chatter.Paging.Order.{beyond}
use radio_chatter.Paging.Order.{All-member}
use radio_chatter.Paging.Walk.{Gathers}
use radio_chatter.Paging.Newest.{TakesFirst, TakesFirst-Serves}
use mathlib.Core.List.Memᴰ
use radio_chatter.Tests.Since.{since, since-IsSince}
use radio_chatter.Graphql.Nodes.{
  StreamNode, ChunkNode, stream_name, stream_to_graphql, chunk_to_graphql, transmission_to_graphql,
  transcription_to_graphql,
}
use radio_chatter.Graphql.Gorm.{
  everything, Rows, Gorm, zero_stream, Join, paged_chunks, paged_transmissions,
}
use radio_chatter.Graphql.Resolvers.{
  scope_of_stream, chunks_paginator, stream_transmissions_paginator, bad_stream_id,
  RegisterStreamVariables, register_stream, remove_stream, get_stream_by_id, get_chunk_by_id,
  get_transmission_by_id, stream_chunks, chunk_stream, stream_transmissions, transmission_chunk,
  transmission_transcription, transcription_transmission,
}
use radio_chatter.Polling.Rounds.{Answers}
use radio_chatter.Graphql.Deliveries.{Polls, ticks, Delivers, begin-Delivers}
use radio_chatter.Graphql.Subscriptions.{
  Poller, all_chunks, waits, begin, new_transmissions, new_transcriptions,
}
use radio_chatter.Graphql.TypedIds.{a_chunk, typed_ids}
use radio_chatter.Graphql.Pages.{follow, stream_chunks-Gathers}
use radio_chatter.Graphql.Navigation.{stream_transmissions-Gathers, wrong_transcription}
use radio_chatter.Graphql.Registration.{
  KeepsStreams, asked, register_stream-get_stream_by_id, remove_stream-zero,
}

-- Lists as tables.
module _ {Row : Type 0} (id_of : Row → ℕ) where
  abbrev row_of : ℕ → List Row → Option Row
  row_of id [] = none
  row_of id (r ∷ rows) = if id_of r == id then some r else row_of id rows

  abbrev first_of : ℕ → List Row → Result (FirstError (Unit {0})) Row
  first_of id rows = elim (row_of id rows) [ none ↦ err record_not_found | some r ↦ ok r ]

  abbrev behind_id : Option ℕ → List Row → List Row
  behind_id none rows = rows
  behind_id (some a) rows = beyond id_of a rows

abbrev keep : {Row : Type 0} → (Row → Bool) → List Row → List Row
keep p [] = []
keep p (r ∷ rows) = if p r then r ∷ keep p rows else keep p rows

record Tables : Type 0 where
  streams : List Stream
  chunks : List Chunk
  transmissions : List Transmission
  transcriptions : List Transcription

abbrev of_stream : Option Chunk → Chunk → Bool
of_stream none c = true
of_stream (some filter) c = c.stream_id == filter.stream_id

abbrev of_chunk : Option Transmission → Transmission → Bool
of_chunk none t = true
of_chunk (some filter) t = t.chunk_id == filter.chunk_id

-- The join of `streamResolver.Transmissions`.
abbrev joined : List Join → Tables → Transmission → Bool
joined [] db t = true
joined (join ∷ joins) db t = elim join.also [
  | none ↦ true
  | some condition ↦ elim (row_of (λ c. c.id) t.chunk_id db.chunks) [
    | none ↦ false
    | some c ↦ c.stream_id == condition.1
  ]
]

abbrev chunks_since : ℕ → List Chunk → List Chunk
chunks_since t [] = []
chunks_since t (c ∷ rows) =
    if ltb c.created_at t then chunks_since t rows else c ∷ chunks_since t rows

abbrev small : Gorm
small = record {
  State = Tables;
  Error = Unit {0};
  streams = record {
    table_name = codes "streams";
    first = λ id db. first_of (λ s. s.id) id db.streams;
    find = λ id db. ok (row_of (λ s. s.id) id db.streams);
    find_page =
        λ scope q db. ok (take (pos_part q.limit) (behind_id (λ s. s.id) q.after db.streams));
    find_since = λ scope t db. ok db.streams;
  };
  chunks = record {
    table_name = codes "chunks";
    first = λ id db. first_of (λ c. c.id) id db.chunks;
    find = λ id db. ok (row_of (λ c. c.id) id db.chunks);
    find_page = λ scope q db. ok (
        take (pos_part q.limit)
          (behind_id (λ c. c.id) q.after (keep (of_stream q.filter) db.chunks)));
    find_since = λ scope t db. ok (chunks_since t db.chunks);
  };
  transmissions = record {
    table_name = codes "transmissions";
    first = λ id db. first_of (λ t. t.id) id db.transmissions;
    find = λ id db. ok (row_of (λ t. t.id) id db.transmissions);
    find_page = λ scope q db. ok (
        take (pos_part q.limit) (
          behind_id (λ t. t.id) q.after
            (keep (λ t. joined scope.joins db t && of_chunk q.filter t) db.transmissions)));
    find_since = λ scope t db. ok db.transmissions;
  };
  transcriptions = record {
    table_name = codes "transcriptions";
    first = λ id db. first_of (λ t. t.id) id db.transcriptions;
    find = λ id db. ok (row_of (λ t. t.id) id db.transcriptions);
    find_page = λ scope q db. ok (take (pos_part q.limit) db.transcriptions);
    find_since = λ scope t db. ok db.transcriptions;
  };
  save_stream = λ s db. (db, err tt);
  delete_stream = λ s id db. (db, err tt);
}

abbrev news : Stream
news = record {
  id = 3;
  created_at = 10;
  updated_at = 10;
  display_name = codes "news";
  url = codes "http://news";
}

abbrev chunk_of : ℕ → ℕ → Chunk
chunk_of id stream_id = record {
  id = id;
  created_at = 20;
  updated_at = 20;
  timestamp = pos 20;
  sha256 = codes "00";
  stream_id = stream_id;
  transmissions = none;
}

abbrev transmission_of : ℕ → ℕ → Transmission
transmission_of id chunk_id = record {
  id = id;
  created_at = 30;
  updated_at = 30;
  timestamp = pos 30;
  length = pos 1500000000;
  sha256 = codes "00";
  chunk_id = chunk_id;
  transcription = none;
}

-- Transmission 7 is the one that has a transcription, number 9.
abbrev said : Transcription
said = record {
  id = 9;
  created_at = 40;
  updated_at = 40;
  transmission_id = 7;
  content = codes "hello";
}

abbrev tables : Tables
tables = record {
  streams = news ∷ [];
  chunks = chunk_of 1 3 ∷ chunk_of 2 4 ∷ chunk_of 5 3 ∷ [];
  transmissions = transmission_of 7 1 ∷ transmission_of 8 2 ∷ transmission_of 9 5 ∷ [];
  transcriptions = said ∷ [];
}

-- Seconds as whole numbers, rounded down.
abbrev whole_seconds : Duration → ℕ
whole_seconds d = pos_part d / 1000000000

abbrev chunks_of_news : List Chunk
chunks_of_news = chunk_of 1 3 ∷ chunk_of 5 3 ∷ []

small-chunks :
    TakesFirst
      (paged_chunks small everything)
      (chunks_paginator whole_seconds small 3 none)
      chunks_of_news
      tables
small-chunks n none = refl
small-chunks n (some a) = refl

stream_chunks-Gathers_example :
    (got : List Chunk) × (follow 3
        (λ after.
          stream_chunks whole_seconds small (stream_to_graphql news) after none (pos 1) tables)
        none
      ≡ some (map chunk_to_graphql got))
    × Gathers
        (paged_chunks small everything)
        (chunks_paginator whole_seconds small 3 none)
        1
        chunks_of_news
        got
    × All
        (λ node. chunk_stream whole_seconds small node tables ≡ ok (stream_to_graphql news))
        (map chunk_to_graphql got)
stream_chunks-Gathers_example =
    stream_chunks-Gathers whole_seconds small tables news chunks_of_news none 1 (omega arith)
      (omega arith) refl ((refl, refl), ((refl, refl), tt))
      (TakesFirst-Serves (paged_chunks small everything)
        (chunks_paginator whole_seconds small 3 none) chunks_of_news tables small-chunks)
      (omega arith, (omega arith, tt))

abbrev transmissions_of_news : List Transmission
transmissions_of_news = transmission_of 7 1 ∷ transmission_of 9 5 ∷ []

small-transmissions :
    TakesFirst
      (paged_transmissions small (scope_of_stream 3))
      (stream_transmissions_paginator whole_seconds small none)
      transmissions_of_news
      tables
small-transmissions n none = refl
small-transmissions n (some a) = refl

stream_transmissions-Gathers_example :
    (got : List Transmission) × (follow 3
        (λ after.
          stream_transmissions whole_seconds small
            (stream_to_graphql news)
            after
            none
            (pos 40)
            tables)
        none
      ≡ some (map (transmission_to_graphql whole_seconds) got))
    × Gathers
        (paged_transmissions small (scope_of_stream 3))
        (stream_transmissions_paginator whole_seconds small none)
        30
        transmissions_of_news
        got
    × All
        (λ node.
          (chunk : ChunkNode) × (transmission_chunk whole_seconds small node tables ≡ ok chunk)
          × (chunk_stream whole_seconds small chunk tables ≡ ok (stream_to_graphql news)))
        (map (transmission_to_graphql whole_seconds) got)
stream_transmissions-Gathers_example =
    stream_transmissions-Gathers whole_seconds small tables news transmissions_of_news none 40
      (omega arith) (omega arith) refl
      (
        (chunk_of 1 3, (refl, refl, refl, omega arith), refl),
        ((chunk_of 5 3, (refl, refl, refl, omega arith), refl), tt),
      )
      (TakesFirst-Serves (paged_transmissions small (scope_of_stream 3))
        (stream_transmissions_paginator whole_seconds small none) transmissions_of_news tables
        small-transmissions)
      (omega arith, (omega arith, tt))

-- Transmission 9 is answered with the transcription of transmission 7.
wrong_transcription_example :
    (transmission_transcription whole_seconds small
        (transmission_to_graphql whole_seconds (transmission_of 9 5))
        tables
      ≡ ok (some (transcription_to_graphql said)))
    × (transcription_transmission whole_seconds small (transcription_to_graphql said) tables
        ≡ ok (transmission_to_graphql whole_seconds (transmission_of 7 1)))
    × ((transmission_to_graphql whole_seconds (transmission_of 7 1)).id
        ≢ (transmission_to_graphql whole_seconds (transmission_of 9 5)).id)
wrong_transcription_example =
    wrong_transcription whole_seconds small tables (transmission_of 9 5) (transmission_of 7 1) said
      (omega arith) (omega arith) (omega arith) refl refl refl (λ e. omega (arith, e))

typed_ids_example :
    let node = model_id (codes "Chunk") 2 in
    (get_stream_by_id whole_seconds small node tables ≡ err (bad_id (other_type (codes "Chunk"))))
    × (remove_stream whole_seconds small node tables
        ≡ (tables, err (bad_stream_id (other_type (codes "Chunk")))))
    × (new_transmissions whole_seconds small (pos 0) node ≡ err (other_type (codes "Chunk")))
    × (new_transcriptions whole_seconds small (pos 0) node ≡ err (other_type (codes "Chunk")))
    × (get_chunk_by_id whole_seconds small node tables
        ≡ ok (some (chunk_to_graphql (chunk_of 2 4))))
    × (get_transmission_by_id whole_seconds small node tables
        ≡ err (bad_id (other_type (codes "Chunk"))))
unfolding equal
typed_ids_example = typed_ids whole_seconds small (pos 0) a_chunk 2 tables (omega arith)

-- A table with room for one stream.
abbrev put_stream : Stream → Option Stream → Option Stream × Result (Unit {0}) Stream
put_stream s db =
    let s' : Stream = record s { id = 1; created_at = 50; updated_at = 50 } in (some s', ok s')

abbrev drop_stream : Stream → ℕ → Option Stream → Option Stream × Result (Unit {0}) Stream
drop_stream s id none = (none, ok s)
drop_stream s id (some old) = (if old.id == id then none else some old, ok s)

abbrev the_stream : ℕ → Option Stream → Result (FirstError (Unit {0})) Stream
the_stream id none = err record_not_found
the_stream id (some s) = if s.id == id then ok s else err record_not_found

abbrev nothing : {Row : Type 0} → Bytes → Rows (Option Stream) (Unit {0}) Row
nothing name = record {
  table_name = name;
  first = λ id db. err record_not_found;
  find = λ id db. ok none;
  find_page = λ scope q db. ok [];
  find_since = λ scope t db. ok [];
}

abbrev one_stream : Gorm
one_stream = record {
  State = Option Stream;
  Error = Unit {0};
  streams = record (nothing {Row = Stream} (codes "streams")) { first = the_stream };
  chunks = nothing (codes "chunks");
  transmissions = nothing (codes "transmissions");
  transcriptions = nothing (codes "transcriptions");
  save_stream = put_stream;
  delete_stream = drop_stream;
}

one_stream-KeepsStreams : KeepsStreams one_stream
one_stream-KeepsStreams = record { saves = saves; deletes = deletes }
  where
    saves :
        (s s' : Stream) (db db' : Option Stream)
        → put_stream s db ≡ (db', ok s')
        → (s' ≡ record s { id = s'.id; created_at = s'.created_at; updated_at = s'.updated_at })
          × (the_stream s'.id db' ≡ ok s')
    saves s s' db db' h =
        let filled : Stream = record s { id = 1; created_at = 50; updated_at = 50 } in
        let row : filled ≡ s' = ok-injective (ap (λ r. r.1) h) in
        let slot : some filled ≡ db' = ap (λ r. r.0) h in
        (
          subst
              (λ x.
                x ≡ record s { id = x.id; created_at = x.created_at; updated_at = x.updated_at })
              row refl,
          rw (← slot, ← row) refl,
        )

    deletes :
        (s s' : Stream) (id : ℕ) (db db' : Option Stream)
        → drop_stream s id db ≡ (db', ok s')
        → (s' ≡ s) × (the_stream id db' ≡ err record_not_found)
    deletes s s' id none db' h = (sym (ok-injective (ap (λ r. r.1) h)), rw (← ap (λ r. r.0) h) refl)
    deletes s s' id (some old) db' h = (
      sym (ok-injective (ap (λ r. r.1) h)),
      ap (the_stream id) (sym (ap (λ r. r.0) h)) ∙ elim (Bool-cases (old.id == id)) [
        | inl same ↦ rw same refl
        | inr other ↦ rw other (rw other refl)
      ],
    )

abbrev wanted : RegisterStreamVariables
wanted = record { display_name = codes "news"; url = codes "http://news" }

abbrev first_stream : Stream
first_stream = record (asked whole_seconds one_stream one_stream-KeepsStreams wanted) {
  id = 1;
  created_at = 50;
  updated_at = 50;
}

register_stream-get_stream_by_id_example :
    (node : StreamNode) × (register_stream whole_seconds one_stream wanted none
      ≡ (some first_stream, ok node))
    × (node.display_name ≡ codes "news")
    × (node.url ≡ codes "http://news")
    × (get_stream_by_id whole_seconds one_stream node.id (some first_stream) ≡ ok (some node))
register_stream-get_stream_by_id_example =
    register_stream-get_stream_by_id whole_seconds one_stream one_stream-KeepsStreams wanted
      first_stream none (some first_stream) refl (omega arith)

remove_stream-zero_example :
    (remove_stream whole_seconds one_stream (model_id stream_name 1) (some first_stream)
      ≡ (none, ok (stream_to_graphql zero_stream)))
    × (get_stream_by_id whole_seconds one_stream (model_id stream_name 1) none ≡ ok none)
remove_stream-zero_example =
    remove_stream-zero whole_seconds one_stream one_stream-KeepsStreams 1 zero_stream
      (some first_stream) none (omega arith) refl

-- Chunks that are added while a client listens, from the time 25 on.
abbrev chunk_at : ℕ → ℕ → Chunk
chunk_at id time = record (chunk_of id 3) { created_at = time }

abbrev listening : Poller Chunk ChunkNode
listening = all_chunks whole_seconds small (pos 0)

chunks_since-since :
    (t : ℕ) (rows : List Chunk) → chunks_since t rows ≡ since listening.source t rows
chunks_since-since t [] = refl
chunks_since-since t (c ∷ rows) = ground (arith, chunks_since-since t rows)

abbrev with_chunks : List Chunk → Tables
with_chunks rows = record tables { chunks = rows }

listening-Answers : (rows : List Chunk) → Answers listening.source rows (with_chunks rows)
listening-Answers rows t = (
  since listening.source t rows,
  ap ok (chunks_since-since t rows),
  since-IsSince listening.source t rows,
)

-- The second poll is answered with the time 45 before the time 30.
abbrev second_chunks : List Chunk
second_chunks = chunk_at 4 45 ∷ chunk_at 3 30 ∷ []

abbrev two_polls : Polls listening
two_polls =
    (chunk_at 2 30 ∷ [], with_chunks (chunk_at 1 20 ∷ chunk_at 2 30 ∷ []))
    ∷ (second_chunks, with_chunks (chunk_at 1 20 ∷ chunk_at 2 30 ∷ second_chunks))
    ∷ []

begin-Delivers_example :
    Delivers listening
      (chunk_at 1 20 ∷ [])
      two_polls
      (begin listening 25 (ticks listening two_polls)).0
    × ((begin listening 25 (ticks listening two_polls)).1 ≡ waits)
begin-Delivers_example =
    begin-Delivers listening 25 (chunk_at 1 20 ∷ []) two_polls
      (
        listening-Answers (chunk_at 1 20 ∷ chunk_at 2 30 ∷ []),
        (listening-Answers (chunk_at 1 20 ∷ chunk_at 2 30 ∷ second_chunks), tt),
      )
      (
        λ r m s n.
            let old =
              All-member (λ c. c.created_at ≤ 30) (chunk_at 1 20 ∷ chunk_at 2 30 ∷ []) r
                (omega arith, (omega arith, tt)) m in
            let new =
              All-member (λ c. 30 ≤ c.created_at) second_chunks s (omega arith, (omega arith, tt))
                n in
            omega (arith, old, new),
        (λ r m s n. absurd (Memᴰ.not-nil n), tt),
      )
      (λ s n.
        let new =
          All-member (λ c. 30 ≤ c.created_at) (chunk_at 2 30 ∷ second_chunks) s
            (omega arith, (omega arith, (omega arith, tt))) n in
        omega (arith, new))
