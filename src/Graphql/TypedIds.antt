-- ===== src/Graphql/TypedIds.antt =====
-- Which identifiers the resolvers take.
use radio_chatter.Common.{
  ℕ, ◌^◌, ◌<◌, ◌≡◌, refl, ◌∙◌, Bool, true, false, Bytes, Option, none, some, Result, ok, err, equal,
  if◌then◌else◌, arith,
}
use radio_chatter.Duration.{Duration}
use radio_chatter.Models.{Stream}
use radio_chatter.Ids.{other_type, model_id, decode_model_id}
use radio_chatter.Ids.RoundTrip.{IsName, decode_model_id-model_id}
use radio_chatter.Lookup.{
  FirstError, record_not_found, failed, KeyedTable, LookupError, bad_id, child_failed, get_by_id,
}
use radio_chatter.Graphql.Nodes.{
  StreamNode, stream_name, chunk_name, transmission_name, transcription_name, stream_to_graphql,
  chunk_to_graphql, transmission_to_graphql,
}
use radio_chatter.Graphql.Gorm.{Gorm, zero_stream, keyed_streams, keyed_chunks, keyed_transmissions}
use radio_chatter.Graphql.Resolvers.{
  MutationError, bad_stream_id, database, remove_stream, get_stream_by_id, get_chunk_by_id,
  get_transmission_by_id,
}
use radio_chatter.Graphql.Subscriptions.{
  transmissions_poller, transmissions_filter, transcriptions_poller, transcriptions_filter,
  new_transmissions, new_transcriptions,
}

-- The types of rows.
pub data Kind : Type 0 where
  a_stream a_chunk a_transmission a_transcription : Kind

abbrev pub kind_name : Kind → Bytes
kind_name a_stream = stream_name
kind_name a_chunk = chunk_name
kind_name a_transmission = transmission_name
kind_name a_transcription = transcription_name

kind_name-IsName : (kind : Kind) → IsName (kind_name kind)
kind_name-IsName a_stream = ground arith
kind_name-IsName a_chunk = ground arith
kind_name-IsName a_transmission = ground arith
kind_name-IsName a_transcription = ground arith

-- What a lookup by the primary key is answered with.
abbrev pub answer :
    {E Row Node : Type 0}
    → (Row → Node)
    → Result (FirstError E) Row
    → Result (LookupError E E) (Option Node)
answer map_func (err record_not_found) = ok none
answer map_func (err (failed e)) = err (child_failed (failed e))
answer map_func (ok row) = ok (some (map_func row))

abbrev pub removed :
    {State E : Type 0} → State × Result E Stream → State × Result (MutationError E) StreamNode
removed (db, err e) = (db, err (database e))
removed (db, ok stream) = (db, ok (stream_to_graphql stream))

by_test {ℓ} :
    {A : Type ℓ} (b : Bool) (r x y : A)
    → (b ≡ true → r ≡ x)
    → (b ≡ false → r ≡ y)
    → r ≡ (if b then x else y)
by_test true r x y h k = h refl
by_test false r x y h k = k refl

module _ (kind : Kind) (id : ℕ) (lt : id < 2 ^ 63) where
  accepted :
      (name : Bytes)
      → equal (kind_name kind) name ≡ true
      → decode_model_id name (model_id (kind_name kind) id) ≡ ok id
  accepted name e =
      decode_model_id-model_id name (kind_name kind) id (kind_name-IsName kind) lt ∙ rw e refl

  refused :
      (name : Bytes)
      → equal (kind_name kind) name ≡ false
      → decode_model_id name (model_id (kind_name kind) id) ≡ err (other_type (kind_name kind))
  refused name e =
      decode_model_id-model_id name (kind_name kind) id (kind_name-IsName kind) lt ∙ rw e refl

  get_by_id-kind :
      {Row Node : Type 0} (T : KeyedTable Row) (map_func : Row → Node) (db : T.State)
      → get_by_id T map_func (model_id (kind_name kind) id) db ≡ (
          if equal (kind_name kind) T.type_name
          then answer map_func (T.first id db)
          else err (bad_id (other_type (kind_name kind))))
  unfolding get_by_id
  get_by_id-kind {Row} {Node} T map_func db =
      by_test (equal (kind_name kind) T.type_name) _ _ _
        (λ e. rw (accepted T.type_name e, get_by_id) (by_row (T.first id db)))
        (λ e. rw (refused T.type_name e, get_by_id) refl)
    where
      by_row :
          (r : Result (FirstError T.Error) Row)
          → elim r [
            | err e ↦ elim e [
              | record_not_found ↦ ok none
              | failed x ↦ err (child_failed (failed x))
            ]
            | ok row ↦ ok (some (map_func row))
          ]
            ≡ answer map_func r
      by_row (err record_not_found) = refl
      by_row (err (failed x)) = refl
      by_row (ok row) = refl

  module _ {Float64 : Type 0} (seconds : Duration → Float64) (G : Gorm) where
    remove_stream-kind :
        (db : G.State)
        → remove_stream seconds G (model_id (kind_name kind) id) db ≡ (
            if equal (kind_name kind) stream_name
            then removed (G.delete_stream zero_stream id db)
            else (db, err (bad_stream_id (other_type (kind_name kind)))))
    unfolding remove_stream
    remove_stream-kind db =
        by_test (equal (kind_name kind) stream_name) _ _ _
          (λ e.
            rw (accepted stream_name e, remove_stream)
              (by_result (G.delete_stream zero_stream id db)))
          (λ e. rw (refused stream_name e, remove_stream) refl)
      where
        by_result :
            (r : G.State × Result G.Error Stream)
            → elim r.1 [
              | err e ↦ (r.0, err (database e))
              | ok stream ↦ (r.0, ok (stream_to_graphql stream))
            ]
              ≡ removed r
        by_result (db', err e) = refl
        by_result (db', ok stream) = refl

    new_transmissions-kind :
        (interval : Duration)
        → new_transmissions seconds G interval (model_id (kind_name kind) id) ≡ (
            if equal (kind_name kind) stream_name
            then ok (
                transmissions_poller seconds G interval
                  (transmissions_filter seconds G interval id))
            else err (other_type (kind_name kind)))
    unfolding new_transmissions
    new_transmissions-kind interval =
        by_test (equal (kind_name kind) stream_name) _ _ _
          (λ e. rw (accepted stream_name e, new_transmissions) refl)
          (λ e. rw (refused stream_name e, new_transmissions) refl)

    new_transcriptions-kind :
        (interval : Duration)
        → new_transcriptions seconds G interval (model_id (kind_name kind) id) ≡ (
            if equal (kind_name kind) stream_name
            then ok (
                transcriptions_poller seconds G interval
                  (transcriptions_filter seconds G interval id))
            else err (other_type (kind_name kind)))
    unfolding new_transcriptions
    new_transcriptions-kind interval =
        by_test (equal (kind_name kind) stream_name) _ _ _
          (λ e. rw (accepted stream_name e, new_transcriptions) refl)
          (λ e. rw (refused stream_name e, new_transcriptions) refl)

-- An identifier that the API gives out, of a row of any type and with any id that fits into an
-- int64, is taken only for a row of its own type. Where a stream is asked for, the identifier of a
-- stream leads to the lookup, the deletion or the subscription of the row with its id; any other
-- is answered with the error that names its type, and removing changes nothing then. The lookups
-- of chunks and transmissions do the same with theirs.
pub typed_ids :
    {Float64 : Type 0} (seconds : Duration → Float64) (G : Gorm) (interval : Duration) (kind : Kind)
    (id : ℕ) (db : G.State)
    → id < 2 ^ 63
    → let node = model_id (kind_name kind) id in
      let foreign = other_type (kind_name kind) in
      (get_stream_by_id seconds G node db ≡ (
        if equal (kind_name kind) stream_name
        then answer stream_to_graphql (G.streams.first id db)
        else err (bad_id foreign)))
      × (remove_stream seconds G node db ≡ (
          if equal (kind_name kind) stream_name
          then removed (G.delete_stream zero_stream id db)
          else (db, err (bad_stream_id foreign))))
      × (new_transmissions seconds G interval node ≡ (
          if equal (kind_name kind) stream_name
          then ok
              (transmissions_poller seconds G interval (transmissions_filter seconds G interval id))
          else err foreign))
      × (new_transcriptions seconds G interval node ≡ (
          if equal (kind_name kind) stream_name
          then ok (
              transcriptions_poller seconds G interval
                (transcriptions_filter seconds G interval id))
          else err foreign))
      × (get_chunk_by_id seconds G node db ≡ (
          if equal (kind_name kind) chunk_name
          then answer chunk_to_graphql (G.chunks.first id db)
          else err (bad_id foreign)))
      × (get_transmission_by_id seconds G node db ≡ (
          if equal (kind_name kind) transmission_name
          then answer (transmission_to_graphql seconds) (G.transmissions.first id db)
          else err (bad_id foreign)))
typed_ids seconds G interval kind id db lt = (
  get_by_id-kind kind id lt (keyed_streams G) stream_to_graphql db,
  remove_stream-kind kind id lt seconds G db,
  new_transmissions-kind kind id lt seconds G interval,
  new_transcriptions-kind kind id lt seconds G interval,
  get_by_id-kind kind id lt (keyed_chunks G) chunk_to_graphql db,
  get_by_id-kind kind id lt (keyed_transmissions G) (transmission_to_graphql seconds) db,
)
