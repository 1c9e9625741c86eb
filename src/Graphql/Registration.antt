-- ===== src/Graphql/Registration.antt =====
-- A stream that is registered, looked up and removed.
use radio_chatter.Common.{ℕ, ◌^◌, ◌<◌, ◌≡◌, refl, ap, ◌∙◌, none, some, ok, err, arith}
use radio_chatter.Duration.{Duration}
use radio_chatter.Models.{Stream}
use radio_chatter.Ids.{model_id}
use radio_chatter.Lookup.{record_not_found, get_by_id}
use radio_chatter.Lookup.Rows.{own_id}
use radio_chatter.Graphql.Nodes.{StreamNode, stream_name, stream_to_graphql}
use radio_chatter.Graphql.Gorm.{Gorm, zero_stream}
use radio_chatter.Graphql.Resolvers.{
  RegisterStreamVariables, register_stream, remove_stream, get_stream_by_id,
}

-- What the database does with streams: `Save` fills in the primary key and the times, and the row is
-- found under its key from then on; `Delete` leaves the struct that it was given as it was, and
-- the row is not found any more.
pub record KeepsStreams (G : Gorm) : Type 0 where
  pub saves :
      (s s' : Stream) (db db' : G.State)
      → G.save_stream s db ≡ (db', ok s')
      → (s' ≡ record s { id = s'.id; created_at = s'.created_at; updated_at = s'.updated_at })
        × (G.streams.first s'.id db' ≡ ok s')
  pub deletes :
      (s s' : Stream) (id : ℕ) (db db' : G.State)
      → G.delete_stream s id db ≡ (db', ok s')
      → (s' ≡ s) × (G.streams.first id db' ≡ err record_not_found)

module _ {Float64 : Type 0} (seconds : Duration → Float64) (G : Gorm) (K : KeepsStreams G) where
  -- The row that is saved for an input.
  abbrev pub asked : RegisterStreamVariables → Stream
  asked input = record zero_stream { display_name = input.display_name; url = input.url }

  register_stream-saved :
      (input : RegisterStreamVariables) (s : Stream) (db db' : G.State)
      → G.save_stream (asked input) db ≡ (db', ok s)
      → register_stream seconds G input db ≡ (db', ok (stream_to_graphql s))
  unfolding register_stream
  register_stream-saved input s db db' e =
      rw (e, register_stream) (ap (λ p. (p.0, ok (stream_to_graphql s))) e)

  found_by_id :
      (s : Stream) (db : G.State)
      → s.id < 2 ^ 63
      → G.streams.first s.id db ≡ ok s
      → get_stream_by_id seconds G (stream_to_graphql s).id db ≡ ok (some (stream_to_graphql s))
  unfolding get_by_id
  found_by_id s db lt e = rw (own_id stream_name s.id (ground arith) lt, get_by_id) (rw e refl)

  gone_by_id :
      (id : ℕ) (db : G.State)
      → id < 2 ^ 63
      → G.streams.first id db ≡ err record_not_found
      → get_stream_by_id seconds G (model_id stream_name id) db ≡ ok none
  unfolding get_by_id
  gone_by_id id db lt e = rw (own_id stream_name id (ground arith) lt, get_by_id) (rw e refl)

  remove_stream-deleted :
      (id : ℕ) (s : Stream) (db db' : G.State)
      → id < 2 ^ 63
      → G.delete_stream zero_stream id db ≡ (db', ok s)
      → remove_stream seconds G (model_id stream_name id) db ≡ (db', ok (stream_to_graphql s))
  unfolding remove_stream
  remove_stream-deleted id s db db' lt e =
      rw (own_id stream_name id (ground arith) lt, remove_stream)
        (rw e (ap (λ p. (p.0, ok (stream_to_graphql s))) e))

  -- If the database keeps the streams, and `RegisterStream` is answered, the answer has the name and
  -- the url that were asked for, and a lookup of the identifier in it gives the same answer, if
  -- the id of the row fits into an int64.
  pub register_stream-get_stream_by_id :
      (input : RegisterStreamVariables) (s : Stream) (db db' : G.State)
      → G.save_stream (asked input) db ≡ (db', ok s)
      → s.id < 2 ^ 63
      → (node : StreamNode) × (register_stream seconds G input db ≡ (db', ok node))
        × (node.display_name ≡ input.display_name)
        × (node.url ≡ input.url)
        × (get_stream_by_id seconds G node.id db' ≡ ok (some node))
  register_stream-get_stream_by_id input s db db' saved lt =
      let (filled, found) = K.saves (asked input) s db db' saved in
      (
        stream_to_graphql s,
        register_stream-saved input s db db' saved,
        ap (λ x. x.display_name) filled,
        ap (λ x. x.url) filled,
        found_by_id s db' lt found,
      )

  -- If the database keeps the streams and deletes the row, the stream is not found any more after
  -- `RemoveStream`; but the answer is not that stream, whatever it was: it is the zero stream.
  pub remove_stream-zero :
      (id : ℕ) (s : Stream) (db db' : G.State)
      → id < 2 ^ 63
      → G.delete_stream zero_stream id db ≡ (db', ok s)
      → (remove_stream seconds G (model_id stream_name id) db
          ≡ (db', ok (stream_to_graphql zero_stream)))
        × (get_stream_by_id seconds G (model_id stream_name id) db' ≡ ok none)
  remove_stream-zero id s db db' lt e =
      let (same, gone) = K.deletes zero_stream s id db db' e in
      (
        remove_stream-deleted id s db db' lt e ∙ ap (λ x. (db', ok (stream_to_graphql x))) same,
        gone_by_id id db' lt gone,
      )
