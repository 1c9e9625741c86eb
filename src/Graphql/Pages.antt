-- ===== src/Graphql/Pages.antt =====
-- A client of the API that follows the pages of a resolver, and the way back from what it gets.
use radio_chatter.Common.{
  ℕ, min, ap, zero, suc, ◌^◌, ◌<◌, ◌≡◌, refl, ◌∙◌, Bool, true, false, Bool-cases, inl, inr, List,
  [], ◌∷◌, ◌++◌, map, Option, none, some, length, All, Bytes, Result, ok, err, if◌then◌else◌, arith,
}
use radio_chatter.Common.Int.{ℤ, pos, ltb_ℤ}
use radio_chatter.Duration.{Duration}
use radio_chatter.Ffmpeg.{Time}
use radio_chatter.Models.{Stream, Chunk}
use radio_chatter.Ids.RoundTrip.{IsName}
use radio_chatter.Lookup.Rows.{own_id, get_parent_object-or_zero}
use radio_chatter.Paging.{Table, Paginator, PageInfo, PageError, page, page_size, prepend, walk}
use radio_chatter.Paging.Order.{All-member, All-members}
use radio_chatter.Paging.Walk.{Fits, Serves, Gathers, walk-Gathers}
use radio_chatter.Graphql.Nodes.{Connection, stream_name, stream_to_graphql, chunk_to_graphql}
use radio_chatter.Graphql.Gorm.{everything, Gorm, keyed_streams, keyed_chunks, paged_chunks}
use radio_chatter.Graphql.Resolvers.{make_conn, chunks_paginator, stream_chunks, chunk_stream}

abbrev put_before : {Node : Type 0} → List Node → Option (List Node) → Option (List Node)
put_before edges none = none
put_before edges (some more) = some (edges ++ more)

-- A client that asks for the first page and then for those behind the end cursors, as long as there
-- is a next page; `none` if a page fails, or the fuel does not suffice.
module _ {E Node : Type 0} where
  unfoldable pub follow :
      ℕ → (Option Bytes → Result E (Connection Node)) → Option Bytes → Option (List Node)
  follow zero ask after = none
  follow (suc fuel) ask after =
      let next : Option Bytes → Option (List Node) = λ cursor. follow fuel ask cursor in
      elim (ask after) [
        | err e ↦ none
        | ok conn ↦
            if conn.page_info.has_next_page
            then put_before conn.edges (next conn.page_info.end_cursor)
            else some conn.edges
      ]

module _ {Row Node : Type 0} (T : Table Row) (p : Paginator Row Node) (count : ℤ)
    (db : T.State) where
  put_before-prepend :
      (more : Bool) (edges : List Node) (xs ys : Option (List Node))
      → xs ≡ ys
      → (if more then put_before edges xs else some edges)
        ≡ (if more then prepend T p edges ys else some edges)
  put_before-prepend true edges none ys e = rw (← e) refl
  put_before-prepend true edges (some more) ys e = rw (← e) refl
  put_before-prepend false edges xs ys e = refl

  -- Following a resolver that answers with the pages of a paginator.
  follow-walk :
      (ask : Option Bytes → Result (PageError T.Error) (Connection Node))
      → ((after : Option Bytes) → ask after ≡ make_conn (page T p after count db))
      → (fuel : ℕ) (after : Option Bytes) → follow fuel ask after ≡ walk T p fuel after count db
  unfolding follow walk
  follow-walk ask pages zero after = refl
  follow-walk ask pages (suc fuel) after =
      rw (pages after, follow) (by_page (follow-walk ask pages fuel) (page T p after count db))
    where
      by_page :
          ((cursor : Option Bytes) → follow fuel ask cursor ≡ walk T p fuel cursor count db)
          → (r : Result (PageError T.Error) (List Node × PageInfo))
          → elim (make_conn r) [
            | err e ↦ none
            | ok conn ↦
                if conn.page_info.has_next_page
                then put_before conn.edges (follow fuel ask conn.page_info.end_cursor)
                else some conn.edges
          ]
            ≡ elim r [
              | err e ↦ none
              | ok c ↦
                  if c.1.has_next_page
                  then prepend T p c.0 (walk T p fuel c.1.end_cursor count db)
                  else some c.0
            ]
      by_page ih (err e) = refl
      by_page ih (ok (edges, info)) =
          put_before-prepend info.has_next_page edges _ _ (ih info.end_cursor)

module _ {Row Node : Type 0} (T : Table Row) (p : Paginator Row Node) (db : T.State) where
  page_size-min :
      (n : ℕ) → p.limit ≡ pos 30 → 0 < n → (page_size T p (pos n) ≡ pos (min n 30)) × (0 < min n 30)
  page_size-min n limit h = elim (Bool-cases (ltb_ℤ (pos 30) (pos n))) [
    | inl big ↦ (rw limit (rw big (ap pos (bounded big))), omega arith)
    | inr small ↦ (rw limit (rw small (ap pos (unbounded small))), omega arith)
  ]
    where
      bounded : ltb_ℤ (pos 30) (pos n) ≡ true → 30 ≡ min n 30
      bounded big = ground arith

      unbounded : ltb_ℤ (pos 30) (pos n) ≡ false → n ≡ min n 30
      unbounded small = ground arith

  -- Following a resolver that answers with the pages of a paginator.
  pub follow-Gathers :
      (ask : Option Bytes → Result (PageError T.Error) (Connection Node)) (rows : List Row) (n : ℕ)
      → ((after : Option Bytes) → ask after ≡ make_conn (page T p after (pos n) db))
      → p.limit ≡ pos 30
      → 0 < n
      → Serves T p rows db
      → IsName T.type_name
      → Fits T p rows
      → (got : List Row) × (follow (suc (length rows)) ask none ≡ some (map p.map_model got))
        × Gathers T p (min n 30) rows got
  follow-Gathers ask rows n pages limit h serves name fits =
      let (size, positive) = page_size-min n limit h in
      let (got, walked, gathers) =
        walk-Gathers T p rows db (pos n) (min n 30) size positive serves name fits in
      (got, follow-walk T p (pos n) db ask pages (suc (length rows)) none ∙ walked, gathers)

module _ {Float64 : Type 0} (seconds : Duration → Float64) (G : Gorm) (db : G.State) where
  -- The rows of the chunks of a stream, as the table of chunks finds them by their ids.
  abbrev pub ChunksOf : Stream → List Chunk → Type 0
  ChunksOf s = All (λ c. (G.chunks.first c.id db ≡ ok c) × (c.stream_id ≡ s.id))

  pub chunk_stream-back :
      (s : Stream) (c : Chunk)
      → c.id < 2 ^ 63
      → G.streams.find s.id db ≡ ok (some s)
      → G.chunks.first c.id db ≡ ok c
      → c.stream_id ≡ s.id
      → chunk_stream seconds G (chunk_to_graphql c) db ≡ ok (stream_to_graphql s)
  unfolding chunk_stream
  chunk_stream-back s c lt there child key =
      get_parent_object-or_zero (keyed_chunks G) (keyed_streams G) (λ c. c.stream_id)
        stream_to_graphql c.id c (some s) db db (ground arith) lt child (rw key there)

  chunks_lead_back :
      (s : Stream) (got : List Chunk)
      → G.streams.find s.id db ≡ ok (some s)
      → All (λ c. (c.id < 2 ^ 63) × (G.chunks.first c.id db ≡ ok c) × (c.stream_id ≡ s.id)) got
      → All
          (λ node. chunk_stream seconds G node db ≡ ok (stream_to_graphql s))
          (map chunk_to_graphql got)
  chunks_lead_back s [] there of = tt
  chunks_lead_back s (c ∷ got) there ((small, first, key), others) =
      (chunk_stream-back s c small there first key, chunks_lead_back s got there others)

  stream_chunks-page :
      (s : Stream) (after : Option Bytes) (created_after : Option Time) (count : ℤ)
      → s.id < 2 ^ 63
      → stream_chunks seconds G (stream_to_graphql s) after created_after count db
        ≡ make_conn (
            page
              (paged_chunks G everything)
              (chunks_paginator seconds G s.id created_after)
              after
              count
              db)
  unfolding stream_chunks
  stream_chunks-page s after created_after count lt =
      rw (own_id stream_name s.id (ground arith) lt, stream_chunks) refl

  -- If the table of chunks answers the pages of a stream from `rows`, in any order, whose ids fit into
  -- an int64, then a client that asks for pages of at least one chunk, and follows the end cursors,
  -- comes to an end, with at most one page more than there are chunks, and without an error. It gets
  -- nothing but chunks of the stream, and if there are fewer than it asks for, and than 30, it gets
  -- every one; and the stream of each of them is the stream that it started from.
  pub stream_chunks-Gathers :
      (s : Stream) (rows : List Chunk) (created_after : Option Time) (n : ℕ)
      → 0 < n
      → s.id < 2 ^ 63
      → G.streams.find s.id db ≡ ok (some s)
      → ChunksOf s rows
      → Serves (paged_chunks G everything) (chunks_paginator seconds G s.id created_after) rows db
      → Fits (paged_chunks G everything) (chunks_paginator seconds G s.id created_after) rows
      → (got : List Chunk) × (follow
            (suc (length rows))
            (λ after. stream_chunks seconds G (stream_to_graphql s) after created_after (pos n) db)
            none
          ≡ some (map chunk_to_graphql got))
        × Gathers
            (paged_chunks G everything)
            (chunks_paginator seconds G s.id created_after)
            (min n 30)
            rows
            got
        × All
            (λ node. chunk_stream seconds G node db ≡ ok (stream_to_graphql s))
            (map chunk_to_graphql got)
  stream_chunks-Gathers s rows created_after n h lt there of serves fits =
      let (got, followed, gathers) =
        follow-Gathers (paged_chunks G everything) (chunks_paginator seconds G s.id created_after)
          db (λ after. stream_chunks seconds G (stream_to_graphql s) after created_after (pos n) db)
          rows n (λ after. stream_chunks-page s after created_after (pos n) lt) refl h serves
          (ground arith) fits in
      (
        got,
        followed,
        gathers,
        chunks_lead_back s got there (
            All-members
              (λ c. (c.id < 2 ^ 63) × (G.chunks.first c.id db ≡ ok c) × (c.stream_id ≡ s.id)) got
              (λ c m.
                let here = gathers.only c m in
                let (first, key) =
                  All-member (λ c. (G.chunks.first c.id db ≡ ok c) × (c.stream_id ≡ s.id)) rows c of
                    here in
                (All-member (λ c. c.id < 2 ^ 63) rows c fits here, first, key))),
      )
