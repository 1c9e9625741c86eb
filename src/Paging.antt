-- ===== src/Paging.antt =====
-- pkg/graphql/pagination.go: `paginator.Page`, over a table whose query is a parameter.
pub mod Order
pub mod Walk
pub mod Newest
use radio_chatter.Common.{
  ℕ, zero, suc, ◌≡◌, Bool, true, false, ◌&&◌, List, [], ◌∷◌, ◌++◌, map, Option, none, some, last?,
  length, Bytes, Result, ok, err, if◌then◌else◌,
}
use radio_chatter.Common.Int.{ℤ, pos, ltb_ℤ}
use radio_chatter.Ffmpeg.{Time}
use radio_chatter.Ids.{IdError, model_id, decode_model_id}

-- What the query asks for: `Limit`, and the conditions on the id, the fields and the creation.
pub record Query (Row : Type 0) : Type 0 where
  pub limit : ℤ
  pub after : Option ℕ
  pub filter : Option Row
  pub created_after : Option Time

-- A table: the name of the model's type, its primary key, and `db.Find`. What `BeforeQuery` adds
-- is part of `find`.
pub record Table (Row : Type 0) : Type 1 where
  pub State : Type 0
  pub Error : Type 0
  pub type_name : Bytes
  pub id_of : Row → ℕ
  pub find : Query Row → State → Result Error (List Row)

pub record Paginator (Row Generated : Type 0) : Type 0 where
  pub map_model : Row → Generated
  pub filter : Option Row
  pub created_after : Option Time
  pub limit : ℤ

pub record PageInfo : Type 0 where
  pub has_next_page : Bool
  pub length_of_page : ℤ
  pub end_cursor : Option Bytes

pub data PageError (E : Type 0) : Type 0 where
  invalid_id : IdError → PageError E
  not_found : E → PageError E

module _ {Row Generated : Type 0} (T : Table Row) (p : Paginator Row Generated) where
  -- Users cannot ask for more than the limit, if there is one.
  abbrev pub page_size : ℤ → ℤ
  page_size count = if ltb_ℤ (pos 0) p.limit && ltb_ℤ p.limit count then p.limit else count

  abbrev pub query : ℤ → Option ℕ → Query Row
  query count after = record {
    limit = page_size count;
    after = after;
    filter = p.filter;
    created_after = p.created_after;
  }

  abbrev pub end_cursor_of : List Row → Option Bytes
  end_cursor_of items = elim (last? items) [
    | none ↦ none
    | some item ↦ some (model_id T.type_name (T.id_of item))
  ]

  -- `len(items) >= count`
  abbrev pub page_info : ℤ → List Row → PageInfo
  page_info size items = record {
    has_next_page = if ltb_ℤ (pos (length items)) size then false else true;
    length_of_page = pos (length items);
    end_cursor = end_cursor_of items;
  }

  abbrev pub run_query :
      ℤ → Option ℕ → T.State → Result (PageError T.Error) (List Generated × PageInfo)
  run_query count after db = elim (T.find (query count after) db) [
    | err e ↦ err (not_found e)
    | ok items ↦ ok (map p.map_model items, page_info (page_size count) items)
  ]

  -- `Page`
  unfoldable pub page :
      Option Bytes → ℤ → T.State → Result (PageError T.Error) (List Generated × PageInfo)
  page none count db = run_query count none db
  page (some cursor) count db = elim (decode_model_id T.type_name cursor) [
    | err e ↦ err (invalid_id e)
    | ok id ↦ run_query count (some id) db
  ]

  -- A client that follows the cursors as long as there is a next page; `none` if a page fails, or
  -- the fuel does not suffice.
  abbrev pub prepend : List Generated → Option (List Generated) → Option (List Generated)
  prepend edges none = none
  prepend edges (some more) = some (edges ++ more)

  unfoldable pub walk : ℕ → Option Bytes → ℤ → T.State → Option (List Generated)
  walk zero after count db = none
  walk (suc fuel) after count db =
      let next : Option Bytes → Option (List Generated) = λ cursor. walk fuel cursor count db in
      elim (page after count db) [
        | err e ↦ none
        | ok (edges, info) ↦
            if info.has_next_page then prepend edges (next info.end_cursor) else some edges
      ]
