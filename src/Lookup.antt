-- ===== src/Lookup.antt =====
-- pkg/graphql/helpers.go: `getByID`, `getParentObject` and `signedURL`. The tables are parameters.
pub mod Rows
use radio_chatter.Common.{
  ℕ, Bool, true, false, Option, none, some, Bytes, Result, ok, err, if◌then◌else◌,
}
use radio_chatter.Common.Int.{pos}
use radio_chatter.Blob.{Key, KeyError, LinkError, not_found, other, parse_key, Storage}
use radio_chatter.Ids.{IdError, decode_model_id}

-- A table by its primary key: `db.First`, whose error is `gorm.ErrRecordNotFound` if there is no such
-- row, and `db.Find` into a zero value, which is no error then.
pub data FirstError (E : Type 0) : Type 0 where
  record_not_found : FirstError E
  failed : E → FirstError E

pub record KeyedTable (Row : Type 0) : Type 1 where
  pub State : Type 0
  pub Error : Type 0
  pub type_name : Bytes
  pub zero_row : Row
  pub first : ℕ → State → Result (FirstError Error) Row
  pub find : ℕ → State → Result Error (Option Row)

pub data LookupError (C P : Type 0) : Type 0 where
  bad_id : IdError → LookupError C P
  child_failed : FirstError C → LookupError C P
  parent_failed : P → LookupError C P

module _ {Row Generated : Type 0} (T : KeyedTable Row) (map_func : Row → Generated) where
  -- `getByID`: a row that is not there is no error.
  unfoldable pub get_by_id :
      Bytes → T.State → Result (LookupError T.Error T.Error) (Option Generated)
  get_by_id id db = elim (decode_model_id T.type_name id) [
    | err e ↦ err (bad_id e)
    | ok real_id ↦ elim (T.first real_id db) [
      | err record_not_found ↦ ok none
      | err (failed e) ↦ err (child_failed (failed e))
      | ok row ↦ ok (some (map_func row))
    ]
  ]

module _ {Child Parent Generated : Type 0} (C : KeyedTable Child) (P : KeyedTable Parent)
    (parent_id : Child → ℕ) (map_func : Parent → Generated) where
  abbrev pub or_zero : Option Parent → Parent
  or_zero none = P.zero_row
  or_zero (some parent) = parent

  -- `getParentObject`
  unfoldable pub get_parent_object :
      Bytes → C.State → P.State → Result (LookupError C.Error P.Error) Generated
  get_parent_object child_id children parents = elim (decode_model_id C.type_name child_id) [
    | err e ↦ err (bad_id e)
    | ok real_id ↦ elim (C.first real_id children) [
      | err e ↦ err (child_failed e)
      | ok child ↦ elim (P.find (parent_id child) parents) [
        | err e ↦ err (parent_failed e)
        | ok parent ↦ ok (map_func (or_zero parent))
      ]
    ]
  ]

pub data UrlError (E : Type 0) : Type 0 where
  bad_key : KeyError → UrlError E
  no_link : E → UrlError E

module _ (S : Storage) where
  abbrev pub link_key : Result KeyError Key → S.State → Result (UrlError S.Error) (Option S.Url)
  link_key (err e) blobs = err (bad_key e)
  link_key (ok key) blobs = elim (S.link key (pos 3600000000000) blobs) [
    | err not_found ↦ ok none
    | err (other e) ↦ err (no_link e)
    | ok url ↦ ok (some url)
  ]

  -- `signedURL`; a panic of `ParseKey` is `none`.
  unfoldable pub signed_url : Bytes → S.State → Option (Result (UrlError S.Error) (Option S.Url))
  signed_url sha256 blobs = elim (parse_key sha256) [
    | none ↦ none
    | some key ↦ some (link_key key blobs)
  ]
