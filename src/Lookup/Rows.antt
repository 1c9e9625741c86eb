-- ===== src/Lookup/Rows.antt =====
-- What the lookups find.
use radio_chatter.Common.{
  ℕ, ◌^◌, ◌<◌, ◌≡◌, ◌≢◌, refl, ◌∙◌, Option, none, some, Bytes, Result, ok, err, equal_self,
}
use radio_chatter.Common.Int.{pos}
use radio_chatter.Blob.{Key, IsKey, LinkError, not_found, other, key_string, Storage, IsStorage}
use radio_chatter.Blob.Keys.{parse_key-key_string}
use radio_chatter.Ids.{model_id, decode_model_id}
use radio_chatter.Ids.RoundTrip.{IsName, decode_model_id-model_id}
use radio_chatter.Lookup.{KeyedTable, or_zero, get_parent_object, UrlError, link_key, signed_url}

-- An identifier that a table has given out is decoded by it.
pub own_id :
    (name : Bytes) (id : ℕ)
    → IsName name
    → id < 2 ^ 63
    → decode_model_id name (model_id name id) ≡ ok id
own_id name id h lt = decode_model_id-model_id name name id h lt ∙ rw (equal_self name) refl

module _ {Child Parent Generated : Type 0} (C : KeyedTable Child) (P : KeyedTable Parent)
    (parent_id : Child → ℕ) (map_func : Parent → Generated) where
  -- For the identifier of a child row that is there, the result is the parent that its foreign
  -- key names, if the query does not fail. If there is no such parent, the result is not an
  -- error but the zero row.
  pub get_parent_object-or_zero :
      (id : ℕ) (child : Child) (parent : Option Parent) (children : C.State) (parents : P.State)
      → IsName C.type_name
      → id < 2 ^ 63
      → C.first id children ≡ ok child
      → P.find (parent_id child) parents ≡ ok parent
      → get_parent_object C P parent_id map_func (model_id C.type_name id) children parents
        ≡ ok (map_func (or_zero C P parent_id map_func parent))
  unfolding get_parent_object
  get_parent_object-or_zero id child parent children parents name lt c p =
      rw (own_id C.type_name id name lt, get_parent_object) (rw c (rw p refl))

module _ (S : Storage) (I : IsStorage S) where
  link_key-held :
      (key : Key) (blobs : S.State)
      → I.Good blobs
      → I.Holds blobs key
      → link_key S (ok key) blobs ≢ ok none
  link_key-held key blobs g h = by_link (S.link key (pos 3600000000000) blobs) refl
    where
      by_link :
          (r : Result (LinkError S.Error) S.Url)
          → S.link key (pos 3600000000000) blobs ≡ r
          → link_key S (ok key) blobs ≢ ok none
      by_link (err not_found) e = absurd (I.link_found key (pos 3600000000000) blobs g h e)
      by_link (err (other x)) e = rw (e, link_key) (λ bad. cc)
      by_link (ok url) e = rw (e, link_key) (λ bad. cc)

  -- The text of a key whose blob the storage holds does not panic, and is not answered with "there
  -- is no such blob".
  pub signed_url-held :
      (key : Key) (blobs : S.State)
      → IsKey key
      → I.Good blobs
      → I.Holds blobs key
      → (r : Result (UrlError S.Error) (Option S.Url)) × (signed_url S (key_string key) blobs
          ≡ some r)
        × (r ≢ ok none)
  unfolding signed_url
  signed_url-held key blobs k g h = (
    link_key S (ok key) blobs,
    rw (parse_key-key_string key k, signed_url) refl,
    link_key-held key blobs g h,
  )
