-- ===== src/Ids.antt =====
-- pkg/graphql/helpers.go: `modelId` and `decodeModelId`. `name` is the name of the row's type, which
-- `reflect` gives; an id is a uint of 64 bits.
pub mod Decimal
pub mod RoundTrip
use radio_chatter.Common.{
  ℕ, ◌+◌, ◌-◌, ◌*◌, ◌^◌, ◌<◌, ◌≡◌, List, [], ◌∷◌, ◌++◌, Option, none, some, ◌==◌, ltb, leb, within,
  Bytes, equal, Result, ok, err, if◌then◌else◌,
}
use radio_chatter.Common.Int.{ℤ, pos, negsuc}
use radio_chatter.Base64.{encode64, decode64}
use radio_chatter.Ids.Decimal.{format, atoi}

pub data IdError : Type 0 where
  not_base64 : IdError
  bad_format : IdError
  other_type : Bytes → IdError
  not_a_number : IdError

-- `fmt.Sprintf("%s#%d", t.Name(), model.ID)`, encoded.
unfoldable pub model_id : Bytes → ℕ → Bytes
model_id name id = encode64 (name ++ (b'#' ∷ format id))

-- `strings.SplitN(s, "#", 2)`, if it gives two pieces.
abbrev pub add_front : ℕ → Option (Bytes × Bytes) → Option (Bytes × Bytes)
add_front c none = none
add_front c (some (front, back)) = some (c ∷ front, back)

unfoldable pub split_hash : Bytes → Option (Bytes × Bytes)
split_hash [] = none
split_hash (c ∷ s) = if c == b'#' then some ([], s) else add_front c (split_hash s)

-- `uint(id)`
abbrev pub to_uint : ℤ → ℕ
to_uint (pos n) = n
to_uint (negsuc n) = 2 ^ 64 - 1 - n

-- The tests behind `SplitN`.
abbrev pub check_pieces : Bytes → Option (Bytes × Bytes) → Result IdError ℕ
check_pieces name none = err bad_format
check_pieces name (some (type_name, raw_id)) =
    if equal type_name name
    then elim (atoi raw_id) [ none ↦ err not_a_number | some id ↦ ok (to_uint id) ]
    else err (other_type type_name)

unfoldable pub decode_model_id : Bytes → Bytes → Result IdError ℕ
decode_model_id name encoded = elim (decode64 encoded) [
  | none ↦ err not_base64
  | some s ↦ check_pieces name (split_hash s)
]
