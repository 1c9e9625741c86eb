-- ===== src/Ids/RoundTrip.antt =====
-- Reading identifiers back.
use radio_chatter.Common.{
  ℕ, suc, ◌-◌, ◌^◌, ◌<◌, ◌≡◌, ◌≢◌, refl, ◌∙◌, [], ◌∷◌, ◌++◌, some, Bytes, All, All-append, equal,
  equal_self, ok, err, if◌then◌else◌, arith,
}
use radio_chatter.Base64.{encode64}
use radio_chatter.Base64.RoundTrip.{decode64-encode64}
use radio_chatter.Ids.{other_type, model_id, split_hash, check_pieces, decode_model_id}
use radio_chatter.Ids.Decimal.{format, atoi-format, atoi_minus, format-bytes}

-- The name of a Go type.
abbrev pub IsName : Bytes → Type 0
IsName = All (λ c. (c < 256) × (c ≢ b'#'))

split_hash-append :
    (name text : Bytes) → IsName name → split_hash (name ++ (b'#' ∷ text)) ≡ some (name, text)
unfolding split_hash
split_hash-append [] text h = refl
split_hash-append (c ∷ name) text h = rw (split_hash-append name text h.1) (ground (arith, h.0.1))

name_bytes : (name : Bytes) → IsName name → All (λ c. c < 256) name
name_bytes [] h = tt
name_bytes (c ∷ name) h = (h.0.0, name_bytes name h.1)

-- What is decoded of a name, a `#` and a text.
decode_text :
    (name other text : Bytes)
    → IsName other
    → All (λ c. c < 256) text
    → decode_model_id name (encode64 (other ++ (b'#' ∷ text)))
      ≡ check_pieces name (some (other, text))
unfolding decode_model_id
decode_text name other text h b =
    rw
      (
        decode64-encode64 (other ++ (b'#' ∷ text))
            (All-append (λ c. c < 256) other (b'#' ∷ text) (name_bytes other h) (omega arith, b)),
        decode_model_id,
      )
      (rw (split_hash-append other text h) refl)

-- The identifier of a row, made for a type whose name has no `#`, gives the row's id when it is
-- read as one of the same type, if the id fits into an int64; read as one of another type it is
-- refused.
pub decode_model_id-model_id :
    (name other : Bytes) (id : ℕ)
    → IsName other
    → id < 2 ^ 63
    → decode_model_id name (model_id other id)
      ≡ (if equal other name then ok id else err (other_type other))
unfolding model_id
decode_model_id-model_id name other id h lt =
    decode_text name other (format id) h (format-bytes id) ∙ rw (atoi-format id lt) refl

-- A negative number in an identifier is accepted: for a type whose name has no `#`, the number
-- -(n + 1) is read as the id 2^64 - 1 - n.
pub negative_id :
    (name : Bytes) (n : ℕ)
    → IsName name
    → n < 2 ^ 63
    → decode_model_id name (encode64 (name ++ (b'#' ∷ b'-' ∷ format (suc n)))) ≡ ok (2 ^ 64 - 1 - n)
negative_id name n h lt =
    decode_text name name (b'-' ∷ format (suc n)) h (omega arith, format-bytes (suc n))
    ∙ rw (atoi_minus n lt, equal_self name) refl
