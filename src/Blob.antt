-- ===== src/Blob.antt =====
-- pkg/blob/storage.go: blob keys, their text, and the interface of a blob storage. `parse_key` is
-- `ParseKey`, over `hex.Decode` into a buffer of 32 bytes, where a panic is `none`.
pub mod Hex
pub mod Keys
use radio_chatter.Common.{
  ℕ, ◌≡◌, ◌≢◌, ◌<◌, Bool, List, [], ◌∷◌, Option, none, some, ◌==◌, length, Bytes, All, Result, ok,
  err, if◌then◌else◌,
}
use radio_chatter.Blob.Hex.{Decoded, done, invalid_byte, odd_length, out_of_range, decode, encode}
use radio_chatter.Common.Int.{ℤ}

-- `sha256.Size`
abbrev pub key_size : ℕ
key_size = 32

-- `[32]byte`
abbrev pub Key : Type 0
Key = Bytes

pub record IsKey (key : Key) : Type 0 where
  pub size : length key ≡ key_size
  pub bytes : All (λ b. b < 256) key

pub data KeyError : Type 0 where
  invalid : ℕ → KeyError
  odd : KeyError
  wrong_size : KeyError

-- `Key.String`
unfoldable pub key_string : Key → Bytes
key_string key = encode key

-- The tests behind `hex.Decode` in `ParseKey`.
abbrev pub check_decoded : Decoded → Option (Result KeyError Key)
check_decoded (done bytes) = some (if length bytes == key_size then ok bytes else err wrong_size)
check_decoded (invalid_byte c) = some (err (invalid c))
check_decoded odd_length = some (err odd)
check_decoded out_of_range = none

unfoldable pub parse_key : Bytes → Option (Result KeyError Key)
parse_key text = check_decoded (decode key_size text)

-- What `Link` fails with: `ErrNotFound`, or anything else.
pub data LinkError (E : Type 0) : Type 0 where
  not_found : LinkError E
  other : E → LinkError E

-- The `Storage` interface, over the state of what lies behind it. `sum` is `KeyForBytes`.
pub record Storage : Type 1 where
  pub State : Type 0
  pub Error : Type 0
  pub Url : Type 0
  pub link : Key → ℤ → State → Result (LinkError Error) Url
  pub store : Bytes → State → State × Result Error Key

-- What a storage promises: in a good state `store` returns the hash of what it was given, which
-- `link` then finds, and which no later `store` loses.
pub record IsStorage (S : Storage) : Type 1 where
  pub hash : Bytes → Key
  pub Good : S.State → Type 0
  pub Holds : S.State → Key → Type 0
  pub store-Good : (content : Bytes) (s : S.State) → Good s → Good (S.store content s).0
  pub store-Holds :
      (content : Bytes) (s : S.State) {key : Key}
      → Good s
      → (S.store content s).1 ≡ ok key
      → (key ≡ hash content) × IsKey key × Holds (S.store content s).0 key
  pub store-keeps :
      (content : Bytes) (s : S.State) (key : Key)
      → Good s
      → Holds s key
      → Holds (S.store content s).0 key
  pub link_found :
      (key : Key) (valid : ℤ) (s : S.State)
      → Good s
      → Holds s key
      → S.link key valid s ≢ err not_found
