-- ===== src/Blob/Hex.antt =====
-- `encoding/hex` as pkg/blob/storage.go uses it.
use radio_chatter.Common.{
  ℕ, zero, suc, ◌+◌, ◌-◌, ◌*◌, ◌/◌, ◌%◌, ◌<◌, ◌≡◌, [], ◌∷◌, Option, none, some, ltb, within, Bytes,
  if◌then◌else◌, arith,
}

-- One hex digit, in lower case.
unfoldable pub hex_digit : ℕ → ℕ
hex_digit n = if ltb n 10 then b'0' + n else b'a' + (n - 10)

-- `reverseHexTable`, which has both cases.
unfoldable pub hex_value : ℕ → Option ℕ
hex_value c =
    if within b'0' b'9' c
    then some (c - b'0')
    else if within b'a' b'f' c
    then some (c - b'a' + 10)
    else if within b'A' b'F' c
    then some (c - b'A' + 10)
    else none

-- `hex.EncodeToString`
unfoldable pub encode : Bytes → Bytes
encode [] = []
encode (b ∷ bytes) = hex_digit (b / 16) ∷ hex_digit (b % 16) ∷ encode bytes

-- What `hex.Decode` does: all bytes, an `InvalidByteError`, `ErrLength`, or a write behind the end
-- of the destination, which panics.
pub data Decoded : Type 0 where
  done : Bytes → Decoded
  invalid_byte : ℕ → Decoded
  odd_length : Decoded
  out_of_range : Decoded

abbrev pub prepend : ℕ → Decoded → Decoded
prepend b (done bytes) = done (b ∷ bytes)
prepend b d = d

-- The byte that is written where there is room for `room` more, and the rest.
abbrev pub write_byte : ℕ → ℕ → Decoded → Decoded
write_byte zero b rest = out_of_range
write_byte (suc room) b rest = prepend b rest

abbrev pub room_behind : ℕ → ℕ
room_behind zero = zero
room_behind (suc room) = room

-- `hex.Decode` into a buffer with room for `room` bytes.
unfoldable pub decode : ℕ → Bytes → Decoded
decode room [] = done []
decode room (p ∷ []) = elim (hex_value p) [ none ↦ invalid_byte p | some a ↦ odd_length ]
decode room (p ∷ q ∷ text) =
    let rest = decode (room_behind room) text in
    elim (hex_value p) [
      | none ↦ invalid_byte p
      | some a ↦ elim (hex_value q) [
        | none ↦ invalid_byte q
        | some b ↦ write_byte room (a * 16 + b) rest
      ]
    ]

pub hex_value-hex_digit : (n : ℕ) → n < 16 → hex_value (hex_digit n) ≡ some n
unfolding hex_value hex_digit
hex_value-hex_digit n h = ground arith
