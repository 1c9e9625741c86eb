-- ===== src/Base64/RoundTrip.antt =====
-- Encoding, and decoding behind it.
use radio_chatter.Common.{
  ℕ, ◌+◌, ◌*◌, ◌/◌, ◌%◌, ◌<◌, ◌≡◌, ◌≢◌, refl, ◌∙◌, false, ◌||◌, [], ◌∷◌, some, ◌==◌, Bytes, All,
  arith,
}
use radio_chatter.Base64.{
  symbol, symbol_value, encode64, three_bytes, decode_groups, without_breaks, decode64,
}

symbol_value-symbol : (n : ℕ) → n < 64 → symbol_value (symbol n) ≡ some n
unfolding symbol_value symbol
symbol_value-symbol n h = ground arith

symbol-not_pad : (n : ℕ) → n < 64 → (symbol n == b'=') ≡ false
unfolding symbol
symbol-not_pad n h = ground arith

symbol-not_break : (n : ℕ) → n < 64 → (symbol n == 10 || symbol n == 13) ≡ false
unfolding symbol
symbol-not_break n h = ground arith

without_breaks-encode64 :
    (bytes : Bytes) → All (λ b. b < 256) bytes → without_breaks (encode64 bytes) ≡ encode64 bytes
unfolding without_breaks encode64
without_breaks-encode64 [] h = refl
without_breaks-encode64 (x ∷ []) h =
    rw (symbol-not_break (x / 4) (omega arith), symbol-not_break (x % 4 * 16) (omega arith)) refl
without_breaks-encode64 (x ∷ y ∷ []) h =
    rw
      (
        symbol-not_break (x / 4) (omega arith),
        symbol-not_break (x % 4 * 16 + y / 16) (omega arith),
        symbol-not_break (y % 16 * 4) (omega arith),
      )
      refl
without_breaks-encode64 (x ∷ y ∷ z ∷ bytes) h =
    rw
      (
        symbol-not_break (x / 4) (omega arith),
        symbol-not_break (x % 4 * 16 + y / 16) (omega arith),
        symbol-not_break (y % 16 * 4 + z / 64) (omega arith),
        symbol-not_break (z % 64) (omega arith),
        without_breaks-encode64 bytes h.1.1.1,
      )
      refl

encode64-ne-nil : (b : ℕ) (bytes : Bytes) → encode64 (b ∷ bytes) ≢ []
unfolding encode64
encode64-ne-nil b [] h = cc
encode64-ne-nil b (c ∷ []) h = cc
encode64-ne-nil b (c ∷ d ∷ bytes) h = cc

group_step :
    (p q r s : ℕ) (text : Bytes)
    → text ≢ []
    → decode_groups (p ∷ q ∷ r ∷ s ∷ text)
      ≡ three_bytes
          (symbol_value p)
          (symbol_value q)
          (symbol_value r)
          (symbol_value s)
          (decode_groups text)
unfolding decode_groups
group_step p q r s [] ne = absurd (ne refl)
group_step p q r s (t ∷ text) ne = refl

-- The four symbols of three bytes.
three_bytes-exact :
    (x y z : ℕ) (rest : Bytes)
    → x < 256
    → y < 256
    → z < 256
    → three_bytes
        (symbol_value (symbol (x / 4)))
        (symbol_value (symbol (x % 4 * 16 + y / 16)))
        (symbol_value (symbol (y % 16 * 4 + z / 64)))
        (symbol_value (symbol (z % 64)))
        (some rest)
      ≡ some (x ∷ y ∷ z ∷ rest)
three_bytes-exact x y z rest hx hy hz =
    let one : x / 4 * 4 + (x % 4 * 16 + y / 16) / 16 ≡ x = omega arith in
    let two : (x % 4 * 16 + y / 16) % 16 * 16 + (y % 16 * 4 + z / 64) / 4 ≡ y = omega arith in
    let three : (y % 16 * 4 + z / 64) % 4 * 64 + z % 64 ≡ z = omega arith in
    rw
      (
        symbol_value-symbol (x / 4) (omega arith),
        symbol_value-symbol (x % 4 * 16 + y / 16) (omega arith),
        symbol_value-symbol (y % 16 * 4 + z / 64) (omega arith),
        symbol_value-symbol (z % 64) (omega arith),
      )
      (rw (one, two, three) refl)

decode_groups-encode64 :
    (bytes : Bytes) → All (λ b. b < 256) bytes → decode_groups (encode64 bytes) ≡ some bytes
unfolding decode_groups encode64
decode_groups-encode64 [] h = refl
decode_groups-encode64 (x ∷ []) h =
    let one : x / 4 * 4 + x % 4 * 16 / 16 ≡ x = omega arith in
    rw (symbol_value-symbol (x / 4) (omega arith), symbol_value-symbol (x % 4 * 16) (omega arith))
      (rw one refl)
decode_groups-encode64 (x ∷ y ∷ []) h =
    let one : x / 4 * 4 + (x % 4 * 16 + y / 16) / 16 ≡ x = omega arith in
    let two : (x % 4 * 16 + y / 16) % 16 * 16 + y % 16 * 4 / 4 ≡ y = omega arith in
    rw
      (
        symbol-not_pad (y % 16 * 4) (omega arith),
        symbol_value-symbol (x / 4) (omega arith),
        symbol_value-symbol (x % 4 * 16 + y / 16) (omega arith),
        symbol_value-symbol (y % 16 * 4) (omega arith),
      )
      (rw (one, two) refl)
decode_groups-encode64 (x ∷ y ∷ z ∷ []) h =
    rw (symbol-not_pad (z % 64) (omega arith), symbol-not_pad (y % 16 * 4 + z / 64) (omega arith))
      (three_bytes-exact x y z [] (omega arith) (omega arith) (omega arith))
decode_groups-encode64 (x ∷ y ∷ z ∷ b ∷ bytes) h =
    group_step (symbol (x / 4)) (symbol (x % 4 * 16 + y / 16)) (symbol (y % 16 * 4 + z / 64))
      (symbol (z % 64)) (encode64 (b ∷ bytes)) (encode64-ne-nil b bytes)
    ∙ rw (decode_groups-encode64 (b ∷ bytes) h.1.1.1)
        (three_bytes-exact x y z (b ∷ bytes) (omega arith) (omega arith) (omega arith))

-- `DecodeString` gives back what `EncodeToString` was given.
pub decode64-encode64 :
    (bytes : Bytes) → All (λ b. b < 256) bytes → decode64 (encode64 bytes) ≡ some bytes
unfolding decode64
decode64-encode64 bytes h = rw (without_breaks-encode64 bytes h) (decode_groups-encode64 bytes h)
