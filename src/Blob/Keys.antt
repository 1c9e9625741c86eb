-- ===== src/Blob/Keys.antt =====
-- Round trips of keys, and what `ParseKey` does with any text.
use radio_chatter.Common.{
  ℕ, zero, suc, ◌+◌, ◌*◌, ◌/◌, ◌%◌, ◌<◌, ◌≤◌, ◌≡◌, refl, ap, [], ◌∷◌, ◌++◌, none, some, within,
  length, Bytes, All, if◌then◌else◌, arith, ok, ok-injective, map, ◌==◌, Option-cases, Bool-cases,
  ==_iff, subst, inl, inr,
}
use mathlib.Core.Option.{some-injective}
use radio_chatter.Blob.Hex.{
  hex_digit, hex_value, encode, Decoded, done, invalid_byte, odd_length, out_of_range, write_byte,
  room_behind, decode, hex_value-hex_digit,
}
use radio_chatter.Blob.{Key, key_size, IsKey, key_string, check_decoded, parse_key}

decode-encode :
    (room : ℕ) (bytes : Bytes)
    → length bytes ≤ room
    → All (λ b. b < 256) bytes
    → decode room (encode bytes) ≡ done bytes
unfolding decode encode
decode-encode room [] h a = refl
decode-encode zero (b ∷ bytes) h a = absurd (omega arith)
decode-encode (suc room) (b ∷ bytes) h a =
    rw
      (
        hex_value-hex_digit (b / 16) (omega arith),
        hex_value-hex_digit (b % 16) (omega arith),
        decode,
      )
      (rw (decode-encode room bytes (omega arith) a.1) (ap (λ n. done (n ∷ bytes)) (omega arith)))

-- The text of a key of 32 bytes is parsed back to the key.
pub parse_key-key_string : (key : Key) → IsKey key → parse_key (key_string key) ≡ some (ok key)
unfolding parse_key key_string
parse_key-key_string key h =
    rw (decode-encode key_size key (omega (arith, h.size)) h.bytes) (rw h.size)

decode-overflow :
    (room : ℕ) (bytes rest : Bytes)
    → length bytes ≡ suc room
    → All (λ b. b < 256) bytes
    → decode room (encode bytes ++ rest) ≡ out_of_range
unfolding decode encode
decode-overflow room [] rest h a = absurd (omega arith)
decode-overflow zero (b ∷ bytes) rest h a =
    rw (
      hex_value-hex_digit (b / 16) (omega arith),
      hex_value-hex_digit (b % 16) (omega arith),
      decode,
    )
decode-overflow (suc room) (b ∷ bytes) rest h a =
    rw
      (
        hex_value-hex_digit (b / 16) (omega arith),
        hex_value-hex_digit (b % 16) (omega arith),
        decode,
      )
      (rw (decode-overflow room bytes rest (omega arith) a.1))

-- A text that starts with the hex digits of 33 bytes makes `ParseKey` panic, whatever follows them:
-- `hex.Decode` writes behind the end of its buffer of 32 bytes.
pub parse_key-panics :
    (bytes rest : Bytes)
    → length bytes ≡ 33
    → All (λ b. b < 256) bytes
    → parse_key (encode bytes ++ rest) ≡ none
unfolding parse_key
parse_key-panics bytes rest h a = rw (decode-overflow key_size bytes rest h a)

-- The letters of a hex text in lower case.
abbrev pub lower : ℕ → ℕ
lower c = if within b'A' b'F' c then c + 32 else c

hex_value_sound : (c n : ℕ) → hex_value c ≡ some n → (n < 16) × (lower c ≡ hex_digit n)
unfolding hex_value hex_digit
hex_value_sound c n h = (ground arith, ground arith)

abbrev Sound : Bytes → Decoded → Type 0
Sound text (done bytes) = All (λ b. b < 256) bytes × (map lower text ≡ encode bytes)
Sound text d = Unit

pair-Sound :
    (room p q a b : ℕ) (text : Bytes) (d : Decoded)
    → hex_value p ≡ some a
    → hex_value q ≡ some b
    → Sound text d
    → Sound (p ∷ q ∷ text) (write_byte room (a * 16 + b) d)
unfolding encode
pair-Sound zero p q a b text d hp hq s = tt
pair-Sound (suc room) p q a b text (done bytes) hp hq s =
    let (lp, ep) = hex_value_sound p a hp in
    let (lq, eq) = hex_value_sound q b hq in
    let hi : (a * 16 + b) / 16 ≡ a = omega arith in
    let lo : (a * 16 + b) % 16 ≡ b = omega arith in
    ((omega arith, s.0), rw (hi, lo) (rw (ep, eq, s.1)))
pair-Sound (suc room) p q a b text (invalid_byte c) hp hq s = tt
pair-Sound (suc room) p q a b text odd_length hp hq s = tt
pair-Sound (suc room) p q a b text out_of_range hp hq s = tt

decode-Sound : (room : ℕ) (text : Bytes) → Sound text (decode room text)
unfolding decode encode
decode-Sound room [] = (tt, refl)
decode-Sound room (p ∷ []) = elim (Option-cases (hex_value p)) [
  | inl e ↦ rw (e, decode) tt
  | inr (a, e) ↦ rw (e, decode) tt
]
decode-Sound room (p ∷ q ∷ text) = elim (Option-cases (hex_value p)) [
  | inl e ↦ rw (e, decode) tt
  | inr (a, e) ↦ elim (Option-cases (hex_value q)) [
    | inl f ↦ rw (e, f, decode) tt
    | inr (b, f) ↦
        rw (e, f, decode)
          (pair-Sound room p q a b text (decode (room_behind room) text) e f
            (decode-Sound (room_behind room) text))
  ]
]

parsed-IsKey :
    (text : Bytes) (d : Decoded) {key : Key}
    → Sound text d
    → check_decoded d ≡ some (ok key)
    → IsKey key × (map lower text ≡ key_string key)
unfolding key_string
parsed-IsKey text (done bytes) {key} s h = elim (Bool-cases (length bytes == key_size)) [
  | inl e ↦
      let same : bytes ≡ key = ok-injective (some-injective _ _ (rw e at h)) in
      subst (λ k. IsKey k × (map lower text ≡ encode k)) same
        (record { size = (==_iff _ _).0 e; bytes = s.0 }, s.1)
  | inr e ↦ let bad = rw e at h in cc
]
parsed-IsKey text (invalid_byte c) s h = cc
parsed-IsKey text odd_length s h = cc
parsed-IsKey text out_of_range s h = cc

-- Whatever text `ParseKey` accepts, the key has 32 bytes, and its text is the one that was parsed,
-- but for the case of the letters.
pub parse_key_sound :
    (text : Bytes) {key : Key}
    → parse_key text ≡ some (ok key)
    → IsKey key × (map lower text ≡ key_string key)
unfolding parse_key
parse_key_sound text h = parsed-IsKey text (decode key_size text) (decode-Sound key_size text) h
