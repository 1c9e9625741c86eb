-- ===== src/Tests/Blob.antt =====
-- A key of 32 bytes, its text, and a text that is too long.
use radio_chatter.Common.{
  ◌<◌, ◌≡◌, refl, [], ◌∷◌, ◌++◌, none, some, arith, Bytes, codes, All, map, ok,
}
use radio_chatter.Blob.{IsKey, key_string, parse_key, Key}
use radio_chatter.Blob.Hex.{encode, hex_value, decode}
use radio_chatter.Blob.Keys.{lower, parse_key-key_string, parse_key-panics, parse_key_sound}

abbrev half : Bytes
half = 0 ∷ 17 ∷ 34 ∷ 51 ∷ 68 ∷ 85 ∷ 102 ∷ 119 ∷ 136 ∷ 153 ∷ 170 ∷ 187 ∷ 204 ∷ 221 ∷ 238 ∷ 255 ∷ []

abbrev half_text : Bytes
half_text = codes "00112233445566778899AABBCCDDeeff"

abbrev half_All : All (λ b. b < 256) half
half_All = omega arith

abbrev some_key : Key
some_key = half ++ half

abbrev some_key_All : All (λ b. b < 256) some_key
some_key_All = omega arith

parse_key-key_string_example : parse_key (key_string some_key) ≡ some (ok some_key)
parse_key-key_string_example =
    parse_key-key_string some_key (record { size = refl; bytes = some_key_All })

parsed : parse_key (half_text ++ half_text) ≡ some (ok some_key)
unfolding parse_key decode hex_value
parsed = refl

parse_key_sound_example :
    IsKey some_key × (map lower (half_text ++ half_text) ≡ key_string some_key)
parse_key_sound_example = parse_key_sound (half_text ++ half_text) parsed

parse_key-panics_example : parse_key (encode (7 ∷ some_key) ++ codes "!") ≡ none
parse_key-panics_example =
    parse_key-panics (7 ∷ some_key) (codes "!") refl (omega arith, some_key_All)
