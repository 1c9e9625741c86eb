-- ===== src/Base64.antt =====
-- `base64.StdEncoding`, as the identifiers of pkg/graphql/helpers.go use it. Where in the text a
-- decoding fails is left out.
pub mod RoundTrip
use radio_chatter.Common.{
  ℕ, ◌+◌, ◌-◌, ◌*◌, ◌/◌, ◌%◌, ◌<◌, ◌≡◌, refl, ap, Bool, true, false, ◌||◌, ◌&&◌, List, [], ◌∷◌,
  ◌++◌, Option, none, some, ltb, within, ◌==◌, Bytes, All, if◌then◌else◌, arith,
}
use mathlib.Core.Option

unfoldable pub symbol : ℕ → ℕ
symbol n =
    if ltb n 26
    then b'A' + n
    else if ltb n 52
    then b'a' + (n - 26)
    else if ltb n 62
    then b'0' + (n - 52)
    else if n == 62
    then b'+'
    else b'/'

unfoldable pub symbol_value : ℕ → Option ℕ
symbol_value c =
    if within b'A' b'Z' c
    then some (c - b'A')
    else if within b'a' b'z' c
    then some (c - b'a' + 26)
    else if within b'0' b'9' c
    then some (c - b'0' + 52)
    else if c == b'+'
    then some 62
    else if c == b'/'
    then some 63
    else none

-- `EncodeToString`: three bytes are four symbols, and `=` fills the last four up.
unfoldable pub encode64 : Bytes → Bytes
encode64 [] = []
encode64 (x ∷ []) = symbol (x / 4) ∷ symbol (x % 4 * 16) ∷ b'=' ∷ b'=' ∷ []
encode64 (x ∷ y ∷ []) =
    symbol (x / 4) ∷ symbol (x % 4 * 16 + y / 16) ∷ symbol (y % 16 * 4) ∷ b'=' ∷ []
encode64 (x ∷ y ∷ z ∷ bytes) =
    symbol (x / 4)
    ∷ symbol (x % 4 * 16 + y / 16)
    ∷ symbol (y % 16 * 4 + z / 64)
    ∷ symbol (z % 64)
    ∷ encode64 bytes

-- The bytes of four symbols, of which the last or the last two may be missing. The bits that are
-- left over are dropped.
abbrev pub one_byte : Option ℕ → Option ℕ → Option Bytes
one_byte (some a) (some b) = some ((a * 4 + b / 16) ∷ [])
one_byte _ _ = none

abbrev pub two_bytes : Option ℕ → Option ℕ → Option ℕ → Option Bytes
two_bytes (some a) (some b) (some c) = some ((a * 4 + b / 16) ∷ (b % 16 * 16 + c / 4) ∷ [])
two_bytes _ _ _ = none

abbrev pub three_bytes : Option ℕ → Option ℕ → Option ℕ → Option ℕ → Option Bytes → Option Bytes
three_bytes (some a) (some b) (some c) (some d) (some rest) =
    some ((a * 4 + b / 16) ∷ (b % 16 * 16 + c / 4) ∷ (c % 4 * 64 + d) ∷ rest)
three_bytes _ _ _ _ _ = none

-- Four symbols at the end of the text, where `=` may stand.
abbrev pub last_four : ℕ → ℕ → ℕ → ℕ → Option Bytes
last_four p q r s =
    if r == b'=' && s == b'='
    then one_byte (symbol_value p) (symbol_value q)
    else if s == b'='
    then two_bytes (symbol_value p) (symbol_value q) (symbol_value r)
    else three_bytes (symbol_value p) (symbol_value q) (symbol_value r) (symbol_value s) (some [])

-- The text has no line breaks any more.
unfoldable pub decode_groups : Bytes → Option Bytes
decode_groups [] = some []
decode_groups (p ∷ q ∷ r ∷ s ∷ []) = last_four p q r s
decode_groups (p ∷ q ∷ r ∷ s ∷ t ∷ text) =
    three_bytes (symbol_value p) (symbol_value q) (symbol_value r) (symbol_value s)
      (decode_groups (t ∷ text))
decode_groups _ = none

-- Line breaks are ignored wherever they stand.
unfoldable pub without_breaks : Bytes → Bytes
without_breaks [] = []
without_breaks (c ∷ text) =
    if c == 10 || c == 13 then without_breaks text else c ∷ without_breaks text

-- `DecodeString`
unfoldable pub decode64 : Bytes → Option Bytes
decode64 text = decode_groups (without_breaks text)
