-- ===== src/Regex.antt =====
-- The part of Go's `regexp` that the patterns of pkg/preprocess.go use: literals, classes repeated
-- greedily, an optional group and captures, matched leftmost-first by backtracking. Classes are read
-- byte by byte, which agrees with Go's reading by runes for the classes that occur.
pub mod Laws
use radio_chatter.Common.{
  ℕ, ◌-◌, Bool, true, false, not, ◌&&◌, ◌||◌, List, [], ◌∷◌, Option, none, some, ◌==◌, within,
  length, take, Bytes, if◌then◌else◌,
}
use mathlib.Core.Option

pub data Regex : Type 0 where
  empty : Regex
  lit : ℕ → Regex
  star : (ℕ → Bool) → Regex
  plus : (ℕ → Bool) → Regex
  seq : Regex → Regex → Regex
  opt : Regex → Regex
  capture : Regex → Regex

-- The classes `\d`, `\w`, `\s`, `\S` and `.`
abbrev pub is_digit : ℕ → Bool
is_digit = within b'0' b'9'

abbrev pub is_word : ℕ → Bool
is_word c = is_digit c || within b'A' b'Z' c || within b'a' b'z' c || c == b'_'

abbrev pub is_space : ℕ → Bool
is_space c = c == 9 || c == 10 || c == 12 || c == 13 || c == 32

abbrev pub not_space : ℕ → Bool
not_space c = not (is_space c)

abbrev pub not_newline : ℕ → Bool
not_newline c = not (c == 10)

-- A literal text.
abbrev pub text : Bytes → Regex
text [] = empty
text (c ∷ []) = lit c
text (c ∷ d ∷ cs) = seq (lit c) (text (d ∷ cs))

-- The captures of a match, in order.
abbrev pub Captures : Type 0
Captures = Option (List Bytes)

-- `p*`, greedy: as many bytes as the class takes, fewer only if the rest fails.
unfoldable pub match_star : (ℕ → Bool) → Bytes → (Bytes → Captures) → Captures
match_star p [] k = k []
match_star p (c ∷ s) k = elim (p c) [
  | true ↦ elim (match_star p s k) [ some r ↦ some r | none ↦ k (c ∷ s) ]
  | false ↦ k (c ∷ s)
]

-- The match at the head of a text, with what has to match behind it.
unfoldable pub matches : Regex → Bytes → (Bytes → Captures) → Captures
matches empty s k = k s
matches (lit c) [] k = none
matches (lit c) (d ∷ s) k = elim (d == c) [ true ↦ k s | false ↦ none ]
matches (star p) s k = match_star p s k
matches (plus p) [] k = none
matches (plus p) (c ∷ s) k = elim (p c) [ true ↦ match_star p s k | false ↦ none ]
matches (seq r q) s k = matches r s (λ t. matches q t k)
matches (opt r) s k = elim (matches r s k) [ some c ↦ some c | none ↦ k s ]
matches (capture r) s k = matches r s (λ t. Option.map (◌∷◌ (take (length s - length t) s)) (k t))

-- `$`: nothing may be left.
abbrev pub at_end : Bytes → Captures
at_end [] = some []
at_end (c ∷ s) = none

-- `^r$`
unfoldable pub match_whole : Regex → Bytes → Captures
match_whole r s = matches r s at_end

-- `r` anywhere: the leftmost place where it matches.
unfoldable pub find_match : Regex → Bytes → Captures
find_match r [] = matches r [] (λ t. some [])
find_match r (c ∷ s) = elim (matches r (c ∷ s) (λ t. some [])) [
  | some m ↦ some m
  | none ↦ find_match r s
]
