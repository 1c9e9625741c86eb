-- ===== src/Ffmpeg/Patterns.antt =====
-- The four patterns of pkg/preprocess.go.
use radio_chatter.Common.{Bool, not, ◌||◌, ℕ, ◌==◌, codes}
use radio_chatter.Regex.{
  Regex, lit, star, plus, seq, opt, capture, text, is_digit, is_word, is_space, not_space,
  not_newline,
}

-- `[\d\w]`
abbrev pub is_address : ℕ → Bool
is_address c = is_digit c || is_word c

-- `[^']`
abbrev pub not_quote : ℕ → Bool
not_quote c = not (c == 39)

-- `^\[(\S+) @ [\d\w]+\]\s*(.*)$`
abbrev pub message_pattern : Regex
message_pattern = seq (lit b'[') (
    seq (capture (plus not_space)) (
      seq (text (codes " @ ")) (
        seq (plus is_address) (seq (lit b']') (seq (star is_space) (capture (star not_newline)))))))

-- `^Opening '([^']+)' for writing$`
abbrev pub opening_file_pattern : Regex
opening_file_pattern =
    seq (text (codes "Opening '")) (seq (capture (plus not_quote)) (text (codes "' for writing")))

-- `(\d+(?:\.\d+)?)`
abbrev pub number_pattern : Regex
number_pattern = capture (seq (plus is_digit) (opt (seq (lit b'.') (plus is_digit))))

-- `silence_start: (\d+(?:\.\d+)?)`
abbrev pub silence_start_pattern : Regex
silence_start_pattern = seq (text (codes "silence_start: ")) number_pattern

-- `silence_end: (\d+(?:\.\d+)?) \| silence_duration: (\d+(?:\.\d+)?)`
abbrev pub silence_end_pattern : Regex
silence_end_pattern =
    seq (text (codes "silence_end: "))
      (seq number_pattern (seq (text (codes " | silence_duration: ")) number_pattern))
