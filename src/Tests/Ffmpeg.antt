-- ===== src/Tests/Ffmpeg.antt =====
-- Runs of `parse_stderr` over lines that ffmpeg prints.
use radio_chatter.Common.{
  ℕ, ◌≡◌, refl, true, false, [], ◌∷◌, none, some, Bytes, codes, equal, ok, ◌==◌, ◌*◌, ◌-◌, ◌+◌,
  if◌then◌else◌,
}
use radio_chatter.Common.Int.{pos}
use radio_chatter.Regex.{match_whole, find_match, matches, match_star}
use radio_chatter.Ffmpeg.Patterns.{message_pattern, silence_end_pattern}
use radio_chatter.Regex.{not_newline}
use radio_chatter.Regex.Laws.{AllIn-all_of}
use radio_chatter.Ffmpeg.Patterns.{is_address, not_quote}
use radio_chatter.Ffmpeg.Lines.{message_line, opening_payload, process_line-opening}
use radio_chatter.Ffmpeg.Protocol.{follow_all, waiting, over, parse_stderr-over}
use radio_chatter.Ffmpeg.{
  Floats, Time, download_started, start_writing, silence_start, silence_end, uninterpreted_stderr,
  finished, parse_stderr, process_lines, process_line, process, process_segment, process_silence,
  process_silence_end, parse_seconds, scan, drop_cr,
}

-- Whole seconds only: a stand-in for the floating point numbers, over texts of digits.
unfoldable pub seconds_from : ℕ → Bytes → ℕ
seconds_from n [] = n
seconds_from n (c ∷ cs) = if c == b'.' then n else seconds_from (n * 10 + (c - b'0')) cs

abbrev pub whole_seconds : Floats
whole_seconds = record {
  Float64 = ℕ;
  NumError = Unit {0};
  parse_float = λ s. ok (seconds_from 0 s);
  to_duration = λ n. pos (n * 1000000000);
}

message_match :
    match_whole message_pattern (codes "[silencedetect @ 0x600000c583c0] silence_start: 24.4626")
    ≡ some (codes "silencedetect" ∷ codes "silence_start: 24.4626" ∷ [])
unfolding match_whole matches match_star
message_match = refl

silence_end_match :
    find_match silence_end_pattern (codes "silence_end: 31.3061 | silence_duration: 6.84354")
    ≡ some (codes "31.3061" ∷ codes "6.84354" ∷ [])
unfolding find_match matches match_star
silence_end_match = refl

abbrev pub at_zero : ℕ → Time
at_zero i = pos 0

parse_example :
    parse_stderr whole_seconds {E = Unit {0}} at_zero
      (codes
        "Input #0, mp3\n[segment @ 0x6000] Opening 'a.mp3' for writing\r\n[silencedetect @ 0x1] silence_start: 0\n[silencedetect @ 0x1] silence_end: 19.02 | silence_duration: 19.03\n[segment @ 0x6000] Opening 'b.mp3' for writing\n")
      none
    ≡ (
      uninterpreted_stderr (codes "Input #0, mp3")
          ∷ download_started
          ∷ start_writing (codes "a.mp3")
          ∷ silence_start (pos 0)
          ∷ silence_end (pos 19000000000) (pos 19000000000)
          ∷ start_writing (codes "b.mp3")
          ∷ finished
          ∷ [],
      none,
    )
unfolding parse_stderr process_lines process_line process process_segment process_silence
    process_silence_end parse_seconds scan drop_cr equal seconds_from match_whole find_match matches
    match_star
parse_example = refl

process_line-opening_example :
    process_line whole_seconds
      (pos 0)
      false
      (message_line (codes "segment") (codes "0x6000") (opening_payload (codes "a.mp3")))
    ≡ (true, download_started ∷ start_writing (codes "a.mp3") ∷ [])
process_line-opening_example =
    process_line-opening whole_seconds (pos 0) false (codes "0x6000") (codes "a.mp3") (λ e. cc)
      (AllIn-all_of is_address (codes "0x6000") refl) (λ e. cc)
      (AllIn-all_of not_quote (codes "a.mp3") refl) (AllIn-all_of not_newline (codes "a.mp3") refl)

parse_stderr-over_example :
    follow_all waiting
      (parse_stderr whole_seconds {E = Unit {0}} at_zero
        (codes "Opening 'a'\nPress [q] to stop\n")
        none).0
    ≡ some over
parse_stderr-over_example =
    parse_stderr-over whole_seconds at_zero (codes "Opening 'a'\nPress [q] to stop\n") none
