-- ===== src/Ffmpeg.antt =====
-- pkg/preprocess.go: reading what ffmpeg prints on stderr. `parse_stderr` is `parseStderr`,
-- `process` is `state.process`, and a callback that the Go code would call is one value of
-- `Callback` in the list that they return. Log lines are left out.
pub mod Patterns
pub mod Lines
pub mod Protocol
use radio_chatter.Common.{
  ℕ, suc, ◌+◌, ◌≡◌, Bool, true, false, List, [], ◌∷◌, ◌++◌, reverse, Option, none, some, leb, ltb,
  ◌==◌, length, Bytes, codes, equal, Result, ok, err, map_err, if◌then◌else◌,
}
use radio_chatter.Duration.{Duration}
use radio_chatter.Common.Int.{ℤ, pos, ◌*ℤ◌}
use radio_chatter.Regex.{match_whole, find_match}
use radio_chatter.Ffmpeg.Patterns.{
  message_pattern, opening_file_pattern, silence_start_pattern, silence_end_pattern,
}

-- A point on the wall clock, `time.Time`, as nanoseconds from a fixed instant.
abbrev pub Time : Type 0
Time = ℤ

pub record ComponentMessage : Type 0 where
  pub timestamp : Time
  pub component : Bytes
  pub payload : Bytes

-- A call of one field of `PreprocessingCallbacks`.
pub data Callback : Type 0 where
  download_started : Callback
  start_writing : Bytes → Callback
  silence_start : Duration → Callback
  silence_end : Duration → Duration → Callback
  unknown_message : ComponentMessage → Callback
  uninterpreted_stderr : Bytes → Callback
  finished : Callback

-- The floating point numbers of `parseSeconds`: `strconv.ParseFloat(_, 64)`, and the conversion
-- `time.Duration(s*1000*1000*1000)`.
pub record Floats : Type 1 where
  pub Float64 : Type 0
  pub NumError : Type 0
  pub parse_float : Bytes → Result NumError Float64
  pub to_duration : Float64 → Duration

module _ (F : Floats) where
  open F use {NumError, parse_float, to_duration}

  unfoldable pub parse_seconds : Bytes → Result NumError Duration
  parse_seconds secs = elim (parse_float secs) [ ok s ↦ ok (to_duration s) | err e ↦ err e ]

  -- `case "segment"`. What is no "Opening" line falls out of the switch.
  unfoldable pub process_segment : Bool → ComponentMessage → Bool × List Callback
  process_segment running msg = elim (match_whole opening_file_pattern msg.payload) [
    | some (path ∷ _) ↦
        (true, (if running then [] else download_started ∷ []) ++ (start_writing path ∷ []))
    | _ ↦ (running, unknown_message msg ∷ [])
  ]

  -- The branch of `silence_end`, with both captures.
  unfoldable pub process_silence_end : Bytes → Bytes → List Callback
  process_silence_end stop length = elim (parse_seconds stop) [
    | err _ ↦ []
    | ok t ↦ elim (parse_seconds length) [ err _ ↦ [] | ok d ↦ silence_end t d ∷ [] ]
  ]

  -- `case "silencedetect"`. A time that does not parse is logged, and makes no callback.
  unfoldable pub process_silence : ComponentMessage → List Callback
  process_silence msg = elim (find_match silence_start_pattern msg.payload) [
    | some (start ∷ _) ↦ elim (parse_seconds start) [ ok t ↦ silence_start t ∷ [] | err _ ↦ [] ]
    | _ ↦ elim (find_match silence_end_pattern msg.payload) [
      | some (stop ∷ length ∷ _) ↦ process_silence_end stop length
      | _ ↦ unknown_message msg ∷ []
    ]
  ]

  -- `state.process`: the new value of `running`, and the callbacks made.
  unfoldable pub process : Bool → ComponentMessage → Bool × List Callback
  process running msg =
      if equal msg.component (codes "segment")
      then process_segment running msg
      else if equal msg.component (codes "silencedetect")
      then (running, process_silence msg)
      else if equal msg.component (codes "out#0/segment")
      then (running, [])
      else (running, unknown_message msg ∷ [])

  -- One round of the loop of `parseStderr`; `now` is what `time.Now` returns in it.
  unfoldable pub process_line : Time → Bool → Bytes → Bool × List Callback
  process_line now running line = elim (match_whole message_pattern line) [
    | some (component ∷ payload ∷ _) ↦
        process running (record { timestamp = now; component = component; payload = payload })
    | _ ↦ (running, uninterpreted_stderr line ∷ [])
  ]

  -- The loop, over the lines that the scanner returns; `clock i` is the time of round `i`.
  unfoldable pub process_lines : (ℕ → Time) → ℕ → Bool → List Bytes → List Callback
  process_lines clock i running [] = []
  process_lines clock i running (line ∷ lines) =
      let (running', calls) = process_line (clock i) running line in
      calls ++ process_lines clock (suc i) running' lines

-- `bufio.ErrTooLong`, or what the reader failed with.
pub data ScanError (E : Type 0) : Type 0 where
  too_long : ScanError E
  reader : E → ScanError E

-- `bufio.MaxScanTokenSize`: a line that fills the buffer ends the scan.
abbrev pub max_token_size : ℕ
max_token_size = 65536

-- `dropCR`, on a line in reverse: the line without a `\r` before its end.
unfoldable pub drop_cr : Bytes → Bytes
drop_cr [] = []
drop_cr (c ∷ line) = if c == 13 then reverse line else reverse (c ∷ line)

-- What is left at the end of the input is a line, unless it is empty.
abbrev pub last_line : Bytes → List Bytes
last_line [] = []
last_line (c ∷ line) = drop_cr (c ∷ line) ∷ []

-- `bufio.Scanner` over `ScanLines`: the lines that `Scan` and `Text` return, and what `Err` then
-- returns. `line` is the unfinished line in reverse, and `size` its length.
unfoldable pub scan :
    {E : Type 0} → Option E → Bytes → ℕ → Bytes → List Bytes × Option (ScanError E)
unfolding drop_cr
scan failure line size [] =
    (last_line line, elim failure [ none ↦ none | some e ↦ some (reader e) ])
scan failure line size (c ∷ input) =
    let next = scan failure [] 0 input in
    let longer = scan failure (c ∷ line) (size + 1) input in
    if c == 10
    then (drop_cr line ∷ next.0, next.1)
    else if leb max_token_size (size + 1)
    then ([], some too_long)
    else longer

-- `parseStderr`: the callbacks in order, the deferred `onFinished` last, and the scanner's error.
unfoldable pub parse_stderr :
    (F : Floats) {E : Type 0} → (ℕ → Time) → Bytes → Option E → List Callback × Option (ScanError E)
parse_stderr F clock input failure =
    let (lines, e) = scan failure [] 0 input in
    (process_lines F clock 0 false lines ++ (finished ∷ []), e)
