-- ===== src/Archiver.antt =====
-- The `archiver` of pkg/archive.go: the state behind the preprocessing callbacks, and the archive
-- operations that it sends. A method returns the new state and what it sent on the channel.
pub mod Numbers
pub mod Chunks
pub mod Clock
pub mod Steps
pub mod Spans
pub mod Coverage
pub mod Late
use radio_chatter.Common.{
  ℕ, ◌*◌, Bool, true, false, not, ◌&&◌, List, [], ◌∷◌, ◌++◌, Bytes, if◌then◌else◌,
}
use radio_chatter.Common.Int.{ℤ, pos, ◌+ℤ◌, ltb_ℤ}
use radio_chatter.Duration.{Duration, add64, sub64, mul64}
use radio_chatter.Ffmpeg.{
  Time, Callback, download_started, start_writing, silence_start, silence_end, unknown_message,
  uninterpreted_stderr, finished,
}

-- `ChunkLength`, a minute, and the limit below which `onSilenceStart` drops a span.
abbrev pub chunk_length : Duration
chunk_length = pos 60000000000

abbrev pub tiny : Duration
tiny = pos 10000000

pub record AudioSpan : Type 0 where
  pub start : Duration
  pub stop : Duration

-- `audioSpan.Duration`
abbrev pub span_duration : AudioSpan → Duration
span_duration s = sub64 s.stop s.start

pub record ArchiveOperation : Type 0 where
  pub path : Bytes
  pub timestamp : Time
  pub pieces : List AudioSpan

-- `fileIndex` is an int, of 64 bits. No file is open while `current_file` is empty.
pub record Archiver : Type 0 where
  pub current_file : Bytes
  pub recording_started : Time
  pub file_index : ℤ
  pub in_silence : Bool
  pub audio_started : Duration
  pub spans : List AudioSpan

-- The zero values; `time.Time{}` is the instant 0 here.
abbrev pub new_archiver : Archiver
new_archiver = record {
  current_file = [];
  recording_started = pos 0;
  file_index = pos 0;
  in_silence = false;
  audio_started = pos 0;
  spans = [];
}

-- Which case of the `select` in `completeFile` is taken: the send, or the cancelled context.
pub data Select : Type 0 where
  sent cancelled : Select

-- What a callback meets: the time that `now` returns, and the case of the `select`.
pub record Moment : Type 0 where
  pub now : Time
  pub select : Select

unfoldable pub start_offset : Archiver → Duration
start_offset a = mul64 chunk_length a.file_index

unfoldable pub send : Select → ArchiveOperation → List ArchiveOperation
send sent op = op ∷ []
send cancelled op = []

-- The span that goes on beyond the end of the chunk, in `completeFile`.
unfoldable pub continue_audio : Archiver → Archiver
continue_audio a =
    let offset = start_offset a in
    let end_of_chunk = add64 offset chunk_length in
    let span : AudioSpan = record {
      start = sub64 a.audio_started offset;
      stop = sub64 end_of_chunk offset;
    } in
    record a { spans = a.spans ++ (span ∷ []); audio_started = end_of_chunk }

unfoldable pub complete_file : Bool → Select → Archiver → Archiver × List ArchiveOperation
complete_file audio_may_continue select a =
    let clip_start = a.recording_started +ℤ start_offset a in
    let b = if not a.in_silence && audio_may_continue then continue_audio a else a in
    (
      record b { spans = [] },
      send select (record { path = a.current_file; timestamp = clip_start; pieces = b.spans }),
    )

-- `a.currentFile != ""`
abbrev pub is_open : Bytes → Bool
is_open [] = false
is_open (c ∷ path) = true

unfoldable pub on_start_writing : Select → Bytes → Archiver → Archiver × List ArchiveOperation
on_start_writing select path a =
    if is_open a.current_file
    then (let (b, ops) = complete_file true select a in
        (record b { file_index = add64 b.file_index (pos 1); current_file = path }, ops))
    else (record a { current_file = path }, [])

unfoldable pub on_finished : Select → Archiver → Archiver × List ArchiveOperation
on_finished select a = if is_open a.current_file then complete_file false select a else (a, [])

unfoldable pub on_silence_start : Duration → Archiver → Archiver
on_silence_start t a =
    let offset = start_offset a in
    let span : AudioSpan = record { start = sub64 a.audio_started offset; stop = sub64 t offset } in
    record a {
      spans = if ltb_ℤ tiny (sub64 span.stop span.start) then a.spans ++ (span ∷ []) else a.spans;
      in_silence = true;
    }

unfoldable pub on_silence_end : Duration → Duration → Archiver → Archiver
on_silence_end t duration a = record a { audio_started = t; in_silence = false }

-- The callbacks that `archiveCallbacks` sets; the other two are nil there.
unfoldable pub step : Moment → Callback → Archiver → Archiver × List ArchiveOperation
step m download_started a = (record a { recording_started = m.now }, [])
step m (start_writing path) a = on_start_writing m.select path a
step m (silence_start t) a = (on_silence_start t a, [])
step m (silence_end t duration) a = (on_silence_end t duration a, [])
step m (unknown_message msg) a = (a, [])
step m (uninterpreted_stderr line) a = (a, [])
step m finished a = on_finished m.select a

-- A run over the callbacks, each with the moment at which it is made.
unfoldable pub run : Archiver → List (Moment × Callback) → Archiver × List ArchiveOperation
run a [] = (a, [])
run a ((m, call) ∷ calls) =
    let now = step m call a in let later = run now.0 calls in (later.0, now.1 ++ later.1)
