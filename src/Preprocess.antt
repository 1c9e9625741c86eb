-- ===== src/Preprocess.antt =====
-- pkg/preprocess.go: `Preprocess`, which runs ffmpeg and reads its stderr. How the process ends, and
-- what it prints, is chosen by whoever runs it.
pub mod Results
use radio_chatter.Common.{
  ℕ, suc, ◌/◌, ◌==◌, Bool, true, false, List, [], ◌∷◌, Option, none, some, Bytes, codes,
  if◌then◌else◌,
}
use radio_chatter.Common.Int.{ℤ, pos, negsuc, pos_part}
use radio_chatter.Commands.{RunError, exited, not_run}
use radio_chatter.Files.{join}
use radio_chatter.Ffmpeg.{Time, Callback, Floats, ScanError, reader, parse_stderr}
use radio_chatter.Ids.Decimal.{format}
use radio_chatter.Archiver.{chunk_length, ArchiveOperation, Archiver, new_archiver, Moment, run}
use radio_chatter.Processing.{Event, operation, channel_closed}

-- `defaultGracefulShutdown`, which is the `WaitDelay` of the command.
abbrev pub default_graceful_shutdown : ℤ
default_graceful_shutdown = pos 10000000000

-- `strconv.Itoa(int(ChunkLength) / int(time.Second))`
abbrev pub segment_time : Bytes
segment_time = format (pos_part chunk_length / 1000000000)

-- The arguments of ffmpeg; the directory is a clean path.
abbrev pub preprocess_args : Bytes → Bytes → List Bytes
preprocess_args input output_dir =
    codes "-i"
    ∷ input
    ∷ codes "-af"
    ∷ codes "silencedetect=noise=-30dB:d=1"
    ∷ codes "-f"
    ∷ codes "segment"
    ∷ codes "-segment_time"
    ∷ segment_time
    ∷ codes "-hide_banner"
    ∷ codes "-nostdin"
    ∷ codes "-nostats"
    ∷ join output_dir (codes "chunk_%d.mp3")
    ∷ []

-- What a call of `Preprocess` meets: the errors of `StderrPipe` and `Start`, if they fail; what
-- ffmpeg prints on stderr, and how the reading of it ends; and what `Wait` returns.
pub record FfmpegRun (E : Type 0) : Type 0 where
  pub pipe_error : Option E
  pub start_error : Option E
  pub stderr : Bytes
  pub read_error : Option E
  pub wait : Option (RunError E)

pub data PreprocessError (E : Type 0) : Type 0 where
  no_pipe : E → PreprocessError E
  not_started : E → PreprocessError E
  exited_unsuccessfully : RunError E → PreprocessError E
  parsing : ScanError E → PreprocessError E

-- What `Preprocess` has done when it returns: the callbacks of its goroutine, whether it has waited for
-- the last of them, and its error.
pub record Preprocessed (E : Type 0) : Type 0 where
  pub callbacks : List Callback
  pub waited : Bool
  pub error : Option (PreprocessError E)

module _ {E : Type 0} where
  -- Ffmpeg exits with the code 255 after an interrupt, which is no error.
  abbrev pub ignore_interrupt : Option (RunError E) → Option (RunError E)
  ignore_interrupt none = none
  ignore_interrupt (some (not_run e)) = some (not_run e)
  ignore_interrupt (some (exited (negsuc code) e)) = some (exited (negsuc code) e)
  ignore_interrupt (some (exited (pos code) e)) =
      if code == 255 then none else some (exited (pos code) e)

  -- The end of the process is told in the first place.
  abbrev pub prefer : Option (RunError E) → Option (ScanError E) → Option (PreprocessError E)
  prefer (some e) parsing_error = some (exited_unsuccessfully e)
  prefer none (some e) = some (parsing e)
  prefer none none = none

  -- `Preprocess`; `clock` gives the times of the lines. If ffmpeg does not start, the pipe is closed
  -- behind the goroutine, whose reads fail, and nothing waits for it.
  unfoldable pub preprocess : Floats → (ℕ → Time) → FfmpegRun E → Preprocessed E
  preprocess F clock f = elim f.pipe_error [
    | some e ↦ record { callbacks = []; waited = true; error = some (no_pipe e) }
    | none ↦ elim f.start_error [
      | some e ↦ record {
        callbacks = (parse_stderr F clock [] f.read_error).0;
        waited = false;
        error = some (not_started e);
      }
      | none ↦
          let (callbacks, parsing_error) = parse_stderr F clock f.stderr f.read_error in
          record {
            callbacks = callbacks;
            waited = true;
            error = prefer (ignore_interrupt f.wait) parsing_error;
          }
    ]
  ]
