-- ===== src/Processing/Jobs.antt =====
-- pkg/process.go: the jobs that `StartProcessing` starts, and the directory that they work in. The
-- first sends what the second executes.
use radio_chatter.Common.{
  ℕ, suc, ◌==◌, Bool, true, false, List, [], ◌∷◌, Option, none, some, Bytes, if◌then◌else◌,
}
use radio_chatter.Duration.{Duration}
use radio_chatter.Files.{Files}
use radio_chatter.Ffmpeg.{Time, Callback, Floats}
use radio_chatter.Preprocess.{FfmpegRun, PreprocessError, preprocess, preprocess_args}
use radio_chatter.Archiver.{ArchiveOperation, new_archiver, Moment, run}
use radio_chatter.Blob.{Storage}
use radio_chatter.Models.{Stream, Database}
use radio_chatter.Split.{World}
use radio_chatter.Execute.{Outside, ExecuteError}
use radio_chatter.Processing.{Event, then_closed, Returned, archive}

-- Callback `i` is made at the moment `at i`.
abbrev pub timed : (ℕ → Moment) → ℕ → List Callback → List (Moment × Callback)
timed at i [] = []
timed at i (call ∷ calls) = (at i, call) ∷ timed at (suc i) calls

-- What the callbacks of `ArchiveCallbacks` send.
abbrev pub archive_callbacks : (ℕ → Moment) → List Callback → List ArchiveOperation
archive_callbacks at calls = (run new_archiver (timed at 0 calls)).1

-- The job `preprocess`: what comes through its channel, which it closes, and what it returns.
unfoldable pub preprocess_job :
    {E : Type 0}
    → Floats
    → (ℕ → Time)
    → (ℕ → Moment)
    → FfmpegRun E
    → List Event × Option (PreprocessError E)
preprocess_job F clock at f =
    let p = preprocess F clock f in (then_closed (archive_callbacks at p.callbacks), p.error)

-- `os.RemoveAll`; if it fails, nothing is removed here.
abbrev pub below : Bytes → Bytes → Bool
below [] [] = true
below [] (c ∷ name) = c == b'/'
below (d ∷ dir) [] = false
below (d ∷ dir) (c ∷ name) = if c == d then below dir name else false

abbrev pub remove_all : {E : Type 0} → Option E → Bytes → Files → Files
remove_all (some e) dir files = files
remove_all none dir files = λ name. if below dir name then none else files name

-- What the jobs of a stream meet; without a directory, `mkdtemp` ends the process.
pub record Station (E : Type 0) : Type 1 where
  pub floats : Floats
  pub clock : ℕ → Time
  pub moments : ℕ → Moment
  pub temp_dir : Option Bytes
  pub remove_error : Option E
  pub ffmpeg : List Bytes → FfmpegRun E
  pub outside : ℕ → Outside E

-- The `cleanup` that `mkdtemp` returns.
abbrev pub cleanup_dir : {E : Type 0} → Station E → Files → Files
cleanup_dir t files = elim t.temp_dir [
  | none ↦ files
  | some dir ↦ remove_all t.remove_error dir files
]

-- How the jobs have ended: with the process, or each with its error.
pub data Processed (W E X : Type 0) : Type 0 where
  fatal : Processed W E X
  jobs : W → Option (PreprocessError E) → Returned X → Processed W E X

module _ (S : Storage) (D : Database) {E : Type 0} (seconds : Duration → Bytes) where
  -- `StartProcessing`, for a run in which the jobs come to their ends.
  unfoldable pub start_processing :
      Station E → Stream → World S D → Processed (World S D) E (ExecuteError E S.Error D.Error)
  start_processing t stream w = elim t.temp_dir [
    | none ↦ fatal
    | some dir ↦
        let (events, e) =
          preprocess_job t.floats t.clock t.moments (t.ffmpeg (preprocess_args stream.url dir)) in
        let (w', r) = archive S D seconds stream t.outside 0 events w in jobs w' e r
  ]
