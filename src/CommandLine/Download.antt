-- ===== src/CommandLine/Download.antt =====
-- cmd/radio-chatter/download.go: the streams are processed in one group. The jobs of the streams run one
-- after the other here.
pub mod Cleaning
use radio_chatter.Common.{
  ◌≡◌, refl, ap, ◌∙◌, Bool, true, false, ◌&&◌, List, [], ◌∷◌, Option, none, some, Bytes, All,
  Result, ok, err, if◌then◌else◌,
}
use radio_chatter.Duration.{Duration}
use radio_chatter.Files.{Files}
use radio_chatter.Blob.{Storage}
use radio_chatter.Models.{Stream, Database}
use radio_chatter.Split.{World}
use radio_chatter.Preprocess.{PreprocessError}
use radio_chatter.Processing.{Returned, returned}
use radio_chatter.Processing.Jobs.{
  below, remove_all, Station, cleanup_dir, Processed, fatal, jobs, start_processing,
}

-- A stream of the database, and what its jobs meet.
abbrev pub Runs : Type 0 → Type 1
Runs E = List (Station E × Stream)

-- Whether the group has no error of these two jobs.
abbrev pub fine : {E X : Type 0} → Option (PreprocessError E) → Returned X → Bool
fine none (returned (ok done)) = true
fine e r = false

-- The calls of `cleanup` that are deferred, of which the last comes first.
abbrev pub cleanups : {E : Type 0} → Runs E → Files → Files
cleanups [] files = files
cleanups ((t, stream) ∷ runs) files = cleanup_dir t (cleanups runs files)

-- How the command ends: `logger.Fatal` ends the process, and the deferred calls are not made; or it
-- returns.
pub data Downloaded (W : Type 0) : Type 0 where
  exited : W → Downloaded W
  finished : W → Downloaded W

module _ (S : Storage) (D : Database) {E : Type 0} (seconds : Duration → Bytes) where
  -- The loop over the streams, and `group.Wait`; `none` if there is no temporary directory.
  unfoldable pub run_streams : Runs E → World S D → Option (World S D × Bool)
  run_streams [] w = some (w, true)
  run_streams ((t, stream) ∷ runs) w = elim (start_processing S D seconds t stream w) [
    | fatal ↦ none
    | jobs w' e r ↦ elim (run_streams runs w') [
      | none ↦ none
      | some more ↦ some (more.0, fine e r && more.1)
    ]
  ]

  -- `download`, with the streams that `db.Find` returns; without them it is fatal.
  unfoldable pub download_all :
      {Q : Type 0} → Result Q (Runs E) → World S D → Downloaded (World S D)
  download_all (err e) w = exited w
  download_all (ok runs) w = elim (run_streams runs w) [
    | none ↦ exited w
    | some (w', false) ↦ exited w'
    | some (w', true) ↦ finished (record w' { files = cleanups runs w'.files })
  ]
