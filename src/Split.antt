-- ===== src/Split.antt =====
-- pkg/archive.go: what `splitAudio` works on: the files, a blob storage and a database. What fails, and
-- what ffmpeg writes, is chosen by whoever runs it. Group has `splitChunk`, with its goroutines and the
-- steps of `splitAudio` that they make.
pub mod Group
pub mod Sound
pub mod Ends
pub mod Interleaved
use radio_chatter.Common.{
  ℕ, suc, Bool, List, [], ◌∷◌, ◌++◌, Option, none, some, Bytes, Result, ok, err, if◌then◌else◌,
}
use radio_chatter.Common.Int.{◌+ℤ◌}
use radio_chatter.Duration.{Duration}
use radio_chatter.Archiver.{AudioSpan, span_duration}
use radio_chatter.Blob.{Key, key_string, Storage}
use radio_chatter.Models.{Chunk, Transmission, Database}
use radio_chatter.Files.{Files, read_file, leave, clean_up}
use radio_chatter.Clip.{clip_args}
use radio_chatter.Commands.{RunError, command_was_cancelled}

-- One run of ffmpeg: the name of the temporary file, what ffmpeg leaves in it, how it ends, whether
-- the context is done then, and what fails behind it.
pub record Job (E : Type 0) : Type 0 where
  pub tmp : Bytes
  pub output : Option Bytes
  pub run_error : Option (RunError E)
  pub context_done : Bool
  pub read_error : Option E
  pub remove_error : Option E

pub data SplitError (E S D : Type 0) : Type 0 where
  was_cancelled : SplitError E S D
  not_extracted : RunError E → SplitError E S D
  clip_not_read : E → SplitError E S D
  clip_not_stored : S → SplitError E S D
  transmission_not_saved : D → SplitError E S D

-- The files, what lies behind the storage and the database, and the commands that were run.
pub record World (S : Storage) (D : Database) : Type 0 where
  pub files : Files
  pub blobs : S.State
  pub rows : D.State
  pub commands : List (List Bytes)

-- The row of a clip, in `splitAudio`.
abbrev pub transmission_row : AudioSpan → Chunk → Key → Transmission
transmission_row span chunk key = record {
  id = 0;
  created_at = 0;
  updated_at = 0;
  timestamp = chunk.timestamp +ℤ span.start;
  length = span_duration span;
  sha256 = key_string key;
  chunk_id = chunk.id;
  transcription = none;
}
