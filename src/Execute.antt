-- ===== src/Execute.antt =====
-- pkg/archive.go: `ArchiveOperation.Execute`, over the files, a blob storage and a database. What fails
-- is chosen by whoever runs it.
pub mod Archives
use radio_chatter.Common.{
  ℕ, suc, Bool, true, false, not, ◌&&◌, List, [], ◌∷◌, ◌++◌, Option, none, some, Bytes, Result, ok,
  err, if◌then◌else◌,
}
use radio_chatter.Common.Int.{ℤ, pos, negsuc, ◌+ℤ◌}
use radio_chatter.Duration.{Duration}
use radio_chatter.Archiver.{AudioSpan, ArchiveOperation, span_duration}
use radio_chatter.Blob.{Key, key_string, Storage}
use radio_chatter.Models.{Stream, Chunk, Transmission, Database}
use radio_chatter.Files.{Files, remove_file, read_file}
use radio_chatter.Split.{Job, SplitError, World}
use radio_chatter.Split.Group.{split_chunk}

-- What else `Execute` meets; `not_exist` is `os.ErrNotExist`, and the schedule is that of the jobs.
pub record Outside (E : Type 0) : Type 0 where
  pub not_exist : E
  pub read_error : Option E
  pub remove_error : Option E
  pub jobs : ℕ → Job E
  pub schedule : List ℕ

pub data ExecuteError (E S D : Type 0) : Type 0 where
  not_read : E → ExecuteError E S D
  not_stored : S → ExecuteError E S D
  chunk_not_saved : D → ExecuteError E S D
  not_split : SplitError E S D → ExecuteError E S D
  not_deleted : E → ExecuteError E S D

-- The row of a chunk, in `Execute`.
abbrev pub chunk_row : Stream → ArchiveOperation → Key → Chunk
chunk_row stream op key = record {
  id = 0;
  created_at = 0;
  updated_at = 0;
  timestamp = op.timestamp;
  sha256 = key_string key;
  stream_id = stream.id;
  transmissions = none;
}

module _ (S : Storage) (D : Database) {E : Type 0} (seconds : Duration → Bytes)
    (stream : Stream) where
  -- The end of `Execute`: the chunk file is deleted.
  abbrev pub delete_chunk :
      Outside E → Bytes → World S D → World S D × Result (ExecuteError E S.Error D.Error) (Unit {0})
  delete_chunk out path w = elim out.remove_error [
    | some e ↦ (w, err (not_deleted e))
    | none ↦ elim (w.files path) [
      | none ↦ (w, err (not_deleted out.not_exist))
      | some content ↦ (record w { files = remove_file path w.files }, ok tt)
    ]
  ]

  -- `if chunk.Transmissions != nil`
  unfoldable pub split_and_delete :
      Outside E
      → ArchiveOperation
      → Chunk
      → World S D
      → World S D × Result (ExecuteError E S.Error D.Error) (Unit {0})
  split_and_delete out op chunk w = elim chunk.transmissions [
    | none ↦ delete_chunk out op.path w
    | some transmissions ↦
        let (w', failure) =
          split_chunk S D seconds out.not_exist out.jobs op.path op.pieces chunk out.schedule w in
        elim failure [ some e ↦ (w', err (not_split e)) | none ↦ delete_chunk out op.path w' ]
  ]

  unfoldable pub save_row :
      Outside E
      → ArchiveOperation
      → Key
      → World S D
      → World S D × Result (ExecuteError E S.Error D.Error) (Unit {0})
  save_row out op key w =
      let (rows, r) = D.save_chunk (chunk_row stream op key) w.rows in
      elim r [
        | err e ↦ (record w { rows = rows }, err (chunk_not_saved e))
        | ok chunk ↦ split_and_delete out op chunk (record w { rows = rows })
      ]

  unfoldable pub store_content :
      Outside E
      → ArchiveOperation
      → Bytes
      → World S D
      → World S D × Result (ExecuteError E S.Error D.Error) (Unit {0})
  store_content out op content w =
      let (blobs, r) = S.store content w.blobs in
      elim r [
        | err e ↦ (record w { blobs = blobs }, err (not_stored e))
        | ok key ↦ save_row out op key (record w { blobs = blobs })
      ]

  -- `ArchiveOperation.Execute`
  unfoldable pub execute :
      Outside E
      → ArchiveOperation
      → World S D
      → World S D × Result (ExecuteError E S.Error D.Error) (Unit {0})
  execute out op w = elim (read_file out.not_exist out.read_error op.path w.files) [
    | err e ↦ (w, err (not_read e))
    | ok content ↦ store_content out op content w
  ]
