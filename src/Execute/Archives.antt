-- ===== src/Execute/Archives.antt =====
-- What `Execute` leaves behind when it succeeds, and when it fails.
use radio_chatter.Common.{
  ◌≡◌, ◌≢◌, refl, sym, ap, ◌∙◌, subst, Option, none, some, Bytes, Result, ok, err,
}
use radio_chatter.Duration.{Duration}
use radio_chatter.Files.{read_file, remove_file-same, remove_file-other}
use radio_chatter.Archiver.{ArchiveOperation}
use radio_chatter.Blob.{Key, IsKey, key_string, Storage, IsStorage}
use radio_chatter.Models.{Stream, Chunk, Database, FillsIn}
use radio_chatter.Split.{World}
use radio_chatter.Execute.{
  Outside, ExecuteError, not_read, not_stored, chunk_not_saved, not_deleted, delete_chunk,
  split_and_delete, chunk_row, save_row, store_content, execute,
}

module _ (S : Storage) (D : Database) (I : IsStorage S) (fills_in : FillsIn D) {E : Type 0}
    (seconds : Duration → Bytes) (stream : Stream) where
  -- What the end of `Execute` does to the world.
  record Deletes (path : Bytes) (w : World S D)
      (r : World S D × Result (ExecuteError E S.Error D.Error) (Unit {0})) : Type 0 where
    same_blobs : r.0.blobs ≡ w.blobs
    same_rows : r.0.rows ≡ w.rows
    same_commands : r.0.commands ≡ w.commands
    kept : {e : ExecuteError E S.Error D.Error} → r.1 ≡ err e → r.0.files ≡ w.files
    gone : r.1 ≡ ok tt → r.0.files path ≡ none
    others : (name : Bytes) → name ≢ path → r.0.files name ≡ w.files name

  not_deleting :
      (path : Bytes) (w : World S D) (e : ExecuteError E S.Error D.Error)
      → Deletes path w (w, err e)
  not_deleting path w e = record {
    same_blobs = refl;
    same_rows = refl;
    same_commands = refl;
    kept = λ h. refl;
    gone = λ h. cc;
    others = λ name ne. refl;
  }

  delete_chunk-Deletes :
      (out : Outside E) (path : Bytes) (w : World S D)
      → Deletes path w (delete_chunk S D seconds stream out path w)
  delete_chunk-Deletes out path w = by_error out.remove_error refl (w.files path) refl
    where
      by_error :
          (failure : Option E)
          → out.remove_error ≡ failure
          → (content : Option Bytes) → w.files path ≡ content
          → Deletes path w (delete_chunk S D seconds stream out path w)
      by_error (some e) h content c = simp (h, delete_chunk) (not_deleting path w (not_deleted e))
      by_error none h none c =
          simp (h, c, delete_chunk) (not_deleting path w (not_deleted out.not_exist))
      by_error none h (some content) c =
          simp (h, c, delete_chunk)
            (record {
              same_blobs = refl;
              same_rows = refl;
              same_commands = refl;
              kept = λ e. cc;
              gone = λ e. remove_file-same path w.files;
              others = λ name ne. remove_file-other path name w.files ne;
            })

  -- What `Execute` promises of the world it ran in.
  pub record Archives (op : ArchiveOperation) (w : World S D)
      (r : World S D × Result (ExecuteError E S.Error D.Error) (Unit {0})) : Type 0 where
    pub good : I.Good r.0.blobs
    pub no_blob_lost : (key : Key) → I.Holds w.blobs key → I.Holds r.0.blobs key
    pub no_commands : r.0.commands ≡ w.commands
    pub kept : {e : ExecuteError E S.Error D.Error} → r.1 ≡ err e → r.0.files ≡ w.files
    pub others : (name : Bytes) → name ≢ op.path → r.0.files name ≡ w.files name
    pub archived :
        r.1 ≡ ok tt
        → (content : Bytes) × (w.files op.path ≡ some content)
          × (r.0.files op.path ≡ none)
          × IsKey (I.hash content)
          × I.Holds r.0.blobs (I.hash content)
          × (r.0.rows ≡ (D.save_chunk (chunk_row stream op (I.hash content)) w.rows).0)
    pub recorded :
        r.1 ≡ ok tt
        → (content : Bytes) × (w.files op.path ≡ some content)
          × ((row : Chunk) × (D.save_chunk (chunk_row stream op (I.hash content)) w.rows
                ≡ (r.0.rows, ok row))
              × (row.sha256 ≡ key_string (I.hash content))
              × (row.timestamp ≡ op.timestamp)
              × (row.stream_id ≡ stream.id))

  -- A failure that leaves the files alone.
  failing :
      (op : ArchiveOperation) (w w' : World S D) (e : ExecuteError E S.Error D.Error)
      → I.Good w'.blobs
      → ((key : Key) → I.Holds w.blobs key → I.Holds w'.blobs key)
      → w'.commands ≡ w.commands
      → w'.files ≡ w.files
      → Archives op w (w', err e)
  failing op w w' e g l c f = record {
    good = g;
    no_blob_lost = l;
    no_commands = c;
    kept = λ h. f;
    others = λ name ne. ap (λ files. files name) f;
    archived = λ h. cc;
    recorded = λ h. cc;
  }

  split_and_delete_nil :
      (out : Outside E) (op : ArchiveOperation) (chunk : Chunk) (w : World S D)
      → chunk.transmissions ≡ none
      → split_and_delete S D seconds stream out op chunk w
        ≡ delete_chunk S D seconds stream out op.path w
  unfolding split_and_delete
  split_and_delete_nil out op chunk w h = simp (h, split_and_delete) refl

  module _ (out : Outside E) (op : ArchiveOperation) (content : Bytes) (w : World S D)
      (here : w.files op.path ≡ some content) (g : I.Good w.blobs)
      (stored : (S.store content w.blobs).1 ≡ ok (I.hash content)) where
    abbrev with_blob : World S D
    with_blob = record w { blobs = (S.store content w.blobs).0 }

    abbrev row : Chunk
    row = chunk_row stream op (I.hash content)

    saved-Archives :
        (chunk : Chunk)
        → (D.save_chunk row w.rows).1 ≡ ok chunk
        → Archives op w (
            delete_chunk S D seconds stream out op.path
              (record with_blob { rows = (D.save_chunk row w.rows).0 }))
    saved-Archives chunk e =
        let w' : World S D = record with_blob { rows = (D.save_chunk row w.rows).0 } in
        let d = delete_chunk-Deletes out op.path w' in
        let (same, key, holds) = I.store-Holds content w.blobs g stored in
        record {
          good = subst I.Good (sym d.same_blobs) (I.store-Good content w.blobs g);
          no_blob_lost = λ key h.
              subst (λ s. I.Holds s key) (sym d.same_blobs) (I.store-keeps content w.blobs key g h);
          no_commands = d.same_commands;
          kept = λ h. d.kept h;
          others = λ name ne. d.others name ne;
          archived = λ h. (
            content,
            here,
            d.gone h,
            key,
            subst (λ s. I.Holds s (I.hash content)) (sym d.same_blobs) holds,
            d.same_rows,
          );
          recorded = λ h.
              let filled = fills_in row chunk w.rows e in
              (
                content,
                here,
                (
                  chunk,
                  λ i. (sym d.same_rows i, e i),
                  ap (λ c. c.sha256) filled,
                  ap (λ c. c.timestamp) filled,
                  ap (λ c. c.stream_id) filled,
                ),
              );
        }

    save_row-Archives :
        Archives op w (save_row S D seconds stream out op (I.hash content) with_blob)
    unfolding save_row
    save_row-Archives = by_saved (D.save_chunk row w.rows).1 refl
      where
        by_saved :
            (r : Result D.Error Chunk)
            → (D.save_chunk row w.rows).1 ≡ r
            → Archives op w (save_row S D seconds stream out op (I.hash content) with_blob)
        by_saved (err e) h =
            rw (h, save_row)
              (failing op w (record with_blob { rows = (D.save_chunk row w.rows).0 })
                (chunk_not_saved e) (I.store-Good content w.blobs g)
                (λ key h. I.store-keeps content w.blobs key g h) refl refl)
        by_saved (ok chunk) h =
            rw (h, save_row)
              (rw
                (split_and_delete_nil out op chunk
                  (record with_blob { rows = (D.save_chunk row w.rows).0 })
                  (ap (λ c. c.transmissions) (fills_in row chunk w.rows h)))
                (saved-Archives chunk h))

  store_content-Archives :
      (out : Outside E) (op : ArchiveOperation) (content : Bytes) (w : World S D)
      → w.files op.path ≡ some content
      → I.Good w.blobs
      → Archives op w (store_content S D seconds stream out op content w)
  unfolding store_content
  store_content-Archives out op content w here g = by_stored (S.store content w.blobs).1 refl
    where
      by_stored :
          (r : Result S.Error Key)
          → (S.store content w.blobs).1 ≡ r
          → Archives op w (store_content S D seconds stream out op content w)
      by_stored (err e) h =
          rw (h, store_content)
            (failing op w (record w { blobs = (S.store content w.blobs).0 }) (not_stored e)
              (I.store-Good content w.blobs g) (λ key h. I.store-keeps content w.blobs key g h) refl
              refl)
      by_stored (ok key) h =
          let (same, is_key, holds) = I.store-Holds content w.blobs g h in
          rw (h, store_content)
            (rw same (save_row-Archives out op content w here g (h ∙ ap ok same)))

  -- If the database's `Save` only fills in the primary key and the times, and the storage keeps its
  -- promises: when `Execute` succeeds, the content of the chunk file is in the storage under its
  -- hash, `Save` of the chunk's row has returned without an error, and left a row with that hash's
  -- text, the time of the operation and the stream's id; and the file is gone. When it fails,
  -- whatever the reason, every file is still as it was. No blob is lost, other files are never
  -- touched, and ffmpeg is never run, whatever pieces the operation has.
  pub execute-Archives :
      (out : Outside E) (op : ArchiveOperation) (w : World S D)
      → I.Good w.blobs
      → Archives op w (execute S D seconds stream out op w)
  unfolding execute
  execute-Archives out op w g = by_read out.read_error refl (w.files op.path) refl
    where
      by_read :
          (failure : Option E)
          → out.read_error ≡ failure
          → (content : Option Bytes) → w.files op.path ≡ content
          → Archives op w (execute S D seconds stream out op w)
      by_read (some e) h content c =
          simp (h, execute) (failing op w w (not_read e) g (λ key k. k) refl refl)
      by_read none h none c =
          simp (h, c, execute, read_file)
            (failing op w w (not_read out.not_exist) g (λ key k. k) refl refl)
      by_read none h (some content) c =
          simp (h, c, execute, read_file) (store_content-Archives out op content w c g)
