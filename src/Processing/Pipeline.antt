-- ===== src/Processing/Pipeline.antt =====
-- From the chunk files that ffmpeg reports to the blobs in the storage.
use radio_chatter.Common.{
  ℕ, suc, ◌≡◌, refl, sym, ap, ◌∙◌, subst, inl, inr, List, [], ◌∷◌, map, Option, Option-cases, none,
  some, Bytes, All, Result, ok, err,
}
use mathlib.Core.Option.{none-ne-some}
use radio_chatter.Duration.{Duration}
use radio_chatter.Ffmpeg.{Time, Floats}
use radio_chatter.Archiver.{ArchiveOperation, Moment, sent, run}
use radio_chatter.Blob.{Key, Storage, IsStorage}
use radio_chatter.Models.{Stream, Database, FillsIn}
use radio_chatter.Split.{World}
use radio_chatter.Execute.{Outside, ExecuteError, execute}
use radio_chatter.Execute.Archives.{Archives, execute-Archives}
use radio_chatter.Preprocess.{FfmpegRun, PreprocessError, preprocess, preprocess_args}
use radio_chatter.Processing.{then_closed, returned, archive}
use radio_chatter.Processing.Ops.{stays_gone, archive_failed, archive_next}
use radio_chatter.Processing.Reported.{paths, chunk_files, archive_callbacks-paths}
use radio_chatter.Processing.Jobs.{
  archive_callbacks, preprocess_job, Station, jobs, start_processing,
}

-- What holds of the images of all elements.
All-map :
    {A B : Type 0} (P : B → Type 0) (f : A → B) (xs : List A)
    → All (λ x. P (f x)) xs
    → All P (map f xs)
All-map P f [] h = tt
All-map P f (x ∷ xs) h = (h.0, All-map P f xs h.1)

All-weaken :
    {A : Type 0} (P Q : A → Type 0) (xs : List A) → ((x : A) → P x → Q x) → All P xs → All Q xs
All-weaken P Q [] f h = tt
All-weaken P Q (x ∷ xs) f h = (f x h.0, All-weaken P Q xs f h.1)

module _ (S : Storage) (D : Database) (I : IsStorage S) where
  -- A file of the world `w` whose content is in the storage in the end, and which is gone.
  pub record Stored (w w' : World S D) (path : Bytes) : Type 0 where
    pub content : Bytes
    pub was : w.files path ≡ some content
    pub held : I.Holds w'.blobs (I.hash content)
    pub gone : w'.files path ≡ none

  record Loop (ops : List ArchiveOperation) (w w' : World S D) : Type 0 where
    stored : All (λ op. Stored w w' op.path) ops
    keeps : (key : Key) → I.Holds w.blobs key → I.Holds w'.blobs key
    no_new : (name : Bytes) → w.files name ≡ none → w'.files name ≡ none

module _ (S : Storage) (D : Database) (I : IsStorage S) (fills_in : FillsIn D) {E : Type 0}
    (seconds : Duration → Bytes) (stream : Stream) where
  -- An operation, and then the others.
  Loop-cons :
      (op : ArchiveOperation) (ops : List ArchiveOperation) (w w' : World S D)
      (r : World S D × Result (ExecuteError E S.Error D.Error) (Unit {0}))
      → Archives S D I fills_in seconds stream op w r
      → r.1 ≡ ok tt
      → Loop S D I ops r.0 w'
      → Loop S D I (op ∷ ops) w w'
  Loop-cons op ops w w' r a h later =
      let (content, was, gone, key, held, rows) = a.archived h in
      record {
        stored = (
          record {
            content = content;
            was = was;
            held = later.keeps (I.hash content) held;
            gone = later.no_new op.path gone;
          },
          All-weaken (λ o. Stored S D I r.0 w' o.path) (λ o. Stored S D I w w' o.path) ops
              (λ o s. record {
                content = s.content;
                was = earlier o.path s.content s.was;
                held = s.held;
                gone = s.gone;
              })
              later.stored,
        );
        keeps = λ k held. later.keeps k (a.no_blob_lost k held);
        no_new = λ name none_there.
            later.no_new name (stays_gone S D I fills_in seconds stream op w r a h name none_there);
      }
    where
      -- What is there after the operation was there before it.
      earlier : (path content : Bytes) → r.0.files path ≡ some content → w.files path ≡ some content
      earlier path content there = elim (Option-cases (w.files path)) [
        | inl n ↦ absurd (
            none-ne-some content
              (sym (stays_gone S D I fills_in seconds stream op w r a h path n) ∙ there))
        | inr (c, e) ↦
            sym (
              a.others path (λ same.
                none-ne-some content (sym (a.archived h).2 ∙ sym (ap r.0.files same) ∙ there)))
            ∙ there
      ]

  archive-Loop :
      (out : ℕ → Outside E) (i : ℕ) (ops : List ArchiveOperation) (w : World S D)
      → I.Good w.blobs
      → (archive S D seconds stream out i (then_closed ops) w).1 ≡ returned (ok tt)
      → Loop S D I ops w (archive S D seconds stream out i (then_closed ops) w).0
  unfolding archive
  archive-Loop out i [] w g h = record {
    stored = tt;
    keeps = λ key held. held;
    no_new = λ name n. n;
  }
  archive-Loop out i (op ∷ ops) w g h =
      let now = execute S D seconds stream (out i) op w in
      let a = execute-Archives S D I fills_in seconds stream (out i) op w g in
      by_result now.1 refl (λ ended. archive-Loop out (suc i) ops now.0 a.good ended)
    where
      by_result :
          (r : Result (ExecuteError E S.Error D.Error) (Unit {0}))
          → (execute S D seconds stream (out i) op w).1 ≡ r
          → ((archive S D seconds stream out
                  (suc i)
                  (then_closed ops)
                  (execute S D seconds stream (out i) op w).0).1
                ≡ returned (ok tt)
              → Loop S D I ops
                  (execute S D seconds stream (out i) op w).0
                  (archive S D seconds stream out
                    (suc i)
                    (then_closed ops)
                    (execute S D seconds stream (out i) op w).0).0)
          → Loop S D I (op ∷ ops) w (archive S D seconds stream out i (then_closed (op ∷ ops)) w).0
      by_result (err e) t later =
          let bad =
            sym (archive_failed S D I fills_in seconds stream out i op (then_closed ops) w e t)
            ∙ h in
          cc
      by_result (ok done) t later =
          let next = archive_next S D I fills_in seconds stream out i op (then_closed ops) w t in
          subst (λ r. Loop S D I (op ∷ ops) w r.0) (sym next)
            (Loop-cons op ops w _ (execute S D seconds stream (out i) op w)
              (execute-Archives S D I fills_in seconds stream (out i) op w g) t
              (later (sym (ap (λ r. r.1) next) ∙ h)))

  -- The callbacks of `Preprocess` make the operations of the files that they report.
  preprocess-paths :
      (F : Floats) (clock : ℕ → Time) (at : ℕ → Moment) (f : FfmpegRun E)
      → ((i : ℕ) → (at i).select ≡ sent)
      → let calls = (preprocess F clock f).callbacks in
        paths (archive_callbacks at calls) ≡ chunk_files calls
  unfolding preprocess run
  preprocess-paths F clock at f taken = by_errors f.pipe_error refl f.start_error refl
    where
      by_errors :
          (pipe : Option E)
          → f.pipe_error ≡ pipe
          → (start : Option E) → f.start_error ≡ start
          → paths (archive_callbacks at (preprocess F clock f).callbacks)
            ≡ chunk_files (preprocess F clock f).callbacks
      by_errors (some e) p start s = rw (p, preprocess) refl
      by_errors none p (some e) s =
          rw (p, preprocess) (rw s (archive_callbacks-paths at taken F clock [] f.read_error))
      by_errors none p none s =
          rw (p, preprocess) (rw s (archive_callbacks-paths at taken F clock f.stderr f.read_error))

  -- If the storage keeps its promises, `Save` only fills in the primary key and the times, and every
  -- send is taken: when the jobs of a stream have ended, whatever ffmpeg printed and however it
  -- ended, and the archive job without an error, then every chunk file that ffmpeg reported was
  -- there, its content is in the storage under its hash, and the file is gone.
  pub start_processing-Stored :
      (t : Station E) (w w' : World S D) (dir : Bytes) (e : Option (PreprocessError E))
      → ((i : ℕ) → (t.moments i).select ≡ sent)
      → I.Good w.blobs
      → t.temp_dir ≡ some dir
      → start_processing S D seconds t stream w ≡ jobs w' e (returned (ok tt))
      → All (Stored S D I w w') (
          chunk_files
            (preprocess t.floats t.clock (t.ffmpeg (preprocess_args stream.url dir))).callbacks)
  unfolding start_processing preprocess_job
  start_processing-Stored t w w' dir e taken g temp h =
      let f = t.ffmpeg (preprocess_args stream.url dir) in
      let calls = (preprocess t.floats t.clock f).callbacks in
      let ops = archive_callbacks t.moments calls in
      let r = archive S D seconds stream t.outside 0 (then_closed ops) w in
      let both : jobs r.0 (preprocess t.floats t.clock f).error r.1 ≡ jobs w' e (returned (ok tt)) =
        (rw temp at h) in
      let same : r.0 ≡ w' = cc in
      let ended : r.1 ≡ returned (ok tt) = cc in
      let loop = archive-Loop t.outside 0 ops w g ended in
      subst (λ x. All (Stored S D I w x) (chunk_files calls)) same
        (subst (All (Stored S D I w r.0)) (preprocess-paths t.floats t.clock t.moments f taken)
          (All-map (Stored S D I w r.0) (λ op. op.path) ops loop.stored))
