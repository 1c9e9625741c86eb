-- ===== src/Split/Sound.antt =====
-- What a job of `splitChunk` has achieved in each phase, and what it leaves alone.
use radio_chatter.Common.{
  ◌≡◌, ◌≢◌, refl, sym, ◌∙◌, subst, [], ◌∷◌, ◌++◌, Option, none, some, Bytes, Result, ok, err, Bool,
  true, false, if◌then◌else◌,
}
use radio_chatter.Duration.{Duration}
use radio_chatter.Archiver.{AudioSpan}
use radio_chatter.Blob.{Key, IsKey, Storage, IsStorage}
use radio_chatter.Models.{Chunk, Transmission, Database}
use radio_chatter.Files.{
  read_file, leave, clean_up, leave-other, leave-same, clean_up-other, read_file-ok,
  remove_file-same,
}
use radio_chatter.Clip.{clip_args}
use radio_chatter.Commands.{RunError, command_was_cancelled}
use radio_chatter.Split.{Job, SplitError, was_cancelled, not_extracted, World, transmission_row}
use radio_chatter.Split.Group.{
  JobPhase, starting, extracted, reading, stored, ending, ended, after_command, after_read,
  after_store, after_save, next_step,
}

module _ (S : Storage) (D : Database) (I : IsStorage S) {E : Type 0} (seconds : Duration → Bytes)
    (not_exist : E) (path : Bytes) (chunk : Chunk) where
  -- A transmission that was saved for a clip that is stored.
  pub record Saves (span : AudioSpan) (job : Job E) (w : World S D) (t : Transmission)
      : Type 0 where
    pub clip : Bytes
    pub written : job.output ≡ some clip
    pub is_key : IsKey (I.hash clip)
    pub held : I.Holds w.blobs (I.hash clip)
    pub rows : D.State
    pub row : (D.save_transmission (transmission_row span chunk (I.hash clip)) rows).1 ≡ ok t

  abbrev pub SavesResult :
      AudioSpan → Job E → World S D → Result (SplitError E S.Error D.Error) Transmission → Type 0
  SavesResult span job w (err e) = Unit
  SavesResult span job w (ok t) = Saves span job w t

  -- The phase of a job says what is true of the world.
  abbrev pub Sound : AudioSpan → Job E → World S D → JobPhase E S.Error D.Error → Type 0
  Sound span job w starting = w.files job.tmp ≡ none
  Sound span job w extracted = w.files job.tmp ≡ job.output
  Sound span job w (reading content) = job.output ≡ some content
  Sound span job w (stored key) =
      (clip : Bytes) × (job.output ≡ some clip)
      × (key ≡ I.hash clip)
      × IsKey key
      × I.Holds w.blobs key
  Sound span job w (ending r) = SavesResult span job w r
  Sound span job w (ended r) =
      SavesResult span job w r × (job.remove_error ≡ none → w.files job.tmp ≡ none)

  -- What a step changes at most, if the name of its job's temporary file is given.
  pub record Grows (tmp : Bytes) (w w' : World S D) : Type 0 where
    pub good : I.Good w'.blobs
    pub no_blob_lost : (key : Key) → I.Holds w.blobs key → I.Holds w'.blobs key
    pub others : (name : Bytes) → name ≢ tmp → w'.files name ≡ w.files name

  pub next_step-Grows :
      (span : AudioSpan) (job : Job E) (p : JobPhase E S.Error D.Error) (w : World S D)
      → I.Good w.blobs
      → Grows job.tmp w (next_step S D seconds not_exist job path span chunk p w).0
  unfolding next_step
  next_step-Grows span job starting w g = record {
    good = g;
    no_blob_lost = λ key h. h;
    others = λ name ne. leave-other job.output job.tmp name w.files ne;
  }
  next_step-Grows span job extracted w g = record {
    good = g;
    no_blob_lost = λ key h. h;
    others = λ name ne. refl;
  }
  next_step-Grows span job (reading content) w g = record {
    good = I.store-Good content w.blobs g;
    no_blob_lost = λ key h. I.store-keeps content w.blobs key g h;
    others = λ name ne. refl;
  }
  next_step-Grows span job (stored key) w g = record {
    good = g;
    no_blob_lost = λ key h. h;
    others = λ name ne. refl;
  }
  next_step-Grows span job (ending r) w g = record {
    good = g;
    no_blob_lost = λ key h. h;
    others = λ name ne. clean_up-other job.remove_error job.tmp name w.files ne;
  }
  next_step-Grows span job (ended r) w g = record {
    good = g;
    no_blob_lost = λ key h. h;
    others = λ name ne. refl;
  }

  -- A result stays true while no blob is lost.
  SavesResult-kept :
      (span : AudioSpan) (job : Job E) (w w' : World S D)
      (r : Result (SplitError E S.Error D.Error) Transmission)
      → ((key : Key) → I.Holds w.blobs key → I.Holds w'.blobs key)
      → SavesResult span job w r
      → SavesResult span job w' r
  SavesResult-kept span job w w' (err e) kept s = tt
  SavesResult-kept span job w w' (ok t) kept s = record {
    clip = s.clip;
    written = s.written;
    is_key = s.is_key;
    held = kept (I.hash s.clip) s.held;
    rows = s.rows;
    row = s.row;
  }

  -- A step of another job, whose temporary file has another name.
  pub Sound-Grows :
      (span : AudioSpan) (job : Job E) (tmp : Bytes) (w w' : World S D)
      (p : JobPhase E S.Error D.Error)
      → Grows tmp w w'
      → job.tmp ≢ tmp
      → Sound span job w p
      → Sound span job w' p
  Sound-Grows span job tmp w w' starting grows ne s = grows.others job.tmp ne ∙ s
  Sound-Grows span job tmp w w' extracted grows ne s = grows.others job.tmp ne ∙ s
  Sound-Grows span job tmp w w' (reading content) grows ne s = s
  Sound-Grows span job tmp w w' (stored key) grows ne (clip, h, same, is_key, held) =
      (clip, h, same, is_key, grows.no_blob_lost key held)
  Sound-Grows span job tmp w w' (ending r) grows ne s =
      SavesResult-kept span job w w' r grows.no_blob_lost s
  Sound-Grows span job tmp w w' (ended r) grows ne s = (
    SavesResult-kept span job w w' r grows.no_blob_lost s.0,
    λ h. grows.others job.tmp ne ∙ s.1 h,
  )

  -- A step of the job itself.
  pub next_step-Sound :
      (span : AudioSpan) (job : Job E) (p : JobPhase E S.Error D.Error) (w : World S D)
      → I.Good w.blobs
      → Sound span job w p
      → let r = next_step S D seconds not_exist job path span chunk p w in Sound span job r.0 r.1
  unfolding next_step
  next_step-Sound span job starting w g s = by_command job.run_error
    where
      w' : World S D
      w' = record w {
        files = leave job.output job.tmp w.files;
        commands = w.commands ++ (clip_args seconds path span job.tmp ∷ []);
      }

      by_cancelled :
          (e : RunError E) (b : Bool)
          → SavesResult span job w' (if b then err was_cancelled else err (not_extracted e))
      by_cancelled e true = tt
      by_cancelled e false = tt

      by_command :
          (failure : Option (RunError E))
          → Sound span job w' (after_command S D seconds not_exist job failure)
      by_command none = leave-same job.output job.tmp w.files s
      by_command (some e) = by_cancelled e (command_was_cancelled job.context_done e)
  next_step-Sound span job extracted w g s =
      by_read (read_file not_exist job.read_error job.tmp w.files) refl
    where
      by_read :
          (r : Result E Bytes)
          → read_file not_exist job.read_error job.tmp w.files ≡ r
          → Sound span job w (after_read S D seconds not_exist r)
      by_read (err e) h = tt
      by_read (ok content) h =
          sym s ∙ read_file-ok not_exist job.read_error job.tmp w.files content h
  next_step-Sound span job (reading content) w g s = by_stored (S.store content w.blobs).1 refl
    where
      w' : World S D
      w' = record w { blobs = (S.store content w.blobs).0 }

      by_stored :
          (r : Result S.Error Key)
          → (S.store content w.blobs).1 ≡ r
          → Sound span job w' (after_store S D seconds not_exist r)
      by_stored (err e) h = tt
      by_stored (ok key) h =
          let (same, is_key, held) = I.store-Holds content w.blobs g h in
          (content, s, same, is_key, held)
  next_step-Sound span job (stored key) w g (clip, written, same, is_key, held) =
      by_saved (D.save_transmission (transmission_row span chunk key) w.rows).1 refl
    where
      w' : World S D
      w' = record w { rows = (D.save_transmission (transmission_row span chunk key) w.rows).0 }

      by_saved :
          (r : Result D.Error Transmission)
          → (D.save_transmission (transmission_row span chunk key) w.rows).1 ≡ r
          → Sound span job w' (after_save S D seconds not_exist r)
      by_saved (err e) h = tt
      by_saved (ok t) h = record {
        clip = clip;
        written = written;
        is_key = subst IsKey same is_key;
        held = subst (λ k. I.Holds w.blobs k) same held;
        rows = w.rows;
        row =
            subst (λ k. (D.save_transmission (transmission_row span chunk k) w.rows).1 ≡ ok t) same
              h;
      }
  next_step-Sound span job (ending r) w g s = (by_result r s, by_removed job.remove_error)
    where
      w' : World S D
      w' = record w { files = clean_up job.remove_error job.tmp w.files }

      by_result :
          (r : Result (SplitError E S.Error D.Error) Transmission)
          → SavesResult span job w r
          → SavesResult span job w' r
      by_result r s = SavesResult-kept span job w w' r (λ key h. h) s

      by_removed :
          (failure : Option E) → failure ≡ none → clean_up failure job.tmp w.files job.tmp ≡ none
      by_removed none h = remove_file-same job.tmp w.files
      by_removed (some e) h = cc
  next_step-Sound span job (ended r) w g s = s
