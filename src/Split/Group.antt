-- ===== src/Split/Group.antt =====
-- pkg/archive.go: `splitChunk`, whose jobs run in goroutines: a schedule says which of them makes the
-- next step. A step of `splitAudio` ends with a call that others can see the effect of.
use radio_chatter.Common.{
  ℕ, zero, suc, List, [], ◌∷◌, ◌++◌, ◌==◌, Option, none, some, Bytes, Result, ok, err, get_elem?,
  length, if◌then◌else◌,
}
use radio_chatter.Duration.{Duration}
use radio_chatter.Archiver.{AudioSpan}
use radio_chatter.Blob.{Key, Storage}
use radio_chatter.Models.{Chunk, Transmission, Database}
use radio_chatter.Files.{read_file, leave, clean_up}
use radio_chatter.Clip.{clip_args}
use radio_chatter.Commands.{RunError, command_was_cancelled}
use radio_chatter.Split.{
  Job, SplitError, was_cancelled, not_extracted, clip_not_read, clip_not_stored,
  transmission_not_saved, World, transmission_row,
}

-- How far a job is: before `cmd.Run`, behind it, with the clip read, with the clip stored, before
-- the deferred removal, and at its end.
pub data JobPhase (E S D : Type 0) : Type 0 where
  starting : JobPhase E S D
  extracted : JobPhase E S D
  reading : Bytes → JobPhase E S D
  stored : Key → JobPhase E S D
  ending : Result (SplitError E S D) Transmission → JobPhase E S D
  ended : Result (SplitError E S D) Transmission → JobPhase E S D

abbrev pub error_of : {E S D : Type 0} → JobPhase E S D → Option (SplitError E S D)
error_of (ended (err e)) = some e
error_of _ = none

-- The jobs of an `errgroup`, and the first error that one of them returned.
pub record Group (S : Storage) (D : Database) (E : Type 0) : Type 0 where
  pub world : World S D
  pub phase : ℕ → JobPhase E S.Error D.Error
  pub failure : Option (SplitError E S.Error D.Error)

module _ (S : Storage) (D : Database) {E : Type 0} (seconds : Duration → Bytes)
    (not_exist : E) where
  -- The phases behind the calls.
  abbrev pub after_command : Job E → Option (RunError E) → JobPhase E S.Error D.Error
  after_command job none = extracted
  after_command job (some e) = ending (
      if command_was_cancelled job.context_done e then err was_cancelled else err (not_extracted e))

  abbrev pub after_read : Result E Bytes → JobPhase E S.Error D.Error
  after_read (err e) = ending (err (clip_not_read e))
  after_read (ok content) = reading content

  abbrev pub after_store : Result S.Error Key → JobPhase E S.Error D.Error
  after_store (err e) = ending (err (clip_not_stored e))
  after_store (ok key) = stored key

  abbrev pub after_save : Result D.Error Transmission → JobPhase E S.Error D.Error
  after_save (err e) = ending (err (transmission_not_saved e))
  after_save (ok transmission) = ending (ok transmission)

  -- A step of `splitAudio`.
  unfoldable pub next_step :
      Job E
      → Bytes
      → AudioSpan
      → Chunk
      → JobPhase E S.Error D.Error
      → World S D
      → World S D × JobPhase E S.Error D.Error
  next_step job path span chunk starting w = (
    record w {
      files = leave job.output job.tmp w.files;
      commands = w.commands ++ (clip_args seconds path span job.tmp ∷ []);
    },
    after_command job job.run_error,
  )
  next_step job path span chunk extracted w =
      (w, after_read (read_file not_exist job.read_error job.tmp w.files))
  next_step job path span chunk (reading content) w =
      let (blobs, r) = S.store content w.blobs in (record w { blobs = blobs }, after_store r)
  next_step job path span chunk (stored key) w =
      let (rows, r) = D.save_transmission (transmission_row span chunk key) w.rows in
      (record w { rows = rows }, after_save r)
  next_step job path span chunk (ending r) w =
      (record w { files = clean_up job.remove_error job.tmp w.files }, ended r)
  next_step job path span chunk (ended r) w = (w, ended r)

  module _ (jobs : ℕ → Job E) (path : Bytes) (pieces : List AudioSpan) (chunk : Chunk) where
    -- `errOnce` of the group keeps its first error.
    abbrev pub moved : ℕ → World S D × JobPhase E S.Error D.Error → Group S D E → Group S D E
    moved i (w, p) g = record {
      world = w;
      phase = λ j. if j == i then p else g.phase j;
      failure = elim g.failure [ some e ↦ some e | none ↦ error_of p ];
    }

    -- The next step of the job of a piece.
    unfoldable pub advance_job : ℕ → Group S D E → Group S D E
    advance_job i g = elim (get_elem? pieces i) [
      | none ↦ g
      | some span ↦ moved i (next_step (jobs i) path span chunk (g.phase i) g.world) g
    ]

    unfoldable pub advance_all : List ℕ → Group S D E → Group S D E
    advance_all [] g = g
    advance_all (i ∷ schedule) g = advance_all schedule (advance_job i g)

    -- Every job from `i` on runs to its end.
    abbrev pub in_turn : ℕ → ℕ → List ℕ
    in_turn i zero = []
    in_turn i (suc n) = i ∷ i ∷ i ∷ i ∷ i ∷ in_turn (suc i) n

    -- `splitChunk`: a schedule, and then what is left of every job, since `Wait` waits for them all.
    unfoldable pub split_chunk :
        List ℕ → World S D → World S D × Option (SplitError E S.Error D.Error)
    split_chunk schedule w =
        let g =
          advance_all (schedule ++ in_turn 0 (length pieces))
            (record { world = w; phase = λ i. starting; failure = none }) in
        (g.world, g.failure)
