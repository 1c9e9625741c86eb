-- ===== src/Processing/Reported.antt =====
-- From the chunk files that ffmpeg reports to the operations in the channel.
use radio_chatter.Common.{
  ℕ, suc, ◌≡◌, ◌≢◌, refl, ◌∙◌, subst, inl, inr, List, [], ◌∷◌, ◌++◌, map, Option, some, Bytes,
  Option-cases, arith,
}
use mathlib.Core.Option.{none-ne-some, some-injective}
use mathlib.Core.List.{map-append}
use radio_chatter.Ffmpeg.{
  Time, Callback, download_started, start_writing, silence_start, silence_end, unknown_message,
  uninterpreted_stderr, finished, Floats, parse_stderr,
}
use radio_chatter.Ffmpeg.Protocol.{
  Phase, waiting, starting, writing, over, follow, follow_all, parse_stderr-over,
}
use radio_chatter.Archiver.{
  ArchiveOperation, Archiver, new_archiver, Moment, sent, is_open, send, complete_file,
  on_start_writing, on_finished, on_silence_start, on_silence_end, step, run,
}
use radio_chatter.Archiver.Chunks.{pending, file-cases}
use radio_chatter.Processing.Jobs.{timed, archive_callbacks}

-- The files that ffmpeg reports as opened; an empty name is none.
abbrev pub chunk_files : List Callback → List Bytes
chunk_files [] = []
chunk_files (start_writing path ∷ calls) = pending path ++ chunk_files calls
chunk_files (call ∷ calls) = chunk_files calls

abbrev IsRunning : Phase → Type 0
IsRunning waiting = Unit
IsRunning starting = Unit
IsRunning writing = Unit
IsRunning over = ⊥

abbrev pub paths : List ArchiveOperation → List Bytes
paths ops = map (λ op. op.path) ops

after_over : (calls : List Callback) → follow_all over calls ≡ some over → (calls ≡ [])
after_over [] h = refl
after_over (download_started ∷ calls) h = absurd (none-ne-some over h)
after_over (start_writing path ∷ calls) h = absurd (none-ne-some over h)
after_over (silence_start t ∷ calls) h = absurd (none-ne-some over h)
after_over (silence_end t d ∷ calls) h = absurd (none-ne-some over h)
after_over (unknown_message msg ∷ calls) h = absurd (none-ne-some over h)
after_over (uninterpreted_stderr line ∷ calls) h = absurd (none-ne-some over h)
after_over (finished ∷ calls) h = absurd (none-ne-some over h)

on_start_writing-paths :
    (path : Bytes) (a : Archiver)
    → (paths (on_start_writing sent path a).1 ≡ pending a.current_file)
      × ((on_start_writing sent path a).0.current_file ≡ path)
unfolding on_start_writing complete_file send
on_start_writing-paths path a = elim (file-cases a.current_file) [
  | inl e ↦ simp (e, is_open) (refl, refl)
  | inr (c, file, e) ↦ simp (e, is_open) (refl, refl)
]

on_finished-paths : (a : Archiver) → paths (on_finished sent a).1 ≡ pending a.current_file
unfolding on_finished complete_file send
on_finished-paths a = elim (file-cases a.current_file) [
  | inl e ↦ simp (e, is_open) refl
  | inr (c, file, e) ↦ simp (e, is_open) refl
]

follow-over : (phase : Phase) (call : Callback) → follow phase call ≡ some over → (call ≡ finished)
follow-over phase call h = ground arith

goes_on :
    (phase : Phase) (call : Callback) (calls : List Callback)
    → call ≢ finished
    → follow_all phase (call ∷ calls) ≡ some over
    → (next : Phase) × IsRunning next × (follow_all next calls ≡ some over)
goes_on phase call calls differ h = elim (Option-cases (follow phase call)) [
  | inl e ↦ absurd (none-ne-some over (rw (e, follow_all) at h))
  | inr (next, e) ↦ (next, running next e, rw (e, follow_all) at h)
]
  where
    running : (next : Phase) → follow phase call ≡ some next → IsRunning next
    running waiting e = tt
    running starting e = tt
    running writing e = tt
    running over e = differ (follow-over phase call e)

finished_last :
    (phase : Phase) (calls : List Callback)
    → IsRunning phase
    → follow_all phase (finished ∷ calls) ≡ some over
    → (calls ≡ [])
finished_last waiting calls r h = after_over calls h
finished_last starting calls r h = absurd (none-ne-some over h)
finished_last writing calls r h = after_over calls h
finished_last over calls r h = absurd r

module _ (at : ℕ → Moment) (taken : (i : ℕ) → (at i).select ≡ sent) where
  run-paths :
      (i : ℕ) (phase : Phase) (calls : List Callback) (a : Archiver)
      → IsRunning phase
      → follow_all phase calls ≡ some over
      → paths (run a (timed at i calls)).1 ≡ pending a.current_file ++ chunk_files calls
  unfolding run step on_silence_start on_silence_end
  run-paths i phase [] a r h = absurd (subst IsRunning (some-injective _ _ h) r)
  run-paths i phase (start_writing path ∷ calls) a r h =
      let (next, r', h') = goes_on phase (start_writing path) calls (λ e. cc) h in
      let (now, file) = on_start_writing-paths path a in
      let later = run-paths (suc i) next calls (on_start_writing sent path a).0 r' h' in
      rw (taken i)
        (map-append (λ op. op.path) (on_start_writing sent path a).1 _ ∙ rw (now, later, file) refl)
  run-paths i phase (finished ∷ calls) a r h = rw (taken i) (
      rw (finished_last phase calls r h)
        (map-append (λ op. op.path) (on_finished sent a).1 [] ∙ rw (on_finished-paths a) refl))
  run-paths i phase (download_started ∷ calls) a r h =
      let (next, r', h') = goes_on phase download_started calls (λ e. cc) h in
      run-paths (suc i) next calls (record a { recording_started = (at i).now }) r' h'
  run-paths i phase (silence_start t ∷ calls) a r h =
      let (next, r', h') = goes_on phase (silence_start t) calls (λ e. cc) h in
      run-paths (suc i) next calls (on_silence_start t a) r' h'
  run-paths i phase (silence_end t d ∷ calls) a r h =
      let (next, r', h') = goes_on phase (silence_end t d) calls (λ e. cc) h in
      run-paths (suc i) next calls (on_silence_end t d a) r' h'
  run-paths i phase (unknown_message msg ∷ calls) a r h =
      let (next, r', h') = goes_on phase (unknown_message msg) calls (λ e. cc) h in
      run-paths (suc i) next calls a r' h'
  run-paths i phase (uninterpreted_stderr line ∷ calls) a r h =
      let (next, r', h') = goes_on phase (uninterpreted_stderr line) calls (λ e. cc) h in
      run-paths (suc i) next calls a r' h'

  -- Every chunk file that ffmpeg reports is sent on, once and in order.
  pub archive_callbacks-paths :
      {E : Type 0} (F : Floats) (clock : ℕ → Time) (input : Bytes) (failure : Option E)
      → let calls = (parse_stderr F clock input failure).0 in
        paths (archive_callbacks at calls) ≡ chunk_files calls
  archive_callbacks-paths F clock input failure =
      run-paths 0 waiting _ new_archiver tt (parse_stderr-over F clock input failure)
