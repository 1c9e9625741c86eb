-- ===== src/Ffmpeg/Protocol.antt =====
-- The order of the callbacks that `parseStderr` makes.
use radio_chatter.Common.{
  ℕ, suc, ◌≡◌, refl, Bool, true, false, List, [], ◌∷◌, ◌++◌, ◌∙◌, Option, none, some, arith, Bytes,
  codes, equal, Bool-cases, Option-cases, inl, inr,
}
use mathlib.Core.Option.{none-ne-some}
use radio_chatter.Regex.{match_whole}
use radio_chatter.Ffmpeg.Patterns.{message_pattern}
use radio_chatter.Ffmpeg.{
  Time, ComponentMessage, Callback, download_started, start_writing, silence_start, silence_end,
  unknown_message, uninterpreted_stderr, finished, Floats, parse_seconds, process_segment,
  process_silence, process_silence_end, process, process_line, process_lines, scan, parse_stderr,
}

-- Before the download has started, between `DownloadStarted` and the first `StartWriting`, while
-- chunks are written, and after `Finished`.
pub data Phase : Type 0 where
  waiting starting writing over : Phase

-- Which callbacks each phase allows, and the phase that follows.
abbrev pub follow : Phase → Callback → Option Phase
follow waiting download_started = some starting
follow starting (start_writing path) = some writing
follow writing (start_writing path) = some writing
follow waiting finished = some over
follow writing finished = some over
follow waiting (silence_start t) = some waiting
follow waiting (silence_end t d) = some waiting
follow waiting (unknown_message msg) = some waiting
follow waiting (uninterpreted_stderr line) = some waiting
follow writing (silence_start t) = some writing
follow writing (silence_end t d) = some writing
follow writing (unknown_message msg) = some writing
follow writing (uninterpreted_stderr line) = some writing
follow _ _ = none

abbrev pub follow_all : Phase → List Callback → Option Phase
follow_all phase [] = some phase
follow_all phase (call ∷ calls) = elim (follow phase call) [
  | none ↦ none
  | some next ↦ follow_all next calls
]

abbrev phase_of : Bool → Phase
phase_of false = waiting
phase_of true = writing

follow_all-append :
    (phase next : Phase) (xs ys : List Callback)
    → follow_all phase xs ≡ some next
    → follow_all phase (xs ++ ys) ≡ follow_all next ys
follow_all-append phase next [] ys h = ground arith
follow_all-append phase next (x ∷ xs) ys h = elim (Option-cases (follow phase x)) [
  | inl e ↦ absurd (none-ne-some next (rw (e, follow_all) at h))
  | inr (mid, e) ↦ rw (e, follow_all) (follow_all-append mid next xs ys (rw (e, follow_all) at h))
]

module _ (F : Floats) where
  process_silence-phase :
      (running : Bool) (msg : ComponentMessage)
      → follow_all (phase_of running) (process_silence F msg) ≡ some (phase_of running)
  unfolding process_silence process_silence_end parse_seconds
  process_silence-phase running msg = ground arith

  process_segment-phase :
      (running : Bool) (msg : ComponentMessage)
      → let (running', calls) = process_segment F running msg in
        follow_all (phase_of running) calls ≡ some (phase_of running')
  unfolding process_segment
  process_segment-phase running msg = ground arith

  process-phase :
      (running : Bool) (msg : ComponentMessage)
      → let (running', calls) = process F running msg in
        follow_all (phase_of running) calls ≡ some (phase_of running')
  unfolding process
  process-phase running msg = elim (Bool-cases (equal msg.component (codes "segment"))) [
    | inl e ↦ rw e (process_segment-phase running msg)
    | inr e ↦ rw e (elim (Bool-cases (equal msg.component (codes "silencedetect"))) [
      | inl e' ↦ rw e' (process_silence-phase running msg)
      | inr e' ↦ rw e' (ground arith)
    ])
  ]

  process_line-phase :
      (now : Time) (running : Bool) (line : Bytes)
      → let (running', calls) = process_line F now running line in
        follow_all (phase_of running) calls ≡ some (phase_of running')
  unfolding process_line
  process_line-phase now running line = by_match (match_whole message_pattern line) refl
    where
      keeps :
          follow_all (phase_of running) (uninterpreted_stderr line ∷ []) ≡ some (phase_of running)
      keeps = ground arith

      by_match :
          (m : Option (List Bytes))
          → match_whole message_pattern line ≡ m
          → follow_all (phase_of running) (process_line F now running line).1
            ≡ some (phase_of (process_line F now running line).0)
      by_match none e = rw (e, process_line) keeps
      by_match (some []) e = rw (e, process_line) keeps
      by_match (some (component ∷ [])) e = rw (e, process_line) keeps
      by_match (some (component ∷ payload ∷ rest)) e =
          rw (e, process_line)
            (process-phase running
              (record { timestamp = now; component = component; payload = payload }))

  process_lines-phase :
      (clock : ℕ → Time) (i : ℕ) (running : Bool) (lines : List Bytes)
      → (running' : Bool) × (follow_all (phase_of running) (process_lines F clock i running lines)
          ≡ some (phase_of running'))
  unfolding process_lines
  process_lines-phase clock i running [] = (running, refl)
  process_lines-phase clock i running (line ∷ lines) =
      let r = process_line F (clock i) running line in
      let (running', later) = process_lines-phase clock (suc i) r.0 lines in
      (
        running',
        follow_all-append (phase_of running) (phase_of r.0) r.1 _
              (process_line-phase (clock i) running line)
            ∙ later,
      )

  -- Whatever ffmpeg prints: the callbacks keep to the order of `follow`. So `DownloadStarted` is
  -- called at most once, directly before the first `StartWriting` and never without it, and
  -- `Finished` is called exactly once, as the last callback.
  pub parse_stderr-over :
      {E : Type 0} (clock : ℕ → Time) (input : Bytes) (failure : Option E)
      → follow_all waiting (parse_stderr F clock input failure).0 ≡ some over
  unfolding parse_stderr
  parse_stderr-over clock input failure =
      let (running, h) = process_lines-phase clock 0 false (scan failure [] 0 input).0 in
      follow_all-append waiting (phase_of running)
        (process_lines F clock 0 false (scan failure [] 0 input).0) (finished ∷ []) h
      ∙ last running
    where
      last : (running : Bool) → follow_all (phase_of running) (finished ∷ []) ≡ some over
      last true = refl
      last false = refl
