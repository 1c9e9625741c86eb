-- ===== src/Archiver/Coverage.antt =====
-- How much of the sound in the stream the archive operations hold.
use radio_chatter.Common.{
  ℕ, ◌+◌, ◌-◌, ◌*◌, ◌≤◌, ◌≡◌, sym, ◌∙◌, true, false, List, [], ◌∷◌, ◌++◌, arith, Bytes, ltb,
  if◌then◌else◌, Bool-cases, inl, inr,
}
use radio_chatter.Common.Int.{pos, negsuc, pos_part}
use radio_chatter.Ffmpeg.{
  Callback, download_started, start_writing, silence_start, silence_end, unknown_message,
  uninterpreted_stderr, finished,
}
use radio_chatter.Archiver.Numbers.{minute}
use radio_chatter.Archiver.{
  AudioSpan, ArchiveOperation, Archiver, new_archiver, Moment, sent, is_open, send, complete_file,
  on_start_writing, on_finished, on_silence_start, on_silence_end, step, run,
}
use radio_chatter.Archiver.Clock.{Clock, begin_clock, advance, OnTime, Punctual, Tracks}
use radio_chatter.Archiver.Steps.{continue_audio-eq, on_silence_start-eq}
use radio_chatter.Archiver.Spans.{step-Tracks, new-Tracks}

-- The length of a span that lies in its chunk, and the lengths of many.
abbrev pub span_length : AudioSpan → ℕ
span_length s = pos_part s.stop - pos_part s.start

abbrev pub spans_length : List AudioSpan → ℕ
spans_length [] = 0
spans_length (s ∷ rest) = span_length s + spans_length rest

abbrev pub archived : List ArchiveOperation → ℕ
archived [] = 0
archived (op ∷ ops) = spans_length op.pieces + archived ops

-- The sound that a callback closes, if the last sound began at `from`; where the sound begins that
-- is open behind it; and whether it starts a silence.
abbrev pub closes : Callback → ℕ → ℕ
closes (silence_start t) from = pos_part t - from
closes call from = 0

abbrev pub begins : Callback → ℕ → ℕ
begins (silence_end t d) from = pos_part t
begins call from = from

abbrev pub starts_silence : Callback → ℕ
starts_silence (silence_start t) = 1
starts_silence call = 0

-- The sound in the stream, by the silences alone: from the end of each to the start of the next.
abbrev pub sound : ℕ → List (Moment × Callback) → ℕ
sound from [] = 0
sound from ((m, call) ∷ calls) = closes call from + sound (begins call from) calls

abbrev pub silences : List (Moment × Callback) → ℕ
silences [] = 0
silences ((m, call) ∷ calls) = starts_silence call + silences calls

-- Every send is taken, and a silence is reported in the chunk in which it starts.
abbrev pub IsPrompt : Clock → Moment → Callback → Type 0
IsPrompt k m (silence_start t) = (m.select ≡ sent) × (k.since ≤ pos_part t)
IsPrompt k m call = m.select ≡ sent

abbrev pub Prompt : Clock → List (Moment × Callback) → Type 0
Prompt k [] = Unit
Prompt k ((m, call) ∷ calls) = IsPrompt k m call × Prompt (advance call k) calls

spans_length-append :
    (xs ys : List AudioSpan) → spans_length (xs ++ ys) ≡ spans_length xs + spans_length ys
spans_length-append [] ys = omega arith
spans_length-append (x ∷ xs) ys = omega (arith, spans_length-append xs ys)

archived-append : (xs ys : List ArchiveOperation) → archived (xs ++ ys) ≡ archived xs + archived ys
archived-append [] ys = omega arith
archived-append (x ∷ xs) ys = omega (arith, archived-append xs ys)

-- What a step adds to the collected spans, and what it sends.
abbrev held : Archiver × List ArchiveOperation → ℕ
held r = archived r.1 + spans_length r.0.spans

module _ (k : Clock) (a : Archiver) (t : Tracks k a) where
  -- A new chunk adds the sound since `k.since`, up to the end of the old chunk.
  on_start_writing-held :
      (path : Bytes)
      → held (on_start_writing sent path a)
        ≡ spans_length a.spans
          + (if k.opened then (if k.quiet then 0 else (k.index + 1) * minute - k.since) else 0)
  unfolding on_start_writing complete_file send
  on_start_writing-held path = elim (Bool-cases k.opened) [
    | inl o ↦ elim (Bool-cases k.quiet) [
      | inl q ↦ simp (t.open_file, o, t.silent, q) (omega arith)
      | inr q ↦
          simp (t.open_file, o, t.silent, q, continue_audio-eq k a t q, spans_length-append)
            (omega (arith, t.inside q, t.within_chunk))
    ]
    | inr o ↦ simp (t.open_file, o) (omega arith)
  ]

  on_finished-held : held (on_finished sent a) ≡ spans_length a.spans
  unfolding on_finished complete_file send
  on_finished-held = elim (Bool-cases (is_open a.current_file)) [
    | inl o ↦ elim (Bool-cases a.in_silence) [
      | inl q ↦ simp (o, q) (omega arith)
      | inr q ↦ simp (o, q) (omega arith)
    ]
    | inr o ↦ simp o (omega arith)
  ]

  silence_start-held :
      (time : ℕ)
      → k.quiet ≡ false
      → time ≤ (k.index + 1) * minute
      → k.since ≤ time
      → let new = spans_length (on_silence_start (pos time) a).spans in
        (new ≤ spans_length a.spans + (time - k.since))
        × (spans_length a.spans + (time - k.since) ≤ new + 10000000)
  silence_start-held time q b s =
      rw (on_silence_start-eq k a t time q b) (elim (Bool-cases (ltb 10000000 (time - k.since))) [
        | inl long ↦
            rw long (rw spans_length-append (omega (arith, t.inside q), omega (arith, t.inside q)))
        | inr short ↦ rw short (omega arith, ground arith)
      ])

-- The part of the sound since `from` that has been dealt with while it still goes on.
abbrev debt : Clock → ℕ → ℕ
debt k from = if k.quiet then 0 else k.since - from

record Accounts (before heard old new lost : ℕ) (r : Archiver × List ArchiveOperation)
    : Type 0 where
  no_more : held r + old ≤ before + heard + new
  no_less : before + heard + new ≤ held r + old + lost * 10000000

step-Accounts :
    (m : Moment) (call : Callback) (k : Clock) (from : ℕ) (a : Archiver)
    → Tracks k a
    → OnTime k call
    → IsPrompt k m call
    → (k.quiet ≡ false → from ≤ k.since)
    → Accounts
        (spans_length a.spans)
        (closes call from)
        (debt k from)
        (debt (advance call k) (begins call from))
        (starts_silence call)
        (step m call a)
unfolding step on_silence_end
step-Accounts m download_started k from a t o s le = record {
  no_more = omega arith;
  no_less = omega arith;
}
step-Accounts m (start_writing path) k from a t o s le = rw s (
    let h = on_start_writing-held k a t path in
    elim (Bool-cases k.opened) [
      | inl e ↦ elim (Bool-cases k.quiet) [
        | inl q ↦
            let g = simp (e, q) at h in
            simp (e, q)
              (record {
                no_more = omega (arith, t.within_chunk);
                no_less = omega (arith, t.within_chunk);
              })
        | inr q ↦
            let before = le q in
            let ends = t.within_chunk in
            let g = simp (e, q) at h in
            simp (e, q) (record { no_more = omega arith; no_less = omega arith })
      ]
      | inr e ↦
          let g = simp e at h in simp e (record { no_more = omega arith; no_less = omega arith })
    ])
step-Accounts m (silence_start (pos time)) k from a t o s le =
    let h = silence_start-held k a t time o.0 o.1 s.1 in
    let before = le o.0 in rw o.0 (record { no_more = omega arith; no_less = omega arith })
step-Accounts m (silence_start (negsuc time)) k from a t o s le = absurd o
step-Accounts m (silence_end (pos time) d) k from a t o s le =
    rw o.0 (record { no_more = omega arith; no_less = omega arith })
step-Accounts m (silence_end (negsuc time) d) k from a t o s le = absurd o
step-Accounts m (unknown_message msg) k from a t o s le = record {
  no_more = omega arith;
  no_less = omega arith;
}
step-Accounts m (uninterpreted_stderr line) k from a t o s le = record {
  no_more = omega arith;
  no_less = omega arith;
}
step-Accounts m finished k from a t o s le =
    rw s (let h = on_finished-held k a t in record { no_more = omega arith; no_less = omega arith })

-- The sound that is open behind a callback began before what has been dealt with.
begins-le :
    (call : Callback) (k : Clock) (from : ℕ)
    → OnTime k call
    → k.since ≤ (k.index + 1) * minute
    → (k.quiet ≡ false → from ≤ k.since)
    → (advance call k).quiet ≡ false
    → begins call from ≤ (advance call k).since
begins-le (start_writing path) k from o b le q = ground (arith, le)
begins-le (silence_start (pos time)) k from o b le q = cc
begins-le (silence_start (negsuc time)) k from o b le q = absurd o
begins-le (silence_end t d) k from o b le q = omega arith
begins-le download_started k from o b le q = le q
begins-le (unknown_message msg) k from o b le q = le q
begins-le (uninterpreted_stderr line) k from o b le q = le q
begins-le finished k from o b le q = le q

run-Accounts :
    (calls : List (Moment × Callback)) (k : Clock) (from : ℕ) (a : Archiver)
    → Tracks k a
    → Punctual k calls
    → Prompt k calls
    → (k.quiet ≡ false → from ≤ k.since)
    → (run a calls).0.in_silence ≡ true
    → Accounts
        (spans_length a.spans)
        (sound from calls)
        (debt k from)
        0
        (silences calls)
        (run a calls)
unfolding run
run-Accounts [] k from a t p pr le q =
    let quiet : k.quiet ≡ true = sym t.silent ∙ q in
    rw quiet (record { no_more = omega arith; no_less = omega arith })
run-Accounts ((m, call) ∷ calls) k from a t p pr le q =
    let now = step-Accounts m call k from a t p.0 pr.0 le in
    let later =
      run-Accounts calls (advance call k) (begins call from) (step m call a).0
        (step-Tracks m call k a t p.0).0 p.1 pr.1 (begins-le call k from p.0 t.within_chunk le) q in
    let sum = archived-append (step m call a).1 (run (step m call a).0 calls).1 in
    record {
      no_more = omega (arith, now.no_more, later.no_more, sum);
      no_less = omega (arith, now.no_less, later.no_less, sum);
    }

-- Over callbacks that come on time, with every send taken, up to a moment of silence: the pieces
-- in the operations sent and those collected for the open chunk are together no longer than the
-- sound between the silences, and shorter by at most 10 ms for each silence. So sound that goes on
-- across the end of a chunk is split between chunks, and no part of it is lost or kept twice.
pub run-covers :
    (calls : List (Moment × Callback))
    → Punctual begin_clock calls
    → Prompt begin_clock calls
    → (run new_archiver calls).0.in_silence ≡ true
    → let (a, ops) = run new_archiver calls in
      (archived ops + spans_length a.spans ≤ sound 0 calls)
      × (sound 0 calls ≤ archived ops + spans_length a.spans + silences calls * 10000000)
run-covers calls p pr q =
    let r = run-Accounts calls begin_clock 0 new_archiver new-Tracks p pr (λ e. omega arith) q in
    (omega (arith, r.no_more), omega (arith, r.no_less))
