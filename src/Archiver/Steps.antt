-- ===== src/Archiver/Steps.antt =====
-- What each method of the archiver does while it follows the clock.
use radio_chatter.Common.{
  ltb→lt, lt→ltb, ℕ, ◌+◌, ◌-◌, ◌*◌, ◌≤◌, ◌≡◌, ◌≢◌, refl, ap, ◌∙◌, Bool, true, false, not, ◌&&◌, [],
  ◌∷◌, ◌++◌, arith, Bytes, All, ltb, if◌then◌else◌, Bool-cases, inl, inr,
}
use radio_chatter.Common.Int.{pos}
use radio_chatter.Duration.{add64}
use radio_chatter.Ffmpeg.{silence_start}
use radio_chatter.Archiver.Numbers.{
  minute, sub64-pos_of_le, tiny-sub64, far, mul64-chunk_length, add64-pos,
}
use radio_chatter.Archiver.{
  AudioSpan, ArchiveOperation, Archiver, Moment, Select, sent, cancelled, chunk_length, is_open,
  start_offset, send, continue_audio, complete_file, on_start_writing, on_finished,
  on_silence_start,
}
use radio_chatter.Archiver.Clock.{
  Clock, next_chunk, advance, Ordered, Ordered-append, Ordered-le, Tracks, InChunk,
}

-- The last chunk leaves the state as it is, but for the spans.
pub complete_file_last :
    (select : Select) (a : Archiver) → (complete_file false select a).0 ≡ record a { spans = [] }
unfolding complete_file
complete_file_last select a = elim (Bool-cases a.in_silence) [ inl q ↦ simp q | inr q ↦ simp q ]

is_open_of_ne : (path : Bytes) → path ≢ [] → is_open path ≡ true
is_open_of_ne [] h = absurd (h refl)
is_open_of_ne (c ∷ path) h = refl

module _ (k : Clock) (a : Archiver) (t : Tracks k a) where
  pub start_offset-eq : start_offset a ≡ pos (k.index * minute)
  unfolding start_offset
  start_offset-eq = rw t.index (mul64-chunk_length k.index (omega (arith, t.room)))

  abbrev pub tail_span : AudioSpan
  tail_span = record { start = pos (k.since - k.index * minute); stop = pos minute }

  -- The span that `completeFile` adds, where there is sound at the end of the chunk.
  pub continue_audio-eq :
      k.quiet ≡ false
      → continue_audio a ≡ record a {
        spans = a.spans ++ (tail_span ∷ []);
        audio_started = pos ((k.index + 1) * minute);
      }
  unfolding continue_audio
  continue_audio-eq q =
      let room = t.room in
      let inside = t.inside q in
      let within = t.within_chunk in
      let end : add64 (pos (k.index * minute)) chunk_length ≡ pos ((k.index + 1) * minute) =
        add64-pos (k.index * minute) minute (omega arith) (omega arith) ∙ ap pos (omega arith) in
      let span_length : (k.index + 1) * minute - k.index * minute ≡ minute = omega arith in
      rw (start_offset-eq, t.heard q, end)
        (rw (sub64-pos_of_le k.since (k.index * minute) (omega arith) (omega arith) (omega arith)) (
          rw
            (sub64-pos_of_le ((k.index + 1) * minute) (k.index * minute) (omega arith) (omega arith)
              (omega arith))
            (rw span_length)))

  abbrev pub cut_span : ℕ → AudioSpan
  cut_span time = record {
    start = pos (k.since - k.index * minute);
    stop = pos (time - k.index * minute);
  }

  -- What `onSilenceStart` does at a time up to the end of the chunk.
  pub on_silence_start-eq :
      (time : ℕ)
      → k.quiet ≡ false
      → time ≤ (k.index + 1) * minute
      → on_silence_start (pos time) a ≡ record a {
        spans = if ltb 10000000 (time - k.since) then a.spans ++ (cut_span time ∷ []) else a.spans;
        in_silence = true;
      }
  unfolding on_silence_start
  on_silence_start-eq time q b =
      let room = t.room in
      let inside = t.inside q in
      let within = t.within_chunk in
      rw (start_offset-eq, t.heard q)
        (rw (sub64-pos_of_le k.since (k.index * minute) (omega arith) (omega arith) (omega arith)) (
          rw (tiny-sub64 time k.since (k.index * minute) (omega arith) (omega arith) (omega arith))
            (elim (Bool-cases (ltb 10000000 (time - k.since))) [
              | inl long ↦
                  rw
                    (sub64-pos_of_le time (k.index * minute) (omega arith) (omega arith)
                      (omega (arith, ltb→lt _ _ long)))
                    refl
              | inr short ↦ rw (short)
            ])))

  pub send-InChunk :
      (select : Select) (op : ArchiveOperation) → InChunk op → All InChunk (send select op)
  unfolding send
  send-InChunk sent op h = (h, tt)
  send-InChunk cancelled op h = tt

  pub spans-InChunk : Ordered (pos 0) chunk_length a.spans
  spans-InChunk =
      Ordered-le (pos 0) (pos (k.since - k.index * minute)) chunk_length a.spans t.ordered
        (omega (arith, t.within_chunk))

  pub continued-InChunk : k.quiet ≡ false → Ordered (pos 0) chunk_length (continue_audio a).spans
  continued-InChunk q = rw (continue_audio-eq q) (
      Ordered-append (pos 0) (pos (k.since - k.index * minute)) chunk_length a.spans tail_span
        t.ordered (omega arith) (omega (arith, t.within_chunk)) (omega arith))

  pub complete_file-InChunk :
      (more : Bool) (select : Select) → All InChunk (complete_file more select a).1
  unfolding complete_file
  complete_file-InChunk more select = elim (Bool-cases (not a.in_silence && more)) [
    | inl e ↦ send-InChunk select _ (rw e (continued-InChunk (ground (arith, t.silent))))
    | inr e ↦ send-InChunk select _ (rw e spans-InChunk)
  ]

  pub index-next : add64 a.file_index (pos 1) ≡ pos (k.index + 1)
  index-next = rw t.index (add64-pos k.index 1 (omega (arith, t.room)) (omega arith))

  pub next_chunk-Tracks :
      (m : Moment) (path : Bytes)
      → k.opened ≡ true
      → path ≢ []
      → (k.index + 3) * minute ≤ far
      → Tracks (next_chunk k) (on_start_writing m.select path a).0
  unfolding on_start_writing complete_file
  next_chunk-Tracks m path o ne room = elim (Bool-cases k.quiet) [
    | inl q ↦
        simp (t.open_file, o, t.silent, q)
          (record {
            open_file = is_open_of_ne path ne;
            index = index-next;
            silent = refl;
            heard = λ e. cc;
            inside = λ e. cc;
            within_chunk = omega (arith, t.within_chunk);
            room = omega arith;
            ordered = omega arith;
          })
    | inr q ↦
        simp (t.open_file, o, t.silent, q, continue_audio-eq q)
          (record {
            open_file = is_open_of_ne path ne;
            index = index-next;
            silent = refl;
            heard = λ e. refl;
            inside = λ e. omega arith;
            within_chunk = omega arith;
            room = omega arith;
            ordered = omega arith;
          })
  ]

  pub first_chunk-Tracks :
      (m : Moment) (path : Bytes)
      → k.opened ≡ false
      → path ≢ []
      → Tracks (record k { opened = true }) (on_start_writing m.select path a).0
  unfolding on_start_writing
  first_chunk-Tracks m path o ne =
      simp (t.open_file, o)
        (record {
          open_file = is_open_of_ne path ne;
          index = t.index;
          silent = t.silent;
          heard = t.heard;
          inside = t.inside;
          within_chunk = t.within_chunk;
          room = t.room;
          ordered = t.ordered;
        })

  pub on_start_writing-InChunk :
      (select : Select) (path : Bytes) → All InChunk (on_start_writing select path a).1
  unfolding on_start_writing
  on_start_writing-InChunk select path = elim (Bool-cases (is_open a.current_file)) [
    | inl o ↦ rw o (complete_file-InChunk true select)
    | inr o ↦ rw o tt
  ]

  pub on_finished-InChunk : (select : Select) → All InChunk (on_finished select a).1
  unfolding on_finished
  on_finished-InChunk select = elim (Bool-cases (is_open a.current_file)) [
    | inl o ↦ rw o (complete_file-InChunk false select)
    | inr o ↦ rw o tt
  ]

  pub on_finished-Tracks : (select : Select) → Tracks k (on_finished select a).0
  unfolding on_finished
  on_finished-Tracks select = elim (Bool-cases (is_open a.current_file)) [
    | inl o ↦
        simp (o, complete_file_last)
          (record {
            open_file = t.open_file;
            index = t.index;
            silent = t.silent;
            heard = t.heard;
            inside = t.inside;
            within_chunk = t.within_chunk;
            room = t.room;
            ordered = omega arith;
          })
    | inr o ↦ simp o t
  ]

  pub silence_start-Tracks :
      (time : ℕ)
      → k.quiet ≡ false
      → time ≤ (k.index + 1) * minute
      → Tracks (advance (silence_start (pos time)) k) (on_silence_start (pos time) a)
  silence_start-Tracks time q b = rw (on_silence_start-eq time q b) (record {
    open_file = t.open_file;
    index = t.index;
    silent = refl;
    heard = λ e. cc;
    inside = λ e. cc;
    within_chunk = ground (arith, t.within_chunk);
    room = t.room;
    ordered = elim (Bool-cases (ltb 10000000 (time - k.since))) [
      | inl long ↦
          let past : ltb k.since time ≡ true = lt→ltb _ _ (omega (arith, ltb→lt _ _ long)) in
          rw (long, past)
            (Ordered-append (pos 0) (pos (k.since - k.index * minute))
              (pos (time - k.index * minute)) a.spans (cut_span time) t.ordered (omega arith)
              (omega (arith, ltb→lt _ _ long)) (omega arith))
      | inr short ↦
          rw short (
            Ordered-le (pos 0) (pos (k.since - k.index * minute)) _ a.spans t.ordered
              (ground arith))
    ];
  })
