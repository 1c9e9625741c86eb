-- ===== src/Archiver/Spans.antt =====
-- Where the pieces of an archive operation lie in their chunk.
use radio_chatter.Common.{
  ◌-◌, ◌*◌, refl, List, [], ◌∷◌, arith, All, All-append, Bool-cases, inl, inr,
}
use radio_chatter.Common.Int.{pos, negsuc}
use radio_chatter.Ffmpeg.{
  Callback, download_started, start_writing, silence_start, silence_end, unknown_message,
  uninterpreted_stderr, finished,
}
use radio_chatter.Archiver.Numbers.{minute}
use radio_chatter.Archiver.{Archiver, new_archiver, Moment, on_silence_end, step, run}
use radio_chatter.Archiver.Clock.{
  Clock, begin_clock, advance, OnTime, Punctual, Ordered-le, Tracks, InChunk,
}
use radio_chatter.Archiver.Steps.{
  next_chunk-Tracks, first_chunk-Tracks, on_start_writing-InChunk, on_finished-InChunk,
  on_finished-Tracks, silence_start-Tracks,
}

-- Every callback that comes on time keeps the archiver in step with the clock.
pub step-Tracks :
    (m : Moment) (call : Callback) (k : Clock) (a : Archiver)
    → Tracks k a
    → OnTime k call
    → Tracks (advance call k) (step m call a).0 × All InChunk (step m call a).1
unfolding step on_silence_end
step-Tracks m download_started k a t o = (
  record {
    open_file = t.open_file;
    index = t.index;
    silent = t.silent;
    heard = t.heard;
    inside = t.inside;
    within_chunk = t.within_chunk;
    room = t.room;
    ordered = t.ordered;
  },
  tt,
)
step-Tracks m (start_writing path) k a t o = elim (Bool-cases k.opened) [
  | inl e ↦
      simp e
        (next_chunk-Tracks k a t m path e o.0 o.1, on_start_writing-InChunk k a t m.select path)
  | inr e ↦
      simp e (first_chunk-Tracks k a t m path e o.0, on_start_writing-InChunk k a t m.select path)
]
step-Tracks m (silence_start (pos time)) k a t o = (silence_start-Tracks k a t time o.0 o.1, tt)
step-Tracks m (silence_start (negsuc time)) k a t o = absurd o
step-Tracks m (silence_end (pos time) d) k a t o = (
  record {
    open_file = t.open_file;
    index = t.index;
    silent = refl;
    heard = λ e. refl;
    inside = λ e. o.2;
    within_chunk = o.3;
    room = t.room;
    ordered =
        Ordered-le (pos 0) (pos (k.since - k.index * minute)) _ a.spans t.ordered (omega arith);
  },
  tt,
)
step-Tracks m (silence_end (negsuc time) d) k a t o = absurd o
step-Tracks m (unknown_message msg) k a t o = (t, tt)
step-Tracks m (uninterpreted_stderr line) k a t o = (t, tt)
step-Tracks m finished k a t o =
    (on_finished-Tracks k a t m.select, on_finished-InChunk k a t m.select)

run-InChunk :
    (calls : List (Moment × Callback)) (k : Clock) (a : Archiver)
    → Tracks k a
    → Punctual k calls
    → All InChunk (run a calls).1
unfolding run
run-InChunk [] k a t p = tt
run-InChunk ((m, call) ∷ calls) k a t p =
    let (t', here) = step-Tracks m call k a t p.0 in
    All-append InChunk (step m call a).1 (run (step m call a).0 calls).1 here
      (run-InChunk calls (advance call k) (step m call a).0 t' p.1)

pub new-Tracks : Tracks begin_clock new_archiver
new-Tracks = record {
  open_file = refl;
  index = refl;
  silent = refl;
  heard = λ e. refl;
  inside = λ e. omega arith;
  within_chunk = omega arith;
  room = omega arith;
  ordered = omega arith;
}

-- If every callback comes while the chunk that it belongs to is still open, then the pieces of
-- every archive operation that is sent lie between 0 and one minute, each ends no earlier than it
-- starts, and each starts no earlier than the one before it ends. The callbacks may come in any
-- order that is on time, and any of the sends may be given up for a cancelled context.
pub run-Ordered :
    (calls : List (Moment × Callback))
    → Punctual begin_clock calls
    → All InChunk (run new_archiver calls).1
run-Ordered calls p = run-InChunk calls begin_clock new_archiver new-Tracks p
