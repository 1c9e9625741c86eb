-- ===== src/Tests/Archiver.antt =====
-- A recording of two chunks, through the archiver.
use radio_chatter.Common.{
  ◌+◌, ◌*◌, ◌≤◌, ◌<◌, ◌≡◌, refl, true, List, [], ◌∷◌, ◌++◌, map, some, arith, codes, All, last?,
}
use radio_chatter.Common.Int.{pos, ◌+ℤ◌}
use radio_chatter.Ffmpeg.{
  Callback, start_writing, silence_start, silence_end, download_started, finished,
}
use radio_chatter.Archiver.Numbers.{minute}
use radio_chatter.Archiver.{
  ArchiveOperation, Archiver, new_archiver, Moment, sent, run, step, on_silence_start,
  on_start_writing,
}
use radio_chatter.Archiver.Clock.{begin_clock, InChunk, Punctual}
use radio_chatter.Archiver.Chunks.{key, run-chunks}
use radio_chatter.Archiver.Spans.{run-Ordered}
use radio_chatter.Archiver.Coverage.{archived, spans_length, sound, silences, run-covers}
use radio_chatter.Archiver.Late.{late_sound}

abbrev at : Moment
at = record { now = pos 1000; select = sent }

-- Sound from 5 s to 70 s, across the end of the first chunk.
abbrev two_chunks : List (Moment × Callback)
two_chunks =
    (at, start_writing (codes "a.mp3"))
    ∷ (at, silence_start (pos 0))
    ∷ (at, silence_end (pos 5000000000) (pos 5000000000))
    ∷ (at, start_writing (codes "b.mp3"))
    ∷ (at, silence_start (pos 70000000000))
    ∷ []

on_time : Punctual begin_clock two_chunks
on_time = (
  ((λ e. cc), omega arith),
  (
    (refl, omega arith),
    (
      (refl, omega arith, omega arith, omega arith),
      (((λ e. cc), omega arith), ((refl, omega arith), tt)),
    ),
  ),
)

ends_in_silence : (run new_archiver two_chunks).0.in_silence ≡ true
unfolding run step on_silence_start
ends_in_silence = refl

run-covers_example :
    let (a, ops) = run new_archiver two_chunks in
    (archived ops + spans_length a.spans ≤ sound 0 two_chunks)
    × (sound 0 two_chunks ≤ archived ops + spans_length a.spans + silences two_chunks * 10000000)
run-covers_example =
    run-covers two_chunks on_time
      (refl, ((refl, omega arith), (refl, (refl, ((refl, omega arith), tt))))) ends_in_silence

run-Ordered_example : All InChunk (run new_archiver two_chunks).1
run-Ordered_example = run-Ordered two_chunks on_time

run-chunks_example :
    map key (run new_archiver ((at, download_started) ∷ (two_chunks ++ ((at, finished) ∷ [])))).1
    ≡ (codes "a.mp3", pos 1000) ∷ (codes "b.mp3", pos 60000001000) ∷ []
unfolding ◌+ℤ◌
run-chunks_example =
    run-chunks at at two_chunks ((refl, λ e. cc), (refl, (refl, ((refl, λ e. cc), (refl, tt)))))
      refl (omega arith)

-- The first file is still open when sound starts at 60.4186 s.
abbrev late : Archiver
late = record new_archiver { current_file = codes "a.mp3"; audio_started = pos 60418600000 }

late_sound_example :
    (op : ArchiveOperation) × ((on_start_writing sent (codes "b.mp3") late).1 ≡ op ∷ [])
    × (last? op.pieces ≡ some (record { start = pos 60418600000; stop = pos minute }))
    × (minute < 60418600000)
late_sound_example =
    late_sound late (codes "b.mp3") 0 60418600000 refl refl refl refl (omega arith) (omega arith)
