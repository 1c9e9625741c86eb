-- ===== src/Archiver/Chunks.antt =====
-- Which archive operations are sent: one for each chunk file, in order, with its start time.
use radio_chatter.Common.{
  ℕ, suc, ◌+◌, ◌*◌, ◌≤◌, ◌≡◌, ◌≢◌, ◌⊎◌, refl, sym, ap, ◌∙◌, Bool, true, false, List, [], ◌∷◌, ◌++◌,
  append-nil, map, length, arith, Bytes, All, inl, inr,
}
use mathlib.Core.List.{map-append}
use native.Mathlib.Nat.{add-zero, add-suc, suc-add}
use radio_chatter.Common.Int.{pos, ◌+ℤ◌}
use radio_chatter.Ffmpeg.{
  Time, Callback, download_started, start_writing, silence_start, silence_end, unknown_message,
  uninterpreted_stderr, finished,
}
use radio_chatter.Archiver.Numbers.{far, mul64-chunk_length, add64-pos}
use radio_chatter.Archiver.{
  ArchiveOperation, Archiver, new_archiver, Moment, sent, is_open, start_offset, send,
  continue_audio, complete_file, on_start_writing, on_finished, on_silence_start, on_silence_end,
  step, run,
}

-- A callback between the start of the download and its end, with a file name that is not empty,
-- made while the channel still takes what is sent.
abbrev pub IsMiddle : Moment × Callback → Type 0
IsMiddle (m, download_started) = ⊥
IsMiddle (m, start_writing path) = (m.select ≡ sent) × (path ≢ [])
IsMiddle (m, finished) = ⊥
IsMiddle (m, call) = m.select ≡ sent

-- The chunk files of a run.
abbrev pub writes : List (Moment × Callback) → List Bytes
writes [] = []
writes ((m, start_writing path) ∷ calls) = path ∷ writes calls
writes ((m, call) ∷ calls) = writes calls

abbrev pub key : ArchiveOperation → Bytes × Time
key op = (op.path, op.timestamp)

-- The chunk files from number `n` on, with the times at which they start.
abbrev pub stamped : Time → ℕ → List Bytes → List (Bytes × Time)
stamped base n [] = []
stamped base n (path ∷ paths) = (path, base +ℤ pos (n * 60000000000)) ∷ stamped base (suc n) paths

abbrev pub pending : Bytes → List Bytes
pending [] = []
pending (c ∷ path) = (c ∷ path) ∷ []

record Stands (base : Time) (n : ℕ) (a : Archiver) : Type 0 where
  started : a.recording_started ≡ base
  index : a.file_index ≡ pos n

pub file-cases : (file : Bytes) → (file ≡ []) ⊎ ((c : ℕ) × (rest : Bytes) × (file ≡ c ∷ rest))
file-cases [] = inl refl
file-cases (c ∷ rest) = inr (c, rest, refl)

complete_file-key :
    (more : Bool) (base : Time) (n : ℕ) (a : Archiver)
    → Stands base n a
    → n * 60000000000 ≤ far
    → map key (complete_file more sent a).1 ≡ (a.current_file, base +ℤ pos (n * 60000000000)) ∷ []
unfolding complete_file start_offset send continue_audio
complete_file-key more base n a s h = rw (s.started, s.index, mul64-chunk_length n h)

complete_file-Stands :
    (more : Bool) (base : Time) (n : ℕ) (a : Archiver)
    → Stands base n a
    → Stands base n (complete_file more sent a).0
unfolding complete_file continue_audio
complete_file-Stands more base n a s = ground arith

abbrev pub Sent : List (Moment × Callback) → Type 0
Sent = All IsMiddle

finish-key :
    (base : Time) (n : ℕ) (a : Archiver)
    → Stands base n a
    → n * 60000000000 ≤ far
    → map key (on_finished sent a).1 ≡ stamped base n (pending a.current_file)
unfolding on_finished
finish-key base n a s b = elim (file-cases a.current_file) [
  | inl e ↦ simp e
  | inr (c, file, e) ↦ simp (e, is_open) (complete_file-key false base n a s b ∙ simp e)
]

stamped-append :
    (base : Time) (n : ℕ) (xs ys : List Bytes)
    → stamped base n (xs ++ ys) ≡ stamped base n xs ++ stamped base (n + length xs) ys
stamped-append base n [] ys = rw add-zero
stamped-append base n (x ∷ xs) ys =
    rw (add-suc, ← suc-add)
      (ap (◌∷◌ (x, base +ℤ pos (n * 60000000000))) (stamped-append base (suc n) xs ys))

-- What a new chunk file sends, and leaves open.
record Wrote (base : Time) (n : ℕ) (path : Bytes) (old : Bytes)
    (r : Archiver × List ArchiveOperation) : Type 0 where
  keys : map key r.1 ≡ stamped base n (pending old)
  stands : Stands base (n + length (pending old)) r.0
  file : r.0.current_file ≡ path

on_start_writing-Wrote :
    (base : Time) (n : ℕ) (path : Bytes) (a : Archiver)
    → Stands base n a
    → (n + 1) * 60000000000 ≤ far
    → Wrote base n path a.current_file (on_start_writing sent path a)
unfolding on_start_writing
on_start_writing-Wrote base n path a s b = elim (file-cases a.current_file) [
  | inl e ↦
      simp (e, is_open)
        (record {
          keys = refl;
          stands = record { started = s.started; index = s.index ∙ ap pos (sym (add-zero n)) };
          file = refl;
        })
  | inr (c, file, e) ↦
      let k = complete_file-key true base n a s (omega arith) in
      let t = complete_file-Stands true base n a s in
      simp (e, is_open)
        (record {
          keys = k ∙ simp e;
          stands = record {
            started = t.started;
            index = rw t.index (add64-pos n 1 (omega arith) (omega arith));
          };
          file = refl;
        })
]

pending_of_ne : (path : Bytes) → path ≢ [] → pending path ≡ path ∷ []
pending_of_ne [] h = absurd (h refl)
pending_of_ne (c ∷ path) h = refl

length-pending : (path : Bytes) → length (pending path) ≤ 1
length-pending [] = omega arith
length-pending (c ∷ path) = omega arith

run-key :
    (base : Time) (n : ℕ) (a : Archiver) (calls : List (Moment × Callback)) (end : Moment)
    → Stands base n a
    → Sent calls
    → end.select ≡ sent
    → (n + length (writes calls)) * 60000000000 ≤ far
    → map key (run a (calls ++ ((end, finished) ∷ []))).1
      ≡ stamped base n (pending a.current_file ++ writes calls)
unfolding run step on_silence_start on_silence_end
run-key base n a [] end s all e b = simp append-nil (rw e (finish-key base n a s (omega arith)))
run-key base n a ((m, start_writing path) ∷ calls) end s all e b =
    let w = on_start_writing-Wrote base n path a s (omega arith) in
    let r = on_start_writing sent path a in
    let later =
      run-key base (n + length (pending a.current_file)) r.0 calls end w.stands all.1 e
        (omega (arith, length-pending a.current_file)) in
    let head : pending r.0.current_file ≡ path ∷ [] = rw w.file (pending_of_ne path (all.0.1)) in
    rw all.0.0 (
      rw map-append (
        rw (w.keys, later)
          (rw head (sym (stamped-append base n (pending a.current_file) (path ∷ writes calls))))))
run-key base n a ((m, silence_start t) ∷ calls) end s all e b =
    run-key base n (on_silence_start t a) calls end
      (record { started = s.started; index = s.index }) all.1 e b
run-key base n a ((m, silence_end t d) ∷ calls) end s all e b =
    run-key base n (on_silence_end t d a) calls end
      (record { started = s.started; index = s.index }) all.1 e b
run-key base n a ((m, unknown_message msg) ∷ calls) end s all e b =
    run-key base n a calls end s all.1 e b
run-key base n a ((m, uninterpreted_stderr line) ∷ calls) end s all e b =
    run-key base n a calls end s all.1 e b
run-key base n a ((m, download_started) ∷ calls) end s all e b = absurd all.0
run-key base n a ((m, finished) ∷ calls) end s all e b = absurd all.0

-- A whole run, from the start of the download at `first.now` to its end, sends one operation for
-- each chunk file that was opened, in the order in which they were opened, and the operation of
-- chunk `i` carries the time `first.now` plus `i` minutes. It is assumed that every send is taken, that no
-- file name is empty, that the download starts once, and that the chunks span less than 2^62 ns.
pub run-chunks :
    (first end : Moment) (calls : List (Moment × Callback))
    → Sent calls
    → end.select ≡ sent
    → length (writes calls) * 60000000000 ≤ far
    → map key (run new_archiver ((first, download_started) ∷ (calls ++ ((end, finished) ∷ [])))).1
      ≡ stamped first.now 0 (writes calls)
unfolding run step
run-chunks first end calls all e b =
    run-key first.now 0 (record new_archiver { recording_started = first.now }) calls end
      (record { started = refl; index = refl }) all e (omega arith)
