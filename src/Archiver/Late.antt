-- ===== src/Archiver/Late.antt =====
-- Sound that starts after the end of a chunk, and is reported before the next chunk is opened.
use radio_chatter.Common.{
  ℕ, ◌+◌, ◌-◌, ◌*◌, ◌≤◌, ◌<◌, ◌≡◌, refl, ap, ◌∙◌, true, false, List, [], ◌∷◌, ◌++◌, arith, Bytes,
  some, last?,
}
use radio_chatter.Common.Int.{pos, ◌+ℤ◌}
use radio_chatter.Duration.{add64, sub64, mul64}
use radio_chatter.Archiver.Numbers.{minute, far, mul64-chunk_length, add64-pos, sub64-pos_of_le}
use radio_chatter.Archiver.{
  ArchiveOperation, Archiver, sent, is_open, start_offset, send, continue_audio, complete_file,
  on_start_writing, chunk_length,
}

last?-append {ℓ} : {A : Type ℓ} (xs : List A) (y : A) → last? (xs ++ (y ∷ [])) ≡ some y
last?-append [] y = refl
last?-append (x ∷ []) y = refl
last?-append (x ∷ z ∷ xs) y = last?-append (z ∷ xs) y

-- If the next chunk is opened while the file of chunk `n` is open, and there is sound that
-- started after the end of chunk `n` (and before 2^62 ns), then one operation is sent, and its
-- last piece starts after the end of the chunk, and ends, at the end of the chunk, before it
-- starts.
pub late_sound :
    (a : Archiver) (path : Bytes) (n s : ℕ)
    → is_open a.current_file ≡ true
    → a.in_silence ≡ false
    → a.file_index ≡ pos n
    → a.audio_started ≡ pos s
    → (n + 1) * minute < s
    → s ≤ far
    → (op : ArchiveOperation) × ((on_start_writing sent path a).1 ≡ op ∷ [])
      × (last? op.pieces ≡ some (record { start = pos (s - n * minute); stop = pos minute }))
      × (minute < s - n * minute)
unfolding on_start_writing complete_file send continue_audio start_offset
late_sound a path n s o q i h late b =
    let offset : mul64 chunk_length (pos n) ≡ pos (n * minute) =
      mul64-chunk_length n (omega arith) in
    let end : add64 (pos (n * minute)) chunk_length ≡ pos ((n + 1) * minute) =
      add64-pos (n * minute) minute (omega arith) (omega arith) ∙ ap pos (omega arith) in
    let start : sub64 (pos s) (pos (n * minute)) ≡ pos (s - n * minute) =
      sub64-pos_of_le s (n * minute) (omega arith) (omega arith) (omega arith) in
    let stop : sub64 (pos ((n + 1) * minute)) (pos (n * minute)) ≡ pos minute =
      sub64-pos_of_le ((n + 1) * minute) (n * minute) (omega arith) (omega arith) (omega arith)
      ∙ ap pos (omega arith) in
    (
      record {
        path = a.current_file;
        timestamp = a.recording_started +ℤ pos (n * minute);
        pieces = a.spans ++ (record { start = pos (s - n * minute); stop = pos minute } ∷ []);
      },
      simp (o, q, i, h, offset, end, start, stop),
      last?-append a.spans _,
      omega arith,
    )
