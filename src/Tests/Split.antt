-- ===== src/Tests/Split.antt =====
-- Two clips that are cut out of a chunk at the same time.
use radio_chatter.Common.{ℕ, zero, suc, false, ◌≡◌, refl, [], ◌∷◌, none, some, Bytes, codes, List}
use radio_chatter.Common.Int.{pos}
use radio_chatter.Archiver.{AudioSpan}
use radio_chatter.Split.{World, Job}
use radio_chatter.Split.Group.{split_chunk, next_step, advance_job, advance_all}
use radio_chatter.OnDisk.{store}
use radio_chatter.OnDisk.Fills.{on_disk}
use radio_chatter.Blob.{key_string}
use radio_chatter.Blob.Hex.{encode, hex_digit}
use radio_chatter.Files.{stat, write}
use radio_chatter.Common.Text.{equal}
use radio_chatter.Tests.Storage.{data_dir, no_files, counting, seconds_text, saved_chunk}

-- The temporary file of a job has a name as long as the job's number.
abbrev name_of : ℕ → Bytes
name_of zero = []
name_of (suc n) = b'x' ∷ name_of n

-- Each clip is its job's number.
abbrev clip_job : ℕ → Job (Unit {0})
clip_job i = record {
  tmp = name_of i;
  output = some (i ∷ []);
  run_error = none;
  context_done = false;
  read_error = none;
  remove_error = none;
}

abbrev first_piece : AudioSpan
first_piece = record { start = pos 0; stop = pos 5000000000 }

abbrev two_pieces : List AudioSpan
two_pieces = first_piece ∷ record { start = pos 7000000000; stop = pos 9000000000 } ∷ []

abbrev empty_world : World (on_disk data_dir) counting
empty_world = record {
  files = no_files;
  blobs = record { files = no_files; faults = [] };
  rows = 0;
  commands = [];
}

-- The jobs take turns.
abbrev alternating : List ℕ
alternating = 0 ∷ 1 ∷ 1 ∷ 0 ∷ 0 ∷ 1 ∷ []

-- No job fails, and both rows are counted.
both_saved :
    let (w, failure) =
      split_chunk
        (on_disk data_dir)
        counting
        seconds_text
        tt
        clip_job
        (codes "chunk")
        two_pieces
        saved_chunk
        alternating
        empty_world in
    (failure ≡ none) × (w.rows ≡ 2)
unfolding split_chunk advance_all advance_job next_step store stat equal write key_string encode
    hex_digit
both_saved = (refl, refl)
