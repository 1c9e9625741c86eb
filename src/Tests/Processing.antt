-- ===== src/Tests/Processing.antt =====
-- A stream of one chunk, from what ffmpeg prints to the storage.
use radio_chatter.Common.{
  ℕ, ◌≡◌, ◌↔◌, ◌⊎◌, refl, [], ◌∷◌, none, some, codes, equal, All, ok, if◌then◌else◌,
}
use radio_chatter.Common.Int.{pos}
use radio_chatter.Commands.{exited}
use radio_chatter.Ids.Decimal.{put_digits}
use radio_chatter.Regex.{match_whole, matches, match_star}
use radio_chatter.Ffmpeg.{
  parse_stderr, process_lines, process_line, process, process_segment, scan, drop_cr,
  download_started, start_writing, finished,
}
use radio_chatter.Ffmpeg.Protocol.{follow_all, waiting, over}
use radio_chatter.Archiver.{
  Moment, sent, run, step, on_start_writing, on_finished, complete_file, continue_audio,
  start_offset, send,
}
use radio_chatter.Files.{stat}
use radio_chatter.OnDisk.{store}
use radio_chatter.OnDisk.Fills.{on_disk, on_disk_laws, on_disk_good}
use radio_chatter.Models.{Stream}
use radio_chatter.Split.{World}
use radio_chatter.Execute.{execute, store_content, save_row, split_and_delete}
use radio_chatter.Preprocess.{FfmpegRun, preprocess, preprocess_args}
use radio_chatter.Preprocess.Results.{EndedWell, preprocess_result}
use radio_chatter.Processing.{returned, archive}
use radio_chatter.Processing.Jobs.{Station, jobs, preprocess_job, start_processing}
use radio_chatter.Processing.Reported.{chunk_files}
use radio_chatter.Processing.Pipeline.{Stored, start_processing-Stored}
use radio_chatter.CommandLine.Download.{finished, cleanups, run_streams, download_all}
use radio_chatter.CommandLine.Download.Cleaning.{IsEmptied, download_all-IsEmptied}
use radio_chatter.Tests.Ffmpeg.{whole_seconds, at_zero}
use radio_chatter.Tests.Storage.{
  data_dir, length_hash-IsKey, no_files-IsAddressed, counting, counting-FillsIn, here, outside,
  seconds_text, feed,
}

-- The arguments of ffmpeg for a stream.
args :
    preprocess_args (codes "http://feed") (codes "/tmp")
    ≡ codes "-i"
      ∷ codes "http://feed"
      ∷ codes "-af"
      ∷ codes "silencedetect=noise=-30dB:d=1"
      ∷ codes "-f"
      ∷ codes "segment"
      ∷ codes "-segment_time"
      ∷ codes "60"
      ∷ codes "-hide_banner"
      ∷ codes "-nostdin"
      ∷ codes "-nostats"
      ∷ codes "/tmp/chunk_%d.mp3"
      ∷ []
unfolding put_digits
args = refl

-- Ffmpeg opens one chunk, and is interrupted.
abbrev one_chunk_long : FfmpegRun (Unit {0})
one_chunk_long = record {
  pipe_error = none;
  start_error = none;
  stderr = codes "[segment @ 0x6000] Opening '/tmp/chunk_0.mp3' for writing\n";
  read_error = none;
  wait = some (exited (pos 255) tt);
}

calls :
    (preprocess whole_seconds at_zero one_chunk_long).callbacks
    ≡ download_started ∷ start_writing (codes "/tmp/chunk_0.mp3") ∷ finished ∷ []
unfolding preprocess parse_stderr process_lines process_line process process_segment scan drop_cr
    equal match_whole matches match_star
calls = refl

preprocess_result_example :
    ((preprocess whole_seconds at_zero one_chunk_long).error ≡ none ↔ (
      (one_chunk_long.pipe_error ≡ none)
      × (one_chunk_long.start_error ≡ none)
      × EndedWell one_chunk_long.wait
      × ((parse_stderr whole_seconds at_zero one_chunk_long.stderr one_chunk_long.read_error).1
          ≡ none)))
    × (((preprocess whole_seconds at_zero one_chunk_long).callbacks ≡ [])
        ⊎ (follow_all waiting (preprocess whole_seconds at_zero one_chunk_long).callbacks
            ≡ some over))
preprocess_result_example = preprocess_result whole_seconds at_zero one_chunk_long

abbrev noon : ℕ → Moment
noon i = record { now = pos 1000; select = sent }

abbrev station : Station (Unit {0})
station = record {
  floats = whole_seconds;
  clock = at_zero;
  moments = noon;
  temp_dir = some (codes "/tmp");
  remove_error = none;
  ffmpeg = λ args. one_chunk_long;
  outside = λ i. outside;
}

abbrev archived : World (on_disk data_dir) counting
archived =
    (archive (on_disk data_dir) counting seconds_text feed (λ i. outside) 0
      (preprocess_job whole_seconds at_zero noon one_chunk_long).0 here).0

jobs_ended :
    start_processing (on_disk data_dir) counting seconds_text station feed here
    ≡ jobs archived none (returned (ok tt))
unfolding start_processing preprocess_job preprocess parse_stderr process_lines process_line process
    process_segment scan drop_cr equal match_whole matches match_star run step on_start_writing
    on_finished complete_file continue_audio start_offset send archive execute store_content
    save_row split_and_delete store stat
jobs_ended = refl

start_processing-Stored_example :
    All
      (Stored (on_disk data_dir) counting (on_disk_laws data_dir length_hash-IsKey) here archived)
      (chunk_files (preprocess whole_seconds at_zero one_chunk_long).callbacks)
start_processing-Stored_example =
    start_processing-Stored (on_disk data_dir) counting (on_disk_laws data_dir length_hash-IsKey)
      counting-FillsIn seconds_text feed station here archived (codes "/tmp") none (λ i. refl)
      (on_disk_good data_dir length_hash-IsKey here.blobs (no_files-IsAddressed, tt)) refl
      jobs_ended

-- A download of the stream, whose last chunk ffmpeg has not reported.
abbrev with_leftover : World (on_disk data_dir) counting
with_leftover = record here {
  files = λ name. if equal name (codes "/tmp/x") then some (codes "rest") else here.files name;
}

abbrev left_over : World (on_disk data_dir) counting
left_over =
    (archive (on_disk data_dir) counting seconds_text feed (λ i. outside) 0
      (preprocess_job whole_seconds at_zero noon one_chunk_long).0 with_leftover).0

downloaded :
    download_all
      (on_disk data_dir)
      counting
      seconds_text
      {Q = Unit {0}}
      (ok ((station, feed) ∷ []))
      with_leftover
    ≡ finished (record left_over { files = cleanups ((station, feed) ∷ []) left_over.files })
unfolding download_all run_streams start_processing preprocess_job preprocess parse_stderr
    process_lines process_line process process_segment scan drop_cr equal match_whole matches
    match_star run step on_start_writing on_finished complete_file continue_audio start_offset send
    archive execute store_content save_row split_and_delete store stat
downloaded = refl

download_all-IsEmptied_example :
    All
      (λ (r : Station (Unit {0}) × Stream).
        IsEmptied r.0.temp_dir (cleanups ((station, feed) ∷ []) left_over.files))
      ((station, feed) ∷ [])
download_all-IsEmptied_example =
    download_all-IsEmptied (on_disk data_dir) counting seconds_text (Unit {0})
      ((station, feed) ∷ []) with_leftover
      (record left_over { files = cleanups ((station, feed) ∷ []) left_over.files }) (refl, tt)
      downloaded
