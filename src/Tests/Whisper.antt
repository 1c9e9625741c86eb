-- ===== src/Tests/Whisper.antt =====
-- A download and a run of whisper on small inputs.
use radio_chatter.Common.{◌≡◌, refl, true, false, [], ◌∷◌, none, codes, ok, equal}
use radio_chatter.Files.{Files, write_file}
use radio_chatter.Whisper.{
  remote_url, Network, download, fetch, copy_body, Run, run_whisper, transcribe, speech_to_text,
  text_name,
}
use radio_chatter.Whisper.Cleanup.{Downloads, download-Downloads, run_whisper-cleans}

-- The server does not know the file.
abbrev missing : Network (Unit {0})
missing = record {
  create_temp = ok (codes "/tmp/radio-chatter-tmp1");
  open_error = none;
  not_exist = tt;
  get = ok (record { status = 404; body = codes "no"; copy_error = none });
  sync_error = none;
}

abbrev working : Network (Unit {0})
working = record missing {
  get = ok (record { status = 200; body = codes "mp3"; copy_error = none });
}

abbrev nothing_there : Files
nothing_there name = none

-- Whisper writes its text next to what is there.
abbrev whisper_run : Run (Unit {0})
whisper_run = record {
  make_temp = ok (codes "/tmp/w");
  works = λ files. write_file (codes "/tmp/w/radio-chatter-tmp1.txt") (codes "Hello") files;
  run_error = none;
  context_done = false;
  read_error = none;
  remove_all_error = none;
  remove_error = none;
}

names : text_name (codes "/tmp/a.b/clip.mp3") ≡ codes "clip.txt"
unfolding text_name
names = refl

download-Downloads_example :
    Downloads missing
      (codes "/tmp/radio-chatter-tmp1")
      (download missing (remote_url (codes "http://x/y")) nothing_there)
download-Downloads_example =
    download-Downloads missing (codes "http://x/y") (codes "/tmp/radio-chatter-tmp1") nothing_there
      refl

run_whisper-cleans_example :
    (run_whisper working whisper_run
        (record { name = codes "/tmp/radio-chatter-tmp1"; temporary = true })
        (write_file (codes "/tmp/radio-chatter-tmp1") (codes "mp3") nothing_there)).0
      (codes "/tmp/radio-chatter-tmp1")
    ≡ none
run_whisper-cleans_example =
    run_whisper-cleans working whisper_run
      (record { name = codes "/tmp/radio-chatter-tmp1"; temporary = true })
      (write_file (codes "/tmp/radio-chatter-tmp1") (codes "mp3") nothing_there) refl refl

spoken :
    (speech_to_text
      (λ i. (working, whisper_run))
      0
      (remote_url (codes "http://x/y") ∷ [])
      nothing_there).1
    ≡ ok (codes "Hello" ∷ [])
unfolding speech_to_text transcribe run_whisper download fetch copy_body text_name equal
spoken = refl
