-- ===== src/Whisper.antt =====
-- pkg/transcribe.go: `downloadUrl` and `WhisperTranscriber`. What the network, whisper and `os` do is
-- chosen by whoever runs them. Open files are not modelled, only their names and contents.
pub mod Cleanup
use radio_chatter.Common.{
  ℕ, suc, Bool, true, false, not, ◌||◌, ◌&&◌, List, [], ◌∷◌, ◌++◌, reverse, Option, none, some,
  Bytes, codes, equal, ltb, leb, ◌==◌, take, Result, ok, err, if◌then◌else◌,
}
use radio_chatter.Files.{Files, join, write_file, read_file, clean_up}
use radio_chatter.Commands.{RunError, command_was_cancelled}

-- `url.Scheme` and what follows.
pub data Url : Type 0 where
  file_url : Bytes → Url
  remote_url : Bytes → Url

-- A response: its status, its body, and where the copy of the body stops, if it fails.
pub record Fetched (E : Type 0) : Type 0 where
  pub status : ℕ
  pub body : Bytes
  pub copy_error : Option (ℕ × E)

-- What one download meets: `os.CreateTemp`, `os.Open`, `http.Get` and `f.Sync`.
pub record Network (E : Type 0) : Type 0 where
  pub create_temp : Result E Bytes
  pub open_error : Option E
  pub not_exist : E
  pub get : Result E (Fetched E)
  pub sync_error : Option E

pub data DownloadError (E : Type 0) : Type 0 where
  not_opened : E → DownloadError E
  not_created : E → DownloadError E
  not_fetched : E → DownloadError E
  bad_status : ℕ → DownloadError E
  not_copied : E → DownloadError E
  not_flushed : E → DownloadError E

-- A file that was opened, and whether the cleanup is the one that removes it.
pub record Opened : Type 0 where
  pub name : Bytes
  pub temporary : Bool

module _ {E : Type 0} where
  -- `io.Copy` and `f.Sync`
  unfoldable pub copy_body :
      Network E → Bytes → Fetched E → Files → Files × Result (DownloadError E) Opened
  copy_body n tmp r files = elim r.copy_error [
    | some (count, e) ↦ (write_file tmp (take count r.body) files, err (not_copied e))
    | none ↦ elim n.sync_error [
      | some e ↦ (write_file tmp r.body files, err (not_flushed e))
      | none ↦ (write_file tmp r.body files, ok (record { name = tmp; temporary = true }))
    ]
  ]

  -- Behind `os.CreateTemp`, which leaves an empty file.
  unfoldable pub fetch : Network E → Bytes → Files → Files × Result (DownloadError E) Opened
  fetch n tmp files = elim n.get [
    | err e ↦ (write_file tmp [] files, err (not_fetched e))
    | ok r ↦
        if ltb r.status 200 || leb 400 r.status
        then (write_file tmp [] files, err (bad_status r.status))
        else copy_body n tmp r files
  ]

  -- `os.Open`
  abbrev pub open_file : Network E → Bytes → Files → Result (DownloadError E) Opened
  open_file n path files = elim (read_file n.not_exist n.open_error path files) [
    | err e ↦ err (not_opened e)
    | ok content ↦ ok (record { name = path; temporary = false })
  ]

  -- `downloadUrl`
  unfoldable pub download : Network E → Url → Files → Files × Result (DownloadError E) Opened
  download n (file_url path) files = (files, open_file n path files)
  download n (remote_url address) files = elim n.create_temp [
    | err e ↦ (files, err (not_created e))
    | ok tmp ↦ fetch n tmp files
  ]

-- `filepath.Base` of a name, and the name without its extension, both on the name in reverse.
abbrev pub up_to_slash : Bytes → Bytes
up_to_slash [] = []
up_to_slash (c ∷ name) = if c == b'/' then [] else c ∷ up_to_slash name

abbrev pub behind_dot : Bytes → Option Bytes
behind_dot [] = none
behind_dot (c ∷ name) = if c == b'.' then some name else behind_dot name

abbrev pub without_extension : Bytes → Bytes
without_extension name = elim (behind_dot name) [ none ↦ name | some stem ↦ stem ]

-- The name of the text that whisper writes for a file.
unfoldable pub text_name : Bytes → Bytes
text_name name = reverse (without_extension (up_to_slash (reverse name))) ++ codes ".txt"

abbrev pub starts_with : Bytes → Bytes → Bool
starts_with [] name = true
starts_with (c ∷ start) [] = false
starts_with (c ∷ start) (d ∷ name) = c == d && starts_with start name

-- `os.RemoveAll` of a directory.
abbrev pub remove_all : Bytes → Files → Files
remove_all dir files name = if starts_with (dir ++ (b'/' ∷ [])) name then none else files name

-- One run of whisper: the temporary directory, what the run does to the files, how it ends, and what
-- fails behind it.
pub record Run (E : Type 0) : Type 0 where
  pub make_temp : Result E Bytes
  pub works : Files → Files
  pub run_error : Option (RunError E)
  pub context_done : Bool
  pub read_error : Option E
  pub remove_all_error : Option E
  pub remove_error : Option E

pub data WhisperError (E : Type 0) : Type 0 where
  not_downloaded : DownloadError E → WhisperError E
  no_directory : E → WhisperError E
  was_cancelled : WhisperError E
  failed : RunError E → WhisperError E
  not_read : E → WhisperError E

module _ {E : Type 0} where
  -- The deferred `cleanup`, whose error is only logged.
  abbrev pub cleanup : Option E → Opened → Files → Files
  cleanup failure f files = if f.temporary then clean_up failure f.name files else files

  abbrev pub remove_directory : Option E → Bytes → Files → Files
  remove_directory none dir files = remove_all dir files
  remove_directory (some e) dir files = files

  -- Behind `cmd.Run`.
  abbrev pub read_text : Network E → Run E → Bytes → Opened → Files → Result (WhisperError E) Bytes
  read_text n r dir f files = elim r.run_error [
    | some e ↦ if command_was_cancelled r.context_done e then err was_cancelled else err (failed e)
    | none ↦ elim (read_file n.not_exist r.read_error (join dir (text_name f.name)) files) [
      | err e ↦ err (not_read e)
      | ok content ↦ ok content
    ]
  ]

  -- Behind the download.
  unfoldable pub run_whisper :
      Network E → Run E → Opened → Files → Files × Result (WhisperError E) Bytes
  run_whisper n r f files = elim r.make_temp [
    | err e ↦ (cleanup r.remove_error f files, err (no_directory e))
    | ok dir ↦
        let after = r.works files in
        (
          cleanup r.remove_error f (remove_directory r.remove_all_error dir after),
          read_text n r dir f after,
        )
  ]

  abbrev pub after_download :
      Network E
      → Run E
      → Files × Result (DownloadError E) Opened
      → Files × Result (WhisperError E) Bytes
  after_download n r (files, err e) = (files, err (not_downloaded e))
  after_download n r (files, ok f) = run_whisper n r f files

  -- `WhisperTranscriber.transcribe`
  unfoldable pub transcribe :
      Network E → Run E → Url → Files → Files × Result (WhisperError E) Bytes
  transcribe n r url files = after_download n r (download n url files)

  abbrev pub add_text :
      Bytes
      → Files × Result (WhisperError E) (List Bytes)
      → Files × Result (WhisperError E) (List Bytes)
  add_text text (files, ok texts) = (files, ok (text ∷ texts))
  add_text text (files, err e) = (files, err e)

  -- `WhisperTranscriber.SpeechToText`; `job i` is what the run for url `i` meets.
  unfoldable pub speech_to_text :
      (ℕ → Network E × Run E) → ℕ → List Url → Files → Files × Result (WhisperError E) (List Bytes)
  speech_to_text job i [] files = (files, ok [])
  speech_to_text job i (url ∷ urls) files =
      let (n, r) = job i in
      let (files', result) = transcribe n r url files in
      elim result [
        | err e ↦ (files', err e)
        | ok text ↦ add_text text (speech_to_text job (suc i) urls files')
      ]
