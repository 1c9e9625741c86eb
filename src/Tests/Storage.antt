-- ===== src/Tests/Storage.antt =====
-- A storage of blobs in a directory, and an archive operation that uses it.
use radio_chatter.Common.{
  ℕ, zero, suc, false, equal, if◌then◌else◌, ◌%◌, ◌≡◌, refl, subst, [], ◌∷◌, none, some, arith,
  Bytes, codes, length, ok, err, ok-injective,
}
use radio_chatter.Common.Int.{pos}
use radio_chatter.Duration.{Duration}
use radio_chatter.Files.{Files, torn, unopened, stat}
use radio_chatter.Blob.{Key, IsKey}
use radio_chatter.OnDisk.{OnDiskStorage, Faults, not_saved, path, raw_url, store, link}
use radio_chatter.OnDisk.Addressed.{IsAddressed, Stores, store-Stores, store-link}
use radio_chatter.OnDisk.Torn.{no_faults, torn_write, torn_stays}
use radio_chatter.OnDisk.Fills.{on_disk, on_disk_laws, on_disk_good}
use radio_chatter.Archiver.{ArchiveOperation}
use radio_chatter.Models.{Stream, Chunk, Database, FillsIn}
use radio_chatter.Clip.{clip_window, Clips, clip_window-Clips}
use radio_chatter.Split.{World, Job}
use radio_chatter.Graphql.Nodes.{chunk_to_graphql}
use radio_chatter.Graphql.Resolvers.{chunk_download_url}
use radio_chatter.Graphql.Downloads.{IsLinkTo, execute-chunk_download_url}
use radio_chatter.Execute.{Outside, chunk_row, execute, store_content, save_row, split_and_delete}
use radio_chatter.Processing.{then_closed, archive, returned}
use radio_chatter.Execute.Archives.{Archives, execute-Archives}

-- A hash of 32 bytes: the length of the content, and zeros.
abbrev zeros : ℕ → Bytes
zeros zero = []
zeros (suc n) = 0 ∷ zeros n

abbrev pub length_hash : Bytes → Key
length_hash content = length content % 256 ∷ zeros 31

pub length_hash-IsKey : (content : Bytes) → IsKey (length_hash content)
length_hash-IsKey content = record { size = refl; bytes = omega arith }

abbrev pub data_dir : OnDiskStorage (Unit {0})
data_dir = record {
  root_dir = codes "/data";
  addr = codes "[::]:8080";
  hash = length_hash;
  Url = Bytes;
  parse_url = λ text. ok text;
}

abbrev pub no_files : Files
no_files name = none

pub no_files-IsAddressed : IsAddressed data_dir length_hash-IsKey no_files
no_files-IsAddressed key content is_key h = cc

abbrev pub hello : Bytes
hello = codes "Hello, World"

-- The directory is there, nothing is yet stored, and the file cannot be opened.
abbrev unopened_once : Faults (Unit {0})
unopened_once = record no_faults { write_error = some (unopened tt) }

store-Stores_example :
    Stores data_dir length_hash-IsKey hello no_files (store data_dir unopened_once hello no_files)
store-Stores_example =
    store-Stores data_dir length_hash-IsKey unopened_once hello no_files tt no_files-IsAddressed

hello_stored : (store data_dir no_faults hello no_files).1 ≡ ok (length_hash hello)
unfolding store stat
hello_stored = refl

store-link_example :
    link data_dir none (length_hash hello) (store data_dir no_faults hello no_files).0
    ≡ ok (raw_url data_dir (length_hash hello))
store-link_example =
    store-link data_dir length_hash-IsKey no_faults hello no_files tt no_files-IsAddressed
      hello_stored refl

torn_stays_example :
    let first = store data_dir (torn_write 5 tt) hello no_files in
    let second = store data_dir no_faults hello first.0 in
    (first.1 ≡ err (not_saved (torn 5 tt)))
    × (second.1 ≡ ok (length_hash hello))
    × (second.0 (path data_dir (length_hash hello)) ≡ some (codes "Hello"))
torn_stays_example = torn_stays data_dir 5 tt hello no_files refl

clip_window-Clips_example :
    (start length : ℕ) × (clip_window (record { start = pos 19036200000; stop = pos 24462600000 })
      ≡ (pos start, pos length))
    × Clips 19036200000 24462600000 start length
clip_window-Clips_example = clip_window-Clips 19036200000 24462600000 (omega arith) (omega arith)

-- Rows are only counted.
abbrev pub counting : Database
counting = record {
  State = ℕ;
  Error = Unit {0};
  save_chunk = λ c n. (suc n, ok (record c { id = suc n }));
  save_transmission = λ t n. (suc n, ok (record t { id = suc n }));
}

pub counting-FillsIn : FillsIn counting
counting-FillsIn c c' n h =
    subst (λ x. x ≡ record c { id = x.id; created_at = x.created_at; updated_at = x.updated_at })
      (ok-injective h) refl

abbrev one_chunk : ArchiveOperation
one_chunk = record {
  path = codes "/tmp/chunk_0.mp3";
  timestamp = pos 1000;
  pieces = record { start = pos 0; stop = pos 5000000000 } ∷ [];
}

abbrev pub here : World (on_disk data_dir) counting
here = record {
  files = λ name. if equal name (codes "/tmp/chunk_0.mp3") then some hello else none;
  blobs = record { files = no_files; faults = [] };
  rows = 0;
  commands = [];
}

abbrev quiet_job : Job (Unit {0})
quiet_job = record {
  tmp = codes "/tmp/split-1.mp3";
  output = none;
  run_error = none;
  context_done = false;
  read_error = none;
  remove_error = none;
}

abbrev pub outside : Outside (Unit {0})
outside = record {
  not_exist = tt;
  read_error = none;
  remove_error = none;
  jobs = λ i. quiet_job;
  schedule = [];
}

abbrev pub seconds_text : Duration → Bytes
seconds_text d = codes "1.5"

abbrev pub feed : Stream
feed = record {
  id = 3;
  created_at = 10;
  updated_at = 10;
  display_name = codes "feed";
  url = codes "http://feed";
}

execute-Archives_example :
    Archives
      (on_disk data_dir)
      counting
      (on_disk_laws data_dir length_hash-IsKey)
      counting-FillsIn
      seconds_text
      feed
      one_chunk
      here
      (execute (on_disk data_dir) counting seconds_text feed outside one_chunk here)
execute-Archives_example =
    execute-Archives (on_disk data_dir) counting (on_disk_laws data_dir length_hash-IsKey)
      counting-FillsIn seconds_text feed outside one_chunk here
      (on_disk_good data_dir length_hash-IsKey here.blobs (no_files-IsAddressed, tt))

-- The operation succeeds, and the row is counted.
executed :
    let (w, r) = execute (on_disk data_dir) counting seconds_text feed outside one_chunk here in
    (r ≡ ok tt) × (w.rows ≡ 1) × (w.files (codes "/tmp/chunk_0.mp3") ≡ none) × (w.commands ≡ [])
unfolding execute store_content save_row split_and_delete store stat equal
executed = (refl, refl, refl, refl)

loop_returned :
    (archive
      (on_disk data_dir)
      counting
      seconds_text
      feed
      (λ i. outside)
      0
      (then_closed (one_chunk ∷ []))
      here).1
    ≡ returned (ok tt)
unfolding archive execute store_content save_row split_and_delete store stat equal
loop_returned = refl

-- The row of the chunk, as it was saved, and its link.
abbrev pub saved_chunk : Chunk
saved_chunk =
    record (chunk_row feed one_chunk ((on_disk_laws data_dir length_hash-IsKey).hash hello)) {
      id = 1;
    }

execute-chunk_download_url_example :
    let after = (execute (on_disk data_dir) counting seconds_text feed outside one_chunk here).0 in
    IsLinkTo
      (on_disk data_dir)
      ((on_disk_laws data_dir length_hash-IsKey).hash hello)
      after.blobs
      (chunk_download_url (on_disk data_dir) (chunk_to_graphql saved_chunk) after.blobs)
unfolding equal
execute-chunk_download_url_example =
    execute-chunk_download_url (on_disk data_dir) counting (on_disk_laws data_dir length_hash-IsKey)
      counting-FillsIn seconds_text feed outside one_chunk here hello saved_chunk
      (on_disk_good data_dir length_hash-IsKey here.blobs (no_files-IsAddressed, tt)) refl refl
      executed.0
