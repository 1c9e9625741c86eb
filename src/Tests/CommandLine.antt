-- ===== src/Tests/CommandLine.antt =====
-- The configuration, and the commands on streams.
use radio_chatter.CommandLine.Serve.{Serving, ServeReach, returned, serve-cuts_off}
use radio_chatter.Common.{
  ℕ, suc, true, ◌≡◌, refl, false, List, [], ◌∷◌, some, codes, equal, ok, err, ◌==◌, if◌then◌else◌,
  length,
}
use radio_chatter.Ids.Decimal.{put_digits}
use radio_chatter.Models.{Stream}
use radio_chatter.CommandLine.{
  text_format, get_formatter, Config, config_format, config_addr, storage_dir, log_error, error,
}
use radio_chatter.CommandLine.Streams.{StreamTable, panicked, stream_list, stream_add}
use radio_chatter.CommandLine.Streams.Removal.{Guards}

abbrev config : Config
config = record {
  serve = record { host = codes "127.0.0.1"; port = 8080 };
  storage = [];
  database = record { source = codes "a.sqlite3"; driver = codes "sqlite3"; trace = false };
  output = record { dev_mode = false; format = [] };
}

format_default : config_format config ≡ some text_format
unfolding config_format get_formatter equal
format_default = refl

addr : config_addr config.serve ≡ codes "127.0.0.1:8080"
unfolding put_digits
addr = refl

cache : storage_dir (some (codes "/cache")) [] ≡ some (codes "/cache/radio-chatter/blob-storage")
unfolding storage_dir equal
cache = refl

-- An error is not logged on the level of errors.
error_hidden : log_error (record { trace_sql = false; log_level = error }) ≡ false
error_hidden = refl

abbrev streams : StreamTable
streams = record {
  State = List Stream;
  Error = Unit {0};
  missing_where_clause = tt;
  find_all = λ db. ok db;
  save = λ s db.
      let s' : Stream = record s { id = suc (length db); created_at = 5; updated_at = 5 } in
      (s' ∷ db, ok s');
  delete = λ s db. if s.id == 0 then (db, err tt) else ([], ok s);
}

streams-Guards : Guards streams
streams-Guards s db h = rw h refl

abbrev added : List Stream
added = (stream_add streams config false (codes "news") (codes "http://news") []).0

abbrev yaml : Config
yaml = record config { output = record { dev_mode = false; format = codes "yaml" } }

-- The name of a format that is not known leads to a nil formatter.
no_formatter : stream_list streams yaml false [] ≡ panicked
unfolding stream_list config_format get_formatter equal
no_formatter = refl

serve-cuts_off_example :
    (s : Serving ℕ) × ServeReach s
    × (s.main ≡ returned)
    × (s.storage_closed ≡ true)
    × (s.in_flight ≡ 2)
serve-cuts_off_example = serve-cuts_off 2
