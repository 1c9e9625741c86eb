-- ===== src/CommandLine/Streams.antt =====
-- cmd/radio-chatter/stream.go: the commands that list, add and remove streams. The database is a
-- parameter.
pub mod Removal
use radio_chatter.Common.{ℕ, Bool, true, false, List, Option, none, some, Bytes, Result, ok, err}
use radio_chatter.Models.{Stream}
use radio_chatter.Graphql.Gorm.{zero_stream}
use radio_chatter.CommandLine.{Formatter, Config, config_format}

-- `Find` without a condition, `Save`, and `Delete` of a struct, whose condition is its primary key;
-- both of these give back what they leave in the struct.
pub record StreamTable : Type 1 where
  pub State : Type 0
  pub Error : Type 0
  pub missing_where_clause : Error
  pub find_all : State → Result Error (List Stream)
  pub save : Stream → State → State × Result Error Stream
  pub delete : Stream → State → State × Result Error Stream

-- How a command ends: it has printed something, `logger.Fatal` has ended it, or it has panicked, as
-- there is no formatter.
pub data Exit (A : Type 0) : Type 0 where
  printed : Formatter → A → Exit A
  fatal : Exit A
  panicked : Exit A

-- `cfg.Format().Print(os.Stdout, value)`, which fails if `broken` says so.
abbrev pub print : {A : Type 0} → Bool → Option Formatter → A → Exit A
print broken none value = panicked
print true (some f) value = fatal
print false (some f) value = printed f value

module _ (T : StreamTable) (cfg : Config) (broken : Bool) where
  -- `streamList`
  unfoldable pub stream_list : T.State → Exit (List Stream)
  stream_list db = elim (T.find_all db) [
    | err e ↦ fatal
    | ok streams ↦ print broken (config_format cfg) streams
  ]

  -- `streamAdd`, of a name and a url
  unfoldable pub stream_add : Bytes → Bytes → T.State → T.State × Exit Stream
  stream_add name url db =
      let stream : Stream = record zero_stream { display_name = name; url = url } in
      let (db', r) = T.save stream db in
      (db', elim r [ err e ↦ fatal | ok saved ↦ print broken (config_format cfg) saved ])

  -- `streamRemove`, of a name
  unfoldable pub stream_remove : Bytes → T.State → T.State × Exit Stream
  stream_remove name db =
      let stream : Stream = record zero_stream { display_name = name } in
      let (db', r) = T.delete stream db in
      (db', elim r [ err e ↦ fatal | ok gone ↦ print broken (config_format cfg) gone ])
