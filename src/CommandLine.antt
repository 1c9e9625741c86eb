-- ===== src/CommandLine.antt =====
-- cmd/radio-chatter: what the configuration says of the output, the address, the storage and the
-- database, and pkg/models.go: `OpenDatabase`. `logger.Fatal`, which ends the process, is `none` where
-- a value is returned.
pub mod Streams
pub mod Download
pub mod Serve
use radio_chatter.Common.{
  ℕ, [], ◌++◌, ◌∷◌, Bool, true, false, ◌||◌, Option, none, some, Bytes, codes, equal, leb, Result,
  ok, err, if◌then◌else◌,
}
use radio_chatter.Files.{join}
use radio_chatter.Ids.Decimal.{format}
use radio_chatter.Lookup.{FirstError, record_not_found, failed}

-- The functions `textFormat` and `jsonFormat`.
pub data Formatter : Type 0 where
  text_format json_format : Formatter

-- `getFormatter`; the error is `none`.
unfoldable pub get_formatter : Bytes → Option Formatter
get_formatter name =
    if equal name (codes "text")
    then some text_format
    else if equal name (codes "json")
    then some json_format
    else none

pub record ServeConfig : Type 0 where
  pub host : Bytes
  pub port : ℕ

pub record DatabaseConfig : Type 0 where
  pub source : Bytes
  pub driver : Bytes
  pub trace : Bool

pub record OutputConfig : Type 0 where
  pub dev_mode : Bool
  pub format : Bytes

-- `StorageConfig` is its only field.
pub record Config : Type 0 where
  pub serve : ServeConfig
  pub storage : Bytes
  pub database : DatabaseConfig
  pub output : OutputConfig

-- `Config.Format`. The error of `getFormatter` is only logged; `none` is then the nil interface.
unfoldable pub config_format : Config → Option Formatter
config_format c = get_formatter (if equal c.output.format [] then codes "text" else c.output.format)

-- `ServeConfig.Addr`
abbrev pub config_addr : ServeConfig → Bytes
config_addr s = s.host ++ (b':' ∷ format s.port)

-- `setupStorage`: the directory of the blobs, which is in the user's cache directory if none is given.
-- `cache_dir` is what `os.UserCacheDir` returns, a clean path.
unfoldable pub storage_dir : Option Bytes → Bytes → Option Bytes
storage_dir cache_dir blob =
    if equal blob []
    then elim cache_dir [
      | none ↦ none
      | some dir ↦ some (join (join dir (codes "radio-chatter")) (codes "blob-storage"))
    ]
    else some blob

-- `setupStorage`; `new` is `on_disk_storage.New`.
unfoldable pub setup_storage :
    {E S : Type 0} → (Bytes → Result E S) → Option Bytes → Bytes → Option S
setup_storage new cache_dir blob = elim (storage_dir cache_dir blob) [
  | none ↦ none
  | some dir ↦ elim (new dir) [ err e ↦ none | ok storage ↦ some storage ]
]

-- The drivers of `databaseOpeners`, `gorm.Open` with the opener of a driver, and `Migrate`.
pub record Drivers : Type 1 where
  pub State : Type 0
  pub Error : Type 0
  pub sqlite : Bytes → Result Error State
  pub postgres : Bytes → Result Error State
  pub migrate : State → Result Error State

pub data OpenError (E : Type 0) : Type 0 where
  unknown_driver : Bytes → OpenError E
  not_opened : E → OpenError E
  not_migrated : E → OpenError E

-- The levels of gorm's logger.
pub data LogLevel : Type 0 where
  silent error warn info : LogLevel

abbrev pub level_number : LogLevel → ℕ
level_number silent = 1
level_number error = 2
level_number warn = 3
level_number info = 4

-- `zapLogger`
pub record ZapLogger : Type 0 where
  pub trace_sql : Bool
  pub log_level : LogLevel

-- `LogMode`
abbrev pub log_mode : LogLevel → ZapLogger → ZapLogger
log_mode level l = record l { log_level = level }

-- `Info`, `Warn` and `Error`: whether a line is logged; each logs it on the level of an info.
abbrev reaches : LogLevel → ZapLogger → Bool
reaches level l = leb (level_number level) (level_number l.log_level)

abbrev pub log_info : ZapLogger → Bool
log_info l = reaches info l

abbrev pub log_warn : ZapLogger → Bool
log_warn l = reaches warn l

abbrev pub log_error : ZapLogger → Bool
log_error l = reaches warn l

pub data TraceLine (E : Type 0) : Type 0 where
  sql_error : E → TraceLine E
  sql_trace : TraceLine E

-- `Trace`: what it logs of a query that ends with the given error.
unfoldable pub trace : {E : Type 0} → ZapLogger → Option (FirstError E) → Option (TraceLine E)
trace l (some (failed e)) = some (sql_error e)
trace l (some record_not_found) = if l.trace_sql then some sql_trace else none
trace l none = if l.trace_sql then some sql_trace else none

module _ (D : Drivers) where
  abbrev opened : Result D.Error D.State → Result (OpenError D.Error) D.State
  opened (err e) = err (not_opened e)
  opened (ok db) = elim (D.migrate db) [ err e ↦ err (not_migrated e) | ok db' ↦ ok db' ]

  -- `OpenDatabase`
  unfoldable pub open_database : Bytes → Bytes → Result (OpenError D.Error) D.State
  open_database db_driver conn =
      if equal db_driver (codes "sqlite3")
      then opened (D.sqlite conn)
      else if equal db_driver (codes "postgres")
      then opened (D.postgres conn)
      else err (unknown_driver db_driver)

  -- `setupDatabase`
  unfoldable pub setup_database : Config → Option (D.State × ZapLogger)
  setup_database cfg = elim (open_database cfg.database.driver cfg.database.source) [
    | err e ↦ none
    | ok db ↦ some (
      db,
      record {
        trace_sql = cfg.database.trace;
        log_level = if cfg.output.dev_mode then info else silent;
      },
    )
  ]
