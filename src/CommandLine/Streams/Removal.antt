-- ===== src/CommandLine/Streams/Removal.antt =====
-- Streams that are to be removed.
use radio_chatter.Common.{◌≡◌, refl, ap, Bool, Bytes, ok, err}
use radio_chatter.Models.{Stream}
use radio_chatter.Graphql.Gorm.{zero_stream}
use radio_chatter.CommandLine.{Config, config_format}
use radio_chatter.CommandLine.Streams.{
  StreamTable, fatal, print, stream_list, stream_add, stream_remove,
}

-- Without a primary key there is no condition, and `Delete` refuses to delete the whole table.
abbrev pub Guards : StreamTable → Type 0
Guards T = (s : Stream) (db : T.State) → s.id ≡ 0 → T.delete s db ≡ (db, err T.missing_where_clause)

-- If the database refuses to delete without a condition, a stream cannot be removed: whatever name
-- is given, also that of a stream just added, the command ends as fatal and leaves the database as
-- it was, so that the list of the streams stays the same.
pub stream_remove-fatal :
    (T : StreamTable) (cfg : Config) (broken : Bool)
    → Guards T
    → (name url : Bytes) (db : T.State)
    → let added = (stream_add T cfg broken name url db).0 in
      (stream_remove T cfg broken name added ≡ (added, fatal))
      × (stream_list T cfg broken (stream_remove T cfg broken name added).0
          ≡ stream_list T cfg broken added)
unfolding stream_remove
stream_remove-fatal T cfg broken guards name url db =
    let added = (stream_add T cfg broken name url db).0 in
    let e = guards (record zero_stream { display_name = name }) added refl in
    (
      ap (λ r. (r.0, elim r.1 [ err e ↦ fatal | ok gone ↦ print broken (config_format cfg) gone ]))
          e,
      ap (λ r. stream_list T cfg broken r.0) e,
    )
