-- ===== src/OnDisk.antt =====
-- pkg/on_disk_storage/storage.go: blobs as files of a directory, each named by the hash of its
-- content. `store` is `Store`, `link` is `Link`.
pub mod Addressed
pub mod Torn
pub mod Fills
pub mod Server
pub mod Serving
use radio_chatter.Common.{
  ◌≡◌, ◌++◌, ◌∷◌, Option, none, some, Bytes, codes, Result, ok, err, map_err,
}
use radio_chatter.Files.{
  Files, Stat, found, missing, failed, WriteError, unopened, torn, stat, write, join,
}
use radio_chatter.Blob.{Key, key_string, LinkError, not_found, other}

-- What the calls of `os` fail with in one call of `Store`.
pub record Faults (E : Type 0) : Type 0 where
  pub mkdir : Option E
  pub stat_error : Option E
  pub write_error : Option (WriteError E)

pub data StoreError (E : Type 0) : Type 0 where
  not_created : E → StoreError E
  not_saved : WriteError E → StoreError E

-- `rootDir`, a clean path, and `addr`. The hash is `sha256.Sum256`, and `parse_url` is `url.Parse`.
pub record OnDiskStorage (E : Type 0) : Type 1 where
  pub root_dir : Bytes
  pub addr : Bytes
  pub hash : Bytes → Key
  pub Url : Type 0
  pub parse_url : Bytes → Result E Url

module _ {E : Type 0} (S : OnDiskStorage E) where
  -- `OnDiskStorage.path`
  abbrev pub path : Key → Bytes
  path key = join S.root_dir (key_string key)

  abbrev pub raw_url : Key → Bytes
  raw_url key = codes "http://" ++ (S.addr ++ (b'/' ∷ key_string key))

  -- `OnDiskStorage.Link`
  unfoldable pub link : Option E → Key → Files → Result (LinkError E) S.Url
  link stat_error key files = elim (stat stat_error (path key) files) [
    | missing ↦ err not_found
    | failed e ↦ err (other e)
    | found ↦ map_err other (S.parse_url (raw_url key))
  ]

  abbrev pub saved : Option (WriteError E) → Key → Result (StoreError E) Key
  saved none key = ok key
  saved (some e) key = err (not_saved e)

  -- `OnDiskStorage.Store`. Whatever `os.Stat` fails with, the file is then written.
  unfoldable pub store : Faults E → Bytes → Files → Files × Result (StoreError E) Key
  store f content files =
      let key = S.hash content in
      let filename = path key in
      elim f.mkdir [
        | some e ↦ (files, err (not_created e))
        | none ↦ elim (stat f.stat_error filename files) [
          | found ↦ (files, ok key)
          | _ ↦ (write f.write_error filename content files, saved f.write_error key)
        ]
      ]
