-- ===== src/OnDisk/Torn.antt =====
-- A write that stops half way.
use radio_chatter.Common.{ℕ, ◌≡◌, refl, none, some, Bytes, take, ok, err}
use radio_chatter.Files.{Files, torn, stat, write, write_file, write_file-same}
use radio_chatter.OnDisk.{Faults, not_saved, OnDiskStorage, path, store}

abbrev pub no_faults : {E : Type 0} → Faults E
no_faults = record { mkdir = none; stat_error = none; write_error = none }

abbrev pub torn_write : {E : Type 0} → ℕ → E → Faults E
torn_write n e = record { mkdir = none; stat_error = none; write_error = some (torn n e) }

module _ {E : Type 0} (S : OnDiskStorage E) where
  store_torn :
      (n : ℕ) (e : E) (content : Bytes) (files : Files)
      → files (path S (S.hash content)) ≡ none
      → store S (torn_write n e) content files
        ≡ (write_file (path S (S.hash content)) (take n content) files, err (not_saved (torn n e)))
  unfolding store stat write
  store_torn n e content files m = simp m refl

  store_present :
      (content c : Bytes) (files : Files)
      → files (path S (S.hash content)) ≡ some c
      → store S no_faults content files ≡ (files, ok (S.hash content))
  unfolding store stat
  store_present content c files p = simp p refl

  -- If the first write of a blob stops after `n` bytes, `Store` fails and leaves those `n` bytes
  -- under the blob's name. A second `Store` of the blob, in which nothing fails, then returns its
  -- key and still leaves only the `n` bytes there.
  pub torn_stays :
      (n : ℕ) (e : E) (content : Bytes) (files : Files)
      → files (path S (S.hash content)) ≡ none
      → let first = store S (torn_write n e) content files in
        let second = store S no_faults content first.0 in
        (first.1 ≡ err (not_saved (torn n e)))
        × (second.1 ≡ ok (S.hash content))
        × (second.0 (path S (S.hash content)) ≡ some (take n content))
  torn_stays n e content files m =
      let name = path S (S.hash content) in
      let here = write_file-same name (take n content) files in
      rw (store_torn n e content files m) (
        rw (store_present content (take n content) (write_file name (take n content) files) here)
          (refl, refl, here))
