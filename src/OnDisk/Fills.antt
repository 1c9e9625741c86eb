-- ===== src/OnDisk/Fills.antt =====
-- The on-disk storage as a blob storage: its state is the files and what the next calls of `os`
-- will fail with.
use radio_chatter.Common.{
  ◌≡◌, ◌≢◌, sym, List, [], ◌∷◌, Option, none, some, Bytes, All, Result, ok, err, map_err, subst,
}
use radio_chatter.Files.{Files, stat}
use radio_chatter.Blob.{Key, IsKey, LinkError, not_found, other, Storage, IsStorage}
use radio_chatter.OnDisk.{Faults, StoreError, OnDiskStorage, path, raw_url, link, store}
use radio_chatter.OnDisk.Torn.{no_faults}
use radio_chatter.OnDisk.Addressed.{IsAddressed, IsWhole, store-Stores}

pub record Disk (E : Type 0) : Type 0 where
  pub files : Files
  pub faults : List (Faults E)

pub data DiskError (E : Type 0) : Type 0 where
  storing : StoreError E → DiskError E
  linking : E → DiskError E

module _ {E : Type 0} (S : OnDiskStorage E) where
  abbrev pub next_faults : List (Faults E) → Faults E
  next_faults [] = no_faults
  next_faults (f ∷ faults) = f

  abbrev pub later_faults : List (Faults E) → List (Faults E)
  later_faults [] = []
  later_faults (f ∷ faults) = faults

  abbrev pub wrap_link : LinkError E → LinkError (DiskError E)
  wrap_link not_found = not_found
  wrap_link (other e) = other (linking e)

  abbrev pub on_disk : Storage
  on_disk = record {
    State = Disk E;
    Error = DiskError E;
    Url = S.Url;
    link = λ key valid d. map_err wrap_link (link S (next_faults d.faults).stat_error key d.files);
    store = λ content d.
        let r = store S (next_faults d.faults) content d.files in
        (record { files = r.0; faults = later_faults d.faults }, map_err storing r.1);
  }

module _ {E : Type 0} (S : OnDiskStorage E)
    (sized : (content : Bytes) → IsKey (S.hash content)) where
  abbrev pub Tidy : Faults E → Type 0
  Tidy f = IsWhole S sized f.write_error

  -- No write of the future stops half way, and the files are in order.
  abbrev pub IsTidy : Disk E → Type 0
  IsTidy d = IsAddressed S sized d.files × All Tidy d.faults

  abbrev pub Keeps : Disk E → Key → Type 0
  Keeps d key = IsKey key × ((c : Bytes) × (d.files (path S key) ≡ some c))

  next_faults-Tidy : (faults : List (Faults E)) → All Tidy faults → Tidy (next_faults S faults)
  next_faults-Tidy [] h = tt
  next_faults-Tidy (f ∷ faults) h = h.0

  later_faults-Tidy :
      (faults : List (Faults E)) → All Tidy faults → All Tidy (later_faults S faults)
  later_faults-Tidy [] h = tt
  later_faults-Tidy (f ∷ faults) h = h.1

  map_err-ok : (r : Result (StoreError E) Key) {key : Key} → map_err storing r ≡ ok key → r ≡ ok key
  map_err-ok (ok k) h = cc
  map_err-ok (err e) h = cc

  link_present :
      (failure : Option E) (key : Key) (files : Files) (c : Bytes)
      → files (path S key) ≡ some c
      → map_err (wrap_link S) (link S failure key files) ≢ err not_found
  unfolding link stat
  link_present (some e) key files c h = λ bad. cc
  link_present none key files c h =
      rw (h, map_err, link, stat) (by_parsed (S.parse_url (raw_url S key)))
    where
      by_parsed : (r : Result E S.Url) → map_err (wrap_link S) (map_err other r) ≢ err not_found
      by_parsed (ok url) = λ bad. cc
      by_parsed (err e) = λ bad. cc

  -- The storage keeps the promises of a blob storage, with `KeyForBytes` as its hash.
  pub on_disk_laws : IsStorage (on_disk S)
  on_disk_laws = record {
    hash = S.hash;
    Good = IsTidy;
    Holds = Keeps;
    store-Good = λ content d g.
        let st =
          store-Stores S sized (next_faults S d.faults) content d.files
            (next_faults-Tidy d.faults g.1) g.0 in
        (st.addressed, later_faults-Tidy d.faults g.1);
    store-Holds = λ content d {key} g h.
        let st =
          store-Stores S sized (next_faults S d.faults) content d.files
            (next_faults-Tidy d.faults g.1) g.0 in
        let e = map_err-ok (store S (next_faults S d.faults) content d.files).1 h in
        let (c, there, same) = st.held e in
        let is_key = subst IsKey (sym (st.key_of e)) (sized content) in
        (st.key_of e, is_key, (is_key, (c, there)));
    store-keeps = λ content d key g h.
        let st =
          store-Stores S sized (next_faults S d.faults) content d.files
            (next_faults-Tidy d.faults g.1) g.0 in
        (h.0, st.kept (path S key) h.1.0 h.1.1);
    link_found =
        λ key valid d g h. link_present (next_faults S d.faults).stat_error key d.files h.1.0 h.1.1;
  }

  pub on_disk_good : (d : Disk E) → IsTidy d → on_disk_laws.Good d
  unfolding on_disk_laws
  on_disk_good d h = h
