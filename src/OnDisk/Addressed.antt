-- ===== src/OnDisk/Addressed.antt =====
-- Files that are named by the hash of their content.
use radio_chatter.Common.{
  ◌≡◌, ◌≢◌, refl, sym, ap, ◌∙◌, subst, Bool-cases, inl, inr, [], ◌∷◌, ◌++◌, Option, none, some,
  Option-cases, Bytes, equal, equal-eq, Result, ok, err, arith, ok-injective,
}
use mathlib.Core.Option.{some-injective}
use radio_chatter.Files.{
  Files, Stat, found, missing, failed, WriteError, unopened, torn, stat, write, write_file, join,
  write_file-same, write_file-other,
}
use radio_chatter.Blob.{Key, IsKey, key_string, parse_key}
use radio_chatter.Blob.Keys.{parse_key-key_string}
use radio_chatter.OnDisk.{
  Faults, StoreError, not_created, OnDiskStorage, path, link, saved, store, raw_url,
}

key_string-injective : (k l : Key) → IsKey k → IsKey l → key_string k ≡ key_string l → k ≡ l
key_string-injective k l hk hl e = ok-injective (
    some-injective _ _
      (sym (parse_key-key_string k hk) ∙ ap parse_key e ∙ parse_key-key_string l hl))

append-cancel : (xs ys zs : Bytes) → ◌≡◌ {A = Bytes} (xs ++ ys) (xs ++ zs) → ys ≡ zs
append-cancel [] ys zs e = e
append-cancel (x ∷ xs) ys zs e = append-cancel xs ys zs cc

join-injective : (root a b : Bytes) → join root a ≡ join root b → a ≡ b
join-injective [] a b e = e
join-injective (c ∷ root) a b e =
    let same : b'/' ∷ a ≡ b'/' ∷ b = append-cancel (c ∷ root) (b'/' ∷ a) (b'/' ∷ b) e in cc

write_file_kept :
    (path content : Bytes) (files : Files) (name c : Bytes)
    → files name ≡ some c
    → (c' : Bytes) × (write_file path content files name ≡ some c')
write_file_kept path content files name c e = elim (Bool-cases (equal name path)) [
  | inl same ↦ (content, rw same refl)
  | inr differ ↦ (c, rw differ e)
]

module _ {E : Type 0} (S : OnDiskStorage E)
    (sized : (content : Bytes) → IsKey (S.hash content)) where
  -- What the files promise: a blob's content has the hash in its name.
  abbrev pub IsAddressed : Files → Type 0
  IsAddressed files =
      (key : Key) (content : Bytes)
      → IsKey key
      → files (path S key) ≡ some content
      → S.hash content ≡ key

  -- No write stops half way.
  abbrev pub IsWhole : Option (WriteError E) → Type 0
  IsWhole (some (torn n e)) = ⊥
  IsWhole _ = Unit

  path-injective : (k l : Key) → IsKey k → IsKey l → path S k ≡ path S l → k ≡ l
  path-injective k l hk hl e =
      key_string-injective k l hk hl (join-injective S.root_dir (key_string k) (key_string l) e)

  write_file-IsAddressed :
      (content : Bytes) (files : Files)
      → IsAddressed files
      → IsAddressed (write_file (path S (S.hash content)) content files)
  write_file-IsAddressed content files v key found_content h e =
      elim (Bool-cases (equal (path S key) (path S (S.hash content)))) [
        | inl same ↦
            let keys = path-injective key (S.hash content) h (sized content) (equal-eq _ _ same) in
            let contents : content ≡ found_content = some-injective _ _ (rw same at e) in
            ap S.hash (sym contents) ∙ sym keys
        | inr differ ↦ v key found_content h (rw differ at e)
      ]

  write-IsAddressed :
      (w : Option (WriteError E)) (content : Bytes) (files : Files)
      → IsWhole w
      → IsAddressed files
      → IsAddressed (write w (path S (S.hash content)) content files)
  unfolding write
  write-IsAddressed none content files h v = write_file-IsAddressed content files v
  write-IsAddressed (some (unopened e)) content files h v = v
  write-IsAddressed (some (torn n e)) content files h v = absurd h

  -- What a call of `Store` leaves.
  pub record Stores (content : Bytes) (files : Files) (r : Files × Result (StoreError E) Key)
      : Type 0 where
    pub addressed : IsAddressed r.0
    pub key_of : {key : Key} → r.1 ≡ ok key → key ≡ S.hash content
    pub held :
        {key : Key} → r.1 ≡ ok key → (c : Bytes) × (r.0 (path S key) ≡ some c) × (S.hash c ≡ key)
    pub others : (name : Bytes) → name ≢ path S (S.hash content) → r.0 name ≡ files name
    pub kept : (name c : Bytes) → files name ≡ some c → (c' : Bytes) × (r.0 name ≡ some c')

  Stores-found :
      (content : Bytes) (files : Files)
      → IsAddressed files
      → (c : Bytes) → files (path S (S.hash content)) ≡ some c
      → Stores content files (files, ok (S.hash content))
  Stores-found content files v c e = record {
    addressed = v;
    key_of = λ h. sym (ok-injective h);
    held = λ h.
        subst (λ k. (c : Bytes) × (files (path S k) ≡ some c) × (S.hash c ≡ k)) (ok-injective h)
          (c, e, v (S.hash content) c (sized content) e);
    others = λ name ne. refl;
    kept = λ name c h. (c, h);
  }

  Stores-write :
      (w : Option (WriteError E)) (content : Bytes) (files : Files)
      → IsWhole w
      → IsAddressed files
      → Stores content files
          (write w (path S (S.hash content)) content files, saved S w (S.hash content))
  unfolding write
  Stores-write none content files h v = record {
    addressed = write_file-IsAddressed content files v;
    key_of = λ e. sym (ok-injective e);
    held = λ e.
        subst
          (λ k.
            (c : Bytes) × (write_file (path S (S.hash content)) content files (path S k) ≡ some c)
            × (S.hash c ≡ k))
          (ok-injective e) (content, write_file-same _ content files, refl);
    others = λ name ne. write_file-other _ content name files ne;
    kept = λ name c e. write_file_kept (path S (S.hash content)) content files name c e;
  }
  Stores-write (some (unopened x)) content files h v = record {
    addressed = v;
    key_of = λ e. cc;
    held = λ e. cc;
    others = λ name ne. refl;
    kept = λ name c h. (c, h);
  }
  Stores-write (some (torn n x)) content files h v = absurd h

  -- The branches of `Store`.
  module _ (f : Faults E) (content : Bytes) (files : Files) where
    store_blocked :
        (e : E) → f.mkdir ≡ some e → store S f content files ≡ (files, err (not_created e))
    unfolding store
    store_blocked e m = ground arith

    store_looked :
        (s : Stat E)
        → f.mkdir ≡ none
        → stat f.stat_error (path S (S.hash content)) files ≡ s
        → store S f content files ≡ elim s [
          | found ↦ (files, ok (S.hash content))
          | _ ↦ (
            write f.write_error (path S (S.hash content)) content files,
            saved S f.write_error (S.hash content),
          )
        ]
    unfolding store
    store_looked s m e = ground arith

    stat_cases :
        (s : Stat E)
        → stat f.stat_error (path S (S.hash content)) files ≡ s
        → IsWhole f.write_error
        → IsAddressed files
        → f.mkdir ≡ none
        → Stores content files (store S f content files)
    unfolding stat
    stat_cases found h w v m = elim (Option-cases f.stat_error) [
      | inr (e, s) ↦ let bad = simp s at h in cc
      | inl s ↦ elim (Option-cases (files (path S (S.hash content)))) [
        | inl n ↦ let bad = simp s at h in ground arith
        | inr (c, n) ↦ rw (store_looked found m h) (Stores-found content files v c n)
      ]
    ]
    stat_cases missing h w v m =
        rw (store_looked missing m h) (Stores-write f.write_error content files w v)
    stat_cases (failed e) h w v m =
        rw (store_looked (failed e) m h) (Stores-write f.write_error content files w v)

  -- If the hash gives keys of 32 bytes, then whatever fails but a write that stops half way, a
  -- call of `Store` keeps every file's content under its hash, touches no other file and loses
  -- none; and if it returns a key, this is the hash of what was to be stored, and a file whose
  -- content has that hash is there.
  pub store-Stores :
      (f : Faults E) (content : Bytes) (files : Files)
      → IsWhole f.write_error
      → IsAddressed files
      → Stores content files (store S f content files)
  store-Stores f content files w v = elim (Option-cases f.mkdir) [
    | inr (e, m) ↦ rw (store_blocked f content files e m) (record {
      addressed = v;
      key_of = λ h. cc;
      held = λ h. cc;
      others = λ name ne. refl;
      kept = λ name c h. (c, h);
    })
    | inl m ↦
        stat_cases f content files (stat f.stat_error (path S (S.hash content)) files) refl w v m
  ]

  link_found :
      (key : Key) (files : Files) {c : Bytes} {url : S.Url}
      → files (path S key) ≡ some c
      → S.parse_url (raw_url S key) ≡ ok url
      → link S none key files ≡ ok url
  unfolding link stat
  link_found key files e u = ground arith

  -- After a call of `Store` that returned a key, on files in order and without a write that
  -- stops half way, `Link` finds the blob, and returns the url that its text is parsed to.
  pub store-link :
      (f : Faults E) (content : Bytes) (files : Files) {key : Key} {url : S.Url}
      → IsWhole f.write_error
      → IsAddressed files
      → (store S f content files).1 ≡ ok key
      → S.parse_url (raw_url S key) ≡ ok url
      → link S none key (store S f content files).0 ≡ ok url
  store-link f content files {key} w v h u =
      let (c, e, same) = (store-Stores f content files w v).held h in
      link_found key (store S f content files).0 e u
