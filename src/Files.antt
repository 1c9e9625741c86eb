-- ===== src/Files.antt =====
-- The files that the Go code reads and writes through `os`: paths and their contents, without the
-- directories. What a call fails with is chosen by whoever runs it.
use radio_chatter.Common.{
  Result, ok, err, ok-injective, ap, ◌∙◌, refl, ℕ, ◌≡◌, ◌≢◌, Bool-cases, inl, inr, [], ◌∷◌, ◌++◌,
  Option, none, some, Bytes, equal, equal-eq, equal_self, take, if◌then◌else◌,
}

abbrev pub Files : Type 0
Files = Bytes → Option Bytes

abbrev pub write_file : Bytes → Bytes → Files → Files
write_file path content files other = if equal other path then some content else files other

abbrev pub remove_file : Bytes → Files → Files
remove_file path files other = if equal other path then none else files other

-- `path.Join` of a clean path and a name without a slash.
abbrev pub join : Bytes → Bytes → Bytes
join [] name = name
join (c ∷ root) name = c ∷ (root ++ (b'/' ∷ name))

-- What `os.Stat` finds.
pub data Stat (E : Type 0) : Type 0 where
  found missing : Stat E
  failed : E → Stat E

-- How `os.WriteFile` fails: before the file is opened, or once it has been cut to length 0 and some
-- of the bytes have been written.
pub data WriteError (E : Type 0) : Type 0 where
  unopened : E → WriteError E
  torn : ℕ → E → WriteError E

module _ {E : Type 0} where
  unfoldable pub stat : Option E → Bytes → Files → Stat E
  stat (some e) path files = failed e
  stat none path files = elim (files path) [ none ↦ missing | some content ↦ found ]

  -- The files behind a write.
  unfoldable pub write : Option (WriteError E) → Bytes → Bytes → Files → Files
  write none path content files = write_file path content files
  write (some (unopened e)) path content files = files
  write (some (torn n e)) path content files = write_file path (take n content) files

-- `os.ReadFile`
abbrev pub read_file : {E : Type 0} → E → Option E → Bytes → Files → Result E Bytes
read_file not_exist (some e) path files = err e
read_file not_exist none path files = elim (files path) [
  | none ↦ err not_exist
  | some content ↦ ok content
]

abbrev pub leave : Option Bytes → Bytes → Files → Files
leave none path files = files
leave (some content) path files = write_file path content files

-- The deferred `os.Remove`, whose error is only logged.
abbrev pub clean_up : {E : Type 0} → Option E → Bytes → Files → Files
clean_up none path files = remove_file path files
clean_up (some e) path files = files

pub write_file-same :
    (path content : Bytes) (files : Files) → write_file path content files path ≡ some content
write_file-same path content files = rw (equal_self path)

pub write_file-other :
    (path content other : Bytes) (files : Files)
    → other ≢ path
    → write_file path content files other ≡ files other
write_file-other path content other files ne = elim (Bool-cases (equal other path)) [
  | inl e ↦ absurd (ne (equal-eq other path e))
  | inr e ↦ rw e
]

pub remove_file-same : (path : Bytes) (files : Files) → remove_file path files path ≡ none
remove_file-same path files = rw (equal_self path)

pub remove_file-other :
    (path name : Bytes) (files : Files) → name ≢ path → remove_file path files name ≡ files name
remove_file-other path name files ne = elim (Bool-cases (equal name path)) [
  | inl e ↦ absurd (ne (equal-eq name path e))
  | inr e ↦ rw e
]

pub leave-other :
    (output : Option Bytes) (path name : Bytes) (files : Files)
    → name ≢ path
    → leave output path files name ≡ files name
leave-other none path name files ne = refl
leave-other (some content) path name files ne = write_file-other path content name files ne

pub leave-same :
    (output : Option Bytes) (path : Bytes) (files : Files)
    → files path ≡ none
    → leave output path files path ≡ output
leave-same none path files h = h
leave-same (some content) path files h = write_file-same path content files

pub clean_up-other :
    {E : Type 0} (failure : Option E) (path name : Bytes) (files : Files)
    → name ≢ path
    → clean_up failure path files name ≡ files name
clean_up-other none path name files ne = remove_file-other path name files ne
clean_up-other (some e) path name files ne = refl

pub read_file-ok :
    {E : Type 0} (not_exist : E) (failure : Option E) (path : Bytes) (files : Files)
    (content : Bytes)
    → read_file not_exist failure path files ≡ ok content
    → files path ≡ some content
read_file-ok not_exist (some e) path files content h = cc
read_file-ok {E} not_exist none path files content h = by_found (files path) refl h
  where
    by_found :
        (found : Option Bytes)
        → files path ≡ found
        → ◌≡◌ {A = Result E Bytes}
            (elim found [ none ↦ err not_exist | some content ↦ ok content ])
            (ok content)
        → files path ≡ some content
    by_found none f h = cc
    by_found (some c) f h = f ∙ ap some (ok-injective h)
