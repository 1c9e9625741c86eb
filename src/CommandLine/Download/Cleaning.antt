-- ===== src/CommandLine/Download/Cleaning.antt =====
-- What a download leaves in the temporary directories.
use radio_chatter.Common.{
  ◌≡◌, refl, subst, Bool, true, false, Bool-cases, inl, inr, [], ◌∷◌, Option, none, some, Bytes,
  All, ok,
}
use radio_chatter.Duration.{Duration}
use radio_chatter.Files.{Files}
use radio_chatter.Blob.{Storage}
use radio_chatter.Models.{Database}
use radio_chatter.Split.{World}
use radio_chatter.Processing.Jobs.{below, Station, cleanup_dir}
use radio_chatter.CommandLine.Download.{
  Runs, cleanups, Downloaded, exited, finished, run_streams, download_all,
}

-- No file is left in the directory.
abbrev pub IsEmptied : Option Bytes → Files → Type 0
IsEmptied none files = Unit
IsEmptied (some dir) files = (name : Bytes) → below dir name ≡ true → files name ≡ none

module _ {E : Type 0} where
  cleanup_dir-none :
      (t : Station E) (files : Files) (name : Bytes)
      → files name ≡ none
      → cleanup_dir t files name ≡ none
  cleanup_dir-none t files name h = by_dir t.temp_dir t.remove_error refl refl
    where
      by_dir :
          (dir : Option Bytes) (failure : Option E)
          → t.temp_dir ≡ dir
          → t.remove_error ≡ failure
          → cleanup_dir t files name ≡ none
      by_dir none failure d f = rw (d, cleanup_dir) h
      by_dir (some dir) (some e) d f = rw (d, cleanup_dir) (rw f h)
      by_dir (some dir) none d f =
          rw (d, cleanup_dir)
            (rw f (elim (Bool-cases (below dir name)) [
              | inl inside ↦ rw inside refl
              | inr outside ↦ rw outside h
            ]))

  cleanup_dir-IsEmptied :
      (t : Station E) (files : Files)
      → t.remove_error ≡ none
      → IsEmptied t.temp_dir (cleanup_dir t files)
  cleanup_dir-IsEmptied t files f = by_dir t.temp_dir refl
    where
      by_dir : (dir : Option Bytes) → t.temp_dir ≡ dir → IsEmptied t.temp_dir (cleanup_dir t files)
      by_dir none d = rw d tt
      by_dir (some dir) d = rw d (rw f (λ name inside. rw inside refl))

  IsEmptied-cleanup_dir :
      (t : Station E) (dir : Option Bytes) (files : Files)
      → IsEmptied dir files
      → IsEmptied dir (cleanup_dir t files)
  IsEmptied-cleanup_dir t none files h = tt
  IsEmptied-cleanup_dir t (some dir) files h =
      λ name inside. cleanup_dir-none t files name (h name inside)

  All-cleanup_dir :
      (t : Station E) (runs : Runs E) (files : Files)
      → All (λ r. IsEmptied r.0.temp_dir files) runs
      → All (λ r. IsEmptied r.0.temp_dir (cleanup_dir t files)) runs
  All-cleanup_dir t [] files h = tt
  All-cleanup_dir t (r ∷ runs) files h =
      (IsEmptied-cleanup_dir t r.0.temp_dir files h.0, All-cleanup_dir t runs files h.1)

  cleanups-IsEmptied :
      (runs : Runs E) (files : Files)
      → All (λ r. r.0.remove_error ≡ none) runs
      → All (λ r. IsEmptied r.0.temp_dir (cleanups runs files)) runs
  cleanups-IsEmptied [] files h = tt
  cleanups-IsEmptied ((t, stream) ∷ runs) files h = (
    cleanup_dir-IsEmptied t (cleanups runs files) h.0,
    All-cleanup_dir t runs (cleanups runs files) (cleanups-IsEmptied runs files h.1),
  )

module _ (S : Storage) (D : Database) {E : Type 0} (seconds : Duration → Bytes) where
  -- What the end of a download says of the files.
  abbrev Cleaned : Runs E → Downloaded (World S D) → Type 0
  Cleaned runs (exited w) = Unit
  Cleaned runs (finished w) = All (λ r. IsEmptied r.0.temp_dir w.files) runs

  download_all-Cleaned :
      (Q : Type 0) (runs : Runs E) (w : World S D)
      → All (λ r. r.0.remove_error ≡ none) runs
      → Cleaned runs (download_all S D seconds {Q = Q} (ok runs) w)
  unfolding download_all
  download_all-Cleaned Q runs w h = by_runs (run_streams S D seconds runs w) refl
    where
      by_runs :
          (r : Option (World S D × Bool))
          → run_streams S D seconds runs w ≡ r
          → Cleaned runs (download_all S D seconds {Q = Q} (ok runs) w)
      by_runs none e = rw (e, download_all) tt
      by_runs (some (w', false)) e = rw (e, download_all) tt
      by_runs (some (w', true)) e = rw (e, download_all) (cleanups-IsEmptied runs w'.files h)

  -- If the download of some streams returns, and the temporary directories can be removed, then no
  -- file is left in any of them.
  pub download_all-IsEmptied :
      (Q : Type 0) (runs : Runs E) (w w' : World S D)
      → All (λ r. r.0.remove_error ≡ none) runs
      → download_all S D seconds {Q = Q} (ok runs) w ≡ finished w'
      → All (λ r. IsEmptied r.0.temp_dir w'.files) runs
  download_all-IsEmptied Q runs w w' h e = subst (Cleaned runs) e (download_all-Cleaned Q runs w h)
