-- ===== src/Split/Interleaved.antt =====
-- The jobs of `splitChunk` in any interleaving.
use radio_chatter.Common.{ℕ, ◌<◌, ◌≡◌, ◌≢◌, List, length, get_elem?, Option, none, some, Bytes}
use radio_chatter.Duration.{Duration}
use radio_chatter.Archiver.{AudioSpan}
use radio_chatter.Blob.{Key, Storage, IsStorage}
use radio_chatter.Models.{Chunk, Transmission, Database}
use radio_chatter.Split.{Job, SplitError, World}
use radio_chatter.Split.Group.{error_of, Group, advance_job, advance_all}
use radio_chatter.Split.Sound.{Saves, Sound}

module _ (S : Storage) (D : Database) (I : IsStorage S) {E : Type 0} (seconds : Duration → Bytes)
    (not_exist : E) (jobs : ℕ → Job E) (path : Bytes) (pieces : List AudioSpan)
    (chunk : Chunk) where
  -- The temporary files have names of their own, as random names do.
  abbrev pub Distinct : Type 0
  Distinct = (i j : ℕ) → (jobs i).tmp ≡ (jobs j).tmp → i ≡ j

  abbrev step : ℕ → Group S D E → Group S D E
  step = advance_job S D seconds not_exist jobs path pieces chunk

  abbrev steps : List ℕ → Group S D E → Group S D E
  steps = advance_all S D seconds not_exist jobs path pieces chunk

  -- What holds of a group that was started in a world.
  record Inv (w : World S D) (g : Group S D E) : Type 0 where
    good : I.Good g.world.blobs
    no_blob_lost : (key : Key) → I.Holds w.blobs key → I.Holds g.world.blobs key
    others : (name : Bytes) → ((i : ℕ) → name ≢ (jobs i).tmp) → g.world.files name ≡ w.files name
    sound :
        (i : ℕ) (span : AudioSpan)
        → get_elem? pieces i ≡ some span
        → Sound S D I seconds not_exist path chunk span (jobs i) g.world (g.phase i)
    noted : g.failure ≡ none → (i : ℕ) → error_of (g.phase i) ≡ none

  -- What `splitChunk` promises of the world it ran in.
  pub record Splits (w : World S D) (r : World S D × Option (SplitError E S.Error D.Error))
      : Type 0 where
    pub good : I.Good r.0.blobs
    pub no_blob_lost : (key : Key) → I.Holds w.blobs key → I.Holds r.0.blobs key
    pub others : (name : Bytes) → ((i : ℕ) → name ≢ (jobs i).tmp) → r.0.files name ≡ w.files name
    pub removed :
        (i : ℕ) → i < length pieces → (jobs i).remove_error ≡ none → r.0.files (jobs i).tmp ≡ none
    pub saves :
        r.1 ≡ none
        → (i : ℕ) (span : AudioSpan) → get_elem? pieces i ≡ some span
        → (t : Transmission) × Saves S D I seconds not_exist path chunk span (jobs i) r.0 t
