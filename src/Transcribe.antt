-- ===== src/Transcribe.antt =====
-- pkg/transcribe.go: `transcribeOnce`, and the loop of `Transcribe` that clears the backlog. A panic
-- is `none`. The database, the blob storage and the speech-to-text service are parameters.
pub mod Once
pub mod Backlog
pub mod Loop
use radio_chatter.Common.{
  ℕ, zero, suc, ◌≡◌, Bool, true, false, List, [], ◌∷◌, Option, none, some, Bytes, Result, ok, err,
  ◌==◌, length, map_err, if◌then◌else◌,
}
use radio_chatter.Common.Int.{ℤ, pos}
use radio_chatter.Blob.{Key, KeyError, LinkError, parse_key, Storage}
use radio_chatter.Models.{Transmission, Transcription}

-- The two calls of `gorm`: the query of `untranscribedTransmissions`, which the limit bounds, and
-- `Save` of a slice of rows.
pub record Rows : Type 1 where
  pub State : Type 0
  pub Error : Type 0
  pub untranscribed : ℕ → State → Result Error (List Transmission)
  pub save_all : List Transcription → State → State × Result Error (List Transcription)

-- `SpeechToText`; the first argument is the number of the round, as an answer may change.
pub record SpeechToText (Url : Type 0) : Type 1 where
  pub Error : Type 0
  pub max_batch_size : ℕ
  pub speech_to_text : ℕ → List Url → Result Error (List Bytes)

pub data TranscribeError (Q L T : Type 0) : Type 0 where
  not_queried : Q → TranscribeError Q L T
  bad_key : KeyError → TranscribeError Q L T
  no_link : L → TranscribeError Q L T
  not_transcribed : T → TranscribeError Q L T
  wrong_length : ℕ → ℕ → TranscribeError Q L T
  not_saved : Q → TranscribeError Q L T

-- An hour, for which a link is valid.
abbrev pub hour : ℤ
hour = pos 3600000000000

-- The rows that the loop over `transcriptions` makes.
abbrev pub rows_of : List Transmission → List Bytes → List Transcription
rows_of (t ∷ transmissions) (text ∷ texts) =
    record { id = 0; created_at = 0; updated_at = 0; transmission_id = t.id; content = text }
    ∷ rows_of transmissions texts
rows_of _ _ = []

module _ (D : Rows) (S : Storage) (stt : SpeechToText S.Url) where
  abbrev pub Failure : Type 0
  Failure = TranscribeError D.Error (LinkError S.Error) stt.Error

  abbrev pub add_url : S.Url → Result Failure (List S.Url) → Result Failure (List S.Url)
  add_url url (ok urls) = ok (url ∷ urls)
  add_url url (err e) = err e

  -- One round of the loop over the transmissions, with what the later rounds give.
  abbrev pub link_one :
      S.State
      → Option (Result KeyError Key)
      → Option (Result Failure (List S.Url))
      → Option (Result Failure (List S.Url))
  link_one blobs none later = none
  link_one blobs (some (err e)) later = some (err (bad_key e))
  link_one blobs (some (ok key)) later = elim (S.link key hour blobs) [
    | err e ↦ some (err (no_link e))
    | ok url ↦ elim later [ none ↦ none | some r ↦ some (add_url url r) ]
  ]

  unfoldable pub link_all : S.State → List Transmission → Option (Result Failure (List S.Url))
  link_all blobs [] = some (ok [])
  link_all blobs (t ∷ transmissions) =
      link_one blobs (parse_key t.sha256) (link_all blobs transmissions)

  -- `t.db.Save(&models)` and the count.
  unfoldable pub save_rows : List Transcription → D.State → D.State × Result Failure ℕ
  save_rows models db =
      let (db', r) = D.save_all models db in
      (db', elim r [ err e ↦ err (not_saved e) | ok saved ↦ ok (length models) ])

  unfoldable pub transcribe_urls :
      ℕ → List Transmission → List S.Url → D.State → D.State × Result Failure ℕ
  transcribe_urls round transmissions urls db = elim (stt.speech_to_text round urls) [
    | err e ↦ (db, err (not_transcribed e))
    | ok texts ↦
        if length texts == length urls
        then save_rows (rows_of transmissions texts) db
        else (db, err (wrong_length (length texts) (length urls)))
  ]

  abbrev pub after_links :
      ℕ
      → List Transmission
      → D.State
      → Option (Result Failure (List S.Url))
      → Option (D.State × Result Failure ℕ)
  after_links round transmissions db none = none
  after_links round transmissions db (some (err e)) = some (db, err e)
  after_links round transmissions db (some (ok urls)) =
      some (transcribe_urls round transmissions urls db)

  -- `transcribeOnce`
  unfoldable pub transcribe_once : ℕ → S.State → D.State → Option (D.State × Result Failure ℕ)
  transcribe_once round blobs db = elim (D.untranscribed stt.max_batch_size db) [
    | err e ↦ some (db, err (not_queried e))
    | ok [] ↦ some (db, ok 0)
    | ok (t ∷ transmissions) ↦
        after_links round (t ∷ transmissions) db (link_all blobs (t ∷ transmissions))
  ]

  -- How the inner loop of `Transcribe` ends; a round that was cancelled is no error. The blobs change
  -- only elsewhere; `blobs round` is what the storage holds in a round.
  pub data Ended : Type 0 where
    out_of_fuel : Ended
    panicked : Ended
    cleared : D.State → Ended
    was_cancelled : D.State → Ended
    stopped : D.State → Failure → Ended

  abbrev pub stop : Bool → D.State → Failure → Ended
  stop true db e = was_cancelled db
  stop false db e = stopped db e

  -- `is_cancelled` is `errors.Is(err, context.Canceled)`. Before each round other processes may have
  -- changed the rows, as `others` says.
  unfoldable pub backlog :
      (Failure → Bool) → ℕ → ℕ → (ℕ → D.State → D.State) → (ℕ → S.State) → D.State → Ended
  backlog is_cancelled zero round others blobs db = out_of_fuel
  backlog is_cancelled (suc fuel) round others blobs db =
      let again : D.State → Ended = λ db'. backlog is_cancelled fuel (suc round) others blobs db' in
      elim (transcribe_once round (blobs round) (others round db)) [
        | none ↦ panicked
        | some (db', err e) ↦ stop (is_cancelled e) db' e
        | some (db', ok zero) ↦ cleared db'
        | some (db', ok (suc n)) ↦ again db'
      ]
