-- ===== src/Transcribe/Backlog.antt =====
-- How the loop over the backlog ends.
use radio_chatter.Common.{
  Bool, true, false, ℕ, zero, suc, ◌+◌, ◌<◌, ◌≤◌, ◌≡◌, refl, ap, List, [], ◌∷◌, map, Option, none,
  some, Result, ok, err, length, min, arith,
}
use radio_chatter.Blob.{Storage}
use radio_chatter.Models.{Transmission, Transcription}
use radio_chatter.Transcribe.{
  Rows, SpeechToText, Failure, transcribe_once, Ended, out_of_fuel, panicked, cleared, stopped,
  was_cancelled, stop, backlog,
}
use radio_chatter.Transcribe.Once.{ids, Effect, Recorded, transcribe_once-Recorded}

-- What the database does, where `waiting` counts the transmissions that have no transcription: the
-- query returns as many as there are, up to the limit, and a saved transcription for each of them
-- takes them off.
pub record Counts (D : Rows) (limit : ℕ) : Type 0 where
  pub waiting : D.State → ℕ
  pub queried :
      (db : D.State) (transmissions : List Transmission)
      → D.untranscribed limit db ≡ ok transmissions
      → length transmissions ≡ min limit (waiting db)
  pub taken_off :
      (db db' : D.State) (transmissions : List Transmission) (models saved : List Transcription)
      → D.untranscribed limit db ≡ ok transmissions
      → map (λ r. r.transmission_id) models ≡ ids transmissions
      → D.save_all models db ≡ (db', ok saved)
      → waiting db' + length transmissions ≡ waiting db

-- How many transmissions come before the `n` rounds from `round` on.
abbrev pub arrivals : (ℕ → ℕ) → ℕ → ℕ → ℕ
arrivals added round zero = 0
arrivals added round (suc n) = added round + arrivals added (suc round) n

module _ (D : Rows) (S : Storage) (stt : SpeechToText S.Url) (C : Counts D stt.max_batch_size) where
  -- A round that returns 0 has found nothing, and any other makes the backlog smaller.
  round-waiting :
      (round : ℕ) (blobs : S.State) (db db' : D.State) (n : ℕ)
      → 0 < stt.max_batch_size
      → Recorded D S stt round blobs db db' n
      → (n ≡ 0 → C.waiting db' ≡ 0) × (0 < n → C.waiting db' < C.waiting db)
  round-waiting round blobs db db' n h r = by_found r.transmissions r.found r.counted r.effect
    where
      by_found :
          (transmissions : List Transmission)
          → D.untranscribed stt.max_batch_size db ≡ ok transmissions
          → n ≡ length transmissions
          → Effect D S stt round blobs transmissions db db'
          → (n ≡ 0 → C.waiting db' ≡ 0) × (0 < n → C.waiting db' < C.waiting db)
      by_found [] found counted same =
          let q = C.queried db [] found in
          let same_waiting = ap C.waiting same in (λ z. omega arith, λ z. omega arith)
      by_found (t ∷ transmissions) found counted said =
          let (rows, e) = said.saved in
          let taken =
            C.taken_off db db' (t ∷ transmissions) said.models rows found said.one_each e in
          (λ z. omega arith, λ z. omega arith)

  -- How the loop may end.
  abbrev pub IsCleared : Ended D S stt → Type 0
  IsCleared out_of_fuel = ⊥
  IsCleared panicked = Unit
  IsCleared (cleared db) = C.waiting db ≡ 0
  IsCleared (was_cancelled db) = Unit
  IsCleared (stopped db e) = Unit

  stop-IsCleared : (b : Bool) (db : D.State) (e : Failure D S stt) → IsCleared (stop D S stt b db e)
  stop-IsCleared true db e = tt
  stop-IsCleared false db e = tt

  -- The loop over the backlog ends after at most as many rounds as there are transmissions without a
  -- transcription, those included that come while it runs, and one more, and unless a round fails,
  -- panics or is cancelled, none is left at its end. The service must take batches of at least one.
  pub backlog-IsCleared :
      (is_cancelled : Failure D S stt → Bool) (fuel round : ℕ) (others : ℕ → D.State → D.State)
      (added : ℕ → ℕ) (blobs : ℕ → S.State) (db : D.State)
      → 0 < stt.max_batch_size
      → ((i : ℕ) (d : D.State) → C.waiting (others i d) ≤ C.waiting d + added i)
      → ((n : ℕ) → C.waiting db + arrivals added round n < fuel)
      → IsCleared (backlog D S stt is_cancelled fuel round others blobs db)
  unfolding backlog
  backlog-IsCleared is_cancelled zero round others added blobs db h grows lt =
      let never = lt 0 in absurd (omega arith)
  backlog-IsCleared is_cancelled (suc fuel) round others added blobs db h grows lt =
      by_round (transcribe_once D S stt round (blobs round) (others round db)) refl (λ db' less.
        backlog-IsCleared is_cancelled fuel (suc round) others added blobs db' h grows less)
    where
      seen : D.State
      seen = others round db

      by_round :
          (r : Option (D.State × Result (Failure D S stt) ℕ))
          → transcribe_once D S stt round (blobs round) seen ≡ r
          → ((db' : D.State)
              → ((n : ℕ) → C.waiting db' + arrivals added (suc round) n < fuel)
              → IsCleared (backlog D S stt is_cancelled fuel (suc round) others blobs db'))
          → IsCleared (backlog D S stt is_cancelled (suc fuel) round others blobs db)
      by_round none e later = rw (e, backlog) tt
      by_round (some (db', err x)) e later = rw (e, backlog) (stop-IsCleared (is_cancelled x) db' x)
      by_round (some (db', ok zero)) e later =
          rw (e, backlog)
            ((round-waiting round (blobs round) seen db' 0 h
                (transcribe_once-Recorded D S stt round (blobs round) seen db' 0 e)).0
              refl)
      by_round (some (db', ok (suc n))) e later =
          let less =
            (round-waiting round (blobs round) seen db' (suc n) h
                (transcribe_once-Recorded D S stt round (blobs round) seen db' (suc n) e)).1
              (omega arith) in
          let grown = grows round db in
          rw (e, backlog) (later db' (λ k. let fits = lt (suc k) in omega arith))
