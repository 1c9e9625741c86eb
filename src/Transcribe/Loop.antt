-- ===== src/Transcribe/Loop.antt =====
-- pkg/transcribe.go: the outer loop of `Transcribe`, and how it stands between its runs.
use radio_chatter.Common.{
  Bool, ℕ, suc, ◌+◌, ◌<◌, ◌≤◌, arith, ◌≡◌, List, [], ◌∷◌, Option, none, some,
}
use radio_chatter.Blob.{Storage}
use radio_chatter.Transcribe.{
  Rows, SpeechToText, Failure, Ended, out_of_fuel, panicked, cleared, stopped, was_cancelled,
  backlog,
}
use radio_chatter.Transcribe.Backlog.{Counts, IsCleared, arrivals, backlog-IsCleared}

module _ (D : Rows) (S : Storage) (stt : SpeechToText S.Url) where
  -- What the `select` takes: the end of the context, or the time until the next run, after which the
  -- blobs and the rows may be others.
  pub data Waited : Type 0 where
    context_done : Waited
    time_passed : (ℕ → S.State) → D.State → Waited

  -- How `Transcribe` stands when these are used up: it waits, it has returned, with an error or
  -- without one, or it has panicked.
  pub data Standing : Type 0 where
    no_fuel : Standing
    panic : Standing
    waits : D.State → Standing
    returned : Option (Failure D S stt) → Standing

  abbrev pub after_backlog : Ended D S stt → (D.State → Standing) → Standing
  after_backlog out_of_fuel next = no_fuel
  after_backlog panicked next = panic
  after_backlog (was_cancelled db) next = returned none
  after_backlog (stopped db e) next = returned (some e)
  after_backlog (cleared db) next = next db

  -- `Transcribe`; an inner loop that starts with the rows `db` may use the fuel `fuel db`, and while
  -- the `i`-th one runs, other processes change the rows as `others i` says.
  unfoldable pub transcribe_loop :
      (Failure D S stt → Bool)
      → (D.State → ℕ)
      → (ℕ → ℕ → D.State → D.State)
      → (ℕ → S.State)
      → D.State
      → List Waited
      → Standing
  transcribe_loop is_cancelled fuel others blobs db [] =
      after_backlog (backlog D S stt is_cancelled (fuel db) 0 (others 0) blobs db) waits
  transcribe_loop is_cancelled fuel others blobs db (context_done ∷ later) =
      after_backlog (backlog D S stt is_cancelled (fuel db) 0 (others 0) blobs db)
        (λ db'. returned none)
  transcribe_loop is_cancelled fuel others blobs db (time_passed blobs' db'' ∷ later) =
      let next = transcribe_loop is_cancelled fuel (λ i. others (suc i)) blobs' db'' later in
      after_backlog (backlog D S stt is_cancelled (fuel db) 0 (others 0) blobs db) (λ db'. next)

module _ (D : Rows) (S : Storage) (stt : SpeechToText S.Url) (C : Counts D stt.max_batch_size) where
  -- Between two runs, and at the end.
  abbrev pub IsCaughtUp : Standing D S stt → Type 0
  IsCaughtUp no_fuel = ⊥
  IsCaughtUp panic = Unit
  IsCaughtUp (waits db) = C.waiting db ≡ 0
  IsCaughtUp (returned e) = Unit

  after_backlog-IsCaughtUp :
      (e : Ended D S stt) (next : D.State → Standing D S stt)
      → IsCleared D S stt C e
      → ((db : D.State) → C.waiting db ≡ 0 → IsCaughtUp (next db))
      → IsCaughtUp (after_backlog D S stt e next)
  after_backlog-IsCaughtUp out_of_fuel next h k = absurd h
  after_backlog-IsCaughtUp panicked next h k = tt
  after_backlog-IsCaughtUp (was_cancelled db) next h k = tt
  after_backlog-IsCaughtUp (stopped db e) next h k = tt
  after_backlog-IsCaughtUp (cleared db) next h k = k db h

  -- What other processes do before each round of an inner loop brings at most `late` transmissions
  -- without a transcription in all.
  pub record BringsAtMost (late : ℕ) (others : ℕ → D.State → D.State) : Type 0 where
    pub added : ℕ → ℕ
    pub grows : (i : ℕ) (d : D.State) → C.waiting (others i d) ≤ C.waiting d + added i
    pub bounded : (n : ℕ) → arrivals added 0 n ≤ late

  IsCleared-run :
      (is_cancelled : Failure D S stt → Bool) (fuel : ℕ) (late : ℕ) (others : ℕ → D.State → D.State)
      (blobs : ℕ → S.State) (db : D.State)
      → 0 < stt.max_batch_size
      → BringsAtMost late others
      → C.waiting db + late < fuel
      → IsCleared D S stt C (backlog D S stt is_cancelled fuel 0 others blobs db)
  IsCleared-run is_cancelled fuel late others blobs db h o enough =
      backlog-IsCleared D S stt C is_cancelled fuel 0 others o.added blobs db h o.grows
        (λ n. let few = o.bounded n in omega arith)

  -- However often `Transcribe` runs, and whatever has changed in the meantime: if other processes
  -- bring at most `late` transmissions while an inner loop runs, it ends after at most as many
  -- rounds as there are transmissions without a transcription at its start, `late` more, and one;
  -- and when `Transcribe` waits for its next run, its last round has left no transmission without
  -- one. The service must take batches of at least one.
  pub transcribe_loop-IsCaughtUp :
      (is_cancelled : Failure D S stt → Bool) (fuel : D.State → ℕ) (late : ℕ)
      (others : ℕ → ℕ → D.State → D.State) (blobs : ℕ → S.State) (db : D.State)
      (events : List (Waited D S stt))
      → 0 < stt.max_batch_size
      → ((i : ℕ) → BringsAtMost late (others i))
      → ((d : D.State) → C.waiting d + late < fuel d)
      → IsCaughtUp (transcribe_loop D S stt is_cancelled fuel others blobs db events)
  unfolding transcribe_loop
  transcribe_loop-IsCaughtUp is_cancelled fuel late others blobs db [] h o enough =
      after_backlog-IsCaughtUp _ _
        (IsCleared-run is_cancelled (fuel db) late (others 0) blobs db h (o 0) (enough db))
        (λ d z. z)
  transcribe_loop-IsCaughtUp is_cancelled fuel late others blobs db (context_done ∷ later) h o
        enough =
      after_backlog-IsCaughtUp _ _
        (IsCleared-run is_cancelled (fuel db) late (others 0) blobs db h (o 0) (enough db))
        (λ d z. tt)
  transcribe_loop-IsCaughtUp is_cancelled fuel late others blobs db (time_passed blobs' db' ∷ later)
        h o enough =
      let next =
        transcribe_loop-IsCaughtUp is_cancelled fuel late (λ i. others (suc i)) blobs' db' later h
          (λ i. o (suc i)) enough in
      after_backlog-IsCaughtUp _ _
        (IsCleared-run is_cancelled (fuel db) late (others 0) blobs db h (o 0) (enough db))
        (λ d z. next)
