-- ===== src/Tests/Server.antt =====
-- The server of a storage, with errors that are numbers.
use radio_chatter.Common.{ℕ, ◌≡◌, refl, some, true}
use radio_chatter.OnDisk.Server.{
  Server, Failures, started, not_served, failed, finished, cancels, serves, Reach, start, later,
}
use radio_chatter.OnDisk.Server.Lifecycle.{
  PanicsServing, PanicsShutdown, serving-panics, Answers, close-Answers,
}

-- The server can fail with the number 98, and the shutdown with no error.
abbrev address_in_use : Failures ℕ
address_in_use = record { ShutdownFails = λ e. ⊥; ServeFails = λ e. e ≡ 98 }

serving-panics_example :
    ((e : ℕ) → e ≡ 98 → (s : Server ℕ) × Reach address_in_use s × PanicsServing address_in_use s e)
    × ((s : Server ℕ)
        → Reach address_in_use s
        → ((e : ℕ)
            → PanicsServing address_in_use s e
            → (e ≡ 98) × (s.closed ≡ true) × (s.shutdown ≡ finished))
          × ¬ PanicsShutdown address_in_use s)
serving-panics_example = serving-panics address_in_use

-- The server has failed, and the error is not yet sent when the storage is told to close.
abbrev failed_first : Server ℕ
failed_first = record started { cancelled = true; serve = failed 98 }

failed_first-Reach : Reach address_in_use failed_first
failed_first-Reach = later (later start (serves (some (not_served 98)) refl refl)) cancels

close-Answers_example : Answers address_in_use failed_first
close-Answers_example = close-Answers address_in_use failed_first-Reach refl
