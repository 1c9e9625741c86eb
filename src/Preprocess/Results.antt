-- ===== src/Preprocess/Results.antt =====
-- When `Preprocess` returns without an error, and which callbacks it has made.
use radio_chatter.Common.{ℕ, ◌≡◌, ◌↔◌, ◌⊎◌, inl, inr, refl, sym, [], Option, none, some, arith}
use mathlib.Core.Option.{none-ne-some}
use radio_chatter.Common.Int.{pos, negsuc}
use radio_chatter.Commands.{RunError, exited, not_run}
use radio_chatter.Ffmpeg.{Time, Floats, ScanError, parse_stderr}
use radio_chatter.Ffmpeg.Protocol.{waiting, over, follow_all, parse_stderr-over}
use radio_chatter.Preprocess.{FfmpegRun, ignore_interrupt, prefer, preprocess}

module _ {E : Type 0} where
  -- Ffmpeg has ended by itself without an error, or after an interrupt.
  abbrev pub EndedWell : Option (RunError E) → Type 0
  EndedWell none = Unit
  EndedWell (some (exited code e)) = code ≡ pos 255
  EndedWell (some (not_run e)) = ⊥

  ignore_interrupt-EndedWell :
      (wait : Option (RunError E)) → (ignore_interrupt wait ≡ none) ↔ EndedWell wait
  ignore_interrupt-EndedWell none = (λ h. tt, λ h. refl)
  ignore_interrupt-EndedWell (some (not_run e)) = (λ h. cc, λ h. absurd h)
  ignore_interrupt-EndedWell (some (exited (negsuc code) e)) = (λ h. cc, λ h. cc)
  ignore_interrupt-EndedWell (some (exited (pos code) e)) = (λ h. ground arith, λ h. ground arith)

  prefer-none :
      (wait : Option (RunError E)) (parsing_error : Option (ScanError E))
      → (prefer wait parsing_error ≡ none) ↔ ((wait ≡ none) × (parsing_error ≡ none))
  prefer-none none none = (λ h. (refl, refl), λ h. refl)
  prefer-none none (some e) = (λ h. cc, λ h. cc)
  prefer-none (some e) p = (λ h. cc, λ h. cc)

module _ {E : Type 0} (F : Floats) (clock : ℕ → Time) (f : FfmpegRun E) where
  abbrev scan_error : Option (ScanError E)
  scan_error = (parse_stderr F clock f.stderr f.read_error).1

  -- What `Preprocess` promises of what it returns.
  abbrev Promised : Type 0
  Promised =
      ((preprocess F clock f).error ≡ none
        ↔ ((f.pipe_error ≡ none) × (f.start_error ≡ none) × EndedWell f.wait × (scan_error ≡ none)))
      × (((preprocess F clock f).callbacks ≡ [])
          ⊎ (follow_all waiting (preprocess F clock f).callbacks ≡ some over))

  -- `Preprocess` returns no error exactly if ffmpeg could be started, it ended without an error or with
  -- the exit code 255, and its stderr was read to the end. Whatever happens, it has made no
  -- callback, or all of them in the order of `follow`, up to `Finished`.
  pub preprocess_result :
      ((preprocess F clock f).error ≡ none ↔ (
        (f.pipe_error ≡ none)
        × (f.start_error ≡ none)
        × EndedWell f.wait
        × ((parse_stderr F clock f.stderr f.read_error).1 ≡ none)))
      × (((preprocess F clock f).callbacks ≡ [])
          ⊎ (follow_all waiting (preprocess F clock f).callbacks ≡ some over))
  unfolding preprocess
  preprocess_result = by_errors f.pipe_error refl f.start_error refl
    where
      by_errors :
          (pipe : Option E)
          → f.pipe_error ≡ pipe
          → (start : Option E) → f.start_error ≡ start
          → Promised
      by_errors (some e) p start s =
          rw (p, preprocess) ((λ h. cc, λ h. absurd (none-ne-some e (sym h.0))), inl refl)
      by_errors none p (some e) s =
          rw (p, preprocess)
            (rw s (
              (λ h. cc, λ h. absurd (none-ne-some e (sym h.1))),
              inr (parse_stderr-over F clock [] f.read_error),
            ))
      by_errors none p none s =
          let (there, back) = prefer-none (ignore_interrupt f.wait) scan_error in
          let (well, ignored) = ignore_interrupt-EndedWell f.wait in
          rw (p, preprocess)
            (rw s (
              (
                λ h. let (a, b) = there h in (refl, refl, well a, b),
                λ (a, b, c, d). back (ignored c, d),
              ),
              inr (parse_stderr-over F clock f.stderr f.read_error),
            ))
