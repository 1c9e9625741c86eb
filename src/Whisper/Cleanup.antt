-- ===== src/Whisper/Cleanup.antt =====
-- Which temporary files stay behind.
use radio_chatter.Common.{
  ℕ, suc, sym, length, ◌∷◌, ok-injective, ◌<◌, ◌≤◌, ◌≡◌, refl, ap, ◌∙◌, true, Bool-cases, inl, inr,
  List, [], Option, none, some, Bytes, equal_self, ltb, leb, ◌||◌, take, Result, ok, err, arith,
}
use radio_chatter.Files.{Files, write_file-same}
use radio_chatter.Whisper.{
  Url, remote_url, Fetched, Network, DownloadError, Opened, copy_body, fetch, download, Run,
  WhisperError, run_whisper, transcribe, add_text, speech_to_text,
}

module _ {E : Type 0} where
  -- What a download has left under the name of its temporary file.
  abbrev pub Downloads : Network E → Bytes → Files × Result (DownloadError E) Opened → Type 0
  Downloads n tmp (files, err e) = (content : Bytes) × (files tmp ≡ some content)
  Downloads n tmp (files, ok f) =
      (r : Fetched E) × (n.get ≡ ok r)
      × (f ≡ record { name = tmp; temporary = true })
      × (files tmp ≡ some r.body)
      × (200 ≤ r.status)
      × (r.status < 400)

  copy_body-Downloads :
      (n : Network E) (tmp : Bytes) (r : Fetched E) (files : Files)
      → n.get ≡ ok r
      → 200 ≤ r.status
      → r.status < 400
      → Downloads n tmp (copy_body n tmp r files)
  unfolding copy_body
  copy_body-Downloads n tmp r files g lo hi = by_copy r.copy_error refl n.sync_error refl
    where
      by_copy :
          (c : Option (ℕ × E))
          → r.copy_error ≡ c
          → (s : Option E) → n.sync_error ≡ s
          → Downloads n tmp (copy_body n tmp r files)
      by_copy (some (count, e)) c s h =
          simp (c, copy_body) (take count r.body, write_file-same tmp (take count r.body) files)
      by_copy none c (some e) h = simp (c, h, copy_body) (r.body, write_file-same tmp r.body files)
      by_copy none c none h =
          simp (c, h, copy_body) (r, g, refl, write_file-same tmp r.body files, lo, hi)

  fetch-Downloads :
      (n : Network E) (tmp : Bytes) (files : Files) → Downloads n tmp (fetch n tmp files)
  unfolding fetch
  fetch-Downloads n tmp files = by_get n.get refl
    where
      by_get : (g : Result E (Fetched E)) → n.get ≡ g → Downloads n tmp (fetch n tmp files)
      by_get (err e) g = simp (g, fetch) ([], write_file-same tmp [] files)
      by_get (ok r) g = elim (Bool-cases (ltb r.status 200 || leb 400 r.status)) [
        | inl bad ↦ simp (g, fetch, bad) ([], write_file-same tmp [] files)
        | inr good ↦
            simp (g, fetch, good)
              (copy_body-Downloads n tmp r files g (ground arith) (ground arith))
      ]

  -- A download from the network succeeds only with a status from 200 to 399, and has then written the
  -- whole body into the temporary file. If it fails after this file was made, the file stays behind.
  pub download-Downloads :
      (n : Network E) (address tmp : Bytes) (files : Files)
      → n.create_temp ≡ ok tmp
      → Downloads n tmp (download n (remote_url address) files)
  unfolding download
  download-Downloads n address tmp files c = simp (c, download) (fetch-Downloads n tmp files)

  -- However the run of whisper behind a download ends, the downloaded file is gone at the end,
  -- if it can be removed.
  pub run_whisper-cleans :
      (n : Network E) (r : Run E) (f : Opened) (files : Files)
      → f.temporary ≡ true
      → r.remove_error ≡ none
      → (run_whisper n r f files).0 f.name ≡ none
  unfolding run_whisper
  run_whisper-cleans n r f files t e = by_temp r.make_temp refl
    where
      by_temp : (m : Result E Bytes) → r.make_temp ≡ m → (run_whisper n r f files).0 f.name ≡ none
      by_temp (err x) m = simp (m, t, e, run_whisper, equal_self f.name) refl
      by_temp (ok dir) m = simp (m, t, e, run_whisper, equal_self f.name) refl

  add_text-length :
      (text : Bytes) (r : Files × Result (WhisperError E) (List Bytes)) (n : ℕ) (files : Files)
      (texts : List Bytes)
      → ((later : List Bytes) → r.1 ≡ ok later → length later ≡ n)
      → add_text text r ≡ (files, ok texts)
      → length texts ≡ suc n
  add_text-length text (files', ok later) n files texts h e =
      sym (ap length (ok-injective (ap (λ p. p.1) e))) ∙ ap suc (h later refl)
  add_text-length text (files', err x) n files texts h e = let bad = ap (λ p. p.1) e in cc

  -- If the whisper transcriber succeeds, it returns one text for each url.
  pub speech_to_text-length :
      (job : ℕ → Network E × Run E) (i : ℕ) (urls : List Url) (files : Files) (texts : List Bytes)
      → (speech_to_text job i urls files).1 ≡ ok texts
      → length texts ≡ length urls
  unfolding speech_to_text
  speech_to_text-length job i [] files texts h = sym (ap length (ok-injective h))
  speech_to_text-length job i (url ∷ urls) files texts h =
      by_text (transcribe (job i).0 (job i).1 url files).1 refl (λ later e.
        speech_to_text-length job (suc i) urls (transcribe (job i).0 (job i).1 url files).0 later e)
    where
      by_text :
          (r : Result (WhisperError E) Bytes)
          → (transcribe (job i).0 (job i).1 url files).1 ≡ r
          → ((later : List Bytes)
              → (speech_to_text job (suc i) urls (transcribe (job i).0 (job i).1 url files).0).1
                ≡ ok later
              → length later ≡ length urls)
          → length texts ≡ suc (length urls)
      by_text (err e) t later = let bad = rw (t, speech_to_text) at h in cc
      by_text (ok text) t later =
          let rest = speech_to_text job (suc i) urls (transcribe (job i).0 (job i).1 url files).0 in
          let good = rw (t, speech_to_text) at h in
          add_text-length text rest (length urls) (add_text text rest).0 texts later
            (ap (λ r. ((add_text text rest).0, r)) good)
