-- ===== src/Transcribe/Once.antt =====
-- What one round of transcription writes.
use radio_chatter.Common.{
  ℕ, suc, subst, All, ◌≡◌, refl, sym, ap, ◌∙◌, Bool-cases, inl, inr, List, [], ◌∷◌, map, Option,
  none, some, Bytes, Result, ok, err, ok-injective, ◌==◌, ==_iff, length, arith,
}
use mathlib.Core.Option.{some-injective}
use radio_chatter.Blob.{Key, KeyError, parse_key, Storage}
use radio_chatter.Models.{Transmission, Transcription}
use radio_chatter.Transcribe.{
  Rows, SpeechToText, Failure, rows_of, hour, link_one, link_all, save_rows, transcribe_urls,
  after_links, transcribe_once,
}

abbrev pub ids : List Transmission → List ℕ
ids transmissions = map (λ t. t.id) transmissions

pub rows_of-ids :
    (transmissions : List Transmission) (texts : List Bytes)
    → length texts ≡ length transmissions
    → (map (λ r. r.transmission_id) (rows_of transmissions texts) ≡ ids transmissions)
      × (map (λ r. r.content) (rows_of transmissions texts) ≡ texts)
      × (length (rows_of transmissions texts) ≡ length transmissions)
rows_of-ids [] [] h = (refl, refl, refl)
rows_of-ids [] (text ∷ texts) h = absurd (omega arith)
rows_of-ids (t ∷ transmissions) [] h = absurd (omega arith)
rows_of-ids (t ∷ transmissions) (text ∷ texts) h =
    let (a, b, c) = rows_of-ids transmissions texts (omega arith) in
    (ap (◌∷◌ t.id) a, ap (◌∷◌ text) b, ap suc c)

rows_of-new :
    (transmissions : List Transmission) (texts : List Bytes)
    → All (λ r. r.id ≡ 0) (rows_of transmissions texts)
rows_of-new [] texts = tt
rows_of-new (t ∷ transmissions) [] = tt
rows_of-new (t ∷ transmissions) (text ∷ texts) = (refl, rows_of-new transmissions texts)

module _ (D : Rows) (S : Storage) (stt : SpeechToText S.Url) where
  -- Each transmission's hash is the text of a key, and the url is the storage's link to it.
  abbrev pub Linked : S.State → List Transmission → List S.Url → Type 0
  Linked blobs [] [] = Unit
  Linked blobs (t ∷ transmissions) (url ∷ urls) =
      ((key : Key) × (parse_key t.sha256 ≡ some (ok key)) × (S.link key hour blobs ≡ ok url))
      × Linked blobs transmissions urls
  Linked blobs _ _ = ⊥

  Linked-length :
      (blobs : S.State) (transmissions : List Transmission) (urls : List S.Url)
      → Linked blobs transmissions urls
      → length urls ≡ length transmissions
  Linked-length blobs [] [] h = refl
  Linked-length blobs [] (url ∷ urls) h = absurd h
  Linked-length blobs (t ∷ transmissions) [] h = absurd h
  Linked-length blobs (t ∷ transmissions) (url ∷ urls) h =
      ap suc (Linked-length blobs transmissions urls h.1)

  link_one-Linked :
      (blobs : S.State) (t : Transmission) (transmissions : List Transmission)
      (parsed : Option (Result KeyError Key))
      (later : Option (Result (Failure D S stt) (List S.Url))) {urls : List S.Url}
      → parse_key t.sha256 ≡ parsed
      → ((us : List S.Url) → later ≡ some (ok us) → Linked blobs transmissions us)
      → link_one D S stt blobs parsed later ≡ some (ok urls)
      → Linked blobs (t ∷ transmissions) urls
  link_one-Linked blobs t transmissions none later p h e = cc
  link_one-Linked blobs t transmissions (some (err x)) later p h e = cc
  link_one-Linked blobs t transmissions (some (ok key)) later {urls} p h e =
      by_link (S.link key hour blobs) later refl refl
    where
      by_link :
          (r : Result _ S.Url) (l : Option (Result (Failure D S stt) (List S.Url)))
          → S.link key hour blobs ≡ r
          → later ≡ l
          → Linked blobs (t ∷ transmissions) urls
      by_link (err x) l f g = let bad = simp (f, link_one) at e in cc
      by_link (ok url) none f g = let bad = simp (f, g, link_one) at e in cc
      by_link (ok url) (some (err x)) f g = let bad = simp (f, g, link_one) at e in cc
      by_link (ok url) (some (ok us)) f g =
          let good = simp (f, g, link_one) at e in
          subst (Linked blobs (t ∷ transmissions)) (ok-injective (some-injective _ _ good))
            ((key, p, f), h us g)

  link_all-Linked :
      (blobs : S.State) (transmissions : List Transmission) {urls : List S.Url}
      → link_all D S stt blobs transmissions ≡ some (ok urls)
      → Linked blobs transmissions urls
  unfolding link_all
  link_all-Linked blobs [] h = subst (Linked blobs []) (ok-injective (some-injective _ _ h)) tt
  link_all-Linked blobs (t ∷ transmissions) h =
      link_one-Linked blobs t transmissions (parse_key t.sha256)
        (link_all D S stt blobs transmissions) refl (λ us e. link_all-Linked blobs transmissions e)
        h

  -- What a round writes for the transmissions that it has found: nothing for none, and otherwise what
  -- the service has said about the links to their clips, each text for its own transmission.
  pub record Said (round : ℕ) (blobs : S.State) (transmissions : List Transmission)
      (db db' : D.State) : Type 0 where
    pub urls : List S.Url
    pub linked : Linked blobs transmissions urls
    pub texts : List Bytes
    pub told : stt.speech_to_text round urls ≡ ok texts
    pub models : List Transcription
    pub one_each : map (λ r. r.transmission_id) models ≡ ids transmissions
    pub as_told : map (λ r. r.content) models ≡ texts
    pub new_rows : All (λ r. r.id ≡ 0) models
    pub saved : (rows : List Transcription) × (D.save_all models db ≡ (db', ok rows))

  abbrev pub Effect : ℕ → S.State → List Transmission → D.State → D.State → Type 0
  Effect round blobs [] db db' = db' ≡ db
  Effect round blobs (t ∷ transmissions) db db' = Said round blobs (t ∷ transmissions) db db'

  -- What a round that succeeds has done.
  pub record Recorded (round : ℕ) (blobs : S.State) (db db' : D.State) (n : ℕ) : Type 0 where
    pub transmissions : List Transmission
    pub found : D.untranscribed stt.max_batch_size db ≡ ok transmissions
    pub counted : n ≡ length transmissions
    pub effect : Effect round blobs transmissions db db'

  save_rows-ok :
      (models : List Transcription) (db db' : D.State) (n : ℕ)
      → save_rows D S stt models db ≡ (db', ok n)
      → (n ≡ length models)
        × ((saved : List Transcription) × (D.save_all models db ≡ (db', ok saved)))
  unfolding save_rows
  save_rows-ok models db db' n h = by_saved (D.save_all models db) refl
    where
      by_saved :
          (r : D.State × Result D.Error (List Transcription))
          → D.save_all models db ≡ r
          → (n ≡ length models)
            × ((saved : List Transcription) × (D.save_all models db ≡ (db', ok saved)))
      by_saved (db'', err x) e = let bad = rw e at h in cc
      by_saved (db'', ok saved) e =
          let good = rw e at h in
          let same : db'' ≡ db' = ap (λ r. r.0) good in
          (sym (ok-injective (ap (λ r. r.1) good)), (saved, e ∙ ap (λ d. (d, ok saved)) same))

  transcribe_urls-Said :
      (round : ℕ) (blobs : S.State) (transmissions : List Transmission) (urls : List S.Url)
      (db db' : D.State) (n : ℕ)
      → Linked blobs transmissions urls
      → transcribe_urls D S stt round transmissions urls db ≡ (db', ok n)
      → (n ≡ length transmissions) × Said round blobs transmissions db db'
  unfolding transcribe_urls
  transcribe_urls-Said round blobs transmissions urls db db' n linked h =
      by_texts (stt.speech_to_text round urls) refl
    where
      by_texts :
          (r : Result stt.Error (List Bytes))
          → stt.speech_to_text round urls ≡ r
          → (n ≡ length transmissions) × Said round blobs transmissions db db'
      by_texts (err x) e = let bad = rw (e, transcribe_urls) at h in cc
      by_texts (ok texts) e = elim (Bool-cases (length texts == length urls)) [
        | inr differ ↦ let bad = rw (e, transcribe_urls, differ) at h in cc
        | inl same ↦
            let long : length texts ≡ length transmissions =
              (==_iff _ _).0 same ∙ Linked-length blobs transmissions urls linked in
            let (count, saved) =
              save_rows-ok (rows_of transmissions texts) db db' n
                (rw (e, transcribe_urls, same) at h) in
            let (own, contents, size) = rows_of-ids transmissions texts long in
            (
              count ∙ size,
              record {
                urls = urls;
                linked = linked;
                texts = texts;
                told = e;
                models = rows_of transmissions texts;
                one_each = own;
                as_told = contents;
                new_rows = rows_of-new transmissions texts;
                saved = saved;
              },
            )
      ]

  after_links-Said :
      (round : ℕ) (blobs : S.State) (transmissions : List Transmission) (db db' : D.State) (n : ℕ)
      (links : Option (Result (Failure D S stt) (List S.Url)))
      → ((urls : List S.Url) → links ≡ some (ok urls) → Linked blobs transmissions urls)
      → after_links D S stt round transmissions db links ≡ some (db', ok n)
      → (n ≡ length transmissions) × Said round blobs transmissions db db'
  after_links-Said round blobs transmissions db db' n none l h = cc
  after_links-Said round blobs transmissions db db' n (some (err e)) l h = cc
  after_links-Said round blobs transmissions db db' n (some (ok urls)) l h =
      transcribe_urls-Said round blobs transmissions urls db db' n (l urls refl)
        (some-injective _ _ h)

  -- A round that succeeds with the number `n` has asked for the next transmissions, and found `n` of
  -- them. If there was one, it has made the storage's links to their clips, in order, the service has
  -- answered these with a list of texts, and exactly these texts were saved as new rows, in a single
  -- call and without an error, each as the transcription of its own transmission. If there was none,
  -- the rows are unchanged.
  pub transcribe_once-Recorded :
      (round : ℕ) (blobs : S.State) (db db' : D.State) (n : ℕ)
      → transcribe_once D S stt round blobs db ≡ some (db', ok n)
      → Recorded round blobs db db' n
  unfolding transcribe_once
  transcribe_once-Recorded round blobs db db' n h =
      by_query (D.untranscribed stt.max_batch_size db) refl
    where
      by_query :
          (q : Result D.Error (List Transmission))
          → D.untranscribed stt.max_batch_size db ≡ q
          → Recorded round blobs db db' n
      by_query (err x) e = let bad = rw (e, transcribe_once) at h in cc
      by_query (ok []) e =
          let good = some-injective _ _ (rw (e, transcribe_once) at h) in
          record {
            transmissions = [];
            found = e;
            counted = sym (ok-injective (ap (λ r. r.1) good));
            effect = sym (ap (λ r. r.0) good);
          }
      by_query (ok (t ∷ transmissions)) e =
          let (counted, said) =
            after_links-Said round blobs (t ∷ transmissions) db db' n
              (link_all D S stt blobs (t ∷ transmissions))
              (λ urls f. link_all-Linked blobs (t ∷ transmissions) f)
              (rw (e, transcribe_once) at h) in
          record { transmissions = t ∷ transmissions; found = e; counted = counted; effect = said }
