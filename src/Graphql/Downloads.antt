-- ===== src/Graphql/Downloads.antt =====
-- From an archived chunk file to the link that a client downloads it from.
use radio_chatter.Common.{◌≡◌, ◌≢◌, refl, sym, ap, ◌∙◌, subst, Option, some, Bytes, Result, ok, err}
use radio_chatter.Common.Int.{pos}
use mathlib.Core.Option.{some-injective}
use radio_chatter.Duration.{Duration}
use radio_chatter.Archiver.{ArchiveOperation}
use radio_chatter.Blob.{Key, IsKey, not_found, other, key_string, parse_key, Storage, IsStorage}
use radio_chatter.Blob.Keys.{parse_key-key_string}
use radio_chatter.Models.{Stream, Chunk, Database, FillsIn}
use radio_chatter.Lookup.{UrlError, no_link, link_key, signed_url}
use radio_chatter.Split.{World}
use radio_chatter.Execute.{Outside, chunk_row, execute}
use radio_chatter.Execute.Archives.{execute-Archives}
use radio_chatter.Graphql.Nodes.{chunk_to_graphql}
use radio_chatter.Graphql.Resolvers.{chunk_download_url}

module _ (S : Storage) where
  -- What a client gets for a blob that the storage holds: the storage's own link to it, or the error
  -- that making the link has failed with.
  pub record IsLinkTo (key : Key) (blobs : S.State)
      (answer : Option (Result (UrlError S.Error) (Option S.Url))) : Type 0 where
    pub found : S.link key (pos 3600000000000) blobs ≢ err not_found
    pub linked :
        (url : S.Url)
        → S.link key (pos 3600000000000) blobs ≡ ok url
        → answer ≡ some (ok (some url))
    pub failed :
        (e : S.Error)
        → S.link key (pos 3600000000000) blobs ≡ err (other e)
        → answer ≡ some (err (no_link e))

  signed_url-parsed :
      (text : Bytes) (key : Key) (blobs : S.State)
      → parse_key text ≡ some (ok key)
      → signed_url S text blobs ≡ some (link_key S (ok key) blobs)
  unfolding signed_url
  signed_url-parsed text key blobs h = rw (h, signed_url) refl

module _ (S : Storage) (D : Database) (I : IsStorage S) (fills_in : FillsIn D) {E : Type 0}
    (seconds : Duration → Bytes) (stream : Stream) where
  -- If the storage keeps its promises and `Save` only fills in the primary key and the times: when an
  -- operation has been executed with success, the resolver of the download link, for the chunk that
  -- was saved, asks the storage for the blob of the chunk file's content, which is there, and answers
  -- with the link that it gets, or with the error if making the link has failed.
  pub execute-chunk_download_url :
      (out : Outside E) (op : ArchiveOperation) (w : World S D) (content : Bytes) (c : Chunk)
      → I.Good w.blobs
      → w.files op.path ≡ some content
      → (D.save_chunk (chunk_row stream op (I.hash content)) w.rows).1 ≡ ok c
      → (execute S D seconds stream out op w).1 ≡ ok tt
      → let after = (execute S D seconds stream out op w).0 in
        IsLinkTo S
          (I.hash content)
          after.blobs
          (chunk_download_url S (chunk_to_graphql c) after.blobs)
  execute-chunk_download_url out op w content c g there saved done =
      let a = execute-Archives S D I fills_in seconds stream out op w g in
      let (content', was, gone, is_key', held', rows) = a.archived done in
      let same : content' ≡ content = some-injective _ _ (sym was ∙ there) in
      let after = (execute S D seconds stream out op w).0 in
      let is_key = subst (λ x. IsKey (I.hash x)) same is_key' in
      let held = subst (λ x. I.Holds after.blobs (I.hash x)) same held' in
      let text : c.sha256 ≡ key_string (I.hash content) =
        ap (λ x. x.sha256) (fills_in (chunk_row stream op (I.hash content)) c w.rows saved) in
      let answer : chunk_download_url S (chunk_to_graphql c) after.blobs
          ≡ some (link_key S (ok (I.hash content)) after.blobs) =
        signed_url-parsed S c.sha256 (I.hash content) after.blobs
          (ap parse_key text ∙ parse_key-key_string (I.hash content) is_key) in
      record {
        found = I.link_found (I.hash content) (pos 3600000000000) after.blobs a.good held;
        linked = λ url h. answer ∙ rw (h, link_key) refl;
        failed = λ e h. answer ∙ rw (h, link_key) refl;
      }
