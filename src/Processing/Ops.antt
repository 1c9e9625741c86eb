-- ===== src/Processing/Ops.antt =====
-- What the loop over the operations leaves of the chunk files.
use radio_chatter.Common.{
  ℕ, suc, ◌≡◌, refl, ap, ◌∙◌, Bool-cases, inl, inr, true, false, List, [], ◌∷◌, none, Bytes, All,
  equal, equal-eq, equal_self, Result, ok, err, subst, sym,
}
use radio_chatter.Duration.{Duration}
use radio_chatter.Archiver.{ArchiveOperation}
use radio_chatter.Blob.{Storage, IsStorage}
use radio_chatter.Models.{Stream, Database, FillsIn}
use radio_chatter.Split.{World}
use radio_chatter.Execute.{Outside, ExecuteError, execute}
use radio_chatter.Execute.Archives.{Archives, execute-Archives}
use radio_chatter.Processing.{Event, operation, then_closed, Returned, returned, archive}

module _ (S : Storage) (D : Database) (I : IsStorage S) (fills_in : FillsIn D) {E : Type 0}
    (seconds : Duration → Bytes) (stream : Stream) where
  -- A file that is not there is not there after an operation.
  pub stays_gone :
      (op : ArchiveOperation) (w : World S D)
      (r : World S D × Result (ExecuteError E S.Error D.Error) (Unit {0}))
      → Archives S D I fills_in seconds stream op w r
      → r.1 ≡ ok tt
      → (name : Bytes) → w.files name ≡ none
      → r.0.files name ≡ none
  stays_gone op w r a h name n = elim (Bool-cases (equal name op.path)) [
    | inl same ↦ ap r.0.files (equal-eq name op.path same) ∙ (a.archived h).2
    | inr differ ↦ a.others name (λ e. apart e differ) ∙ n
  ]
    where
      apart : name ≡ op.path → equal name op.path ≡ false → ⊥
      apart e d = let bad : true ≡ false = sym (equal_self name) ∙ ap (equal name) e ∙ d in cc

  -- What the loop leaves behind, if it returns without an error.
  abbrev Leaves :
      List ArchiveOperation
      → World S D
      → World S D × Returned (ExecuteError E S.Error D.Error)
      → Type 0
  Leaves ops w r =
      r.1 ≡ returned (ok tt)
      → All (λ op. r.0.files op.path ≡ none) ops
        × ((name : Bytes) → w.files name ≡ none → r.0.files name ≡ none)
        × (r.0.commands ≡ w.commands)

  pub archive_failed :
      (out : ℕ → Outside E) (i : ℕ) (op : ArchiveOperation) (events : List Event) (w : World S D)
      (e : ExecuteError E S.Error D.Error)
      → (execute S D seconds stream (out i) op w).1 ≡ err e
      → (archive S D seconds stream out i (operation op ∷ events) w).1 ≡ returned (err e)
  unfolding archive
  archive_failed out i op events w e h = rw (h, archive) refl

  pub archive_next :
      (out : ℕ → Outside E) (i : ℕ) (op : ArchiveOperation) (events : List Event) (w : World S D)
      → (execute S D seconds stream (out i) op w).1 ≡ ok tt
      → archive S D seconds stream out i (operation op ∷ events) w
        ≡ archive S D seconds stream out (suc i) events (execute S D seconds stream (out i) op w).0
  unfolding archive
  archive_next out i op events w h = rw (h, archive) refl

  archive_end :
      (out : ℕ → Outside E) (i : ℕ) (w : World S D)
      → Leaves [] w (archive S D seconds stream out i (then_closed []) w)
  unfolding archive
  archive_end out i w h = (tt, λ name n. n, refl)

  archive-Leaves :
      (out : ℕ → Outside E) (i : ℕ) (ops : List ArchiveOperation) (w : World S D)
      → I.Good w.blobs
      → Leaves ops w (archive S D seconds stream out i (then_closed ops) w)
  archive-Leaves out i [] w g = archive_end out i w
  archive-Leaves out i (op ∷ ops) w g =
      let now = execute S D seconds stream (out i) op w in
      let a = execute-Archives S D I fills_in seconds stream (out i) op w g in
      by_result now.1 refl (archive-Leaves out (suc i) ops now.0 a.good)
    where
      by_result :
          (r : Result (ExecuteError E S.Error D.Error) (Unit {0}))
          → (execute S D seconds stream (out i) op w).1 ≡ r
          → Leaves ops (execute S D seconds stream (out i) op w).0 (
              archive S D seconds stream out
                (suc i)
                (then_closed ops)
                (execute S D seconds stream (out i) op w).0)
          → Leaves (op ∷ ops) w (archive S D seconds stream out i (then_closed (op ∷ ops)) w)
      by_result (err e) t later =
          λ h. let bad = sym (archive_failed out i op (then_closed ops) w e t) ∙ h in cc
      by_result (ok done) t later =
          subst (Leaves (op ∷ ops) w) (sym (archive_next out i op (then_closed ops) w t)) (λ h.
            let a = execute-Archives S D I fills_in seconds stream (out i) op w g in
            let (gone, keeps, commands) = later h in
            (
              (keeps op.path (a.archived t).2, gone),
              λ name n.
                  keeps name (stays_gone op w (execute S D seconds stream (out i) op w) a t name n),
              commands ∙ a.no_commands,
            ))

  -- If the storage keeps its promises and `Save` only fills in the primary key and the times: when the loop
  -- has executed every operation of a closed channel and returned no error, then the chunk file
  -- of each operation is gone, no other file has been made, and ffmpeg was not run to split
  -- any.
  pub archive-deletes :
      (out : ℕ → Outside E) (i : ℕ) (ops : List ArchiveOperation) (w : World S D)
      → I.Good w.blobs
      → let r = archive S D seconds stream out i (then_closed ops) w in
        r.1 ≡ returned (ok tt)
        → All (λ op. r.0.files op.path ≡ none) ops
          × ((name : Bytes) → w.files name ≡ none → r.0.files name ≡ none)
          × (r.0.commands ≡ w.commands)
  archive-deletes out i ops w g h = archive-Leaves out i ops w g h
