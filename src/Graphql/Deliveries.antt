-- ===== src/Graphql/Deliveries.antt =====
-- What a subscription delivers over any number of polls, in whatever order the database answers.
use radio_chatter.Common.{
  ℕ, ◌≡◌, refl, sym, ap, ◌∙◌, subst, inl, inr, List, [], ◌∷◌, ◌++◌, map, none, ok, append_assoc,
}
use mathlib.Core.List.{Memᴰ}
use mathlib.Core.List.Memᴰ
use radio_chatter.Polling.{last_check}
use radio_chatter.Polling.Rounds.{Answers, From, Later, last_check-From, poll_round-found}
use radio_chatter.Graphql.Subscriptions.{Poller, Tick, timer, waits, begin}

module _ {Row Generated : Type 0} (p : Poller Row Generated) where
  -- The polls: the rows that were added before each, and the database that it finds.
  abbrev pub Polls : Type 0
  Polls = List (List Row × p.source.State)

  abbrev pub added : Polls → List Row
  added [] = []
  added ((new, db) ∷ polls) = new ++ added polls

  abbrev pub ticks : Polls → List (Tick p.source.State)
  ticks [] = []
  ticks ((new, db) ∷ polls) = timer none db ∷ ticks polls

  -- The database answers each poll from the rows that are there.
  abbrev pub Served : List Row → Polls → Type 0
  Served rows [] = Unit
  Served rows ((new, db) ∷ polls) = Answers p.source (rows ++ new) db × Served (rows ++ new) polls

  -- What is added after a poll was not created before the rows that are there at the poll.
  abbrev pub InTurn : List Row → Polls → Type 0
  InTurn rows [] = Unit
  InTurn rows ((new, db) ∷ polls) =
      Later p.source (rows ++ new) (added polls) × InTurn (rows ++ new) polls

  -- What a run has sent on the channel.
  pub record Delivers (rows : List Row) (polls : Polls) (sent : List Generated) : Type 0 where
    pub everything : (r : Row) → Memᴰ r (added polls) → Memᴰ (p.map_func r) sent
    pub nothing_else :
        (node : Generated)
        → Memᴰ node sent
        → (r : Row) × Memᴰ r (rows ++ added polls) × (p.map_func r ≡ node)

  begin-found :
      (t : ℕ) (db : p.source.State) (items : List Row) (more : List (Tick p.source.State))
      → p.source.find t db ≡ ok items
      → let later = begin p (last_check p.source t items) more in
        begin p t (timer none db ∷ more) ≡ (map p.map_func items ++ later.0, later.1)
  unfolding begin
  begin-found t db items more h = rw (poll_round-found p.source t db items h, begin) refl

  -- If the database answers each poll with the rows that were created at the time asked for or later,
  -- in any order, no poll fails and nothing is cancelled, and the rows that are added were created
  -- neither before the subscription has started nor before the rows of an earlier poll: then every
  -- row that is added before a poll is delivered, nothing is delivered but rows that are there, and
  -- the subscription goes on.
  pub begin-Delivers :
      (t : ℕ) (rows : List Row) (polls : Polls)
      → Served rows polls
      → InTurn rows polls
      → From p.source t (added polls)
      → Delivers rows polls (begin p t (ticks polls)).0 × ((begin p t (ticks polls)).1 ≡ waits)
  unfolding begin
  begin-Delivers t rows [] served in_turn from = (
    record {
      everything = λ r m. absurd (Memᴰ.not-nil m);
      nothing_else = λ node m. absurd (Memᴰ.not-nil m);
    },
    refl,
  )
  begin-Delivers t rows ((new, db) ∷ polls) (answers, served) (later, in_turn) from =
      let F = p.source in
      let (items, found, since) = answers t in
      let t' = last_check F t items in
      let (rest, goes_on) = begin-Delivers t' (rows ++ new) polls served in_turn (
        last_check-From F t (rows ++ new) items (added polls) since
          (λ r m. from r (Memᴰ.append_right new m)) later) in
      let step = begin-found t db items (ticks polls) found in
      let sent : (begin p t (timer none db ∷ ticks polls)).0
          ≡ map p.map_func items ++ (begin p t' (ticks polls)).0 =
        ap (λ r. r.0) step in
      (
        subst (Delivers rows ((new, db) ∷ polls)) (sym sent) (record {
          everything = λ r m. elim (Memᴰ.append_cases new m) [
            | inl now ↦
                Memᴰ.append_left (begin p t' (ticks polls)).0
                  (Memᴰ.map p.map_func (since.each r (Memᴰ.append_right rows now) (from r m)))
            | inr afterwards ↦
                Memᴰ.append_right (map p.map_func items) (rest.everything r afterwards)
          ];
          nothing_else = λ node m. elim (Memᴰ.append_cases (map p.map_func items) m) [
            | inl now ↦
                let (r, there, same) = Memᴰ.of_map p.map_func items now in
                (
                  r,
                  subst (Memᴰ r) (append_assoc rows new (added polls))
                      (Memᴰ.append_left (added polls) (since.only r there).0),
                  same,
                )
            | inr afterwards ↦
                let (r, there, same) = rest.nothing_else node afterwards in
                (r, subst (Memᴰ r) (append_assoc rows new (added polls)) there, same)
          ];
        }),
        ap (λ r. r.1) step ∙ goes_on,
      )
