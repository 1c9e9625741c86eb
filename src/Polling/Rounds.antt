-- ===== src/Polling/Rounds.antt =====
-- What one round sends after another, in whatever order the database answers: the query of `poll`
-- names none.
use radio_chatter.Common.{
  ℕ, ◌≤◌, ◌≡◌, ◌⊎◌, refl, ◌∙◌, sym, subst, List, [], ◌∷◌, ◌++◌, none, some, last?, inl, inr, ok,
  arith,
}
use mathlib.Core.List.{Memᴰ}
use mathlib.Core.List.Memᴰ
use mathlib.Core.Option.{none-ne-some, some-injective}
use radio_chatter.Polling.{Source, polled, last_check, poll_round}

module _ {Row : Type 0} (F : Source Row) where
  -- The rows that were created at a time or later, each of them, and no others.
  pub record IsSince (t : ℕ) (rows items : List Row) : Type 0 where
    pub only : (r : Row) → Memᴰ r items → Memᴰ r rows × (t ≤ F.created_at r)
    pub each : (r : Row) → Memᴰ r rows → t ≤ F.created_at r → Memᴰ r items

  -- The database answers every poll from the rows that are there.
  abbrev pub Answers : List Row → F.State → Type 0
  Answers rows db = (t : ℕ) → (items : List Row) × (F.find t db ≡ ok items) × IsSince t rows items

  abbrev pub From : ℕ → List Row → Type 0
  From t rows = (r : Row) → Memᴰ r rows → t ≤ F.created_at r

  -- The new rows were not created before the old ones.
  abbrev pub Later : List Row → List Row → Type 0
  Later old new = (r : Row) → Memᴰ r old → From (F.created_at r) new

  -- The last check is moved to the item that was sent last, if there is one.
  last_item :
      (t : ℕ) (r : Row) (items : List Row)
      → (x : Row) × (last? (r ∷ items) ≡ some x)
        × Memᴰ x (r ∷ items)
        × (last_check F t (r ∷ items) ≡ F.created_at x)
  last_item t r [] = (r, refl, Memᴰ.head refl, refl)
  last_item t r (s ∷ items) =
      let (x, is_last, m, e) = last_item (F.created_at r) s items in (x, is_last, Memᴰ.tail m, e)

  last_check-last? :
      (t : ℕ) (items : List Row)
      → ((last? items ≡ none) × (last_check F t items ≡ t))
        ⊎ ((x : Row) × (last? items ≡ some x)
            × Memᴰ x items
            × (last_check F t items ≡ F.created_at x))
  last_check-last? t [] = inl (refl, refl)
  last_check-last? t (r ∷ items) = inr (last_item t r items)

  moved_on : (t : ℕ) (rows items : List Row) → IsSince t rows items → t ≤ last_check F t items
  moved_on t rows items since = elim (last_check-last? t items) [
    | inl (nothing, e) ↦ omega (arith, e)
    | inr (x, is_last, m, e) ↦ omega (arith, e, (since.only x m).1)
  ]

  pub last_check-From :
      (t : ℕ) (rows items later : List Row)
      → IsSince t rows items
      → From t later
      → Later rows later
      → From (last_check F t items) later
  last_check-From t rows items later since from in_turn = elim (last_check-last? t items) [
    | inl (nothing, e) ↦ subst (λ x. From x later) (sym e) from
    | inr (r, is_last, m, e) ↦ subst (λ x. From x later) (sym e) (in_turn r (since.only r m).0)
  ]

  pub poll_round-found :
      (t : ℕ) (db : F.State) (items : List Row)
      → F.find t db ≡ ok items
      → poll_round F none t db ≡ polled items (last_check F t items)
  unfolding poll_round
  poll_round-found t db items h = rw (h, poll_round) refl

  -- Two rounds, with new rows between them.
  pub record PolledTwice (t : ℕ) (rows new : List Row) (db db' : F.State) : Type 0 where
    pub first_items : List Row
    pub second_items : List Row
    pub t' : ℕ
    pub t'' : ℕ
    pub first_round : poll_round F none t db ≡ polled first_items t'
    pub second_round : poll_round F none t' db' ≡ polled second_items t''
    pub all_since : IsSince t rows first_items
    pub all_new : (r : Row) → Memᴰ r new → Memᴰ r second_items
    pub nothing_else : (r : Row) → Memᴰ r second_items → Memᴰ r new ⊎ Memᴰ r first_items
    pub last_again : (r : Row) → last? first_items ≡ some r → Memᴰ r second_items

  -- If the database answers each poll with the rows that were created at the time asked for or later,
  -- in any order, nothing is cancelled, and the rows `new` that are added between two rounds were
  -- created neither before the first check nor before the rows that were there: then the first round
  -- sends the rows since the first check; the second one sends all of `new`, and besides only rows
  -- that the first one has sent already; and if the first round has sent anything, then the second
  -- one sends the last of it again.
  pub two_rounds :
      (t : ℕ) (rows new : List Row) (db db' : F.State)
      → Answers rows db
      → Answers (rows ++ new) db'
      → Later rows new
      → From t new
      → PolledTwice t rows new db db'
  two_rounds t rows new db db' a a' in_turn from =
      let (items, found, since) = a t in
      let t' = last_check F t items in
      let (items', found', since') = a' t' in
      record {
        first_items = items;
        second_items = items';
        t' = t';
        t'' = last_check F t' items';
        first_round = poll_round-found t db items found;
        second_round = poll_round-found t' db' items' found';
        all_since = since;
        all_new = λ r m.
            since'.each r (Memᴰ.append_right rows m)
              (last_check-From t rows items new since from in_turn r m);
        nothing_else = λ r m.
            let (there, late) = since'.only r m in
            elim (Memᴰ.append_cases rows there) [
              | inl old ↦ inr (since.each r old (omega (arith, late, moved_on t rows items since)))
              | inr is_new ↦ inl is_new
            ];
        last_again = λ r h. elim (last_check-last? t items) [
          | inl (nothing, e) ↦ absurd (none-ne-some r (sym nothing ∙ h))
          | inr (x, is_last, m, e) ↦
              let same : x ≡ r = some-injective _ _ (sym is_last ∙ h) in
              subst (λ y. Memᴰ y items') same
                (since'.each x (Memᴰ.append_left new (since.only x m).0) (omega (arith, e)))
        ];
      }
