-- ===== src/Paging/Newest.antt =====
-- What a client loses if the database answers with the newest rows first.
use radio_chatter.Common.{
  ℕ, zero, suc, ◌^◌, ◌<◌, ◌≤◌, ◌≡◌, refl, sym, ap, ◌∙◌, subst, List, [], ◌∷◌, ◌++◌, map, Option,
  none, some, last?, take, length, length-take, min, ok, ltb, lt→ltb, false, inl, inr, arith,
}
use mathlib.Core.List.{Memᴰ}
use mathlib.Core.List.Memᴰ
use radio_chatter.Common.Int.{ℤ, pos}
use radio_chatter.Ids.RoundTrip.{IsName}
use radio_chatter.Paging.{Table, Paginator, page_size, walk}
use radio_chatter.Paging.Order.{beyond}
use radio_chatter.Paging.Walk.{behind, IsPage, Serves, page_served, walk-full, walk-short}

module _ {A : Type 0} where
  take-member : (n : ℕ) (xs : List A) (x : A) → Memᴰ x (take n xs) → Memᴰ x xs
  take-member zero xs x m = absurd (Memᴰ.not-nil m)
  take-member (suc n) [] x m = m
  take-member (suc n) (y ∷ xs) x m = elim (Memᴰ.cases_cons m) [
    | inl same ↦ Memᴰ.head same
    | inr later ↦ Memᴰ.tail (take-member n xs x later)
  ]

  take_short : (n : ℕ) (xs : List A) → length (take n xs) < n → take n xs ≡ xs
  take_short zero xs h = absurd (omega arith)
  take_short (suc n) [] h = refl
  take_short (suc n) (x ∷ xs) h = ap (◌∷◌ x) (take_short n xs (omega arith))

  take-take : (n : ℕ) (xs : List A) → take (suc n) (take n xs) ≡ take n xs
  take-take zero xs = refl
  take-take (suc n) [] = refl
  take-take (suc n) (x ∷ xs) = ap (◌∷◌ x) (take-take n xs)

module _ {Row : Type 0} (id_of : Row → ℕ) where
  -- The ids descend, from below `hi`.
  abbrev pub Descending : ℕ → List Row → Type 0
  Descending hi [] = Unit
  Descending hi (r ∷ rows) = (id_of r < hi) × Descending (id_of r) rows

  beyond-none :
      (hi b : ℕ) (rows : List Row) → hi ≤ b → Descending hi rows → beyond id_of b rows ≡ []
  beyond-none hi b [] le h = refl
  beyond-none hi b (r ∷ rows) le h =
      ground (arith, beyond-none (id_of r) b rows (omega (arith, h.0)) h.1, h.0)

  -- Behind the last of the first rows stand the others of these, and no more.
  last-Descending :
      (m hi : ℕ) (rows : List Row)
      → m < length rows
      → Descending hi rows
      → (x : Row) × (last? (take (suc m) rows) ≡ some x)
        × (id_of x < hi)
        × (beyond id_of (id_of x) rows ≡ take m rows)
  last-Descending m hi [] lt h = absurd (omega arith)
  last-Descending zero hi (r ∷ rows) lt h =
      (r, refl, h.0, ground (arith, beyond-none (id_of r) (id_of r) rows (omega arith) h.1))
  last-Descending (suc m) hi (r ∷ []) lt h = absurd (omega arith)
  last-Descending (suc m) hi (r ∷ s ∷ rows) lt h =
      let (x, is_last, less, same) = last-Descending m (id_of r) (s ∷ rows) (omega arith) h.1 in
      (x, is_last, omega (arith, h.0), rw (lt→ltb (id_of x) (id_of r) less) (ap (◌∷◌ r) same))

module _ {Row Generated : Type 0} (T : Table Row) (p : Paginator Row Generated) where
  -- The database answers with the first of the rows that match.
  abbrev pub TakesFirst : List Row → T.State → Type 0
  TakesFirst rows db =
      (n : ℕ) (after : Option ℕ)
      → T.find
          (record {
            limit = pos n;
            after = after;
            filter = p.filter;
            created_after = p.created_after;
          })
          db
        ≡ ok (take n (behind T p after rows))

  take-IsPage : (n : ℕ) (rows : List Row) → IsPage T p n rows (take n rows)
  take-IsPage n rows = record {
    only = take-member n rows;
    at_most = omega (arith, length-take n rows);
    at_most_once = omega (arith, length-take n rows);
    complete = λ few r m. subst (Memᴰ r) (sym (take_short n rows few)) m;
  }

  pub TakesFirst-Serves : (rows : List Row) (db : T.State) → TakesFirst rows db → Serves T p rows db
  TakesFirst-Serves rows db first n after =
      (take n (behind T p after rows), first n after, take-IsPage n (behind T p after rows))

  -- If the database answers from `rows`, whose ids descend and fit into an int64, in this order, which
  -- is an answer to a query that names no order, and the name of the type has no `#`: then a client
  -- that asks for pages of `n` rows, and follows the end cursors as long as there is a next page, gets
  -- the first page, and then the rows of this page but for the last once more. If there are more than
  -- `n` rows, it never gets the others.
  pub walk-newest_first :
      (rows : List Row) (db : T.State) (count : ℤ) (m fuel : ℕ)
      → page_size T p count ≡ pos (suc m)
      → TakesFirst rows db
      → IsName T.type_name
      → Descending T.id_of (2 ^ 63) rows
      → m < length rows
      → Serves T p rows db
        × (walk T p (suc (suc fuel)) none count db
            ≡ some (map p.map_model (take (suc m) rows ++ take m rows)))
  walk-newest_first rows db count m fuel size first name desc lt =
      let n = suc m in
      let items = take n rows in
      let (x, is_last, small, same) = last-Descending T.id_of m (2 ^ 63) rows lt desc in
      let again : take n (behind T p (some (T.id_of x)) rows) ≡ take m rows =
        ap (take n) same ∙ take-take m rows in
      let second =
        page_served T p db count n size name (some (T.id_of x)) (take m rows) small
          (first n (some (T.id_of x)) ∙ ap ok again) in
      (
        TakesFirst-Serves rows db first,
        walk-full T p db count n size name (suc fuel) none items (take m rows) x
            (page_served T p db count n size name none items (omega arith) (first n none))
            (full (length-take n rows)) is_last
            (walk-short T p db count n size name fuel _ (take m rows) second
              (lt→ltb _ _ (omega (arith, length-take m rows)))),
      )
    where
      full :
          length (take (suc m) rows) ≡ min (suc m) (length rows)
          → ltb (length (take (suc m) rows)) (suc m) ≡ false
      full h = ground (arith, h, lt)
