-- ===== src/Paging/Walk.antt =====
-- A client that follows the cursors of the pages, in whatever order the database answers: the query
-- of `Page` names none.
use radio_chatter.Common.{
  ℕ, zero, suc, ◌^◌, ◌<◌, ◌≤◌, ◌≡◌, refl, sym, ap, ◌∙◌, List, ◌++◌, map, Option, none, some, last?,
  length, All, Bytes, ok, ltb, true, false, Bool-cases, inl, inr, if◌then◌else◌, arith, equal_self,
  ltb→lt,
}
use mathlib.Core.List.{map-append, Memᴰ}
use mathlib.Core.List.Memᴰ
use radio_chatter.Common.Int.{ℤ, pos}
use radio_chatter.Ids.{model_id, decode_model_id}
use radio_chatter.Ids.RoundTrip.{IsName, decode_model_id-model_id}
use radio_chatter.Paging.{
  Table, Paginator, Query, query, page_size, page_info, end_cursor_of, run_query, page, prepend,
  walk,
}
use radio_chatter.Paging.Order.{
  beyond, beyond-only, beyond-each, beyond-shorter, beyond_all-shorter, last?-member, All-member,
}

module _ {Row Generated : Type 0} (T : Table Row) (p : Paginator Row Generated) where
  abbrev pub Fits : List Row → Type 0
  Fits rows = All (λ r. T.id_of r < 2 ^ 63) rows

  abbrev pub behind : Option ℕ → List Row → List Row
  behind none rows = rows
  behind (some a) rows = beyond T.id_of a rows

  -- What a query with a limit answers: some of the rows that match, as many as the limit allows, each
  -- at most once, and if there are fewer than the limit, all of them. In which order, and which
  -- of them, is open.
  pub record IsPage (n : ℕ) (matching items : List Row) : Type 0 where
    pub only : (r : Row) → Memᴰ r items → Memᴰ r matching
    pub at_most : length items ≤ n
    pub at_most_once : length items ≤ length matching
    pub complete : length items < n → (r : Row) → Memᴰ r matching → Memᴰ r items

  -- The database answers the queries of the pages from the rows that match.
  abbrev pub Serves : List Row → T.State → Type 0
  Serves rows db =
      (n : ℕ) (after : Option ℕ)
      → (items : List Row) × (T.find
            (record {
              limit = pos n;
              after = after;
              filter = p.filter;
              created_after = p.created_after;
            })
            db
          ≡ ok items)
        × IsPage n (behind after rows) items

  -- What a client gets that follows the cursors.
  pub record Gathers (n : ℕ) (rows : List Row) (got : List Row) : Type 0 where
    pub only : (r : Row) → Memᴰ r got → Memᴰ r rows
    pub complete : length rows < n → (r : Row) → Memᴰ r rows → Memᴰ r got

  abbrev pub cursor : Option ℕ → Option Bytes
  cursor none = none
  cursor (some a) = some (model_id T.type_name a)

  abbrev pub low : Option ℕ → ℕ
  low none = 0
  low (some a) = a

  behind-member :
      (after : Option ℕ) (rows : List Row) (r : Row) → Memᴰ r (behind after rows) → Memᴰ r rows
  behind-member none rows r m = m
  behind-member (some a) rows r m = (beyond-only T.id_of a rows r m).0

  -- Behind a row that is behind a cursor there is nothing that is not.
  behind-behind :
      (after : Option ℕ) (rows : List Row) (x r : Row)
      → Memᴰ x (behind after rows)
      → Memᴰ r (beyond T.id_of (T.id_of x) rows)
      → Memᴰ r (behind after rows)
  behind-behind none rows x r m m' = (beyond-only T.id_of (T.id_of x) rows r m').0
  behind-behind (some a) rows x r m m' =
      let (there, lt) = beyond-only T.id_of (T.id_of x) rows r m' in
      beyond-each T.id_of a rows r there (omega (arith, lt, (beyond-only T.id_of a rows x m).1))

  behind-shorter :
      (after : Option ℕ) (rows : List Row) (r : Row)
      → Memᴰ r (behind after rows)
      → length (beyond T.id_of (T.id_of r) rows) < length (behind after rows)
  behind-shorter none rows r m = beyond_all-shorter T.id_of rows r m
  behind-shorter (some a) rows r m =
      let (there, lt) = beyond-only T.id_of a rows r m in beyond-shorter T.id_of a rows r there lt

  module _ (db : T.State) (count : ℤ) (n : ℕ) (size : page_size T p count ≡ pos n)
      (name : IsName T.type_name) where
    run_query_found :
        (after : Option ℕ) (items : List Row)
        → T.find (query T p count after) db ≡ ok items
        → run_query T p count after db
          ≡ ok (map p.map_model items, page_info T p (page_size T p count) items)
    run_query_found after items e = rw (e, run_query) refl

    page-none : page T p none count db ≡ run_query T p count none db
    unfolding page
    page-none = refl

    page_decoded :
        (text : Bytes) (id : ℕ)
        → decode_model_id T.type_name text ≡ ok id
        → page T p (some text) count db ≡ run_query T p count (some id) db
    unfolding page
    page_decoded text id e = rw (e, page) refl

    pub page_served :
        (after : Option ℕ) (items : List Row)
        → low after < 2 ^ 63
        → T.find
            (record {
              limit = pos n;
              after = after;
              filter = p.filter;
              created_after = p.created_after;
            })
            db
          ≡ ok items
        → page T p (cursor after) count db ≡ ok (map p.map_model items, page_info T p (pos n) items)
    page_served after items h found =
        decoded after h
        ∙ run_query_found after items (ap (λ z. T.find (asked z after) db) size ∙ found)
        ∙ ap (λ z. ok (map p.map_model items, page_info T p z items)) size
      where
        asked : ℤ → Option ℕ → Query Row
        asked z after = record {
          limit = z;
          after = after;
          filter = p.filter;
          created_after = p.created_after;
        }

        decoded :
            (after : Option ℕ)
            → low after < 2 ^ 63
            → page T p (cursor after) count db ≡ run_query T p count after db
        decoded none h = page-none
        decoded (some a) h = page_decoded (model_id T.type_name a) a (
            decode_model_id-model_id T.type_name T.type_name a name h
            ∙ rw (equal_self T.type_name) refl)

    next_short :
        (items : List Row)
        → ltb (length items) n ≡ true
        → (page_info T p (pos n) items).has_next_page ≡ false
    next_short items h = ground arith

    next_full :
        (items : List Row)
        → ltb (length items) n ≡ false
        → (page_info T p (pos n) items).has_next_page ≡ true
    next_full items h = ground arith

    -- What the walk does with a page.
    pub walk-page :
        (fuel : ℕ) (text : Option Bytes) (items : List Row)
        → page T p text count db ≡ ok (map p.map_model items, page_info T p (pos n) items)
        → walk T p (suc fuel) text count db ≡ (
            if ltb (length items) n
            then some (map p.map_model items)
            else prepend T p
                (map p.map_model items)
                (walk T p fuel (end_cursor_of T p items) count db))
    unfolding walk
    walk-page fuel text items e =
        let more = walk T p fuel (end_cursor_of T p items) count db in
        rw (e, walk)
          (elim (Bool-cases (ltb (length items) n)) [
            | inl short ↦
                ap
                  (λ b.
                    if b
                    then prepend T p (map p.map_model items) more
                    else some (map p.map_model items))
                  (next_short items short)
                ∙ rw short refl
            | inr full ↦
                ap
                  (λ b.
                    if b
                    then prepend T p (map p.map_model items) more
                    else some (map p.map_model items))
                  (next_full items full)
                ∙ rw full refl
          ])

    pub end_cursor_of-last? :
        (items : List Row) (x : Row)
        → last? items ≡ some x
        → end_cursor_of T p items ≡ cursor (some (T.id_of x))
    end_cursor_of-last? items x e = rw (e, end_cursor_of) refl

    -- A full page, and what the client gets behind it.
    pub walk-full :
        (fuel : ℕ) (text : Option Bytes) (items got : List Row) (x : Row)
        → page T p text count db ≡ ok (map p.map_model items, page_info T p (pos n) items)
        → ltb (length items) n ≡ false
        → last? items ≡ some x
        → walk T p fuel (cursor (some (T.id_of x))) count db ≡ some (map p.map_model got)
        → walk T p (suc fuel) text count db ≡ some (map p.map_model (items ++ got))
    walk-full fuel text items got x found full is_last later =
        walk-page fuel text items found
        ∙ rw full (
            ap (λ c. prepend T p (map p.map_model items) (walk T p fuel c count db))
              (end_cursor_of-last? items x is_last)
            ∙ ap (prepend T p (map p.map_model items)) later
            ∙ ap some (sym (map-append p.map_model items got)))

    Gathers-more :
        (after : Option ℕ) (rows items got : List Row) (x : Row)
        → IsPage n (behind after rows) items
        → n ≤ length items
        → Memᴰ x items
        → Gathers n (beyond T.id_of (T.id_of x) rows) got
        → Gathers n (behind after rows) (items ++ got)
    Gathers-more after rows items got x is_page many m gathers = record {
      only = λ r m'. elim (Memᴰ.append_cases items m') [
        | inl now ↦ is_page.only r now
        | inr afterwards ↦
            behind-behind after rows x r (is_page.only x m) (gathers.only r afterwards)
      ];
      complete = λ few. absurd (omega (arith, is_page.at_most_once));
    }

    pub walk-short :
        (fuel : ℕ) (text : Option Bytes) (items : List Row)
        → page T p text count db ≡ ok (map p.map_model items, page_info T p (pos n) items)
        → ltb (length items) n ≡ true
        → walk T p (suc fuel) text count db ≡ some (map p.map_model items)
    walk-short fuel text items found short = walk-page fuel text items found ∙ rw short refl

    walk-behind :
        (rows : List Row) (fuel : ℕ) (after : Option ℕ)
        → 0 < n
        → Serves rows db
        → Fits rows
        → low after < 2 ^ 63
        → length (behind after rows) < fuel
        → (got : List Row) × (walk T p fuel (cursor after) count db ≡ some (map p.map_model got))
          × Gathers n (behind after rows) got
    walk-behind rows zero after positive serves fits h lt = absurd (omega arith)
    walk-behind rows (suc fuel) after positive serves fits h lt =
        let (items, found, is_page) = serves n after in
        let answered = page_served after items h found in
        elim (Bool-cases (ltb (length items) n)) [
          | inl short ↦ (
            items,
            walk-short fuel (cursor after) items answered short,
            record { only = is_page.only; complete = λ few. is_page.complete (ltb→lt _ _ short) },
          )
          | inr full ↦
              let many : n ≤ length items = ground arith in
              let (x, is_last, m) = last?-member items (omega arith) in
              let there = is_page.only x m in
              let fit =
                All-member (λ r. T.id_of r < 2 ^ 63) rows x fits
                  (behind-member after rows x there) in
              let shorter = behind-shorter after rows x there in
              let (got, later, gathers) =
                walk-behind rows fuel (some (T.id_of x)) positive serves fits fit (omega arith) in
              (
                items ++ got,
                walk-full fuel (cursor after) items got x answered full is_last later,
                Gathers-more after rows items got x is_page many m gathers,
              )
        ]

  -- If the database answers every page from `rows`, in any order and with any of the rows that match,
  -- whose ids fit into an int64, and the name of the type has no `#`, then a client that asks for
  -- pages of at least one row, and follows the end cursors as long as there is a next page, comes to
  -- an end, with at most one page more than there are rows, and without an error. It gets nothing but
  -- rows that are there, and if they all fit on a page with room to spare, it gets every one.
  pub walk-Gathers :
      (rows : List Row) (db : T.State) (count : ℤ) (n : ℕ)
      → page_size T p count ≡ pos n
      → 0 < n
      → Serves rows db
      → IsName T.type_name
      → Fits rows
      → (got : List Row) × (walk T p (suc (length rows)) none count db ≡ some (map p.map_model got))
        × Gathers n rows got
  walk-Gathers rows db count n size positive serves name fits =
      walk-behind db count n size name rows (suc (length rows)) none positive serves fits
        (omega arith) (omega arith)
