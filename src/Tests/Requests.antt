-- ===== src/Tests/Requests.antt =====
-- Middleware, lookups and polls on small inputs.
use radio_chatter.Common.{
  ℕ, ◌≤◌, ◌≡◌, refl, ap, ltb, List, [], ◌∷◌, ◌++◌, none, some, arith, Bytes, codes, ok, err, ◌==◌,
  if◌then◌else◌,
}
use radio_chatter.Middleware.{
  SpyResponseWriter, new_spy, write_header, write, spy_calls, spy_call, response_header,
  response_write,
}
use radio_chatter.Polling.{Source}
use radio_chatter.Polling.Rounds.{Answers, PolledTwice, two_rounds}
use radio_chatter.Paging.Order.{All-member}
use radio_chatter.Tests.Since.{since, since-IsSince}
use radio_chatter.Lookup.{KeyedTable, record_not_found}

abbrev sent_page : SpyResponseWriter
sent_page = record {
  code = 404;
  bytes_written = 12;
  inner = record { status = some 404; body = 12 };
}

sent : spy_calls (write_header 404 ∷ write 5 ∷ write 7 ∷ []) new_spy ≡ some sent_page
unfolding spy_calls spy_call response_header response_write
sent = refl

-- Rows that are only the times of their creation.
abbrev times_created : ℕ → ℕ
times_created r = r

abbrev rows_since : ℕ → List ℕ → List ℕ
rows_since t [] = []
rows_since t (r ∷ rows) = if ltb r t then rows_since t rows else r ∷ rows_since t rows

abbrev times : Source ℕ
times = record {
  State = List ℕ;
  Error = Unit {0};
  created_at = times_created;
  find = λ t db. ok (rows_since t db);
}

rows_since-since : (t : ℕ) (rows : List ℕ) → rows_since t rows ≡ since times t rows
rows_since-since t [] = refl
rows_since-since t (r ∷ rows) = ground (arith, rows_since-since t rows)

times-Answers : (rows : List ℕ) → Answers times rows rows
times-Answers rows t =
    (since times t rows, ap ok (rows_since-since t rows), since-IsSince times t rows)

-- The database answers with 15 before 12.
abbrev before : List ℕ
before = 15 ∷ 5 ∷ 12 ∷ []

abbrev between : List ℕ
between = 20 ∷ 18 ∷ []

two_rounds_example : PolledTwice times 10 before between before (before ++ between)
two_rounds_example =
    two_rounds times 10 before between before (before ++ between) (times-Answers before)
      (times-Answers (before ++ between))
      (λ r m s n.
        let old = All-member (λ x. x ≤ 15) before r (omega arith) m in
        let new = All-member (λ x. 18 ≤ x) between s (omega arith) n in omega (arith, old, new))
      (λ s n. let new = All-member (λ x. 18 ≤ x) between s (omega arith) n in omega (arith, new))

-- Chunk 7 names a stream that is not there.
abbrev chunks : KeyedTable ℕ
chunks = record {
  State = Unit {0};
  Error = Unit {0};
  type_name = codes "Chunk";
  zero_row = 0;
  first = λ id db. if id == 7 then ok 3 else err record_not_found;
  find = λ id db. ok none;
}

abbrev stream_of : ℕ → ℕ
stream_of chunk = chunk

abbrev shown : ℕ → Bytes
shown stream = if stream == 0 then codes "no name" else codes "a stream"
