-- ===== src/Tests/Paging.antt =====
-- Identifiers of rows, and walks with pages of two.
use radio_chatter.Common.{
  ℕ, ◌≡◌, refl, List, [], ◌∷◌, map, Option, none, some, take, arith, codes, ok,
}
use radio_chatter.Common.Int.{pos, pos_part}
use radio_chatter.Base64.{encode64, symbol, decode64}
use radio_chatter.Base64.RoundTrip.{decode64-encode64}
use radio_chatter.Ids.{model_id}
use radio_chatter.Ids.Decimal.{put_digits}
use radio_chatter.Paging.{Table, Paginator, walk}
use radio_chatter.Paging.Order.{beyond}
use radio_chatter.Paging.Walk.{Serves, Gathers, walk-Gathers}
use radio_chatter.Paging.Newest.{TakesFirst, TakesFirst-Serves, walk-newest_first}

stream_id : model_id (codes "Stream") 42 ≡ codes "U3RyZWFtIzQy"
unfolding model_id encode64 symbol put_digits
stream_id = refl

decode64-encode64_example : decode64 (encode64 (codes "Stream#42")) ≡ some (codes "Stream#42")
decode64-encode64_example = decode64-encode64 (codes "Stream#42") (omega arith)

-- Rows that are only their ids.
abbrev rows_behind : Option ℕ → List ℕ → List ℕ
rows_behind none db = db
rows_behind (some a) db = beyond (λ r. r) a db

abbrev id_table : Table ℕ
id_table = record {
  State = List ℕ;
  Error = Unit {0};
  type_name = codes "Stream";
  id_of = λ r. r;
  find = λ q db. ok (take (pos_part q.limit) (rows_behind q.after db));
}

abbrev by_two : Paginator ℕ ℕ
by_two = record { map_model = λ r. r; filter = none; created_after = none; limit = pos 2 }

-- It answers with the first of the rows that match, in the order that they stand in.
id_table-TakesFirst : (db : List ℕ) → TakesFirst id_table by_two db db
id_table-TakesFirst db n none = refl
id_table-TakesFirst db n (some a) = refl

abbrev unsorted : List ℕ
unsorted = 4 ∷ 9 ∷ 2 ∷ 5 ∷ []

walk-Gathers_example :
    (got : List ℕ) × (walk id_table by_two 5 none (pos 10) unsorted ≡ some (map (λ r. r) got))
    × Gathers id_table by_two 2 unsorted got
walk-Gathers_example =
    walk-Gathers id_table by_two unsorted unsorted (pos 10) 2 refl (omega arith)
      (TakesFirst-Serves id_table by_two unsorted unsorted (id_table-TakesFirst unsorted))
      (ground arith) (omega arith)

-- Row 9 comes first, and rows 4 and 1 never.
walk-newest_first_example :
    Serves id_table by_two (9 ∷ 7 ∷ 4 ∷ 1 ∷ []) (9 ∷ 7 ∷ 4 ∷ 1 ∷ [])
    × (walk id_table by_two 5 none (pos 10) (9 ∷ 7 ∷ 4 ∷ 1 ∷ []) ≡ some (9 ∷ 7 ∷ 9 ∷ []))
walk-newest_first_example =
    walk-newest_first id_table by_two (9 ∷ 7 ∷ 4 ∷ 1 ∷ []) (9 ∷ 7 ∷ 4 ∷ 1 ∷ []) (pos 10) 1 3 refl
      (id_table-TakesFirst (9 ∷ 7 ∷ 4 ∷ 1 ∷ [])) (ground arith) (omega arith) (omega arith)
