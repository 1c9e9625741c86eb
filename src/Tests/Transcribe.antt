-- ===== src/Tests/Transcribe.antt =====
-- A backlog of three transmissions, and a service that takes one at a time.
use radio_chatter.Common.{
  Bool, false, ℕ, zero, suc, ◌+◌, ◌≤◌, ◌≡◌, refl, sym, ap, ◌∙◌, List, [], ◌∷◌, map, none, some,
  arith, Bytes, codes, length, length-map, length-take, take, drop, ok, ok-injective,
}
use radio_chatter.Common.Int.{pos}
use radio_chatter.Files.{stat}
use radio_chatter.Blob.{key_string, parse_key}
use radio_chatter.Blob.Hex.{encode, decode, hex_digit, hex_value}
use radio_chatter.OnDisk.{link}
use radio_chatter.OnDisk.Fills.{Disk, on_disk}
use radio_chatter.Models.{Transmission}
use radio_chatter.Transcribe.{
  Rows, SpeechToText, Failure, transcribe_once, transcribe_urls, link_all, save_rows,
}
use radio_chatter.Transcribe.Once.{Recorded, transcribe_once-Recorded}
use radio_chatter.Transcribe.Backlog.{Counts, arrivals}
use radio_chatter.Transcribe.Loop.{
  BringsAtMost, time_passed, transcribe_loop, IsCaughtUp, transcribe_loop-IsCaughtUp,
}
use radio_chatter.Tests.Storage.{data_dir, length_hash}

-- The transmissions without a transcription, in order.
abbrev queue : Rows
queue = record {
  State = List Transmission;
  Error = Unit {0};
  untranscribed = λ limit db. ok (take limit db);
  save_all = λ models db. (drop (length models) db, ok models);
}

length-drop : (n : ℕ) (db : List Transmission) → n ≤ length db → length (drop n db) + n ≡ length db
length-drop zero db h = omega arith
length-drop (suc n) [] h = absurd (omega arith)
length-drop (suc n) (t ∷ db) h = omega (arith, length-drop n db (omega arith))

queue_counts : Counts queue 1
queue_counts = record {
  waiting = length;
  queried = λ db transmissions h. sym (ap length (ok-injective h)) ∙ length-take 1 db;
  taken_off = λ db db' transmissions models saved found same e.
      let found_length : length (take 1 db) ≡ length transmissions =
        ap length (ok-injective found) in
      let taken = length-take 1 db in
      let long : length models ≡ length transmissions =
        sym (length-map models (λ r. r.transmission_id))
        ∙ ap length same
        ∙ length-map transmissions (λ t. t.id) in
      let left : drop (length models) db ≡ db' = ap (λ r. r.0) e in
      let left_length = ap length left in
      let dropped = length-drop (length models) db (omega arith) in omega arith;
}

abbrev greeter : SpeechToText Bytes
greeter = record {
  Error = Unit {0};
  max_batch_size = 1;
  speech_to_text = λ round urls. ok (map (λ u. codes "Hello") urls);
}

-- Any blob is there.
abbrev full_disk : Disk (Unit {0})
full_disk = record { files = λ name. some (codes "audio"); faults = [] }

abbrev call : ℕ → Transmission
call id = record {
  id = id;
  created_at = 20;
  updated_at = 20;
  timestamp = pos 0;
  length = pos 5000000000;
  sha256 = key_string (length_hash (codes "audio"));
  chunk_id = 1;
  transcription = none;
}

abbrev three : List Transmission
three = call 1 ∷ call 2 ∷ call 3 ∷ []

first_round :
    transcribe_once queue (on_disk data_dir) greeter 0 full_disk three
    ≡ some (call 2 ∷ call 3 ∷ [], ok 1)
unfolding transcribe_once transcribe_urls link_all save_rows parse_key key_string encode decode
    hex_digit hex_value link stat
first_round = refl

transcribe_once-Recorded_example :
    Recorded queue (on_disk data_dir) greeter 0 full_disk three (call 2 ∷ call 3 ∷ []) 1
transcribe_once-Recorded_example =
    transcribe_once-Recorded queue (on_disk data_dir) greeter 0 full_disk three
      (call 2 ∷ call 3 ∷ []) 1 first_round

abbrev never : Failure queue (on_disk data_dir) greeter → Bool
never e = false

-- One more transmission comes before the second round of an inner loop.
abbrev meanwhile : ℕ → List Transmission → List Transmission
meanwhile zero db = db
meanwhile (suc zero) db = call 4 ∷ db
meanwhile (suc (suc round)) db = db

abbrev one_more : ℕ → ℕ
one_more zero = 0
one_more (suc zero) = 1
one_more (suc (suc round)) = 0

arrivals-later : (n round : ℕ) → arrivals one_more (suc (suc round)) n ≡ 0
arrivals-later zero round = refl
arrivals-later (suc n) round = let rest = arrivals-later n (suc round) in omega arith

arrivals-bounded : (n : ℕ) → arrivals one_more 0 n ≤ 1
arrivals-bounded zero = omega arith
arrivals-bounded (suc zero) = omega arith
arrivals-bounded (suc (suc n)) = let none_later = arrivals-later n 0 in omega arith

meanwhile-grows :
    (i : ℕ) (db : List Transmission) → length (meanwhile i db) ≤ length db + one_more i
meanwhile-grows zero db = omega arith
meanwhile-grows (suc zero) db = omega arith
meanwhile-grows (suc (suc i)) db = omega arith

meanwhile-BringsAtMost : BringsAtMost queue (on_disk data_dir) greeter queue_counts 1 meanwhile
unfolding queue_counts
meanwhile-BringsAtMost = record {
  added = one_more;
  grows = meanwhile-grows;
  bounded = arrivals-bounded;
}

transcribe_loop-IsCaughtUp_example : IsCaughtUp queue (on_disk data_dir) greeter queue_counts (
    transcribe_loop queue
      (on_disk data_dir)
      greeter
      never
      (λ db. suc (suc (length db)))
      (λ i. meanwhile)
      (λ round. full_disk)
      three
      (time_passed (λ round. full_disk) three ∷ []))
unfolding queue_counts
transcribe_loop-IsCaughtUp_example =
    transcribe_loop-IsCaughtUp queue (on_disk data_dir) greeter queue_counts never
      (λ db. suc (suc (length db))) 1 (λ i. meanwhile) (λ round. full_disk) three
      (time_passed (λ round. full_disk) three ∷ []) (omega arith) (λ i. meanwhile-BringsAtMost)
      (λ db. omega arith)
