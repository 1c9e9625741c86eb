-- ===== src/Archiver/Clock.antt =====
-- The stream as the archiver of pkg/archive.go sees it, in whole numbers, and the order of spans.
use radio_chatter.Common.{
  ℕ, ◌+◌, ◌-◌, ◌*◌, ◌≤◌, ◌≡◌, ◌≢◌, Bool, true, false, List, [], ◌∷◌, ◌++◌, arith, ltb,
  if◌then◌else◌,
}
use radio_chatter.Common.Int.{pos, negsuc, pos_part, ◌≤ℤ◌}
use radio_chatter.Duration.{Duration}
use radio_chatter.Ffmpeg.{Callback, start_writing, silence_start, silence_end}
use radio_chatter.Archiver.Numbers.{minute, far}
use radio_chatter.Archiver.{AudioSpan, ArchiveOperation, Archiver, Moment, chunk_length, is_open}

-- Where the stream is, in whole numbers: whether a file is open, the number of its chunk, whether
-- it is silent, and the end of the last sound that has been dealt with.
pub record Clock : Type 0 where
  pub opened : Bool
  pub index : ℕ
  pub quiet : Bool
  pub since : ℕ

abbrev pub begin_clock : Clock
begin_clock = record { opened = false; index = 0; quiet = false; since = 0 }

-- A new chunk: sound that goes on has been dealt with up to the end of the old one.
abbrev pub next_chunk : Clock → Clock
next_chunk k = record {
  opened = true;
  quiet = k.quiet;
  index = k.index + 1;
  since = if k.quiet then k.since else (k.index + 1) * minute;
}

abbrev pub later_of : ℕ → ℕ → ℕ
later_of a b = if ltb a b then b else a

abbrev pub nat_of : Duration → ℕ
nat_of t = pos_part t

abbrev pub advance : Callback → Clock → Clock
advance (start_writing path) k = if k.opened then next_chunk k else record k { opened = true }
advance (silence_start t) k = record k { quiet = true; since = later_of k.since (nat_of t) }
advance (silence_end t d) k = record k { quiet = false; since = nat_of t }
advance call k = k

-- The callback comes in the chunk that it belongs to: a silence starts while there is sound, by the
-- end of the chunk; sound starts again in a silence, and inside the chunk.
abbrev pub OnTime : Clock → Callback → Type 0
OnTime k (start_writing path) = (path ≢ []) × ((k.index + 3) * minute ≤ far)
OnTime k (silence_start (pos t)) = (k.quiet ≡ false) × (t ≤ (k.index + 1) * minute)
OnTime k (silence_start (negsuc t)) = ⊥
OnTime k (silence_end (pos t) d) =
    (k.quiet ≡ true) × (k.since ≤ t) × (k.index * minute ≤ t) × (t ≤ (k.index + 1) * minute)
OnTime k (silence_end (negsuc t) d) = ⊥
OnTime k call = Unit

abbrev pub Punctual : Clock → List (Moment × Callback) → Type 0
Punctual k [] = Unit
Punctual k ((m, call) ∷ calls) = OnTime k call × Punctual (advance call k) calls

-- Spans in order, without overlap, from `lo` to `hi`.
abbrev pub Ordered : Duration → Duration → List AudioSpan → Type 0
Ordered lo hi [] = lo ≤ℤ hi
Ordered lo hi (s ∷ rest) = (lo ≤ℤ s.start) × (s.start ≤ℤ s.stop) × Ordered s.stop hi rest

pub Ordered-append :
    (lo mid hi : Duration) (xs : List AudioSpan) (s : AudioSpan)
    → Ordered lo mid xs
    → mid ≤ℤ s.start
    → s.start ≤ℤ s.stop
    → s.stop ≤ℤ hi
    → Ordered lo hi (xs ++ (s ∷ []))
Ordered-append lo mid hi [] s o a b c = omega arith
Ordered-append lo mid hi (x ∷ xs) s o a b c =
    (o.0, o.1, Ordered-append x.stop mid hi xs s o.2 a b c)

pub Ordered-le :
    (lo mid hi : Duration) (xs : List AudioSpan) → Ordered lo mid xs → mid ≤ℤ hi → Ordered lo hi xs
Ordered-le lo mid hi [] o h = omega arith
Ordered-le lo mid hi (x ∷ xs) o h = (o.0, o.1, Ordered-le x.stop mid hi xs o.2 h)

-- The archiver follows the clock.
pub record Tracks (k : Clock) (a : Archiver) : Type 0 where
  pub open_file : is_open a.current_file ≡ k.opened
  pub index : a.file_index ≡ pos k.index
  pub silent : a.in_silence ≡ k.quiet
  pub heard : k.quiet ≡ false → a.audio_started ≡ pos k.since
  pub inside : k.quiet ≡ false → k.index * minute ≤ k.since
  pub within_chunk : k.since ≤ (k.index + 1) * minute
  pub room : (k.index + 2) * minute ≤ far
  pub ordered : Ordered (pos 0) (pos (k.since - k.index * minute)) a.spans

abbrev pub InChunk : ArchiveOperation → Type 0
InChunk op = Ordered (pos 0) chunk_length op.pieces
