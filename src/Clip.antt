-- ===== src/Clip.antt =====
-- pkg/archive.go: the part of a chunk that `splitAudio` cuts out for a piece of sound.
use radio_chatter.Common.{
  ℕ, ◌+◌, ◌-◌, ◌%◌, ◌^◌, ◌<◌, ◌≤◌, ◌≡◌, ltb, if◌then◌else◌, arith, List, [], ◌∷◌, Bytes, codes,
}
use radio_chatter.Common.{dec_lt}
use radio_chatter.Common.Int.{pos, negsuc, ltb_ℤ}
use radio_chatter.Duration.{Duration, add64, sub64}
use radio_chatter.Archiver.{AudioSpan, span_duration}

-- `time.Millisecond`, `buffer`, and the largest and smallest int64.
abbrev pub millisecond : Duration
millisecond = pos 1000000

abbrev pub buffer : Duration
buffer = pos 100000000

abbrev pub max_duration : Duration
max_duration = pos (2 ^ 63 - 1)

abbrev pub min_duration : Duration
min_duration = negsuc (2 ^ 63 - 1)

-- `d % time.Millisecond`, without its sign.
abbrev pub rest_of : Duration → ℕ
rest_of (pos n) = n % 1000000
rest_of (negsuc n) = (n + 1) % 1000000

-- `Duration.Round(time.Millisecond)`: halves go away from zero, and overflow to the limits.
unfoldable pub round_ms : Duration → Duration
round_ms (pos n) =
    let r = n % 1000000 in
    let up = sub64 (add64 (pos n) millisecond) (pos r) in
    if ltb (r + r) 1000000
    then sub64 (pos n) (pos r)
    else if ltb_ℤ (pos n) up
    then up
    else max_duration
round_ms (negsuc n) =
    let r = (n + 1) % 1000000 in
    let down = add64 (sub64 (negsuc n) millisecond) (pos r) in
    if ltb (r + r) 1000000
    then add64 (negsuc n) (pos r)
    else if ltb_ℤ down (negsuc n)
    then down
    else min_duration

-- `segmentStart` and `duration`
unfoldable pub clip_window : AudioSpan → Duration × Duration
clip_window span =
    if ltb_ℤ buffer span.start
    then (round_ms (sub64 span.start buffer), round_ms (add64 (span_duration span) (pos 200000000)))
    else (round_ms span.start, round_ms (span_duration span))

-- The arguments of ffmpeg. `seconds` is `fmt.Sprint(d.Seconds())`.
abbrev pub clip_args : (Duration → Bytes) → Bytes → AudioSpan → Bytes → List Bytes
clip_args seconds path span tmp =
    codes "-i"
    ∷ path
    ∷ codes "-ss"
    ∷ seconds (clip_window span).0
    ∷ codes "-t"
    ∷ seconds (clip_window span).1
    ∷ codes "-acodec"
    ∷ codes "copy"
    ∷ codes "-hide_banner"
    ∷ codes "-nostdin"
    ∷ codes "-nostats"
    ∷ tmp
    ∷ []

-- Rounding moves a time by at most half a millisecond.
round_ms-near :
    (n : ℕ)
    → n ≤ 2 ^ 62
    → (m : ℕ) × (round_ms (pos n) ≡ pos m) × (m ≤ n + 500000) × (n ≤ m + 500000)
unfolding round_ms add64 sub64
round_ms-near n h = elim (dec_lt (n % 1000000 + n % 1000000) 1000000) [
  | yes lt ↦ (n - n % 1000000, ground arith, omega arith, omega arith)
  | no ge ↦ (n + 1000000 - n % 1000000, ground arith, omega arith, omega arith)
]

-- What a clip holds of the piece from `a` to `b`, with its margins.
abbrev pub Clips : ℕ → ℕ → ℕ → ℕ → Type 0
Clips a b start length =
    (start ≤ a + 500000)
    × (b ≤ start + length + 1000000)
    × (100000000 < a → (start + 99500000 ≤ a) × (b + 99000000 ≤ start + length))

-- For a piece of sound that ends before 2^61 ns and not before it starts: the clip starts at
-- most 0.5 ms after the start of the piece, and ends at most 1 ms before its end. If the piece
-- starts more than 100 ms after the start of the chunk, the clip has at least 99 ms to spare at
-- both ends.
pub clip_window-Clips :
    (a b : ℕ)
    → a ≤ b
    → b ≤ 2 ^ 61
    → (start length : ℕ) × (clip_window (record { start = pos a; stop = pos b })
        ≡ (pos start, pos length))
      × Clips a b start length
unfolding clip_window sub64 add64
clip_window-Clips a b le far = elim (dec_lt 100000000 a) [
  | yes lt ↦
      let (s, es, s1, s2) = round_ms-near (a - 100000000) (omega arith) in
      let (l, el, l1, l2) = round_ms-near (b - a + 200000000) (omega arith) in
      (s, l, ground arith, (omega arith, omega arith, λ h. (omega arith, omega arith)))
  | no ge ↦
      let (s, es, s1, s2) = round_ms-near a (omega arith) in
      let (l, el, l1, l2) = round_ms-near (b - a) (omega arith) in
      (s, l, ground arith, (omega arith, omega arith, λ h. absurd (ge h)))
]
