-- ===== src/Archiver/Numbers.antt =====
-- The arithmetic of chunk offsets, where no int64 overflows.
use radio_chatter.Common.{ltb, ℕ, ◌+◌, ◌-◌, ◌*◌, ◌^◌, ◌≤◌, ◌<◌, ◌≡◌, arith}
use radio_chatter.Common.Int.{pos, sub_ℕ, ltb_ℤ}
use radio_chatter.Duration.{add64, sub64, mul64}
use radio_chatter.Archiver.{chunk_length}

-- `ChunkLength` in nanoseconds.
abbrev pub minute : ℕ
minute = 60000000000

-- Half the range of an int64, about 146 years: sums and differences of such times do not overflow.
abbrev pub far : ℕ
far = 2 ^ 62

pub mul64-chunk_length :
    (n : ℕ) → n * 60000000000 ≤ far → mul64 chunk_length (pos n) ≡ pos (n * 60000000000)
unfolding mul64
mul64-chunk_length n h = ground arith

pub add64-pos : (a b : ℕ) → a ≤ far → b < far → add64 (pos a) (pos b) ≡ pos (a + b)
unfolding add64
add64-pos a b h k = ground arith

pub sub64-pos : (a b : ℕ) → a ≤ far + far - 1 → b ≤ far → sub64 (pos a) (pos b) ≡ sub_ℕ a b
unfolding sub64
sub64-pos a b h k = ground arith

pub sub64-pos_of_le :
    (a b : ℕ) → a ≤ far + far - 1 → b ≤ far → b ≤ a → sub64 (pos a) (pos b) ≡ pos (a - b)
sub64-pos_of_le a b h k le = rw (sub64-pos a b h k) (ground arith)

-- The test of `onSilenceStart` on the difference of two times that are both counted from `b`.
pub tiny-sub64 :
    (t s b : ℕ)
    → t ≤ far
    → b ≤ s
    → s ≤ far
    → ltb_ℤ (pos 10000000) (sub64 (sub64 (pos t) (pos b)) (pos (s - b))) ≡ ltb 10000000 (t - s)
unfolding sub64
tiny-sub64 t s b h k l = rw (sub64-pos t b (omega arith) (omega arith)) (ground arith)
