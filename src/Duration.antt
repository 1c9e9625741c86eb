-- ===== src/Duration.antt =====
-- `time.Duration` as pkg/preprocess.go and pkg/archive.go use it: an int64 count of nanoseconds.
use radio_chatter.Common.{ℕ, ◌-◌, ◌%◌, ◌^◌, ◌≤◌, ◌<◌, ◌≡◌, arith, ltb, if◌then◌else◌}
use radio_chatter.Common.Int.{ℤ, pos, negsuc, pos_part, neg_part, ◌+ℤ◌, ◌-ℤ◌, ◌*ℤ◌}

-- An int64; every operation below wraps.
abbrev pub Duration : Type 0
Duration = ℤ

-- Two's complement: the 64 low bits of an integer, and the number that 64 bits stand for.
unfoldable pub low_bits : ℤ → ℕ
low_bits (pos n) = n % 2 ^ 64
low_bits (negsuc n) = 2 ^ 64 - 1 - n % 2 ^ 64

unfoldable pub signed : ℕ → ℤ
signed w = if ltb w (2 ^ 63) then pos w else negsuc (2 ^ 64 - w - 1)

unfoldable pub wrap : ℤ → ℤ
unfolding low_bits signed
wrap z = signed (low_bits z)

unfoldable pub add64 : ℤ → ℤ → ℤ
unfolding wrap ◌+ℤ◌
add64 a b = wrap (a +ℤ b)

unfoldable pub sub64 : ℤ → ℤ → ℤ
unfolding wrap ◌-ℤ◌
sub64 a b = wrap (a -ℤ b)

unfoldable pub mul64 : ℤ → ℤ → ℤ
unfolding wrap ◌*ℤ◌
mul64 a b = wrap (a *ℤ b)

-- The range of an int64.
abbrev pub Fits : ℤ → Type 0
Fits z = (pos_part z < 2 ^ 63) × (neg_part z ≤ 2 ^ 63)

pub wrap_of_Fits : (z : ℤ) → Fits z → wrap z ≡ z
unfolding wrap
wrap_of_Fits (pos n) h = ground arith
wrap_of_Fits (negsuc n) h = ground arith

pub wrap-Fits : (z : ℤ) → Fits (wrap z)
unfolding wrap
wrap-Fits (pos n) = ground arith
wrap-Fits (negsuc n) = ground arith

pub add64_of_Fits : (a b : ℤ) → Fits (a +ℤ b) → add64 a b ≡ a +ℤ b
unfolding add64
add64_of_Fits a b h = wrap_of_Fits (a +ℤ b) h
