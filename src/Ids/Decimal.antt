-- ===== src/Ids/Decimal.antt =====
-- Decimal numbers as `%d` prints a uint and `strconv.Atoi` reads an int.
use radio_chatter.Common.{
  ℕ, zero, suc, ◌+◌, ◌-◌, ◌*◌, ◌/◌, ◌%◌, ◌^◌, ◌<◌, ◌≤◌, ◌≡◌, ◌∙◌, Bool-cases, inl, inr, [], ◌∷◌,
  Option, none, some, ◌==◌, ltb, ltb→lt, within, Bytes, All, if◌then◌else◌, arith,
}
use radio_chatter.Common.Int.{ℤ, pos, negsuc}

-- The digits of `n` before `out`, at most `fuel` of them.
unfoldable pub put_digits : ℕ → ℕ → Bytes → Bytes
put_digits zero n out = out
put_digits (suc fuel) n out =
    let more = put_digits fuel (n / 10) ((b'0' + n % 10) ∷ out) in
    if ltb n 10 then (b'0' + n) ∷ out else more

-- `%d` of a uint of 64 bits, which has at most 20 digits.
abbrev pub format : ℕ → Bytes
format n = put_digits 20 n []

-- The number that digits spell behind `n`.
unfoldable pub read_digits : Bytes → ℕ → Option ℕ
read_digits [] n = some n
read_digits (c ∷ s) n = if within b'0' b'9' c then read_digits s (n * 10 + (c - b'0')) else none

abbrev pub read_number : Bytes → Option ℕ
read_number [] = none
read_number (c ∷ s) = read_digits (c ∷ s) 0

-- The range of an int of 64 bits.
abbrev pub positive : Option ℕ → Option ℤ
positive none = none
positive (some n) = if ltb n (2 ^ 63) then some (pos n) else none

abbrev pub negative : Option ℕ → Option ℤ
negative none = none
negative (some zero) = some (pos 0)
negative (some (suc n)) = if ltb n (2 ^ 63) then some (negsuc n) else none

-- `strconv.Atoi`, whose errors are not told apart: one sign, and at least one digit.
unfoldable pub atoi : Bytes → Option ℤ
atoi [] = none
atoi (c ∷ s) =
    if c == b'-'
    then negative (read_number s)
    else if c == b'+'
    then positive (read_number s)
    else positive (read_number (c ∷ s))

abbrev pub power_of_ten : ℕ → ℕ
power_of_ten zero = 1
power_of_ten (suc k) = 10 * power_of_ten k

read_digits-put_digits :
    (fuel n : ℕ) (out : Bytes)
    → n < power_of_ten fuel
    → read_digits (put_digits fuel n out) 0 ≡ read_digits out n
unfolding put_digits read_digits
read_digits-put_digits zero n out h = ground arith
read_digits-put_digits (suc fuel) n out h = elim (Bool-cases (ltb n 10)) [
  | inl small ↦ rw small (ground arith)
  | inr large ↦
      rw large
        (read_digits-put_digits fuel (n / 10) ((b'0' + n % 10) ∷ out) (omega arith) ∙ ground arith)
]

-- The digits start with a digit.
abbrev IsNumber : Bytes → Type 0
IsNumber [] = ⊥
IsNumber (c ∷ s) = (b'0' ≤ c) × (c ≤ b'9')

-- The digits of a number behind which digits stand, and of any number.
put_digits-IsNumber : (fuel n : ℕ) (out : Bytes) → IsNumber out → IsNumber (put_digits fuel n out)
unfolding put_digits
put_digits-IsNumber zero n out h = h
put_digits-IsNumber (suc fuel) n out h = elim (Bool-cases (ltb n 10)) [
  | inl small ↦ rw small (omega arith, omega (arith, ltb→lt n 10 small))
  | inr large ↦
      rw large
        (put_digits-IsNumber fuel (n / 10) ((b'0' + n % 10) ∷ out) (omega arith, omega arith))
]

digits_first : (fuel n : ℕ) (out : Bytes) → IsNumber (put_digits (suc fuel) n out)
unfolding put_digits
digits_first fuel n out = elim (Bool-cases (ltb n 10)) [
  | inl small ↦ rw small (omega arith, omega (arith, ltb→lt n 10 small))
  | inr large ↦
      rw large
        (put_digits-IsNumber fuel (n / 10) ((b'0' + n % 10) ∷ out) (omega arith, omega arith))
]

format-IsNumber : (n : ℕ) → IsNumber (format n)
format-IsNumber n = digits_first 19 n []

atoi_digits :
    (s : Bytes) (n : ℕ) → IsNumber s → read_digits s 0 ≡ some n → n < 2 ^ 63 → atoi s ≡ some (pos n)
unfolding atoi
atoi_digits [] n h e lt = absurd h
atoi_digits (c ∷ s) n h e lt = ground (arith, e)

-- What `%d` prints of an id that fits into an int is read back by `Atoi`.
pub atoi-format : (n : ℕ) → n < 2 ^ 63 → atoi (format n) ≡ some (pos n)
unfolding read_digits
atoi-format n lt =
    atoi_digits (format n) n (format-IsNumber n) (read_digits-put_digits 20 n [] (omega arith)) lt

pub atoi_minus : (n : ℕ) → n < 2 ^ 63 → atoi (b'-' ∷ format (suc n)) ≡ some (negsuc n)
unfolding atoi read_digits
atoi_minus n lt =
    by_text (format (suc n)) (format-IsNumber (suc n))
      (read_digits-put_digits 20 (suc n) [] (omega arith))
  where
    by_text :
        (s : Bytes)
        → IsNumber s
        → read_digits s 0 ≡ some (suc n)
        → atoi (b'-' ∷ s) ≡ some (negsuc n)
    by_text [] h e = absurd h
    by_text (c ∷ s) h e = rw e (ground arith)

put_digits-bytes :
    (fuel n : ℕ) (out : Bytes) → All (λ c. c < 256) out → All (λ c. c < 256) (put_digits fuel n out)
unfolding put_digits
put_digits-bytes zero n out h = h
put_digits-bytes (suc fuel) n out h = elim (Bool-cases (ltb n 10)) [
  | inl small ↦ rw small (omega (arith, ltb→lt n 10 small), h)
  | inr large ↦ rw large (put_digits-bytes fuel (n / 10) ((b'0' + n % 10) ∷ out) (omega arith, h))
]

pub format-bytes : (n : ℕ) → All (λ c. c < 256) (format n)
format-bytes n = put_digits-bytes 20 n [] tt
