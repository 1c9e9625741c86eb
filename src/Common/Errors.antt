-- ===== src/Common/Errors.antt =====
-- Go's `(T, error)`: a value or an error, and the chain of `if err != nil { return err }`.
use mathlib.Core.Path.{◌≡◌}

pub data Result {ℓ κ} (E : Type κ) (A : Type ℓ) : Type (ℓ ⊔ κ) where
  ok : A → Result E A
  err : E → Result E A

-- Wrapping an error, `fmt.Errorf("...: %w", err)`.
abbrev pub map_err {ℓ κ ι} :
    {A : Type ℓ} {E : Type κ} {F : Type ι} → (E → F) → Result E A → Result F A
map_err f (ok a) = ok a
map_err f (err e) = err (f e)

-- The error of the first call ends the chain.
infixl 5 ◌>>=◌
abbrev pub ◌>>=◌ {ι ℓ κ} :
    {Failure : Type ι} {A : Type ℓ} {B : Type κ}
    → Result Failure A
    → (A → Result Failure B)
    → Result Failure B
err failure >>= next = err failure
ok value >>= next = next value

pub ok-injective {ℓ κ} :
    {E : Type κ} {A : Type ℓ} {a b : A} → ◌≡◌ {A = Result E A} (ok a) (ok b) → a ≡ b
ok-injective h = cc
