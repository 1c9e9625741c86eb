-- ===== src/Paging/Order.antt =====
-- The rows behind an id, in whatever order.
use radio_chatter.Common.{
  ℕ, ◌<◌, ◌≤◌, ◌≡◌, refl, sym, ap, subst, List, [], ◌∷◌, some, last?, ltb, ltb→lt, lt→ltb,
  Bool-cases, inl, inr, if◌then◌else◌, arith, length, All,
}
use mathlib.Core.List.{Memᴰ}
use mathlib.Core.List.Memᴰ

module _ {A : Type 0} (P : A → Type 0) where
  pub All-member : (xs : List A) (x : A) → All P xs → Memᴰ x xs → P x
  All-member [] x h m = absurd (Memᴰ.not-nil m)
  All-member (y ∷ xs) x h m = elim (Memᴰ.cases_cons m) [
    | inl same ↦ subst P (sym same) h.0
    | inr later ↦ All-member xs x h.1 later
  ]

  pub All-members : (xs : List A) → ((x : A) → Memᴰ x xs → P x) → All P xs
  All-members [] h = tt
  All-members (x ∷ xs) h = (h x (Memᴰ.head refl), All-members xs (λ y m. h y (Memᴰ.tail m)))

module _ {A : Type 0} where
  pub last?-member : (xs : List A) → 0 < length xs → (x : A) × (last? xs ≡ some x) × Memᴰ x xs
  last?-member [] h = absurd (omega arith)
  last?-member (x ∷ []) h = (x, refl, Memᴰ.head refl)
  last?-member (x ∷ y ∷ xs) h =
      let (z, e, m) = last?-member (y ∷ xs) (omega arith) in (z, e, Memᴰ.tail m)

module _ {Row : Type 0} (id_of : Row → ℕ) where
  abbrev pub beyond : ℕ → List Row → List Row
  beyond a [] = []
  beyond a (r ∷ rows) = if ltb a (id_of r) then r ∷ beyond a rows else beyond a rows

  pub beyond-only :
      (a : ℕ) (rows : List Row) (x : Row) → Memᴰ x (beyond a rows) → Memᴰ x rows × (a < id_of x)
  beyond-only a [] x m = absurd (Memᴰ.not-nil m)
  beyond-only a (r ∷ rows) x m = elim (Bool-cases (ltb a (id_of r))) [
    | inr before ↦ let (there, lt) = beyond-only a rows x (rw before at m) in (Memᴰ.tail there, lt)
    | inl behind ↦ elim (Memᴰ.cases_cons (rw behind at m)) [
      | inl same ↦ (Memᴰ.head same, subst (λ y. a < id_of y) (sym same) (ltb→lt a (id_of r) behind))
      | inr later ↦ let (there, lt) = beyond-only a rows x later in (Memᴰ.tail there, lt)
    ]
  ]

  pub beyond-each :
      (a : ℕ) (rows : List Row) (x : Row) → Memᴰ x rows → a < id_of x → Memᴰ x (beyond a rows)
  beyond-each a [] x m lt = absurd (Memᴰ.not-nil m)
  beyond-each a (r ∷ rows) x m lt = elim (Memᴰ.cases_cons m) [
    | inl same ↦ rw (lt→ltb a (id_of r) (subst (λ y. a < id_of y) same lt)) (Memᴰ.head same)
    | inr there ↦ elim (Bool-cases (ltb a (id_of r))) [
      | inl behind ↦ rw behind (Memᴰ.tail (beyond-each a rows x there lt))
      | inr before ↦ rw before (beyond-each a rows x there lt)
    ]
  ]

  pub length-beyond_mono :
      (a b : ℕ) (rows : List Row) → a ≤ b → length (beyond b rows) ≤ length (beyond a rows)
  length-beyond_mono a b [] h = omega arith
  length-beyond_mono a b (r ∷ rows) h = ground (arith, length-beyond_mono a b rows h)

  pub length-beyond : (a : ℕ) (rows : List Row) → length (beyond a rows) ≤ length rows
  length-beyond a [] = omega arith
  length-beyond a (r ∷ rows) = ground (arith, length-beyond a rows)

  -- Behind the id of a row, this row is missing.
  pub beyond-shorter :
      (a : ℕ) (rows : List Row) (x : Row)
      → Memᴰ x rows
      → a < id_of x
      → length (beyond (id_of x) rows) < length (beyond a rows)
  beyond-shorter a [] x m h = absurd (Memᴰ.not-nil m)
  beyond-shorter a (r ∷ rows) x m h = elim (Memᴰ.cases_cons m) [
    | inl same ↦
        let le = length-beyond_mono a (id_of x) rows (omega arith) in
        let id_same : id_of x ≡ id_of r = ap id_of same in ground (arith, le, id_same)
    | inr later ↦ ground (arith, beyond-shorter a rows x later h)
  ]

  pub beyond_all-shorter :
      (rows : List Row) (x : Row) → Memᴰ x rows → length (beyond (id_of x) rows) < length rows
  beyond_all-shorter [] x m = absurd (Memᴰ.not-nil m)
  beyond_all-shorter (r ∷ rows) x m = elim (Memᴰ.cases_cons m) [
    | inl same ↦
        let id_same : id_of x ≡ id_of r = ap id_of same in
        ground (arith, length-beyond (id_of x) rows, id_same)
    | inr later ↦ ground (arith, beyond_all-shorter rows x later)
  ]
