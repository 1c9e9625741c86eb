-- ===== src/Tests/Since.antt =====
-- The rows of a list that were created at a time or later.
use radio_chatter.Common.{
  ℕ, ◌≤◌, ◌≡◌, sym, subst, List, [], ◌∷◌, ltb, false, Bool-cases, inl, inr, arith, if◌then◌else◌,
}
use mathlib.Core.List.{Memᴰ}
use mathlib.Core.List.Memᴰ
use radio_chatter.Polling.{Source}
use radio_chatter.Polling.Rounds.{IsSince}

module _ {Row : Type 0} (F : Source Row) where
  abbrev pub since : ℕ → List Row → List Row
  since t [] = []
  since t (r ∷ rows) = if ltb (F.created_at r) t then since t rows else r ∷ since t rows

  since-only :
      (t : ℕ) (rows : List Row) (x : Row)
      → Memᴰ x (since t rows)
      → Memᴰ x rows × (t ≤ F.created_at x)
  since-only t [] x m = absurd (Memᴰ.not-nil m)
  since-only t (r ∷ rows) x m = elim (Bool-cases (ltb (F.created_at r) t)) [
    | inl early ↦ let (there, late) = since-only t rows x (rw early at m) in (Memᴰ.tail there, late)
    | inr late ↦ elim (Memᴰ.cases_cons (rw late at m)) [
      | inl same ↦ (Memᴰ.head same, subst (λ y. t ≤ F.created_at y) (sym same) (ground arith))
      | inr later ↦ let (there, l) = since-only t rows x later in (Memᴰ.tail there, l)
    ]
  ]

  since-each :
      (t : ℕ) (rows : List Row) (x : Row) → Memᴰ x rows → t ≤ F.created_at x → Memᴰ x (since t rows)
  since-each t [] x m h = absurd (Memᴰ.not-nil m)
  since-each t (r ∷ rows) x m h = elim (Memᴰ.cases_cons m) [
    | inl same ↦
        let le : t ≤ F.created_at r = subst (λ y. t ≤ F.created_at y) same h in
        let late : ltb (F.created_at r) t ≡ false = ground arith in rw late (Memᴰ.head same)
    | inr there ↦ elim (Bool-cases (ltb (F.created_at r) t)) [
      | inl early ↦ rw early (since-each t rows x there h)
      | inr late ↦ rw late (Memᴰ.tail (since-each t rows x there h))
    ]
  ]

  pub since-IsSince : (t : ℕ) (rows : List Row) → IsSince F t rows (since t rows)
  since-IsSince t rows = record { only = since-only t rows; each = since-each t rows }
