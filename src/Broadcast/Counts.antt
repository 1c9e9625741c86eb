-- ===== src/Broadcast/Counts.antt =====
-- How often a channel stands in a list of listeners.
use radio_chatter.Common.{
  ℕ, ◌+◌, ◌<◌, ◌≡◌, refl, true, false, List, [], ◌∷◌, ◌++◌, ◌==◌, if◌then◌else◌, arith,
}
use radio_chatter.Broadcast.{last_of, all_but_last, swap_remove, contains}

abbrev pub count : ℕ → List ℕ → ℕ
count id [] = 0
count id (other ∷ ids) = (if other == id then 1 else 0) + count id ids

pub count-append : (id : ℕ) (xs ys : List ℕ) → count id (xs ++ ys) ≡ count id xs + count id ys
count-append id [] ys = omega arith
count-append id (x ∷ xs) ys = ground (arith, count-append id xs ys)

count_rotated :
    (id first : ℕ) (rest : List ℕ)
    → count id (last_of first rest ∷ all_but_last first rest) ≡ count id (first ∷ rest)
count_rotated id first [] = refl
count_rotated id first (other ∷ rest) = ground (arith, count_rotated id other rest)

-- Exactly one place of the removed channel goes, and every other channel keeps its places.
pub count-swap_remove :
    (id : ℕ) (other : ℕ) (ids : List ℕ)
    → contains id ids ≡ true
    → count other (swap_remove id ids) + (if other == id then 1 else 0) ≡ count other ids
unfolding contains swap_remove
count-swap_remove id other [] h = cc
count-swap_remove id other (x ∷ []) h = ground arith
count-swap_remove id other (x ∷ y ∷ ids) h =
    ground (arith, count_rotated other y ids, count-swap_remove id other (y ∷ ids))

pub contains-count : (id : ℕ) (ids : List ℕ) → contains id ids ≡ true → 0 < count id ids
unfolding contains
contains-count id [] h = cc
contains-count id (x ∷ ids) h = ground (arith, contains-count id ids)

pub not-contains-count : (id : ℕ) (ids : List ℕ) → contains id ids ≡ false → count id ids ≡ 0
unfolding contains
not-contains-count id [] h = refl
not-contains-count id (x ∷ ids) h = ground (arith, not-contains-count id ids)
