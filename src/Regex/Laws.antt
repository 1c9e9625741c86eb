-- ===== src/Regex/Laws.antt =====
-- How the patterns of pkg/preprocess.go run over a text whose shape is known.
use mathlib.Core.Bool.{false≢true}
use radio_chatter.Common.{
  ◌&&◌, Bool-cases, inl, inr, ℕ, ◌-◌, ◌≡◌, refl, ◌∙◌, Bool, true, false, List, [], ◌∷◌, ◌++◌, some,
  arith, ==_iff, length, take, length-append, take-length-append, Bytes, All,
}
use radio_chatter.Regex.{plus, Captures, match_star, matches, text}

-- The class takes no byte at the head of this text.
abbrev pub Stops : (ℕ → Bool) → Bytes → Type 0
Stops p [] = Unit
Stops p (c ∷ s) = p c ≡ false

-- Every byte is in the class.
abbrev pub AllIn : (ℕ → Bool) → Bytes → Type 0
AllIn p = All (λ c. p c ≡ true)

pub match_star-Stops :
    (p : ℕ → Bool) (rest : Bytes) (k : Bytes → Captures)
    → Stops p rest
    → match_star p rest k ≡ k rest
unfolding match_star
match_star-Stops p [] k h = refl
match_star-Stops p (c ∷ s) k h = rw (h, match_star)

-- A greedy repetition takes a whole run of its class, if the rest of the pattern then matches.
pub match_star_run :
    (p : ℕ → Bool) (run rest : Bytes) (k : Bytes → Captures) {r : List Bytes}
    → AllIn p run
    → Stops p rest
    → k rest ≡ some r
    → match_star p (run ++ rest) k ≡ some r
unfolding match_star
match_star_run p [] rest k h e m = match_star-Stops p rest k e ∙ m
match_star_run p (c ∷ run) rest k h e m = rw (h.0) (rw (match_star_run p run rest k h.1 e m))

pub matches-plus_run :
    (p : ℕ → Bool) (c : ℕ) (run rest : Bytes) (k : Bytes → Captures) {r : List Bytes}
    → AllIn p (c ∷ run)
    → Stops p rest
    → k rest ≡ some r
    → matches (plus p) (c ∷ (run ++ rest)) k ≡ some r
unfolding matches
matches-plus_run p c run rest k h e m = rw (h.0) (match_star_run p run rest k h.1 e m)

-- A literal text takes itself.
pub matches-text : (t rest : Bytes) (k : Bytes → Captures) → matches (text t) (t ++ rest) k ≡ k rest
unfolding matches
matches-text [] rest k = refl
matches-text (c ∷ []) rest k = ground (arith, ==_iff c c)
matches-text (c ∷ d ∷ t) rest k = ground (arith, ==_iff c c, matches-text (d ∷ t) rest k)

-- What a capture records is the text between its two ends.
pub take-diff : (s rest : Bytes) → take (length (s ++ rest) - length rest) (s ++ rest) ≡ s
take-diff s rest =
    let e : length (s ++ rest) - length rest ≡ length s = omega (arith, length-append s rest) in
    rw e (take-length-append s rest)

-- The same as a test, which decides it for a text that is written out.
abbrev pub all_in : (ℕ → Bool) → Bytes → Bool
all_in p [] = true
all_in p (c ∷ s) = p c && all_in p s

pub AllIn-all_of : (p : ℕ → Bool) (s : Bytes) → all_in p s ≡ true → AllIn p s
AllIn-all_of p [] h = tt
AllIn-all_of p (c ∷ s) h = elim (Bool-cases (p c)) [
  | inl e ↦ (e, AllIn-all_of p s (rw e at h))
  | inr e ↦ absurd (false≢true (rw e at h))
]
