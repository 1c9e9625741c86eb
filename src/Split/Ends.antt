-- ===== src/Split/Ends.antt =====
-- Every job of `splitChunk` comes to its end.
use radio_chatter.Common.{
  ℕ, zero, suc, ◌+◌, ◌-◌, ◌≤◌, ◌<◌, ◌≡◌, refl, sym, ap, ◌∙◌, subst, ◌==◌, ==_iff, Bool-cases, inl,
  inr, List, [], ◌∷◌, ◌++◌, length, get_elem?, Option, none, some, Bytes, Result, ok, err, arith,
  if◌then◌else◌,
}
use mathlib.Core.Option.{none-ne-some}
use radio_chatter.Duration.{Duration}
use radio_chatter.Archiver.{AudioSpan}
use radio_chatter.Blob.{Key, Storage}
use radio_chatter.Models.{Chunk, Transmission, Database}
use radio_chatter.Files.{read_file}
use radio_chatter.Commands.{RunError}
use radio_chatter.Split.{Job, SplitError, World, transmission_row}
use radio_chatter.Split.Group.{
  JobPhase, starting, extracted, reading, stored, ending, ended, Group, after_command, after_read,
  after_store, after_save, next_step, moved, advance_job, advance_all, in_turn,
}

pub get_elem?-some {ℓ} :
    {A : Type ℓ} (i : ℕ) (xs : List A) → i < length xs → (x : A) × (get_elem? xs i ≡ some x)
get_elem?-some i [] h = absurd (omega (arith, h))
get_elem?-some zero (x ∷ xs) h = (x, refl)
get_elem?-some (suc i) (x ∷ xs) h = get_elem?-some i xs (omega (arith, h))

pub get_elem?-length {ℓ} :
    {A : Type ℓ} (i : ℕ) (xs : List A) {x : A} → get_elem? xs i ≡ some x → i < length xs
get_elem?-length i [] {x} h = absurd (none-ne-some x h)
get_elem?-length zero (y ∷ xs) h = omega arith
get_elem?-length (suc i) (y ∷ xs) h = omega (arith, get_elem?-length i xs h)

module _ (S : Storage) (D : Database) {E : Type 0} (seconds : Duration → Bytes) (not_exist : E)
    (jobs : ℕ → Job E) (path : Bytes) (pieces : List AudioSpan) (chunk : Chunk) where
  -- How many steps a job still makes.
  abbrev pub left : JobPhase E S.Error D.Error → ℕ
  left starting = 5
  left extracted = 4
  left (reading content) = 3
  left (stored key) = 2
  left (ending r) = 1
  left (ended r) = 0

  next_step-left :
      (span : AudioSpan) (job : Job E) (p : JobPhase E S.Error D.Error) (w : World S D)
      → left (next_step S D seconds not_exist job path span chunk p w).1 ≤ left p - 1
  unfolding next_step
  next_step-left span job starting w = by_command job.run_error
    where
      by_command :
          (failure : Option (RunError E))
          → left (after_command S D seconds not_exist job failure) ≤ 4
      by_command none = omega arith
      by_command (some e) = omega arith
  next_step-left span job extracted w = by_read (read_file not_exist job.read_error job.tmp w.files)
    where
      by_read : (r : Result E Bytes) → left (after_read S D seconds not_exist r) ≤ 3
      by_read (err e) = omega arith
      by_read (ok content) = omega arith
  next_step-left span job (reading content) w = by_stored (S.store content w.blobs).1
    where
      by_stored : (r : Result S.Error Key) → left (after_store S D seconds not_exist r) ≤ 2
      by_stored (err e) = omega arith
      by_stored (ok key) = omega arith
  next_step-left span job (stored key) w =
      by_saved (D.save_transmission (transmission_row span chunk key) w.rows).1
    where
      by_saved : (r : Result D.Error Transmission) → left (after_save S D seconds not_exist r) ≤ 1
      by_saved (err e) = omega arith
      by_saved (ok t) = omega arith
  next_step-left span job (ending r) w = omega arith
  next_step-left span job (ended r) w = omega arith

  left_max : (p : JobPhase E S.Error D.Error) → left p ≤ 5
  left_max starting = omega arith
  left_max extracted = omega arith
  left_max (reading content) = omega arith
  left_max (stored key) = omega arith
  left_max (ending r) = omega arith
  left_max (ended r) = omega arith

  pub left-ended :
      (p : JobPhase E S.Error D.Error)
      → left p ≡ 0
      → (r : Result (SplitError E S.Error D.Error) Transmission) × (p ≡ ended r)
  left-ended starting h = absurd (omega (arith, h))
  left-ended extracted h = absurd (omega (arith, h))
  left-ended (reading content) h = absurd (omega (arith, h))
  left-ended (stored key) h = absurd (omega (arith, h))
  left-ended (ending r) h = absurd (omega (arith, h))
  left-ended (ended r) h = (r, refl)

  abbrev step : ℕ → Group S D E → Group S D E
  step = advance_job S D seconds not_exist jobs path pieces chunk

  abbrev steps : List ℕ → Group S D E → Group S D E
  steps = advance_all S D seconds not_exist jobs path pieces chunk

  abbrev by_piece : ℕ → Group S D E → Option AudioSpan → Group S D E
  by_piece i g none = g
  by_piece i g (some span) =
      moved S D seconds not_exist jobs path pieces chunk i
        (next_step S D seconds not_exist (jobs i) path span chunk (g.phase i) g.world) g

  advance_job-by_piece : (i : ℕ) (g : Group S D E) → step i g ≡ by_piece i g (get_elem? pieces i)
  unfolding advance_job
  advance_job-by_piece i g = by_found (get_elem? pieces i)
    where
      by_found :
          (piece : Option AudioSpan)
          → elim piece [
            | none ↦ g
            | some span ↦
                moved S D seconds not_exist jobs path pieces chunk i
                  (next_step S D seconds not_exist (jobs i) path span chunk (g.phase i) g.world)
                  g
          ]
            ≡ by_piece i g piece
      by_found none = refl
      by_found (some span) = refl

  -- A step takes one from its own job, and nothing from the others.
  abbrev Shrinks : ℕ → Group S D E → Group S D E → Type 0
  Shrinks i g g' =
      (j : ℕ) → left (g'.phase j) ≤ (if j == i then left (g.phase j) - 1 else left (g.phase j))

  moved-Shrinks :
      (i : ℕ) (g : Group S D E) (span : AudioSpan) → Shrinks i g (by_piece i g (some span))
  moved-Shrinks i g span j = elim (Bool-cases (j == i)) [
    | inl e ↦ rw e (
        subst
          (λ k.
            left (next_step S D seconds not_exist (jobs i) path span chunk (g.phase i) g.world).1
            ≤ left (g.phase k) - 1)
          (sym ((==_iff j i).0 e)) (next_step-left span (jobs i) (g.phase i) g.world))
    | inr e ↦ rw e (omega arith)
  ]

  advance_job-Shrinks : (i : ℕ) (g : Group S D E) → i < length pieces → Shrinks i g (step i g)
  advance_job-Shrinks i g l =
      let (span, h) = get_elem?-some i pieces l in
      subst (Shrinks i g) (sym (advance_job-by_piece i g ∙ ap (by_piece i g) h))
        (moved-Shrinks i g span)

  advance_job-left : (i j : ℕ) (g : Group S D E) → left ((step i g).phase j) ≤ left (g.phase j)
  advance_job-left i j g =
      subst (λ g'. left (g'.phase j) ≤ left (g.phase j)) (sym (advance_job-by_piece i g))
        (by_found (get_elem? pieces i))
    where
      by_found : (piece : Option AudioSpan) → left ((by_piece i g piece).phase j) ≤ left (g.phase j)
      by_found none = omega arith
      by_found (some span) = ground (arith, moved-Shrinks i g span j)

  advance_all-left :
      (schedule : List ℕ) (j : ℕ) (g : Group S D E)
      → left ((steps schedule g).phase j) ≤ left (g.phase j)
  unfolding advance_all
  advance_all-left [] j g = omega arith
  advance_all-left (i ∷ schedule) j g =
      omega (arith, advance_job-left i j g, advance_all-left schedule j (step i g))

  pub advance_all-append :
      (first second : List ℕ) (g : Group S D E)
      → steps (first ++ second) g ≡ steps second (steps first g)
  unfolding advance_all
  advance_all-append [] second g = refl
  advance_all-append (i ∷ first) second g = advance_all-append first second (step i g)

  -- Five steps are enough for a job.
  five_steps :
      (i : ℕ) (g : Group S D E)
      → i < length pieces
      → left ((step i (step i (step i (step i (step i g))))).phase i) ≡ 0
  five_steps i g l =
      let g1 = step i g in
      let g2 = step i g1 in
      let g3 = step i g2 in
      let g4 = step i g3 in
      omega (arith, left_max (g.phase i), once g, once g1, once g2, once g3, once g4)
    where
      once : (h : Group S D E) → left ((step i h).phase i) ≤ left (h.phase i) - 1
      once h = ground (arith, advance_job-Shrinks i h l i)

  pub in_turn-left :
      (n i j : ℕ) (g : Group S D E)
      → i + n ≤ length pieces
      → i ≤ j
      → j < i + n
      → left ((steps (in_turn S D seconds not_exist jobs path pieces chunk i n) g).phase j) ≡ 0
  unfolding advance_all
  in_turn-left zero i j g l from to = absurd (omega (arith, from, to))
  in_turn-left (suc n) i j g l from to =
      let g5 = step i (step i (step i (step i (step i g)))) in
      let rest = in_turn S D seconds not_exist jobs path pieces chunk (suc i) n in
      elim (Bool-cases (j == i)) [
        | inl e ↦
            let same = (==_iff j i).0 e in
            let own : left (g5.phase j) ≡ 0 =
              subst (λ k. left (g5.phase k) ≡ 0) (sym same) (five_steps i g (omega arith)) in
            omega (arith, own, advance_all-left rest j g5)
        | inr e ↦ in_turn-left n (suc i) j g5 (omega arith) (ground (arith, from, e)) (omega arith)
      ]
