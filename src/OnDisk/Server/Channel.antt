-- ===== src/OnDisk/Server/Channel.antt =====
-- What `errChan` does.
use radio_chatter.Common.{
  ◌<◌, ◌≡◌, ◌⊎◌, inl, inr, refl, true, false, Bool-cases, List, [], ◌∷◌, ◌++◌, Option, none, some,
  ltb, lt→ltb, length,
}
use radio_chatter.OnDisk.Server.{Server, Outcome, done, blocks, panics, send_error, receive_error}

module _ {E : Type 0} where
  pub send_error-done :
      (e : E) (s t : Server E)
      → send_error e s ≡ done t
      → (s.closed ≡ false) × (t ≡ record s { errors = s.errors ++ (e ∷ []) })
  unfolding send_error
  send_error-done e s t h = elim (Bool-cases s.closed) [
    | inl c ↦ let bad = simp c at h in cc
    | inr c ↦ elim (Bool-cases (ltb (length s.errors) 2)) [
      | inl l ↦
          let same : done (record s { errors = s.errors ++ (e ∷ []); closed = false }) ≡ done t =
            rw l at (rw c at h) in
          (c, cc)
      | inr l ↦ let bad : blocks ≡ done t = rw l at (rw c at h) in cc
    ]
  ]

  pub send_error-room :
      (e : E) (s : Server E)
      → s.closed ≡ false
      → length s.errors < 2
      → send_error e s ≡ done (record s { errors = s.errors ++ (e ∷ []) })
  unfolding send_error
  send_error-room e s c l = rw c (rw (lt→ltb (length s.errors) 2 l) refl)

  pub send_error-panics : (e : E) (s : Server E) → send_error e s ≡ panics → s.closed ≡ true
  unfolding send_error
  send_error-panics e s h = elim (Bool-cases s.closed) [
    | inl c ↦ c
    | inr c ↦ elim (Bool-cases (ltb (length s.errors) 2)) [
      | inl l ↦ let bad : done _ ≡ panics = rw l at (rw c at h) in cc
      | inr l ↦ let bad : blocks ≡ panics = rw l at (rw c at h) in cc
    ]
  ]

  pub receive_error-cases :
      (a : Option E) (s t : Server E)
      → receive_error s ≡ done (a, t)
      → (es : List E) × (t ≡ record s { errors = es })
        × (((a ≡ none) × (s.closed ≡ true) × (s.errors ≡ es))
            ⊎ ((e : E) × (a ≡ some e) × (s.errors ≡ e ∷ es)))
  unfolding receive_error
  receive_error-cases a s t h = by_held s.errors refl
    where
      Answer : Type 0
      Answer =
          (es : List E) × (t ≡ record s { errors = es })
          × (((a ≡ none) × (s.closed ≡ true) × (s.errors ≡ es))
              ⊎ ((e : E) × (a ≡ some e) × (s.errors ≡ e ∷ es)))

      by_held : (held : List E) → s.errors ≡ held → Answer
      by_held (e ∷ es) held =
          let same : ◌≡◌ {A = Outcome (Option E × Server E)}
              (done (some e, record s { errors = es })) (done (a, t)) =
            rw held at h in
          (es, cc, inr (e, cc, held))
      by_held [] held = elim (Bool-cases s.closed) [
        | inl c ↦
            let same : ◌≡◌ {A = Outcome (Option E × Server E)}
                (done (none, record s { errors = []; closed = true })) (done (a, t)) =
              rw c at (rw held at h) in
            ([], cc, inl (cc, c, held))
        | inr c ↦
            let bad : ◌≡◌ {A = Outcome (Option E × Server E)} blocks (done (a, t)) =
              rw c at (rw held at h) in
            cc
      ]
