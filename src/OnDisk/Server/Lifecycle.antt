-- ===== src/OnDisk/Server/Lifecycle.antt =====
-- What can happen while the server runs and is stopped: what `Close` returns, and when a goroutine
-- panics.
use radio_chatter.Common.{
  ℕ, ◌<◌, ◌≤◌, ◌≡◌, ◌⊎◌, inl, inr, refl, sym, ap, ◌∙◌, subst, true, false, List, [], ◌∷◌, ◌++◌,
  Option, none, some, length, All, arith,
}
use mathlib.Core.Option.{none-ne-some, some-injective}
use radio_chatter.OnDisk.Server.{
  ShutdownError, deadline_exceeded, not_shut_down, not_served, ShutdownTask, waiting, reporting,
  finishing, finished, failed, Server, done, Failures, started, after_shutdown, send_error,
  receive_error, Step, cancels, shuts_down, reports, closes, serves, serve_reports, receives, Reach,
  start, later, panics,
}
use radio_chatter.OnDisk.Server.Channel.{
  send_error-done, send_error-room, send_error-panics, receive_error-cases,
}
use radio_chatter.OnDisk.Server.Invariant.{to_report, is_finished, Came, Inv, Reach-Inv}

module _ {E : Type 0} where
  -- How many steps the first goroutine still makes.
  abbrev pub steps_left : ShutdownTask E → ℕ
  steps_left waiting = 3
  steps_left (reporting e) = 2
  steps_left finishing = 1
  steps_left finished = 0

module _ {E : Type 0} where
  is_finished-finished : (task : ShutdownTask E) → is_finished task ≡ true → task ≡ finished
  is_finished-finished waiting h = cc
  is_finished-finished (reporting e) h = cc
  is_finished-finished finishing h = cc
  is_finished-finished finished h = refl

module _ {E : Type 0} (N : Failures E) where
  -- A goroutine that sends to the closed channel, or closes it again. The first is the one that
  -- serves; the other two are steps of the one that shuts down.
  abbrev pub PanicsServing : Server E → E → Type 0
  PanicsServing s e = (s.serve ≡ failed e) × (send_error e s ≡ panics)

  abbrev pub PanicsShutdown : Server E → Type 0
  PanicsShutdown s =
      ((e : E) × (s.shutdown ≡ reporting e) × (send_error e s ≡ panics))
      ⊎ ((s.shutdown ≡ finishing) × (s.closed ≡ true))

  -- For every error that the server can fail with on its own, a run can end with the goroutine that
  -- serves in a panic: it has met this error and not yet sent it, and in the meantime the storage is
  -- closed, and the other goroutine has closed the channel. In every state that a run can reach, the
  -- goroutine that serves panics only with such an error, and only if the channel is closed because
  -- the other goroutine has ended; and the other one never panics.
  pub serving-panics :
      ((e : E) → N.ServeFails e → (s : Server E) × Reach N s × PanicsServing s e)
      × ((s : Server E)
          → Reach N s
          → ((e : E)
              → PanicsServing s e
              → N.ServeFails e × (s.closed ≡ true) × (s.shutdown ≡ finished))
            × ¬ PanicsShutdown s)
  unfolding send_error
  serving-panics = (races, λ s r. (serving s (Reach-Inv N r), shutting s (Reach-Inv N r)))
    where
      races : (e : E) → N.ServeFails e → (s : Server E) × Reach N s × PanicsServing s e
      races e f = (
        record started { cancelled = true; shutdown = finished; serve = failed e; closed = true },
        later
            (later (later (later start (serves (some (not_served e)) f refl)) cancels)
              (shuts_down none tt refl refl))
            (closes refl),
        (refl, refl),
      )

      serving :
          (s : Server E)
          → Inv N s
          → (e : E) → PanicsServing s e
          → N.ServeFails e × (s.closed ≡ true) × (s.shutdown ≡ finished)
      serving s inv e (w, h) =
          let shut = send_error-panics e s h in
          (inv.serve_came e w, shut, is_finished-finished (s.shutdown) (sym inv.closed_last ∙ shut))

      shutting : (s : Server E) → Inv N s → ¬ PanicsShutdown s
      shutting s inv (inl (e, w, h)) =
          let bad : true ≡ false =
            sym (send_error-panics e s h) ∙ inv.closed_last ∙ ap is_finished w in
          cc
      shutting s inv (inr (w, c)) =
          let bad : true ≡ false = sym c ∙ inv.closed_last ∙ ap is_finished w in cc

  -- What `Close` meets.
  pub record Answers (s : Server E) : Type 0 where
    pub moves :
        0 < steps_left s.shutdown
        → (t : Server E) × Step N s t × (steps_left t.shutdown < steps_left s.shutdown)
    pub never_back :
        {t : Server E}
        → Step N s t
        → (t.cancelled ≡ true) × (steps_left t.shutdown ≤ steps_left s.shutdown)
    pub answer :
        steps_left s.shutdown ≡ 0
        → (a : Option E) × (t : Server E) × (receive_error s ≡ done (a, t))
    pub only_came :
        {a : Option E} {t : Server E} {e : E}
        → receive_error s ≡ done (a, t)
        → a ≡ some e
        → Came N e

  after_shutdown-less : (r : Option (ShutdownError E)) → steps_left (after_shutdown r) ≤ 2
  after_shutdown-less none = omega arith
  after_shutdown-less (some deadline_exceeded) = omega arith
  after_shutdown-less (some (not_shut_down e)) = omega arith

  -- The first goroutine is never stuck.
  goes_on :
      (s : Server E) (task : ShutdownTask E)
      → s.shutdown ≡ task
      → Inv N s
      → s.cancelled ≡ true
      → 0 < steps_left task
      → (t : Server E) × Step N s t × (steps_left t.shutdown < steps_left task)
  goes_on s waiting w inv c l =
      (record s { shutdown = finishing }, shuts_down none tt c w, omega arith)
  goes_on s (reporting e) w inv c l =
      let room : length s.errors < 2 = omega (arith, inv.places, ap to_report w) in
      let sent = send_error-room e s (inv.closed_last ∙ ap is_finished w) room in
      (
        record s { errors = s.errors ++ (e ∷ []); shutdown = finishing },
        reports w sent,
        omega arith,
      )
  goes_on s finishing w inv c l =
      (record s { shutdown = finished; closed = true }, closes w, omega arith)
  goes_on s finished w inv c l = absurd (omega (arith, l))

  Step-never_back :
      {s t : Server E}
      → Step N s t
      → s.cancelled ≡ true
      → (t.cancelled ≡ true) × (steps_left t.shutdown ≤ steps_left s.shutdown)
  Step-never_back cancels c = (refl, omega arith)
  Step-never_back (shuts_down r h c' w) c =
      (c, omega (arith, ap steps_left w, after_shutdown-less r))
  Step-never_back {s} (reports {e} {t} w h) c =
      (ap (λ u. u.cancelled) (send_error-done e s t h).1 ∙ c, omega (arith, ap steps_left w))
  Step-never_back (closes w) c = (c, omega arith)
  Step-never_back (serves r h w) c = (c, omega arith)
  Step-never_back {s} (serve_reports {e} {t} w h) c =
      let same = (send_error-done e s t h).1 in
      (ap (λ u. u.cancelled) same ∙ c, omega (arith, ap (λ u. steps_left u.shutdown) same))
  Step-never_back {s} (receives {a} {t} c' h) c =
      let (es, same, got) = receive_error-cases a s t h in
      (ap (λ u. u.cancelled) same ∙ c, omega (arith, ap (λ u. steps_left u.shutdown) same))

  left-finished : (task : ShutdownTask E) → steps_left task ≡ 0 → is_finished task ≡ true
  left-finished waiting h = absurd (omega (arith, h))
  left-finished (reporting e) h = absurd (omega (arith, h))
  left-finished finishing h = absurd (omega (arith, h))
  left-finished finished h = refl

  receive_error-closed :
      (s : Server E)
      → s.closed ≡ true
      → (a : Option E) × (t : Server E) × (receive_error s ≡ done (a, t))
  unfolding receive_error
  receive_error-closed s c = by_held s.errors refl
    where
      by_held :
          (held : List E)
          → s.errors ≡ held
          → (a : Option E) × (t : Server E) × (receive_error s ≡ done (a, t))
      by_held [] held = (none, s, rw (held, receive_error) (rw c refl))
      by_held (e ∷ es) held = (some e, record s { errors = es }, rw (held, receive_error) refl)

  -- Once the storage is told to close: while the channel is open, the goroutine that closes it can
  -- make its next step, whatever the channel holds, and has at most three of them; nothing takes it
  -- back, and nothing takes back the cancellation. When it has made them all, `Close` is answered,
  -- if need be more than once. An error that `Close` returns is one that the server or its shutdown
  -- has met, and never the exceeded deadline.
  pub close-Answers : {s : Server E} → Reach N s → s.cancelled ≡ true → Answers s
  close-Answers {s} r c =
      let inv = Reach-Inv N r in
      record {
        moves = λ l. goes_on s s.shutdown refl inv c l;
        never_back = λ st. Step-never_back st c;
        answer = λ l. receive_error-closed s (inv.closed_last ∙ left-finished s.shutdown l);
        only_came = λ {a} {t} {e} h is_e. elim (receive_error-cases a s t h).2 [
          | inl (n, closed, held) ↦ absurd (none-ne-some e (sym n ∙ is_e))
          | inr (e', is_e', held) ↦
              let named : e' ≡ e = some-injective _ _ (sym is_e' ∙ is_e) in
              subst (λ x. Came N x) named (subst (All (Came N)) held inv.errors_came).0
        ];
      }
