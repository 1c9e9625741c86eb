-- ===== src/OnDisk/Server/Invariant.antt =====
-- What holds in every state that the server reaches.
use radio_chatter.Common.{
  ℕ, ◌+◌, ◌≤◌, ◌≡◌, ◌⊎◌, inl, inr, refl, sym, ap, ◌∙◌, subst, Bool, true, false, [], ◌∷◌, Option,
  none, some, length, length-append, All, All-append, arith,
}
use radio_chatter.OnDisk.Server.{
  ShutdownError, deadline_exceeded, not_shut_down, ServeError, server_closed, not_served,
  ShutdownTask, waiting, reporting, finishing, finished, ServeTask, serving, failed, stopped,
  Server, Failures, started, after_shutdown, after_serve, ShutsDown, Serves, Step, cancels,
  shuts_down, reports, closes, serves, serve_reports, receives, Reach, start, later,
}
use radio_chatter.OnDisk.Server.Channel.{send_error-done, receive_error-cases}

module _ {E : Type 0} where
  -- How many errors a goroutine may still send.
  abbrev pub to_report : ShutdownTask E → ℕ
  to_report waiting = 1
  to_report (reporting e) = 1
  to_report finishing = 0
  to_report finished = 0

  abbrev pub to_serve_report : ServeTask E → ℕ
  to_serve_report serving = 1
  to_serve_report (failed e) = 1
  to_serve_report stopped = 0

  abbrev pub is_finished : ShutdownTask E → Bool
  is_finished finished = true
  is_finished _ = false

-- What holds in every state that is reached.
module _ {E : Type 0} (N : Failures E) where
  abbrev pub Came : E → Type 0
  Came e = N.ServeFails e ⊎ N.ShutdownFails e

  pub record Inv (s : Server E) : Type 0 where
    pub places : length s.errors + (to_report s.shutdown + to_serve_report s.serve) ≤ 2
    pub closed_last : s.closed ≡ is_finished s.shutdown
    pub serve_came : (e : E) → s.serve ≡ failed e → N.ServeFails e
    pub shutdown_came : (e : E) → s.shutdown ≡ reporting e → N.ShutdownFails e
    pub errors_came : All Came s.errors

  Inv-started : Inv started
  Inv-started = record {
    places = omega arith;
    closed_last = refl;
    serve_came = λ e h. cc;
    shutdown_came = λ e h. cc;
    errors_came = tt;
  }

  -- The number of places that both goroutines still need, once one of them has moved on.
  after_shutdown-Inv :
      {s : Server E} (r : Option (ShutdownError E))
      → Inv s
      → ShutsDown N r
      → s.shutdown ≡ waiting
      → Inv (record s { shutdown = after_shutdown r })
  after_shutdown-Inv {s} r inv h w = by_result r h
    where
      room : length s.errors + (1 + to_serve_report s.serve) ≤ 2
      room = omega (arith, inv.places, ap to_report w)

      open_still : s.closed ≡ false
      open_still = inv.closed_last ∙ ap is_finished w

      ended : Inv (record s { shutdown = finishing })
      ended = record {
        places = omega (arith, room);
        closed_last = open_still;
        serve_came = inv.serve_came;
        shutdown_came = λ e h. cc;
        errors_came = inv.errors_came;
      }

      by_result :
          (r : Option (ShutdownError E))
          → ShutsDown N r
          → Inv (record s { shutdown = after_shutdown r })
      by_result none h = ended
      by_result (some deadline_exceeded) h = ended
      by_result (some (not_shut_down e)) h = record {
        places = room;
        closed_last = open_still;
        serve_came = inv.serve_came;
        shutdown_came =
            λ e' same. let named : e ≡ e' = cc in subst (λ x. N.ShutdownFails x) named h;
        errors_came = inv.errors_came;
      }

  after_serve-Inv :
      {s : Server E} (r : Option (ServeError E))
      → Inv s
      → Serves N r
      → s.serve ≡ serving
      → Inv (record s { serve = after_serve r })
  after_serve-Inv {s} r inv h w = by_result r h
    where
      room : length s.errors + (to_report s.shutdown + 1) ≤ 2
      room = omega (arith, inv.places, ap to_serve_report w)

      ended : Inv (record s { serve = stopped })
      ended = record {
        places = omega (arith, room);
        closed_last = inv.closed_last;
        serve_came = λ e h. cc;
        shutdown_came = inv.shutdown_came;
        errors_came = inv.errors_came;
      }

      by_result :
          (r : Option (ServeError E)) → Serves N r → Inv (record s { serve = after_serve r })
      by_result none h = ended
      by_result (some server_closed) h = ended
      by_result (some (not_served e)) h = record {
        places = room;
        closed_last = inv.closed_last;
        serve_came = λ e' same. let named : e ≡ e' = cc in subst (λ x. N.ServeFails x) named h;
        shutdown_came = inv.shutdown_came;
        errors_came = inv.errors_came;
      }

  pub Step-Inv : {s t : Server E} → Step N s t → Inv s → Inv t
  Step-Inv {s} cancels inv = record {
    places = inv.places;
    closed_last = inv.closed_last;
    serve_came = inv.serve_came;
    shutdown_came = inv.shutdown_came;
    errors_came = inv.errors_came;
  }
  Step-Inv (shuts_down r h c w) inv = after_shutdown-Inv r inv h w
  Step-Inv {s} (reports {e} {t} w h) inv =
      subst (λ u. Inv (record u { shutdown = finishing })) (sym (send_error-done e s t h).1)
        (record {
          places = omega (arith, inv.places, ap to_report w, length-append s.errors (e ∷ []));
          closed_last = inv.closed_last ∙ ap is_finished w;
          serve_came = inv.serve_came;
          shutdown_came = λ e h. cc;
          errors_came =
              All-append Came s.errors (e ∷ []) inv.errors_came (inr (inv.shutdown_came e w), tt);
        })
  Step-Inv (closes w) inv = record {
    places = omega (arith, inv.places, ap to_report w);
    closed_last = refl;
    serve_came = inv.serve_came;
    shutdown_came = λ e h. cc;
    errors_came = inv.errors_came;
  }
  Step-Inv (serves r h w) inv = after_serve-Inv r inv h w
  Step-Inv {s} (serve_reports {e} {t} w h) inv =
      subst (λ u. Inv (record u { serve = stopped })) (sym (send_error-done e s t h).1)
        (record {
          places = omega (arith, inv.places, ap to_serve_report w, length-append s.errors (e ∷ []));
          closed_last = inv.closed_last;
          serve_came = λ e h. cc;
          shutdown_came = inv.shutdown_came;
          errors_came =
              All-append Came s.errors (e ∷ []) inv.errors_came (inl (inv.serve_came e w), tt);
        })
  Step-Inv {s} (receives {a} {t} c h) inv =
      let (es, same, got) = receive_error-cases a s t h in
      subst Inv (sym same) (record {
        places = elim got [
          | inl (n, c, held) ↦ omega (arith, inv.places, ap length held)
          | inr (e, n, held) ↦ omega (arith, inv.places, ap length held)
        ];
        closed_last = inv.closed_last;
        serve_came = inv.serve_came;
        shutdown_came = inv.shutdown_came;
        errors_came = elim got [
          | inl (n, c, held) ↦ subst (All Came) held inv.errors_came
          | inr (e, n, held) ↦ (subst (All Came) held inv.errors_came).1
        ];
      })

  pub Reach-Inv : {s : Server E} → Reach N s → Inv s
  Reach-Inv start = Inv-started
  Reach-Inv (later r st) = Step-Inv st (Reach-Inv r)
