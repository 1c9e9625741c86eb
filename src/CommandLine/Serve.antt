-- ===== src/CommandLine/Serve.antt =====
-- cmd/radio-chatter/serve.go: `serve` behind the set-up, the goroutine that it starts, and the requests
-- that the server handles.
use radio_chatter.Common.{ℕ, zero, suc, ◌≡◌, refl, sym, ◌∙◌, Bool, true, false}

-- Where `serve` is: in `ListenAndServe`, at its end, or in `logger.Fatal`, which ends the process.
pub data Main (E : Type 0) : Type 0 where
  listening : Main E
  returned : Main E
  fatal : E → Main E

pub record Serving (E : Type 0) : Type 0 where
  pub main : Main E
  pub interrupted : Bool
  pub shutting_down : Bool
  pub in_flight : ℕ
  pub storage_closed : Bool

module _ {E : Type 0} where
  abbrev pub serving : Serving E
  serving = record {
    main = listening;
    interrupted = false;
    shutting_down = false;
    in_flight = 0;
    storage_closed = false;
  }

  -- What happens next, as long as the process has not ended. `ListenAndServe` returns
  -- `http.ErrServerClosed` as soon as `Shutdown` is called, which waits for the requests;
  -- `Shutdown` may fail, also by its deadline.
  pub data ServeStep (s : Serving E) : Serving E → Type 0 where
    accepts :
        s.main ≡ listening
        → s.shutting_down ≡ false
        → ServeStep s (record s { in_flight = suc s.in_flight })
    answers : {n : ℕ} → s.in_flight ≡ suc n → ServeStep s (record s { in_flight = n })
    interrupts : ServeStep s (record s { interrupted = true })
    shuts_down : s.interrupted ≡ true → ServeStep s (record s { shutting_down = true })
    closed :
        s.main ≡ listening
        → s.shutting_down ≡ true
        → ServeStep s (record s { main = returned; storage_closed = true })
    fails : (e : E) → s.main ≡ listening → ServeStep s (record s { main = fatal e })
    shutdown_fails :
        (e : E)
        → s.main ≡ listening
        → s.shutting_down ≡ true
        → ServeStep s (record s { main = fatal e })

  pub data ServeReach : Serving E → Type 0 where
    start : ServeReach serving
    later : {s t : Serving E} → ServeReach s → ServeStep s t → ServeReach t

  busy : (n : ℕ) → ServeReach (record serving { in_flight = n })
  busy zero = start
  busy (suc n) = later (busy n) (accepts refl refl)

  -- However many requests are being handled when the program is interrupted: `serve` can return with
  -- all of them still in flight, and has then closed the storage that they use.
  pub serve-cuts_off :
      (n : ℕ)
      → (s : Serving E) × ServeReach s
        × (s.main ≡ returned)
        × (s.storage_closed ≡ true)
        × (s.in_flight ≡ n)
  serve-cuts_off n = (
    record serving {
      main = returned;
      interrupted = true;
      shutting_down = true;
      in_flight = n;
      storage_closed = true;
    },
    later (later (later (busy n) interrupts) (shuts_down refl)) (closed refl refl),
    refl,
    refl,
    refl,
  )

  -- What holds while the program runs.
  pub record IsOrderly (s : Serving E) : Type 0 where
    pub by_interrupt : s.shutting_down ≡ true → s.interrupted ≡ true
    pub after_shutdown : s.main ≡ returned → s.shutting_down ≡ true
    pub closed_at_end : s.storage_closed ≡ true → s.main ≡ returned
    pub closes : s.main ≡ returned → s.storage_closed ≡ true

  ServeStep-IsOrderly : {s t : Serving E} → ServeStep s t → IsOrderly s → IsOrderly t
  ServeStep-IsOrderly (accepts m h) o = record {
    by_interrupt = o.by_interrupt;
    after_shutdown = o.after_shutdown;
    closed_at_end = o.closed_at_end;
    closes = o.closes;
  }
  ServeStep-IsOrderly (answers h) o = record {
    by_interrupt = o.by_interrupt;
    after_shutdown = o.after_shutdown;
    closed_at_end = o.closed_at_end;
    closes = o.closes;
  }
  ServeStep-IsOrderly interrupts o = record {
    by_interrupt = λ h. refl;
    after_shutdown = o.after_shutdown;
    closed_at_end = o.closed_at_end;
    closes = o.closes;
  }
  ServeStep-IsOrderly (shuts_down i) o = record {
    by_interrupt = λ h. i;
    after_shutdown = λ h. refl;
    closed_at_end = o.closed_at_end;
    closes = o.closes;
  }
  ServeStep-IsOrderly (closed m d) o = record {
    by_interrupt = o.by_interrupt;
    after_shutdown = λ h. d;
    closed_at_end = λ h. refl;
    closes = λ h. refl;
  }
  ServeStep-IsOrderly (fails e m) o = record {
    by_interrupt = o.by_interrupt;
    after_shutdown = λ h. cc;
    closed_at_end = λ h. let bad : returned ≡ listening = sym (o.closed_at_end h) ∙ m in cc;
    closes = λ h. cc;
  }
  ServeStep-IsOrderly (shutdown_fails e m d) o = record {
    by_interrupt = o.by_interrupt;
    after_shutdown = λ h. cc;
    closed_at_end = λ h. let bad : returned ≡ listening = sym (o.closed_at_end h) ∙ m in cc;
    closes = λ h. cc;
  }

  -- As long as the program runs: the server is only shut down once the program is interrupted;
  -- `serve` only returns once the server is being shut down; and the storage is closed exactly if
  -- `serve` has returned, so that no request that is answered before meets a closed storage.
  pub ServeReach-IsOrderly : {s : Serving E} → ServeReach s → IsOrderly s
  ServeReach-IsOrderly start = record {
    by_interrupt = λ h. cc;
    after_shutdown = λ h. cc;
    closed_at_end = λ h. cc;
    closes = λ h. cc;
  }
  ServeReach-IsOrderly (later r st) = ServeStep-IsOrderly st (ServeReach-IsOrderly r)
