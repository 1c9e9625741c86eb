-- ===== src/OnDisk/Server.antt =====
-- pkg/on_disk_storage/storage.go: `New`, `Close`, and the two goroutines that they start and stop. One
-- waits for the cancellation and shuts the server down, the other one serves; both report to
-- `errChan`, a channel of two places.
pub mod Channel
pub mod Invariant
pub mod Lifecycle
use radio_chatter.Common.{
  ℕ, ◌≡◌, Bool, true, false, List, [], ◌∷◌, ◌++◌, Option, none, some, ltb, length, Result, ok, err,
  if◌then◌else◌,
}

-- What `server.Shutdown` and `server.Serve` fail with.
pub data ShutdownError (E : Type 0) : Type 0 where
  deadline_exceeded : ShutdownError E
  not_shut_down : E → ShutdownError E

pub data ServeError (E : Type 0) : Type 0 where
  server_closed : ServeError E
  not_served : E → ServeError E

-- Where the goroutines are: the first one behind the end waits for the cancellation, is about to send
-- an error, is about to close the channel, and has closed it.
pub data ShutdownTask (E : Type 0) : Type 0 where
  waiting : ShutdownTask E
  reporting : E → ShutdownTask E
  finishing : ShutdownTask E
  finished : ShutdownTask E

pub data ServeTask (E : Type 0) : Type 0 where
  serving : ServeTask E
  failed : E → ServeTask E
  stopped : ServeTask E

-- The server, and `errChan` with what it holds.
pub record Server (E : Type 0) : Type 0 where
  pub cancelled : Bool
  pub shutdown : ShutdownTask E
  pub serve : ServeTask E
  pub errors : List E
  pub closed : Bool

-- An operation on a channel.
pub data Outcome (A : Type 0) : Type 0 where
  done : A → Outcome A
  blocks : Outcome A
  panics : Outcome A

-- What the network may make the two calls fail with, but for the deadline and the orderly end.
pub record Failures (E : Type 0) : Type 1 where
  pub ShutdownFails : E → Type 0
  pub ServeFails : E → Type 0

module _ {E : Type 0} where
  abbrev pub started : Server E
  started = record {
    cancelled = false;
    shutdown = waiting;
    serve = serving;
    errors = [];
    closed = false;
  }

  -- `New`; the address is that of the listener, if there is one.
  abbrev pub new : {Addr : Type 0} → Result E Addr → Result E (Addr × Server E)
  new (err e) = err e
  new (ok addr) = ok (addr, started)

  -- The goroutines behind the two calls.
  abbrev pub after_shutdown : Option (ShutdownError E) → ShutdownTask E
  after_shutdown (some (not_shut_down e)) = reporting e
  after_shutdown _ = finishing

  abbrev pub after_serve : Option (ServeError E) → ServeTask E
  after_serve (some (not_served e)) = failed e
  after_serve _ = stopped

  -- `errChan <- err`
  unfoldable pub send_error : E → Server E → Outcome (Server E)
  send_error e s =
      if s.closed
      then panics
      else if ltb (length s.errors) 2
      then done (record s { errors = s.errors ++ (e ∷ []) })
      else blocks

  -- `<-s.errors`; `none` is nil, which a closed channel gives.
  abbrev received : Bool → Server E → List E → Outcome (Option E × Server E)
  received closed s (e ∷ es) = done (some e, record s { errors = es })
  received true s [] = done (none, s)
  received false s [] = blocks

  unfoldable pub receive_error : Server E → Outcome (Option E × Server E)
  receive_error s = received s.closed s s.errors

  -- The finalizer. In development the logger panics before the server is told to stop.
  abbrev pub finalize : Bool → Server E → Outcome (Server E)
  finalize development s =
      if s.cancelled
      then done s
      else if development
      then panics
      else done (record s { cancelled = true })

module _ {E : Type 0} (N : Failures E) where
  abbrev pub ShutsDown : Option (ShutdownError E) → Type 0
  ShutsDown (some (not_shut_down e)) = N.ShutdownFails e
  ShutsDown _ = Unit

  abbrev pub Serves : Option (ServeError E) → Type 0
  Serves (some (not_served e)) = N.ServeFails e
  Serves _ = Unit

  -- What happens next. `Close` first cancels, as the finalizer does, and then receives.
  pub data Step (s : Server E) : Server E → Type 0 where
    cancels : Step s (record s { cancelled = true })
    shuts_down :
        (r : Option (ShutdownError E))
        → ShutsDown r
        → s.cancelled ≡ true
        → s.shutdown ≡ waiting
        → Step s (record s { shutdown = after_shutdown r })
    reports :
        {e : E} {t : Server E}
        → s.shutdown ≡ reporting e
        → send_error e s ≡ done t
        → Step s (record t { shutdown = finishing })
    closes : s.shutdown ≡ finishing → Step s (record s { shutdown = finished; closed = true })
    serves :
        (r : Option (ServeError E))
        → Serves r
        → s.serve ≡ serving
        → Step s (record s { serve = after_serve r })
    serve_reports :
        {e : E} {t : Server E}
        → s.serve ≡ failed e
        → send_error e s ≡ done t
        → Step s (record t { serve = stopped })
    receives :
        {a : Option E} {t : Server E}
        → s.cancelled ≡ true
        → receive_error s ≡ done (a, t)
        → Step s t

  pub data Reach : Server E → Type 0 where
    start : Reach started
    later : {s t : Server E} → Reach s → Step s t → Reach t
