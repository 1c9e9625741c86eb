-- ===== src/Handlers/Requests.antt =====
-- What a request meets on its way through the middleware of `Router`.
use radio_chatter.Common.{
  ◌≡◌, Bool, true, false, [], ◌∷◌, ◌++◌, List, Option, none, some, Bytes, equal,
}
use radio_chatter.Middleware.{value}
use radio_chatter.Middleware.Contexts.{
  Loggers, Context, Wire, Handler, get_logger, get_request_id, request_headers, handled,
  response_headers, panic_occurred, println,
}
use radio_chatter.Middleware.Served.{ends, served}
use radio_chatter.Handlers.{Gorilla, routes}

module _ (Z : Loggers) where
  -- `WriteHeader` with the code 500.
  abbrev pub send_500 : Wire Z → Wire Z
  send_500 w = record w { status = elim w.status [ none ↦ some 500 | some sent ↦ some sent ] }

  -- What is documented of the middleware of other packages: the recovery catches a panic of the handler
  -- behind it, answers with the code 500 and tells its logger the payload, and the compression hands
  -- the request on.
  pub record IsGorilla (M : Gorilla Z) : Type 0 where
    pub recovers :
        (print : List Z.Panic → Wire Z → Wire Z) (h : Handler Z) (ctx : Context Z) (w : Wire Z)
        (v : Z.Panic)
        → (h ctx w).1 ≡ some v
        → M.recovery_handler print h ctx w ≡ (print (v ∷ []) (send_500 (h ctx w).0), none)
    pub returns :
        (print : List Z.Panic → Wire Z → Wire Z) (h : Handler Z) (ctx : Context Z) (w : Wire Z)
        → (h ctx w).1 ≡ none
        → M.recovery_handler print h ctx w ≡ h ctx w
    pub compresses : (h : Handler Z) (ctx : Context Z) (w : Wire Z) → M.compress h ctx w ≡ h ctx w

  -- The request is none that CORS answers by itself, such as a preflight.
  abbrev pub IsHandedOn : Gorilla Z → Type 0
  IsHandedOn M =
      (origins headers : List Bytes) (h : Handler Z) (ctx : Context Z) (w : Wire Z)
      → M.cors origins headers h ctx w ≡ h ctx w

  -- The routes are called once, with `seen` and `given`, and `r` is made of what they end with.
  pub record IsAnswered (behind : Handler Z) (logger panics : Z.Logger) (fresh : Bytes) (w : Wire Z)
      (r : Wire Z × Option Z.Panic) : Type 0 where
    pub seen : Context Z
    pub start : Wire Z
    pub identifier : get_request_id Z seen ≡ (fresh, true)
    pub own_logger : (global : Z.Logger) → get_logger Z global seen ≡ Z.with_request_id fresh logger
    pub new_header : w.x_request_id ≡ [] → start.x_request_id ≡ fresh
    pub old_header : equal w.x_request_id [] ≡ false → start.x_request_id ≡ w.x_request_id
    pub nothing_sent : start.status ≡ w.status
    pub logged_before :
        start.lines ≡ w.lines ++ (request_headers (Z.with_request_id fresh logger) ∷ [])
    pub no_panic : r.1 ≡ none
    pub header : r.0.x_request_id ≡ (behind seen start).0.x_request_id
    pub returned :
        (behind seen start).1 ≡ none
        → (r.0.status ≡ (behind seen start).0.status)
          × (r.0.lines
              ≡ (behind seen start).0.lines
                ++ (handled (Z.with_request_id fresh logger)
                    ∷ response_headers (Z.with_request_id fresh logger)
                    ∷ []))
    pub panicked :
        (v : Z.Panic)
        → (behind seen start).1 ≡ some v
        → (r.0.status ≡ (send_500 (behind seen start).0).status)
          × (r.0.lines ≡ (behind seen start).0.lines ++ (panic_occurred panics (value v) ∷ []))

module _ (Z : Loggers) (M : Gorilla Z) (good : IsGorilla Z M) (handed_on : IsHandedOn Z M)
    (panics : Z.Logger → Z.Logger) (logger : Z.Logger) (dev_mode : Bool) (fresh : Bytes) where
  abbrev mux : Handler Z
  mux = M.mux (routes dev_mode)

  -- Behind the recovery.
  abbrev protected : Handler Z
  protected = served Z logger fresh mux

  abbrev recovered : Wire Z × Option Z.Panic → Wire Z × Option Z.Panic
  recovered (after, none) = (after, none)
  recovered (after, some v) = (println Z (panics logger) (v ∷ []) (send_500 Z after), none)

  -- What the routes end with, as it leaves the router.
  abbrev left : Wire Z × Option Z.Panic → Wire Z × Option Z.Panic
  left r = recovered (ends Z logger fresh r)
