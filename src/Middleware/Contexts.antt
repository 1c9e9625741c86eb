-- ===== src/Middleware/Contexts.antt =====
-- pkg/middleware/requestid.go, logging.go and recover.go: what the middleware puts into the context of a
-- request, what it logs, and what a panic of a handler skips. The codes and counts that `Logging` notes
-- are those of the spy writer.
use radio_chatter.Common.{
  ℕ, Bool, true, false, List, [], ◌∷◌, ◌++◌, Option, none, some, Bytes, equal, if◌then◌else◌,
}
use radio_chatter.Middleware.{Payload, panic_payload}

-- The loggers of zap, and the values that a panic carries. `With` adds the field `request-id`, and
-- `DPanic` panics if the logger is one for development.
pub record Loggers : Type 1 where
  pub Logger : Type 0
  pub Panic : Type 0
  pub with_request_id : Bytes → Logger → Logger
  pub d_panic : Logger → Option Panic

module _ (Z : Loggers) where
  -- The two keys that the package uses.
  pub record Context : Type 0 where
    pub request_id_key : Option Bytes
    pub logger_key : Option Z.Logger

  -- A line of the log of a request: which logger it went to.
  pub data Line : Type 0 where
    not_after_request_id : Z.Logger → Line
    request_headers : Z.Logger → Line
    handled : Z.Logger → Line
    response_headers : Z.Logger → Line
    panic_occurred : Z.Logger → Payload Z.Panic → Line

  -- What a handler changes: the header `X-Request-Id` of the response, empty if it is not set, the
  -- status, once it has been sent, and the log.
  pub record Wire : Type 0 where
    pub x_request_id : Bytes
    pub status : Option ℕ
    pub lines : List Line

  -- A handler on one request. It may end with a panic.
  abbrev pub Handler : Type 0
  Handler = Context → Wire → Wire × Option Z.Panic

  -- `GetLogger`; without a logger in the context, it is the global one.
  abbrev pub get_logger : Z.Logger → Context → Z.Logger
  get_logger global ctx = elim ctx.logger_key [ some logger ↦ logger | none ↦ global ]

  abbrev pub with_logger : Context → Z.Logger → Context
  with_logger ctx logger = record ctx { logger_key = some logger }

  -- `GetRequestID`
  abbrev pub get_request_id : Context → Bytes × Bool
  get_request_id ctx = elim ctx.request_id_key [ some id ↦ (id, true) | none ↦ ([], false) ]

  abbrev pub log_line : Line → Wire → Wire
  log_line line w = record w { lines = w.lines ++ (line ∷ []) }

  -- `RequestID`; `fresh` is the identifier that `uuid.New` makes.
  unfoldable pub request_id : Bytes → Handler → Handler
  request_id fresh h ctx w =
      let ctx' : Context = record ctx { request_id_key = some fresh } in
      h ctx' (if equal w.x_request_id [] then record w { x_request_id = fresh } else w)

  -- `Logging` behind its check of the identifier. A panic of the handler skips the two later lines.
  unfoldable pub logged : Z.Logger → Handler → Handler
  logged sub_logger h ctx w =
      let (after, panicked) =
        h (with_logger ctx sub_logger) (log_line (request_headers sub_logger) w) in
      elim panicked [
        | some v ↦ (after, some v)
        | none ↦
            (log_line (response_headers sub_logger) (log_line (handled sub_logger) after), none)
      ]

  -- `Logging`
  unfoldable pub logging : Z.Logger → Handler → Handler
  logging logger h ctx w =
      let (id, found) = get_request_id ctx in
      let sub_logger = Z.with_request_id id logger in
      let missing = log_line (not_after_request_id logger) w in
      if found then logged sub_logger h ctx w else elim (Z.d_panic logger) [
        | some v ↦ (missing, some v)
        | none ↦ logged sub_logger h ctx missing
      ]

  -- `recoveryLogger.Println`
  abbrev pub println : Z.Logger → List Z.Panic → Wire → Wire
  println logger values w = log_line (panic_occurred logger (panic_payload values)) w

  -- `Recover`, over `handlers.RecoveryHandler`, which takes the method of the logger.
  abbrev pub recover :
      ((List Z.Panic → Wire → Wire) → Handler → Handler) → Z.Logger → Handler → Handler
  recover recovery_handler logger h = recovery_handler (println logger) h
