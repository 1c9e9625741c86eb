-- ===== src/Handlers.antt =====
-- pkg/handlers: the health check, the routes, and the middleware around them.
pub mod Health
pub mod Requests
use radio_chatter.Common.{
  ℕ, Bool, true, false, List, [], ◌∷◌, ◌++◌, Option, none, some, Bytes, codes, length,
  if◌then◌else◌,
}
use radio_chatter.Ids.Decimal.{format}
use radio_chatter.Middleware.{Call, write_header, write, apply}
use radio_chatter.Middleware.Contexts.{Loggers, Wire, Handler, request_id, logging, recover}

-- `healthy` is the field `Ok`.
pub record DatabaseHealth (Float64 : Type 0) : Type 0 where
  pub healthy : Bool
  pub response_time : Float64
  pub error : Bytes

pub record HealthStatus (Float64 : Type 0) : Type 0 where
  pub healthy : Bool
  pub database : DatabaseHealth Float64

-- What the health check meets: the texts of the errors of `db.DB` and of `PingContext`, if they fail,
-- and the seconds since it has started.
pub record Probe (Float64 : Type 0) : Type 0 where
  pub db_error : Option Bytes
  pub ping_error : Option Bytes
  pub since : Float64
  pub zero_seconds : Float64

module _ {Float64 : Type 0} where
  -- `databaseHealth`
  unfoldable pub database_health : Probe Float64 → DatabaseHealth Float64
  database_health p = elim p.db_error [
    | some text ↦ record { healthy = false; response_time = p.zero_seconds; error = text }
    | none ↦ elim p.ping_error [
      | some text ↦ record { healthy = false; response_time = p.since; error = text }
      | none ↦ record { healthy = true; response_time = p.since; error = [] }
    ]
  ]

  -- `Healthz`: the status, and its JSON text in one write, of which `taken` says how much is written.
  unfoldable pub healthz : (HealthStatus Float64 → ℕ) → Probe Float64 → List Call
  healthz taken p =
      let db_health = database_health p in
      let status : HealthStatus Float64 = record {
        healthy = db_health.healthy;
        database = db_health;
      } in
      (if status.healthy then write_header 200 else write_header 500) ∷ write (taken status) ∷ []

-- A route: its path, or the prefix of its paths, the methods, where `[]` are all, and whether the
-- schemes are restricted to those of HTTP and web sockets.
pub data Endpoint : Type 0 where
  health_check graphql_server playground graphql_schema : Endpoint
  pprof : Bytes → Endpoint

pub record Route : Type 0 where
  pub path : Bytes
  pub any_below : Bool
  pub schemes : List Bytes
  pub methods : List Bytes
  pub endpoint : Endpoint

abbrev exact : Bytes → List Bytes → List Bytes → Endpoint → Route
exact path schemes methods endpoint = record {
  path = path;
  any_below = false;
  schemes = schemes;
  methods = methods;
  endpoint = endpoint;
}

-- The routes below `/debug/pprof`; whatever else stands there is the index.
abbrev pub debug_routes : List Route
debug_routes =
    exact (codes "/debug/pprof/cmdline") [] [] (pprof (codes "cmdline"))
    ∷ exact (codes "/debug/pprof/profile") [] [] (pprof (codes "profile"))
    ∷ exact (codes "/debug/pprof/symbol") [] [] (pprof (codes "symbol"))
    ∷ exact (codes "/debug/pprof/trace") [] [] (pprof (codes "trace"))
    ∷ record {
      path = codes "/debug/pprof";
      any_below = true;
      schemes = [];
      methods = [];
      endpoint = pprof (codes "index");
    }
    ∷ []

abbrev reading : List Bytes
reading = codes "HEAD" ∷ codes "GET" ∷ []

-- The routes of `Router`.
unfoldable pub routes : Bool → List Route
routes dev_mode =
    (exact (codes "/healthz") [] reading health_check
      ∷ exact (codes "/graphql") (codes "http" ∷ codes "https" ∷ codes "ws" ∷ codes "wss" ∷ [])
          (codes "HEAD" ∷ codes "GET" ∷ codes "POST" ∷ codes "OPTIONS" ∷ []) graphql_server
      ∷ exact (codes "/graphql/playground") [] [] playground
      ∷ exact (codes "/graphql/schema.graphql") [] reading graphql_schema
      ∷ [])
    ++ (if dev_mode then debug_routes else [])

-- The handlers and the middleware of other packages: `mux.Router` over the routes, the recovery
-- handler with the method of its logger, the compression, and CORS with the origins and headers
-- that it allows.
pub record Gorilla (Z : Loggers) : Type 0 where
  pub mux : List Route → Handler Z
  pub recovery_handler : (List Z.Panic → Wire Z → Wire Z) → Handler Z → Handler Z
  pub compress : Handler Z → Handler Z
  pub cors : List Bytes → List Bytes → Handler Z → Handler Z

module _ (Z : Loggers) (M : Gorilla Z) (panics : Z.Logger → Z.Logger) where
  -- `Router`, on one request, for which `uuid.New` makes the identifier `fresh`; `panics` names the
  -- logger of the panics.
  unfoldable pub router : Z.Logger → Bool → Bytes → Handler Z
  router logger dev_mode fresh = apply (M.mux (routes dev_mode)) (
      recover Z M.recovery_handler (panics logger)
      ∷ M.compress
      ∷ request_id Z fresh
      ∷ logging Z logger
      ∷ M.cors (codes "*" ∷ []) (codes "Content-Type" ∷ codes "Origin" ∷ [])
      ∷ [])

-- `graphqlSchema`: the headers, and the calls of the writer; the schema is embedded in the program.
abbrev pub graphql_schema_headers : Bytes → List (Bytes × Bytes)
graphql_schema_headers schema =
    (codes "Content-Type", codes "text/plain")
    ∷ (codes "Content-Disposition", codes "attachment; filename='schema.graphql'")
    ∷ (codes "Content-Length", format (length schema))
    ∷ []

abbrev pub graphql_schema_calls : Bytes → List Call
graphql_schema_calls schema = write_header 200 ∷ write (length schema) ∷ []

-- `isAuthenticatedDirective`, which lets everyone pass.
abbrev pub is_authenticated_directive :
    {Ctx Obj Answer : Type 0} → Ctx → Obj → (Ctx → Answer) → Answer
is_authenticated_directive ctx obj next = next ctx

-- `recoverFunc`: the message for the user, and what it logs is left out; the payload is printed with `%s`.
abbrev pub recover_func : Bytes → Bytes
recover_func payload = codes "Resolver panicked: " ++ payload

-- `logGraphQLErrors`: the response, and the errors in it that are logged. `none` is a nil response.
abbrev pub log_graphql_errors :
    {Ctx Response Error : Type 0}
    → (Response → List Error)
    → Ctx
    → (Ctx → Option Response)
    → Option Response × List Error
log_graphql_errors errors_of ctx next = elim (next ctx) [
  | none ↦ (none, [])
  | some response ↦ (some response, errors_of response)
]
