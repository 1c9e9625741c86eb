-- ===== src/Tests/Handlers.antt =====
-- A request that goes through the middleware, and panics in the end.
use radio_chatter.Common.{
  ◌≡◌, refl, true, List, [], ◌∷◌, ◌++◌, Option, none, some, Bytes, codes, equal,
}
use radio_chatter.Middleware.{value, apply, apply_from}
use radio_chatter.Middleware.Contexts.{
  Loggers, Context, Wire, Handler, get_request_id, request_headers, panic_occurred, request_id,
  logging, logged,
}
use radio_chatter.Handlers.{Gorilla, router, routes}
use radio_chatter.Handlers.Requests.{send_500}

-- A logger is its name, and so is what a panic carries.
abbrev texts : Loggers
texts = record {
  Logger = Bytes;
  Panic = Bytes;
  with_request_id = λ id logger. logger ++ (b' ' ∷ id);
  d_panic = λ logger. none;
}

-- The routes panic with the identifier that they find in the context.
abbrev lost : Handler texts
lost ctx w = (w, some (get_request_id texts ctx).0)

abbrev caught :
    (List Bytes → Wire texts → Wire texts) → Wire texts × Option Bytes → Wire texts × Option Bytes
caught print (after, none) = (after, none)
caught print (after, some v) = (print (v ∷ []) (send_500 texts after), none)

abbrev plain : Gorilla texts
plain = record {
  mux = λ routes. lost;
  recovery_handler = λ print h ctx w. caught print (h ctx w);
  compress = λ h. h;
  cors = λ origins headers h. h;
}

abbrev bare : Context texts
bare = record { request_id_key = none; logger_key = none }

abbrev unanswered : Wire texts
unanswered = record { x_request_id = []; status = none; lines = [] }

abbrev panics : Bytes → Bytes
panics logger = logger ++ codes ".panics"

-- The whole answer, and the two lines of its log.
answer : router texts plain panics (codes "radio") true (codes "id-1") bare unanswered ≡ (
  record {
    x_request_id = codes "id-1";
    status = some 500;
    lines =
        request_headers (codes "radio id-1")
        ∷ panic_occurred (codes "radio.panics") (value (codes "id-1"))
        ∷ [];
  },
  none,
)
unfolding router request_id logging logged routes apply apply_from equal
answer = refl
