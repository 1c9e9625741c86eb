-- ===== src/Middleware/Served.antt =====
-- What `RequestID` and `Logging` do together around any handler.
use radio_chatter.Common.{
  Bool, true, false, ◌≡◌, refl, ap, Option, none, some, [], ◌∷◌, ◌++◌, Bytes, equal, if◌then◌else◌,
  append_assoc,
}
use radio_chatter.Middleware.Contexts.{
  Loggers, Context, request_headers, handled, response_headers, Wire, Handler, request_id, logging,
  logged, log_line, with_logger,
}

module _ (Z : Loggers) (logger : Z.Logger) (fresh : Bytes) where
  -- The logger of the request.
  abbrev pub named : Z.Logger
  named = Z.with_request_id fresh logger

  -- What the handler behind the two is called with.
  abbrev pub inside : Context Z
  inside = record { request_id_key = some fresh; logger_key = some named }

  abbrev pub given : Wire Z → Wire Z
  given w = record {
    x_request_id = if equal w.x_request_id [] then fresh else w.x_request_id;
    status = w.status;
    lines = w.lines ++ (request_headers named ∷ []);
  }

  -- What it ends with, behind the two.
  abbrev pub ends : Wire Z × Option Z.Panic → Wire Z × Option Z.Panic
  ends (after, some v) = (after, some v)
  ends (after, none) =
      (record after { lines = after.lines ++ (handled named ∷ response_headers named ∷ []) }, none)

  abbrev pub served : Handler Z → Handler Z
  served behind ctx w = ends (behind inside (given w))

  logged-ends :
      (behind : Handler Z) (ctx : Context Z) (w : Wire Z)
      → logged Z named behind ctx w
        ≡ ends (behind (with_logger Z ctx named) (log_line Z (request_headers named) w))
  unfolding logged
  logged-ends behind ctx w =
      by_end (behind (with_logger Z ctx named) (log_line Z (request_headers named) w))
    where
      by_end :
          (r : Wire Z × Option Z.Panic)
          → elim r.1 [
            | some v ↦ (r.0, some v)
            | none ↦ (log_line Z (response_headers named) (log_line Z (handled named) r.0), none)
          ]
            ≡ ends r
      by_end (after, some v) = refl
      by_end (after, none) =
          ap (λ ls. (record after { lines = ls }, none))
            (append_assoc after.lines (handled named ∷ []) (response_headers named ∷ []))

  pub request_id-served :
      (behind : Handler Z) (ctx : Context Z) (w : Wire Z)
      → request_id Z fresh (logging Z logger behind) ctx w ≡ served behind ctx w
  unfolding request_id logging
  request_id-served behind ctx w = by_header (equal w.x_request_id [])
    where
      by_header :
          (b : Bool)
          → logged Z named behind
              (record ctx { request_id_key = some fresh })
              (if b then record w { x_request_id = fresh } else w)
            ≡ ends (
                behind inside (record {
                  x_request_id = if b then fresh else w.x_request_id;
                  status = w.status;
                  lines = w.lines ++ (request_headers named ∷ []);
                }))
      by_header true = logged-ends behind _ _
      by_header false = logged-ends behind _ _
