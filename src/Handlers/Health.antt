-- ===== src/Handlers/Health.antt =====
-- What the health check answers.
use radio_chatter.Common.{
  ℕ, ◌≡◌, ◌↔◌, ◌⊎◌, inl, inr, refl, ap, ◌∙◌, sym, Bool, true, false, [], ◌∷◌, Option, none, some,
  Bytes, arith, if◌then◌else◌,
}
use mathlib.Core.Option.{none-ne-some}
use radio_chatter.Middleware.{SpyResponseWriter, new_spy, write_header, write, spy_calls}
use radio_chatter.Middleware.Spy.{explicit_status}
use radio_chatter.Handlers.{Probe, HealthStatus, database_health, healthz}

module _ {Float64 : Type 0} (p : Probe Float64) where
  database_health-healthy :
      (database_health p).healthy ≡ true ↔ ((p.db_error ≡ none) × (p.ping_error ≡ none))
  unfolding database_health
  database_health-healthy = by_errors p.db_error p.ping_error refl refl
    where
      by_errors :
          (db ping : Option Bytes)
          → p.db_error ≡ db
          → p.ping_error ≡ ping
          → (database_health p).healthy ≡ true ↔ ((p.db_error ≡ none) × (p.ping_error ≡ none))
      by_errors (some e) ping d g =
          rw (d, database_health) (λ h. cc, λ h. absurd (none-ne-some e (sym h.0)))
      by_errors none (some e) d g =
          rw (d, database_health) (rw g (λ h. cc, λ h. absurd (none-ne-some e (sym h.1))))
      by_errors none none d g = rw (d, database_health) (rw g (λ h. (refl, refl), λ h. refl))

  -- The health check answers with the status 200 if the database has a connection and answers a ping,
  -- and with 500 otherwise, and this is the code in the log of the request.
  pub healthz-status :
      (taken : HealthStatus Float64 → ℕ)
      → (s : SpyResponseWriter) × (spy_calls (healthz taken p) new_spy ≡ some s)
        × (s.inner.status ≡ some s.code)
        × ((s.code ≡ 200) ⊎ (s.code ≡ 500))
        × (s.code ≡ 200 ↔ ((p.db_error ≡ none) × (p.ping_error ≡ none)))
  unfolding healthz
  healthz-status taken = by_health (database_health p).healthy refl
    where
      written : ℕ
      written =
          taken (record { healthy = (database_health p).healthy; database = database_health p })

      status_first :
          {b : Bool}
          → (database_health p).healthy ≡ b
          → spy_calls (healthz taken p) new_spy
            ≡ spy_calls
                ((if b then write_header 200 else write_header 500) ∷ write written ∷ [])
                new_spy
      status_first e =
          ap
            (λ b.
              spy_calls ((if b then write_header 200 else write_header 500) ∷ write written ∷ [])
                new_spy)
            e

      by_health :
          (b : Bool)
          → (database_health p).healthy ≡ b
          → (s : SpyResponseWriter) × (spy_calls (healthz taken p) new_spy ≡ some s)
            × (s.inner.status ≡ some s.code)
            × ((s.code ≡ 200) ⊎ (s.code ≡ 500))
            × (s.code ≡ 200 ↔ ((p.db_error ≡ none) × (p.ping_error ≡ none)))
      by_health true e =
          let (s, calls, code, status) =
            explicit_status 200 (write written ∷ []) (omega arith) (omega arith) (tt, tt) in
          (
            s,
            status_first e ∙ calls,
            status ∙ ap some (sym code),
            inl code,
            (λ h. database_health-healthy.0 e, λ h. code),
          )
      by_health false e =
          let (s, calls, code, status) =
            explicit_status 500 (write written ∷ []) (omega arith) (omega arith) (tt, tt) in
          (
            s,
            status_first e ∙ calls,
            status ∙ ap some (sym code),
            inr code,
            (
              λ h. absurd (omega (arith, h, code)),
              λ h. let bad : true ≡ false = sym (database_health-healthy.1 h) ∙ e in cc,
            ),
          )
