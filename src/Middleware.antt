-- ===== src/Middleware.antt =====
-- pkg/middleware: `Apply`, and the response writer of `Logging`, which notes what a handler sends.
pub mod Order
pub mod Spy
pub mod Contexts
pub mod Served
use radio_chatter.Common.{
  ℕ, zero, suc, ◌+◌, Bool, true, false, ◌&&◌, not, List, [], ◌∷◌, Option, none, some, get_elem?,
  length, within, Result, ok, err, ◌==◌, if◌then◌else◌,
}

module _ {Handler : Type 0} where
  -- The loop of `Apply`, from `i` down to 0; `middleware[i]` is in range there.
  unfoldable pub apply_from : ℕ → List (Handler → Handler) → Handler → Handler
  apply_from zero middleware handler = handler
  apply_from (suc i) middleware handler =
      apply_from i middleware
        (elim (get_elem? middleware i) [ none ↦ handler | some m ↦ m handler ])

  -- `Apply`
  unfoldable pub apply : Handler → List (Handler → Handler) → Handler
  apply handler middleware = apply_from (length middleware) middleware handler

-- A response of `net/http`: the status, once it has been sent, and the bytes of the body.
pub record Response : Type 0 where
  pub status : Option ℕ
  pub body : ℕ

-- `http.ResponseWriter.WriteHeader`: an informational code is no status, the first other code is the
-- status, and later ones are ignored. A code that has not three digits panics.
unfoldable pub response_header : ℕ → Response → Option Response
response_header code r =
    if within 100 999 code
    then if within 100 199 code && not (code == 101)
      then some r
      else elim r.status [ none ↦ some (record r { status = some code }) | some sent ↦ some r ]
    else none

-- `Write`, of which `written` bytes are taken: without a status, 200 is sent first.
unfoldable pub response_write : ℕ → Response → Response
response_write written r = record {
  status = elim r.status [ none ↦ some 200 | some sent ↦ some sent ];
  body = r.body + written;
}

-- `recoveryLogger.Println`: what is logged as the payload of a panic.
pub data Payload (A : Type 0) : Type 0 where
  value : A → Payload A
  values : List A → Payload A

abbrev pub panic_payload : {A : Type 0} → List A → Payload A
panic_payload (v ∷ []) = value v
panic_payload vs = values vs

-- `spyResponseWriter.Hijack`: the writer behind it may have no such method.
pub data HijackError (E : Type 0) : Type 0 where
  cant_hijack : HijackError E
  not_hijacked : E → HijackError E

abbrev pub hijack : {Conn E : Type 0} → Option (Result E Conn) → Result (HijackError E) Conn
hijack none = err cant_hijack
hijack (some (err e)) = err (not_hijacked e)
hijack (some (ok conn)) = ok conn

-- `spyResponseWriter`
pub record SpyResponseWriter : Type 0 where
  pub code : ℕ
  pub bytes_written : ℕ
  pub inner : Response

abbrev pub new_spy : SpyResponseWriter
new_spy = record { code = 0; bytes_written = 0; inner = record { status = none; body = 0 } }

-- What a handler calls.
pub data Call : Type 0 where
  write_header : ℕ → Call
  write : ℕ → Call

-- `spyResponseWriter.WriteHeader` and `spyResponseWriter.Write`; a panic is `none`.
unfoldable pub spy_call : Call → SpyResponseWriter → Option SpyResponseWriter
spy_call (write_header code) s = elim (response_header code s.inner) [
  | none ↦ none
  | some r ↦ some (record s { code = code; inner = r })
]
spy_call (write written) s =
    some (record s {
      bytes_written = s.bytes_written + written;
      inner = response_write written s.inner;
    })

unfoldable pub spy_calls : List Call → SpyResponseWriter → Option SpyResponseWriter
spy_calls [] s = some s
spy_calls (c ∷ calls) s = elim (spy_call c s) [ none ↦ none | some s' ↦ spy_calls calls s' ]
