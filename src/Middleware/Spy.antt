-- ===== src/Middleware/Spy.antt =====
-- What `Logging` reports of a response.
use radio_chatter.Common.{
  ℕ, ◌≤◌, ◌≡◌, refl, List, [], ◌∷◌, none, some, Option-cases, arith, inl, inr,
}
use radio_chatter.Middleware.{
  response_header, response_write, SpyResponseWriter, new_spy, Call, write_header, write, spy_call,
  spy_calls,
}

-- A call that sends no status by itself.
abbrev pub IsWrite : Call → Type 0
IsWrite (write_header code) = ⊥
IsWrite (write written) = Unit

abbrev pub AllWrites : List Call → Type 0
AllWrites [] = Unit
AllWrites (c ∷ calls) = IsWrite c × AllWrites calls

-- The counts agree, and a code that was noted means that the handler sent one.
abbrev pub Agrees : SpyResponseWriter → Type 0
Agrees s = s.bytes_written ≡ s.inner.body

spy_call-Agrees :
    (c : Call) (s s' : SpyResponseWriter) → Agrees s → spy_call c s ≡ some s' → Agrees s'
unfolding spy_call response_header response_write
spy_call-Agrees (write_header code) s s' a e = ground arith
spy_call-Agrees (write written) s s' a e = ground arith

-- The number of bytes in the log is the number of bytes of the body, whatever the handler calls.
pub spy_calls-Agrees :
    (calls : List Call) (s s' : SpyResponseWriter)
    → Agrees s
    → spy_calls calls s ≡ some s'
    → s'.bytes_written ≡ s'.inner.body
unfolding spy_calls
spy_calls-Agrees [] s s' a e = ground arith
spy_calls-Agrees (c ∷ calls) s s' a e = elim (Option-cases (spy_call c s)) [
  | inl f ↦ let bad = rw (f, spy_calls) at e in cc
  | inr (mid, f) ↦
      spy_calls-Agrees calls mid s' (spy_call-Agrees c s mid a f) (rw (f, spy_calls) at e)
]

writes_on :
    (calls : List Call) (s : SpyResponseWriter) (code status : ℕ)
    → AllWrites calls
    → s.code ≡ code
    → s.inner.status ≡ some status
    → (s' : SpyResponseWriter) × (spy_calls calls s ≡ some s')
      × (s'.code ≡ code)
      × (s'.inner.status ≡ some status)
unfolding spy_calls spy_call response_write
writes_on [] s code status h c st = (s, refl, c, st)
writes_on (write_header sent ∷ calls) s code status h c st = absurd h.0
writes_on (write written ∷ calls) s code status h c st =
    writes_on calls _ code status h.1 c (ground arith)

-- A handler that writes a body and leaves the status to `net/http` is reported with the code 0, while
-- the client gets the status 200.
pub implicit_status :
    (written : ℕ) (calls : List Call)
    → AllWrites calls
    → (s : SpyResponseWriter) × (spy_calls (write written ∷ calls) new_spy ≡ some s)
      × (s.code ≡ 0)
      × (s.inner.status ≡ some 200)
unfolding spy_calls spy_call response_write
implicit_status written calls h = writes_on calls _ 0 200 h refl refl

first_header :
    (code : ℕ)
    → 200 ≤ code
    → code ≤ 999
    → response_header code (record { status = none; body = 0 })
      ≡ some (record { status = some code; body = 0 })
unfolding response_header
first_header code lo hi = ground arith

-- A handler that sends a status from 200 to 999 first, and then only writes, is reported with the
-- code that the client gets.
pub explicit_status :
    (code : ℕ) (calls : List Call)
    → 200 ≤ code
    → code ≤ 999
    → AllWrites calls
    → (s : SpyResponseWriter) × (spy_calls (write_header code ∷ calls) new_spy ≡ some s)
      × (s.code ≡ code)
      × (s.inner.status ≡ some code)
unfolding spy_calls spy_call
explicit_status code calls lo hi h =
    let (s, e, c, st) =
      writes_on calls
        (record { code = code; bytes_written = 0; inner = record { status = some code; body = 0 } })
        code code h refl refl in
    (s, rw (first_header code lo hi, spy_calls, spy_call) e, c, st)
