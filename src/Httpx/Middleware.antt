-- ===== src/Httpx/Middleware.antt =====
-- httpx/middleware.go: chains, identifiers and the bound on bodies.
pub mod Chain
pub mod Checked
pub mod Correlated
use servicekit_go.Base.{
  ℕ, Bool, true, false, List, [], ◌∷◌, Text, codes, take, length, ltb, text_eq, Option, none, some,
  if◌then◌else◌,
}
use mathlib.Core.List.{reverse}
use servicekit_go.Httpx.Body.{Body}
use servicekit_go.Httpx.Envelope.{Json, error_calls, err_body_too_large}
use servicekit_go.Httpx.Header.{get, set}
use servicekit_go.Httpx.Recorder.{Call, set_header}
use servicekit_go.Httpx.Web.{Values}

-- The loop of `Chain`, over the middlewares from the last on.
unfoldable pub chain_loop {ℓ} : {H : Type ℓ} → H → List (H → H) → H
chain_loop h [] = h
chain_loop h (m ∷ ms) = chain_loop (m h) ms

unfoldable pub chain {ℓ} : {H : Type ℓ} → H → List (H → H) → H
chain h ms = chain_loop h (reverse ms)

abbrev pub correlation_id_header : Text
correlation_id_header = codes "Correlation-ID"

abbrev pub idempotency_key_header : Text
idempotency_key_header = codes "Idempotency-Key"

-- What the middlewares read and change of a request; `correlation` and `idempotency` are the values
-- that its context holds, and `content_length` is `none` if it is not declared.
pub record Request : Type 0 where
  pub header : Values
  pub correlation : Option Text
  pub idempotency : Option Text
  pub content_length : Option ℕ
  pub body : Body

abbrev pub Handler : Type 0
Handler = Request → List Call

-- `CorrelationID`; `new_id` is what `uuid.NewString` returns.
unfoldable pub correlation_id : Text → Handler → Handler
correlation_id new_id next r =
    let sent = get r.header correlation_id_header in
    let id = if text_eq sent [] then new_id else sent in
    set_header correlation_id_header id
    ∷ next (record r { header = set r.header correlation_id_header id; correlation = some id })

unfoldable pub idempotency_key : Handler → Handler
idempotency_key next r =
    let v = get r.header idempotency_key_header in
    if text_eq v [] then next r else next (record r { idempotency = some v })

-- `http.MaxBytesReader`: a read behind `n` bytes fails.
unfoldable pub max_bytes_reader : ℕ → Body → Body
max_bytes_reader n b =
    if ltb n (length b.bytes)
    then record { bytes = take n b.bytes; failure = some (codes "http: request body too large") }
    else b

unfoldable pub declares_more : Option ℕ → ℕ → Bool
declares_more none n = false
declares_more (some l) n = ltb n l

unfoldable pub max_body : Json → ℕ → Handler → Handler
max_body js n next r =
    if declares_more r.content_length n
    then error_calls js 413 err_body_too_large
    else next (record r { body = max_bytes_reader n r.body })
