-- ===== src/Httpx/Transports.antt =====
-- httpx/correlation.go and httpx/caller.go: the round trippers that pass identifiers on. A round
-- tripper is a function of the request that it gets.
pub mod Headers
use servicekit_go.Base.{not, [], Text, codes, text_eq, Option, none, some, if◌then◌else◌}
use servicekit_go.Caller.{Caller, Context, from_context}
use servicekit_go.Httpx.Header.{get, set}
use servicekit_go.Httpx.Middleware.{correlation_id_header}
use servicekit_go.Httpx.Web.{Values}

abbrev pub caller_header : Text
caller_header = codes "X-Caller"

abbrev pub caller_client_header : Text
caller_client_header = codes "X-Client"

pub record Request : Type 0 where
  pub header : Values
  pub context : Context

abbrev pub RoundTripper {ℓ} : Type ℓ → Type ℓ
RoundTripper A = Request → A

-- An argument that may be nil.
abbrev pub or_default {ℓ} : {A : Type ℓ} → A → Option A → A
or_default default none = default
or_default default (some a) = a

-- The id to send: none if the reader of the context fails or has no text.
unfoldable pub with_correlation : Option Text → Request → Request
with_correlation none req = req
with_correlation (some id) req =
    if text_eq id [] then req else record req { header = set req.header correlation_id_header id }

pub record CorrelationTransport {ℓ} (A : Type ℓ) : Type ℓ where
  pub next : RoundTripper A
  pub from : Context → Option Text

-- `correlation.FromContext`
unfoldable pub correlation_from_context : Context → Option Text
correlation_from_context ctx = ctx.correlation

-- `NewCorrelationTransport`: `default` is `http.DefaultTransport`, and `none` is nil.
unfoldable pub new_correlation_transport {ℓ} :
    {A : Type ℓ}
    → RoundTripper A
    → Option (RoundTripper A)
    → Option (Context → Option Text)
    → CorrelationTransport A
new_correlation_transport default next from = record {
  next = or_default default next;
  from = or_default correlation_from_context from;
}

-- `CorrelationTransport.RoundTrip`
unfoldable pub correlation_transport {ℓ} : {A : Type ℓ} → CorrelationTransport A → RoundTripper A
correlation_transport t req =
    if text_eq (get req.header correlation_id_header) []
    then t.next (with_correlation (t.from req.context) req)
    else t.next req

unfoldable pub with_client : Text → Values → Values
with_client client h = if not (text_eq client []) then set h caller_client_header client else h

unfoldable pub with_caller : Option Caller → Request → Request
with_caller none req = req
with_caller (some c) req =
    if not (text_eq (get req.header caller_header) [])
    then req
    else record req { header = with_client c.client (set req.header caller_header c.id) }

pub record CallerTransport {ℓ} (A : Type ℓ) : Type ℓ where
  pub next : RoundTripper A

-- `NewCallerTransport`
unfoldable pub new_caller_transport {ℓ} :
    {A : Type ℓ} → RoundTripper A → Option (RoundTripper A) → CallerTransport A
new_caller_transport default next = record { next = or_default default next }

-- `CallerTransport.RoundTrip`
unfoldable pub caller_transport {ℓ} : {A : Type ℓ} → CallerTransport A → RoundTripper A
caller_transport t req = t.next (with_caller (from_context req.context) req)

-- `NewInternalTransport`
unfoldable pub internal_transport {ℓ} :
    {A : Type ℓ} → RoundTripper A → Option (RoundTripper A) → RoundTripper A
internal_transport default next =
    let inner = caller_transport (new_caller_transport default next) in
    correlation_transport (new_correlation_transport default (some inner) none)
