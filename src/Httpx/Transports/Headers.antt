-- ===== src/Httpx/Transports/Headers.antt =====
-- The headers of an internal call.
use servicekit_go.Base.{
  true, false, [], ◌∷◌, Text, codes, text_eq, text_eq_iff, Option, none, some, if◌then◌else◌, ◌≡◌,
  refl, ap, ◌∙◌, Bool-cases, inl, inr,
}
use servicekit_go.Caller.{Caller, from_context}
use servicekit_go.Httpx.Header.{
  get, header_value, get-set, get-set_other, set, canonical_header_key, is_token_byte,
  canonical_loop, canonical_byte,
}
use servicekit_go.Httpx.Middleware.{correlation_id_header}
use servicekit_go.Httpx.Web.{Values}
use servicekit_go.Httpx.Transports.{
  Request, RoundTripper, caller_header, caller_client_header, or_default, with_correlation,
  with_client, with_caller, correlation_from_context, new_correlation_transport,
  correlation_transport, new_caller_transport, caller_transport, internal_transport,
}

abbrev pub or_none : Option Text → Text
or_none none = []
or_none (some t) = t

-- A header that is set is kept, else it is the one of the context, if any.
abbrev pub kept_or : Text → Option Text → Text
kept_or sent from_ctx = if text_eq sent [] then or_none from_ctx else sent

abbrev pub id_of : Option Caller → Option Text
id_of none = none
id_of (some c) = some c.id

-- The client goes with the caller; a caller without one leaves the header as it is.
abbrev pub kept_client : Text → Text → Option Caller → Text
kept_client sent client none = client
kept_client sent client (some c) =
    if text_eq sent [] then kept_or c.client (some client) else client

kept_or-none : (sent : Text) → sent ≡ kept_or sent none
unfolding text_eq
kept_or-none [] = refl
kept_or-none (c ∷ sent) = refl

kept_or-sent : (sent : Text) (o : Option Text) → text_eq sent [] ≡ false → sent ≡ kept_or sent o
kept_or-sent sent o e = rw e refl

kept_or-empty :
    (sent : Text) (o : Option Text) → text_eq sent [] ≡ true → or_none o ≡ kept_or sent o
kept_or-empty sent o e = rw e refl

with_client-get :
    (client : Text) (h : Values) (l : Text)
    → text_eq (canonical_header_key caller_client_header) (canonical_header_key l) ≡ false
    → get (with_client client h) l ≡ get h l
unfolding with_client
with_client-get client h l ne = elim (Bool-cases (text_eq client [])) [
  | inl e ↦ rw e refl
  | inr e ↦ rw e (get-set_other h caller_client_header l client ne)
]

with_client-client :
    (client : Text) (h : Values)
    → get (with_client client h) caller_client_header
      ≡ kept_or client (some (get h caller_client_header))
unfolding with_client
with_client-client client h = elim (Bool-cases (text_eq client [])) [
  | inl e ↦ rw e refl
  | inr e ↦ rw e (get-set h caller_client_header client)
]

with_caller-get :
    (c : Option Caller) (req : Request)
    → (get (with_caller c req).header correlation_id_header ≡ get req.header correlation_id_header)
      × (get (with_caller c req).header caller_header
          ≡ kept_or (get req.header caller_header) (id_of c))
      × (get (with_caller c req).header caller_client_header
          ≡ kept_client (get req.header caller_header) (get req.header caller_client_header) c)
unfolding with_caller text_eq canonical_header_key is_token_byte canonical_loop canonical_byte
with_caller-get none req = (refl, kept_or-none (get req.header caller_header), refl)
with_caller-get (some c) req = elim (Bool-cases (text_eq (get req.header caller_header) [])) [
  | inl e ↦ rw e (
    with_client-get c.client (set req.header caller_header c.id) correlation_id_header refl
        ∙ get-set_other req.header caller_header correlation_id_header c.id refl,
    with_client-get c.client (set req.header caller_header c.id) caller_header refl
        ∙ get-set req.header caller_header c.id,
    with_client-client c.client (set req.header caller_header c.id)
        ∙ ap (λ v. kept_or c.client (some v))
            (get-set_other req.header caller_header caller_client_header c.id refl),
  )
  | inr e ↦ rw e (refl, refl, refl)
]

with_correlation-get :
    (from_ctx : Option Text) (req : Request)
    → get req.header correlation_id_header ≡ []
    → (get (with_correlation from_ctx req).header correlation_id_header ≡ or_none from_ctx)
      × (get (with_correlation from_ctx req).header caller_header ≡ get req.header caller_header)
      × (get (with_correlation from_ctx req).header caller_client_header
          ≡ get req.header caller_client_header)
      × ((with_correlation from_ctx req).context ≡ req.context)
unfolding with_correlation text_eq canonical_header_key is_token_byte canonical_loop canonical_byte
with_correlation-get none req h = (h, refl, refl, refl)
with_correlation-get (some []) req h = (h, refl, refl, refl)
with_correlation-get (some (c ∷ id)) req h = (
  get-set req.header correlation_id_header (c ∷ id),
  get-set_other req.header correlation_id_header caller_header (c ∷ id) refl,
  get-set_other req.header correlation_id_header caller_client_header (c ∷ id) refl,
  refl,
)

-- The transport for internal calls makes one call of the next one, or of the default one where there
-- is none, which carries the correlation id and the caller of the context, except where the request
-- has set the header itself, and with the caller its client, if it has one. The headers are
-- `Correlation-Id`, `X-Caller` and `X-Client`, as net/http spells them.
pub internal_transport-headers {ℓ} :
    {A : Type ℓ} (default : RoundTripper A) (next : Option (RoundTripper A)) (req : Request)
    → (sent : Request) × (internal_transport default next req ≡ or_default default next sent)
      × (header_value sent.header (codes "Correlation-Id")
          ≡ kept_or (header_value req.header (codes "Correlation-Id")) req.context.correlation)
      × (header_value sent.header (codes "X-Caller")
          ≡ kept_or (header_value req.header (codes "X-Caller")) (id_of req.context.caller))
      × (header_value sent.header (codes "X-Client")
          ≡ kept_client
              (header_value req.header (codes "X-Caller"))
              (header_value req.header (codes "X-Client"))
              req.context.caller)
unfolding internal_transport correlation_transport caller_transport new_correlation_transport
    new_caller_transport correlation_from_context from_context get canonical_header_key
    is_token_byte canonical_loop canonical_byte
internal_transport-headers default next req =
    elim (Bool-cases (text_eq (get req.header correlation_id_header) [])) [
      | inl e ↦
          let (corr, who, client, ctx) =
            with_correlation-get req.context.correlation req ((text_eq_iff _ _).0 e) in
          let r = with_correlation req.context.correlation req in
          let (corr', who', client') = with_caller-get req.context.caller r in
          (
            with_caller req.context.caller r,
            rw (e, ctx) refl,
            corr' ∙ corr ∙ kept_or-empty _ req.context.correlation e,
            who' ∙ ap (λ s. kept_or s (id_of req.context.caller)) who,
            client'
                ∙ ap (λ s. kept_client s (get r.header caller_client_header) req.context.caller) who
                ∙ ap (λ s. kept_client (get req.header caller_header) s req.context.caller) client,
          )
      | inr e ↦
          let (corr', who', client') = with_caller-get req.context.caller req in
          (
            with_caller req.context.caller req,
            rw e refl,
            corr' ∙ kept_or-sent _ req.context.correlation e,
            who',
            client',
          )
    ]
