-- ===== src/Httpx/Tests/Transports.antt =====
-- Runs of the transports, and the witness.
use servicekit_go.Base.{[], ◌∷◌, codes, none, some, text_eq, ◌≡◌, refl}
use servicekit_go.Caller.{from_context}
use servicekit_go.Httpx.Header.{
  get, header_value, set, first_value, values_at, put_at, canonical_header_key, is_token_byte,
  canonical_loop, canonical_byte,
}
use servicekit_go.Httpx.Transports.{
  Request, RoundTripper, with_correlation, correlation_transport, with_client, with_caller,
  caller_transport, internal_transport, new_correlation_transport, new_caller_transport,
  correlation_from_context,
}
use servicekit_go.Httpx.Transports.Headers.{kept_or, kept_client, id_of, internal_transport-headers}

abbrev request : Request
request = record {
  header = (codes "X-Caller", codes "eve" ∷ []) ∷ [];
  context = record {
    caller = some (record { id = codes "ana"; client = codes "desk" });
    correlation = some (codes "c1");
    idempotency = none;
  };
}

-- A transport that shows the request it gets.
abbrev show : RoundTripper Request
show req = req

-- A default that must not be called.
abbrev drop : RoundTripper Request
drop req = record req { header = [] }

internal_run :
    (internal_transport drop (some show) request).header
    ≡ (codes "X-Caller", codes "eve" ∷ []) ∷ (codes "Correlation-Id", codes "c1" ∷ []) ∷ []
unfolding get set first_value values_at put_at canonical_header_key is_token_byte canonical_loop
    canonical_byte with_correlation correlation_transport with_client with_caller caller_transport
    internal_transport new_correlation_transport new_caller_transport correlation_from_context
    text_eq from_context
internal_run = refl

-- A request that has an id keeps it, under the key that a header has.
kept_run :
    (internal_transport drop
      (some show)
      (record request { header = (codes "Correlation-Id", codes "c0" ∷ []) ∷ [] })).header
    ≡ (codes "Correlation-Id", codes "c0" ∷ [])
      ∷ (codes "X-Caller", codes "ana" ∷ [])
      ∷ (codes "X-Client", codes "desk" ∷ [])
      ∷ []
unfolding get set first_value values_at put_at canonical_header_key is_token_byte canonical_loop
    canonical_byte with_correlation correlation_transport with_client with_caller caller_transport
    internal_transport new_correlation_transport new_caller_transport correlation_from_context
    text_eq from_context
kept_run = refl

internal_transport-headers_example :
    (sent : Request) × (internal_transport drop (some show) request ≡ show sent)
    × (header_value sent.header (codes "Correlation-Id")
        ≡ kept_or
            (header_value request.header (codes "Correlation-Id"))
            request.context.correlation)
    × (header_value sent.header (codes "X-Caller")
        ≡ kept_or (header_value request.header (codes "X-Caller")) (id_of request.context.caller))
    × (header_value sent.header (codes "X-Client")
        ≡ kept_client
            (header_value request.header (codes "X-Caller"))
            (header_value request.header (codes "X-Client"))
            request.context.caller)
internal_transport-headers_example = internal_transport-headers drop (some show) request
