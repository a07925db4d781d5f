-- ===== src/Httpx/Tests/Middleware.antt =====
-- Runs of the other middlewares, and the witnesses.
use servicekit_go.Base.{
  ◌≤◌, ◌<◌, List, [], ◌∷◌, ◌++◌, Text, codes, take, length, none, some, text_eq, ◌≡◌, ◌≢◌, ◌⊎◌,
  refl,
}
use servicekit_go.Httpx.Body.{Body}
use servicekit_go.Httpx.Envelope.{error_calls, err_body_too_large}
use servicekit_go.Httpx.Header.{
  get, header_value, first_value, values_at, canonical_header_key, is_token_byte, canonical_loop,
  canonical_byte,
}
use servicekit_go.Httpx.Middleware.{
  Request, Handler, chain_loop, chain, correlation_id_header, correlation_id, max_body,
}
use servicekit_go.Httpx.Middleware.Checked.{Declares, max_body-bound}
use servicekit_go.Httpx.Middleware.Correlated.{chain-correlation_id}
use servicekit_go.Httpx.Recorder.{Call, set_header, write}
use servicekit_go.Httpx.Recover.{other, recover}
use servicekit_go.Httpx.Recover.Committed.{recovered, recover-recovered}
use servicekit_go.Httpx.Tests.{sink, plain_json}

abbrev calls : List Call
calls = set_header (codes "A") (codes "b") ∷ write (codes "half") ∷ []

recover-recovered_example :
    recover sink plain_json (calls, some (other (codes "boom"))) []
    ≡ recovered sink plain_json calls (some (other (codes "boom"))) []
recover-recovered_example = recover-recovered sink plain_json calls (some (other (codes "boom"))) []

abbrev ab : List (Text → Text)
ab = (λ t. codes "a" ++ t) ∷ (λ t. codes "b" ++ t) ∷ []

chain_run : chain (codes "c") ab ≡ codes "abc"
unfolding chain chain_loop
chain_run = refl

abbrev request : Request
request = record {
  header = (codes "Correlation-Id", codes "id-1" ∷ []) ∷ [];
  correlation = none;
  idempotency = none;
  content_length = none;
  body = record { bytes = codes "12345"; failure = none };
}

abbrev echo : Handler
echo r = write r.body.bytes ∷ []

-- The id of a request stands under the key that a header has.
header_run : get request.header correlation_id_header ≡ codes "id-1"
unfolding get first_value values_at canonical_header_key is_token_byte canonical_loop canonical_byte
    text_eq
header_run = refl

new_id_ne : codes "new" ≢ []
new_id_ne = cc

chain-correlation_id_example :
    (id : Text) × (r₁ : Request) × (r₂ : Request) × (chain echo
        (correlation_id (codes "new") ∷ [])
        request
      ≡ set_header correlation_id_header id ∷ chain echo [] r₁)
    × (header_value r₁.header (codes "Correlation-Id") ≡ id)
    × (r₁.correlation ≡ some id)
    × (chain echo (correlation_id (codes "new") ∷ correlation_id (codes "other") ∷ []) request
        ≡ set_header correlation_id_header id
          ∷ set_header correlation_id_header id
          ∷ chain echo [] r₂)
    × (header_value r₂.header (codes "Correlation-Id") ≡ id)
    × (r₂.correlation ≡ some id)
    × (((header_value request.header (codes "Correlation-Id") ≢ [])
          × (id ≡ header_value request.header (codes "Correlation-Id")))
        ⊎ ((header_value request.header (codes "Correlation-Id") ≡ []) × (id ≡ codes "new")))
chain-correlation_id_example =
    chain-correlation_id (codes "new") (codes "other") [] echo request new_id_ne

max_body-bound_example :
    ((Declares none 3)
      × (max_body plain_json 3 echo request ≡ error_calls plain_json 413 err_body_too_large))
    ⊎ ((¬ Declares none 3)
        × ((b : Body) × (max_body plain_json 3 echo request ≡ echo (record request { body = b }))
            × (length b.bytes ≤ 3)
            × (((5 ≤ 3) × (b ≡ request.body))
                ⊎ ((3 < 5)
                    × (b.bytes ≡ take 3 (codes "12345"))
                    × (b.failure ≡ some (codes "http: request body too large"))))))
max_body-bound_example = max_body-bound plain_json 3 echo request
