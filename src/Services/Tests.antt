-- ===== src/Services/Tests.antt =====
-- A run of two services, and the witness.
use servicekit_go.Base.{[], ◌∷◌, codes, some, map, text_eq, ◌≡◌, refl, All}
use servicekit_go.Caller.{Context, new_context, from_context}
use servicekit_go.Fiberx.Handlers.{correlation_id, caller}
use servicekit_go.Httpx.Header.{
  get, set, first_value, values_at, put_at, canonical_header_key, is_token_byte, canonical_loop,
  canonical_byte,
}
use servicekit_go.Httpx.Transports.{
  with_correlation, correlation_transport, with_client, with_caller, caller_transport,
  internal_transport, new_correlation_transport, new_caller_transport, correlation_from_context,
}
use servicekit_go.Httpx.Web.{Values}
use servicekit_go.Services.{entered, called, Service, contexts}
use servicekit_go.Services.Agree.{IsPlain, Carries, id_sent, caller_sent, contexts-agree}

abbrev orders : Service
orders = record { new_id = codes "o1"; header = [] }

abbrev mails : Service
mails = record { new_id = codes "m1"; header = (codes "Accept", codes "*/*" ∷ []) ∷ [] }

-- What a client sends that has an id.
abbrev identified : Values
identified = (codes "Correlation-Id", codes "c7" ∷ []) ∷ []

abbrev incoming : Values
incoming = (codes "X-Caller", codes "ana" ∷ []) ∷ []

running : Unit {0}
unfolding contexts entered called correlation_id caller new_context from_context get set first_value
    values_at put_at canonical_header_key is_token_byte canonical_loop canonical_byte
    with_correlation correlation_transport with_client with_caller caller_transport
    internal_transport new_correlation_transport new_caller_transport correlation_from_context
    text_eq
running = tt

both_first_id :
    map (λ (ctx : Context). ctx.correlation) (contexts incoming (orders ∷ mails ∷ []))
    ≡ some (codes "o1") ∷ some (codes "o1") ∷ []
unfolding running
both_first_id = refl

all_sent_id :
    map (λ (ctx : Context). ctx.correlation) (contexts identified (orders ∷ mails ∷ []))
    ≡ some (codes "c7") ∷ some (codes "c7") ∷ []
unfolding running
all_sent_id = refl

services-IsPlain : All IsPlain (orders ∷ mails ∷ [])
unfolding get text_eq first_value values_at canonical_header_key is_token_byte canonical_loop
    canonical_byte
services-IsPlain = (
  record { new_id_ne = cc; correlation = refl; caller = refl; client = refl },
  (record { new_id_ne = cc; correlation = refl; caller = refl; client = refl }, tt),
)

contexts-agree_example :
    All
      (Carries (id_sent incoming (codes "o1")) (caller_sent incoming))
      (contexts incoming (orders ∷ mails ∷ []))
contexts-agree_example = contexts-agree incoming orders (mails ∷ []) services-IsPlain
