-- ===== src/Httpx/Middleware/Correlated.antt =====
-- `CorrelationID` at the front of a chain: httpx/middleware.go.
use servicekit_go.Base.{List, [], ◌∷◌, Text, codes, some, ◌≡◌, ◌≢◌, ◌⊎◌, ap, sym, ◌∙◌, inl, inr}
use servicekit_go.Httpx.Header.{
  get, header_value, canonical_header_key, is_token_byte, canonical_loop, canonical_byte,
}
use servicekit_go.Httpx.Middleware.{Request, Handler, chain, correlation_id_header, correlation_id}
use servicekit_go.Httpx.Middleware.Chain.{chain-around}
use servicekit_go.Httpx.Middleware.Checked.{correlation_id-agrees}
use servicekit_go.Httpx.Recorder.{set_header}

-- The id is the one that was sent, or else the new one.
abbrev IsChosen : Text → Text → Text → Type 0
IsChosen sent new_id id = ((sent ≢ []) × (id ≡ sent)) ⊎ ((sent ≡ []) × (id ≡ new_id))

IsChosen-ne : (sent new_id id : Text) → new_id ≢ [] → IsChosen sent new_id id → id ≢ []
IsChosen-ne sent new_id id ne (inl (sent_ne, e)) z = sent_ne (sym e ∙ z)
IsChosen-ne sent new_id id ne (inr (_, e)) z = ne (sym e ∙ z)

IsChosen-eq :
    (sent new_id id id' : Text)
    → new_id ≢ []
    → IsChosen sent new_id id
    → IsChosen sent new_id id'
    → id' ≡ id
IsChosen-eq sent new_id id id' ne (inl (_, e)) (inl (_, e')) = e' ∙ sym e
IsChosen-eq sent new_id id id' ne (inr (_, e)) (inr (_, e')) = e' ∙ sym e
IsChosen-eq sent new_id id id' ne (inl (sent_ne, e)) (inr (z, e')) = absurd (sent_ne z)
IsChosen-eq sent new_id id id' ne (inr (z, e)) (inl (sent_ne, e')) = absurd (sent_ne z)

chain-first :
    (m : Handler → Handler) (ms : List (Handler → Handler)) (next : Handler) (r : Request)
    → chain next (m ∷ ms) r ≡ m (chain next ms) r
chain-first m ms next r =
    ap (λ h. h r) (chain-around next (m ∷ ms) ∙ ap m (sym (chain-around next ms)))

-- A request that has an id keeps it.
correlation_id-kept :
    (new_id id : Text) (next : Handler) (r : Request)
    → id ≢ []
    → get r.header correlation_id_header ≡ id
    → (r' : Request) × (correlation_id new_id next r
        ≡ set_header correlation_id_header id ∷ next r')
      × (get r'.header correlation_id_header ≡ id)
      × (r'.correlation ≡ some id)
correlation_id-kept new_id id next r ne h =
    let (id', r', e, header, context, from) = correlation_id-agrees new_id next r in
    let same : id' ≡ id = elim from [
      | inl (_, sent) ↦ sent ∙ h
      | inr (empty, _) ↦ absurd (ne (sym h ∙ empty))
    ] in
    (
      r',
      e ∙ ap (λ t. set_header correlation_id_header t ∷ next r') same,
      header ∙ same,
      context ∙ ap some same,
    )

-- Where `CorrelationID` is the first middleware of a chain and makes up ids that are not empty,
-- every response carries the id, the one that was sent or else a new one, before anything else is
-- done to it, and the rest of the chain finds that id in the context and in the header of its
-- request. A second `CorrelationID` right behind sets the same id again and hands it on, whatever
-- id it would make up. The header of a request is `Correlation-Id`, as net/http spells it.
pub chain-correlation_id :
    (new_id other : Text) (ms : List (Handler → Handler)) (next : Handler) (r : Request)
    → new_id ≢ []
    → (id : Text) × (r₁ : Request) × (r₂ : Request) × (chain next (correlation_id new_id ∷ ms) r
        ≡ set_header correlation_id_header id ∷ chain next ms r₁)
      × (header_value r₁.header (codes "Correlation-Id") ≡ id)
      × (r₁.correlation ≡ some id)
      × (chain next (correlation_id new_id ∷ correlation_id other ∷ ms) r
          ≡ set_header correlation_id_header id
            ∷ set_header correlation_id_header id
            ∷ chain next ms r₂)
      × (header_value r₂.header (codes "Correlation-Id") ≡ id)
      × (r₂.correlation ≡ some id)
      × (((header_value r.header (codes "Correlation-Id") ≢ [])
            × (id ≡ header_value r.header (codes "Correlation-Id")))
          ⊎ ((header_value r.header (codes "Correlation-Id") ≡ []) × (id ≡ new_id)))
unfolding get canonical_header_key is_token_byte canonical_loop canonical_byte
chain-correlation_id new_id other ms next r ne =
    let sent = get r.header correlation_id_header in
    let (id, r₁, e, h, c, from) = correlation_id-agrees new_id (chain next ms) r in
    let (id', r', e', h', c', from') =
      correlation_id-agrees new_id (chain next (correlation_id other ∷ ms)) r in
    let same = IsChosen-eq sent new_id id id' ne from from' in
    let (r₂, e₂, h₂, c₂) =
      correlation_id-kept other id (chain next ms) r' (IsChosen-ne sent new_id id ne from)
        (h' ∙ same) in
    (
      id,
      r₁,
      r₂,
      chain-first (correlation_id new_id) ms next r ∙ e,
      h,
      c,
      chain-first (correlation_id new_id) (correlation_id other ∷ ms) next r
          ∙ e'
          ∙ ap (λ t. set_header correlation_id_header t ∷ chain next (correlation_id other ∷ ms) r')
              same
          ∙ ap (λ calls. set_header correlation_id_header id ∷ calls)
              (chain-first (correlation_id other) ms next r' ∙ e₂),
      h₂,
      c₂,
      from,
    )
