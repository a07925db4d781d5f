-- ===== src/Fiberx/Handlers.antt =====
-- fiberx/fiberx.go: the handlers that put identifiers into the context. `Ctx.Get` and `Ctx.Set` of
-- Fiber bring the names of these headers into the form that net/http has.
use servicekit_go.Base.{
  not, [], Text, text_eq, text_eq_iff, some, if◌then◌else◌, ◌≡◌, ◌⊎◌, inl, inr, refl, Bool-cases,
}
use servicekit_go.Caller.{Caller, Context, new_context}
use servicekit_go.Httpx.Header.{get, set, get-set}
use servicekit_go.Httpx.Middleware.{correlation_id_header, idempotency_key_header}
use servicekit_go.Httpx.Transports.{caller_header, caller_client_header}
use servicekit_go.Httpx.Web.{Values}

-- What the handlers read and change of a `fiber.Ctx`; `locals` are the values for readers of
-- `c.Context()`.
pub record Ctx : Type 0 where
  pub header : Values
  pub response_header : Values
  pub locals : Context
  pub user_context : Context

-- A handler that goes on with `c.Next`.
abbrev pub Handler {ℓ} : Type ℓ → Type ℓ
Handler A = Ctx → A

unfoldable pub correlation_id {ℓ} : {A : Type ℓ} → Text → Handler A → Handler A
correlation_id new_id next c =
    let sent = get c.header correlation_id_header in
    let id = if text_eq sent [] then new_id else sent in
    next (record c {
      response_header = set c.response_header correlation_id_header id;
      locals = record c.locals { correlation = some id };
      user_context = record c.user_context { correlation = some id };
    })

unfoldable pub caller {ℓ} : {A : Type ℓ} → Handler A → Handler A
caller next c =
    let id = get c.header caller_header in
    let who : Caller = record { id = id; client = get c.header caller_client_header } in
    if not (text_eq id [])
    then next (record c {
      locals = new_context c.locals who;
      user_context = new_context c.user_context who;
    })
    else next c

unfoldable pub idempotency_key {ℓ} : {A : Type ℓ} → Handler A → Handler A
idempotency_key next c =
    let v = get c.header idempotency_key_header in
    if not (text_eq v [])
    then next (record c { user_context = record c.user_context { idempotency = some v } })
    else next c

id_of_request :
    (sent new_id : Text)
    → ((if text_eq sent [] then new_id else sent) ≡ sent)
      ⊎ ((sent ≡ []) × ((if text_eq sent [] then new_id else sent) ≡ new_id))
id_of_request sent new_id = elim (Bool-cases (text_eq sent [])) [
  | inl e ↦ inr ((text_eq_iff _ _).0 e, rw e refl)
  | inr e ↦ inl (rw e refl)
]

-- Behind `CorrelationID` the response, the locals and the user context hold one id, the one that was
-- sent or else a new one, and the callers in them are as before.
correlation_id-agrees_everywhere {ℓ} :
    {A : Type ℓ} (new_id : Text) (next : Handler A) (c : Ctx)
    → (id : Text) × (c' : Ctx) × (correlation_id new_id next c ≡ next c')
      × (get c'.response_header correlation_id_header ≡ id)
      × (c'.locals.correlation ≡ some id)
      × (c'.user_context.correlation ≡ some id)
      × (c'.user_context.caller ≡ c.user_context.caller)
      × ((id ≡ get c.header correlation_id_header)
          ⊎ ((get c.header correlation_id_header ≡ []) × (id ≡ new_id)))
unfolding correlation_id
correlation_id-agrees_everywhere new_id next c = (
  _,
  _,
  refl,
  get-set c.response_header correlation_id_header _,
  refl,
  refl,
  refl,
  id_of_request (get c.header correlation_id_header) new_id,
)
