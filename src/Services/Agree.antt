-- ===== src/Services/Agree.antt =====
-- One request has one correlation id and one caller in all services that it passes through.
use servicekit_go.Base.{
  List, [], ◌∷◌, Text, codes, text_eq, text_eq_iff, Option, none, some, if◌then◌else◌, ◌≡◌, ◌≢◌,
  refl, ap, sym, ◌∙◌, All, Bool-cases, inl, inr, false,
}
use servicekit_go.Caller.{Caller, Context, new_context}
use servicekit_go.Fiberx.Handlers.{correlation_id, caller}
use servicekit_go.Httpx.Header.{
  get, header_value, canonical_header_key, is_token_byte, canonical_loop, canonical_byte,
}
use servicekit_go.Httpx.Transports.Headers.{kept_or, kept_client, id_of, internal_transport-headers}
use servicekit_go.Httpx.Web.{Values}
use servicekit_go.Services.{send, receive, entered, called, Service, contexts}

-- What a request has under the headers, as net/http spells them.
abbrev pub sent_id : Values → Text
sent_id h = header_value h (codes "Correlation-Id")

abbrev pub sent_caller : Values → Text
sent_caller h = header_value h (codes "X-Caller")

abbrev pub sent_client : Values → Text
sent_client h = header_value h (codes "X-Client")

-- The id that a request gets: the one that was sent, or else a new one.
abbrev pub id_sent : Values → Text → Text
id_sent h new_id = if text_eq (sent_id h) [] then new_id else sent_id h

-- The caller that a request names.
abbrev pub named : Text → Text → Option Caller
named id client = if text_eq id [] then none else some (record { id = id; client = client })

abbrev pub caller_sent : Values → Option Caller
caller_sent h = named (sent_caller h) (sent_client h)

-- The service has an id to give, and leaves the identifiers of its calls to the transport.
pub record IsPlain (s : Service) : Type 0 where
  pub new_id_ne : s.new_id ≢ []
  pub correlation : sent_id s.header ≡ []
  pub caller : sent_caller s.header ≡ []
  pub client : sent_client s.header ≡ []

abbrev pub Carries : Text → Option Caller → Context → Type 0
Carries id who ctx = (ctx.correlation ≡ some id) × (ctx.caller ≡ who)

entered-Carries :
    (new_id : Text) (h : Values)
    → Carries (id_sent h new_id) (caller_sent h) (entered new_id (receive h)).user_context
unfolding entered correlation_id caller new_context get canonical_header_key is_token_byte
    canonical_loop canonical_byte
entered-Carries new_id h = elim (Bool-cases (text_eq (sent_caller h) [])) [
  | inl e ↦ rw e (refl, refl)
  | inr e ↦ rw e (refl, refl)
]

text_eq-nil : (t : Text) → t ≢ [] → text_eq t [] ≡ false
text_eq-nil t ne = elim (Bool-cases (text_eq t [])) [
  | inl e ↦ absurd (ne ((text_eq_iff t []).0 e))
  | inr e ↦ e
]

-- A caller that a request can name.
abbrev IsNamed : Option Caller → Type 0
IsNamed none = Unit
IsNamed (some c) = c.id ≢ []

named-IsNamed : (id client : Text) → IsNamed (named id client)
unfolding text_eq
named-IsNamed [] client = tt
named-IsNamed (c ∷ id) client = cc

-- What the headers of a call name is the caller of its context.
named-sent :
    (who : Option Caller) (id client : Text)
    → IsNamed who
    → id ≡ kept_or [] (id_of who)
    → client ≡ kept_client [] [] who
    → named id client ≡ who
unfolding text_eq
named-sent none id client h e f = rw e refl
named-sent (some c) id client h e f = elim (Bool-cases (text_eq c.client [])) [
  | inl no_client ↦
      rw (e, text_eq-nil c.id h, f, no_client)
        (ap (λ t. some (record { id = c.id; client = t }))
          (sym ((text_eq_iff c.client []).0 no_client)))
  | inr a_client ↦ rw (e, text_eq-nil c.id h, f, a_client) refl
]

called-sent :
    (s : Service) (ctx : Context) (id : Text) (who : Option Caller)
    → IsPlain s
    → IsNamed who
    → Carries id who ctx
    → (sent_id (called s.header ctx) ≡ id) × (caller_sent (called s.header ctx) ≡ who)
unfolding called text_eq
called-sent s ctx id who p h c =
    let (sent, e, corr, who_is, client) =
      internal_transport-headers send (some send) (record { header = s.header; context = ctx }) in
    (
      ap (λ h. sent_id h) e
          ∙ corr
          ∙ ap (λ t. kept_or t ctx.correlation) p.correlation
          ∙ ap (kept_or []) c.0,
      named-sent who (sent_caller (called s.header ctx)) (sent_client (called s.header ctx)) h
          (ap (λ h. sent_caller h) e
            ∙ who_is
            ∙ ap (λ t. kept_or t (id_of ctx.caller)) p.caller
            ∙ ap (λ o. kept_or [] (id_of o)) c.1)
          (ap (λ h. sent_client h) e
            ∙ client
            ∙ ap (λ t. kept_client t (sent_client s.header) ctx.caller) p.caller
            ∙ ap (λ t. kept_client [] t ctx.caller) p.client
            ∙ ap (kept_client [] []) c.1),
    )

-- The first id is not empty, and what was sent is kept.
chosen-ne : (sent new_id : Text) → new_id ≢ [] → (if text_eq sent [] then new_id else sent) ≢ []
unfolding text_eq
chosen-ne [] new_id ne = ne
chosen-ne (c ∷ sent) new_id ne = cc

chosen-sent : (sent new_id : Text) → sent ≢ [] → (if text_eq sent [] then new_id else sent) ≡ sent
chosen-sent sent new_id ne = rw (text_eq-nil sent ne) refl

contexts-Carries :
    (id : Text) (who : Option Caller) (services : List Service) (incoming : Values)
    → id ≢ []
    → IsNamed who
    → sent_id incoming ≡ id
    → caller_sent incoming ≡ who
    → All IsPlain services
    → All (Carries id who) (contexts incoming services)
unfolding contexts
contexts-Carries id who [] incoming ne named_is h g p = tt
contexts-Carries id who (s ∷ services) incoming ne named_is h g p =
    let (corr, caller_is) = entered-Carries s.new_id incoming in
    let c : Carries id who (entered s.new_id (receive incoming)).user_context = (
      corr ∙ ap some (chosen-sent (sent_id incoming) s.new_id (λ z. ne (sym h ∙ z)) ∙ h),
      caller_is ∙ g,
    ) in
    let (corr', caller_is') = called-sent s _ id who p.0 named_is c in
    (c, contexts-Carries id who services _ ne named_is corr' caller_is' p.1)

-- In all services that a request passes through, the handlers work under one correlation id and one
-- caller: the id that was sent to the first service or else the one that it made up, and the caller
-- and the client that were sent to it, if any. Each service has an id to give, and leaves the
-- identifiers of its calls to the transport. The identifiers stand under the headers
-- `Correlation-Id`, `X-Caller` and `X-Client`, as net/http spells them.
pub contexts-agree :
    (incoming : Values) (first : Service) (services : List Service)
    → All IsPlain (first ∷ services)
    → All
        (Carries (id_sent incoming first.new_id) (caller_sent incoming))
        (contexts incoming (first ∷ services))
unfolding contexts
contexts-agree incoming first services p =
    let c = entered-Carries first.new_id incoming in
    let who = caller_sent incoming in
    let id = id_sent incoming first.new_id in
    let named_is = named-IsNamed (sent_caller incoming) (sent_client incoming) in
    let (corr, caller_is) =
      called-sent first (entered first.new_id (receive incoming)).user_context id who p.0 named_is
        c in
    (
      c,
      contexts-Carries id who services _ (chosen-ne (sent_id incoming) first.new_id p.0.new_id_ne)
          named_is corr caller_is p.1,
    )
