-- ===== src/Httpx/Logger.antt =====
-- httpx/logger.go: the round tripper that logs requests and responses. The time that a call takes is
-- left out of its events.
pub mod Hidden
use servicekit_go.Base.{
  ℕ, Bool, List, [], ◌∷◌, Text, any, text_eq, Option, none, some, ◌==◌, if◌then◌else◌, ◌⊎◌, inl,
  inr, ◌≡◌, refl, ap, ◌∙◌,
}
use servicekit_go.Httpx.Body.{
  Body, Logged, read_and_restore_body, read_and_restore_body-bytes, decode_body,
}
use servicekit_go.Httpx.Header.{put_at}
use servicekit_go.Httpx.Record.{default_max_body_bytes}
use servicekit_go.Httpx.Redact.{redacted_value, redact_headers, headers}
use servicekit_go.Httpx.Web.{Url, Values, Web}

pub record LoggerTransportConfig : Type 0 where
  pub redact_query : List Text
  pub redact_headers : List Text
  pub max_body_bytes : ℕ

-- The fields of a transport that its configuration sets.
pub record LoggerTransport : Type 0 where
  pub redact : List Text
  pub redact_query : List Text
  pub max_body : ℕ

pub record Request : Type 0 where
  pub method : Text
  pub url : Url
  pub header : Values
  pub body : Option Body

pub record Response : Type 0 where
  pub status_code : ℕ
  pub header : Values
  pub body : Option Body

pub data Event : Type 0 where
  outgoing : (method url : Text) → List (Text × Text) → Logged → Event
  failed : (error method url : Text) → Event
  received : ℕ → (method url : Text) → Logged → Event

-- `q.Has(key)`
unfoldable pub has : Values → Text → Bool
has q key = any (λ e. text_eq e.0 key) q

-- The loop of `outboundURL`; `q` is a `url.Values`.
unfoldable pub redact_listed : Values → List Text → Values
redact_listed q [] = q
redact_listed q (key ∷ keys) =
    redact_listed (if has q key then put_at q key redacted_value else q) keys

-- `NewLoggerTransport`
unfoldable pub new_logger_transport : LoggerTransportConfig → LoggerTransport
new_logger_transport cfg = record {
  redact = redact_headers cfg.redact_headers;
  redact_query = cfg.redact_query;
  max_body = if cfg.max_body_bytes == 0 then default_max_body_bytes else cfg.max_body_bytes;
}

module _ (web : Web) (redacted : Url → Text) where
  -- `outboundURL`; `redacted` is `URL.Redacted`.
  unfoldable pub outbound_url : Url → List Text → Text
  outbound_url u [] = redacted u
  outbound_url u (key ∷ keys) =
      if text_eq u.raw_query []
      then redacted u
      else redacted (record u {
        raw_query = web.encode (redact_listed (web.parse_query u.raw_query).0 (key ∷ keys));
      })

  unfoldable pub after_round_trip :
      ℕ → (method url : Text) → Response ⊎ Text → List Event × (Response ⊎ Text)
  after_round_trip limit method url (inr err) = (failed err method url ∷ [], inr err)
  after_round_trip limit method url (inl resp) =
      let (resp_body, body) = read_and_restore_body resp.body limit in
      (
        received resp.status_code method url (decode_body web resp_body) ∷ [],
        inl (record resp { body = body }),
      )

  -- `LoggerTransport.RoundTrip`
  unfoldable pub round_trip :
      LoggerTransport → (Request → Response ⊎ Text) → Request → List Event × (Response ⊎ Text)
  round_trip t next req =
      let url = outbound_url req.url t.redact_query in
      let (req_body, body) = read_and_restore_body req.body t.max_body in
      let req' = record req { body = body } in
      let first =
        outgoing req'.method url (headers req'.header t.redact) (decode_body web req_body) in
      let (events, result) = after_round_trip t.max_body req'.method url (next req') in
      (first ∷ events, result)

restored : (b : Option Body) (limit : ℕ) → (read_and_restore_body b limit).1 ≡ b
unfolding read_and_restore_body
restored none limit = refl
restored (some b) limit = ap (λ x. x.1) (read_and_restore_body-bytes b limit)

module _ (web : Web) (redacted : Url → Text) where
  after_round_trip-result :
      (limit : ℕ) (method url : Text) (result : Response ⊎ Text)
      → (after_round_trip web redacted limit method url result).1 ≡ result
  unfolding after_round_trip
  after_round_trip-result limit method url (inr err) = refl
  after_round_trip-result limit method url (inl resp) =
      ap (λ b. inl (record resp { body = b })) (restored resp.body limit)

  -- The logging transport passes the request on as it is, body and all, and returns what comes back
  -- for it, a response with its whole body or an error.
  pub round_trip-next :
      (t : LoggerTransport) (next : Request → Response ⊎ Text) (req : Request)
      → (round_trip web redacted t next req).1 ≡ next req
  unfolding round_trip
  round_trip-next t next req =
      after_round_trip-result t.max_body req.method
        (outbound_url web redacted req.url t.redact_query)
        (next (record req { body = (read_and_restore_body req.body t.max_body).1 }))
      ∙ ap (λ b. next (record req { body = b })) (restored req.body t.max_body)
