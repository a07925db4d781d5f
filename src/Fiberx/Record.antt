-- ===== src/Fiberx/Record.antt =====
-- fiberx/fiberx.go: the handler that logs a request and its response.
pub mod Logs
pub mod Answers
pub mod Headers
use servicekit_go.Base.{
  ℕ, Bool, true, false, not, ◌&&◌, List, [], ◌∷◌, ◌++◌, Text, codes, any, map, contains, text_eq,
  Option, none, some, ◌==◌, if◌then◌else◌,
}
use servicekit_go.Fiberx.Body.{Codec, Logged, redacted_body}
use servicekit_go.Httpx.Header.{canonical_header_key}
use servicekit_go.Httpx.Redact.{redacted_value, redact_headers, new_redact_keys, redact_query}
use servicekit_go.Httpx.Web.{Url, Web}
use servicekit_go.Strings.{has_prefix}

pub record Route : Type 0 where
  pub method : Text
  pub path : Text

-- A limit below zero is one of zero: `Record` takes the default for both.
pub record RecordConfig : Type 0 where
  pub skip_paths : List Text
  pub skip_body_paths : List Text
  pub skip_body_routes : List Route
  pub redact_query : List Text
  pub redact_headers : List Text
  pub max_body_bytes : ℕ
  pub redact_body_keys : List Text

abbrev pub default_max_body_bytes : ℕ
default_max_body_bytes = 65536

-- The parts of a `fiber.Ctx` that the handler reads; `request_headers` has an entry for each value.
pub record Ctx : Type 0 where
  pub method : Text
  pub path : Text
  pub original_url : Text
  pub request_headers : List (Text × Text)
  pub request_body : Text
  pub ip : Text
  pub forwarded_for : Text
  pub status : ℕ
  pub response_body : Text

-- Fiber: the error handler of the application, `SendStatus`, and `url.ParseRequestURI`.
pub record Fiber : Type 1 where
  pub Err : Type 0
  pub error_handler : Err → Ctx → Option Err × Ctx
  pub send_status : ℕ → Ctx → Ctx
  pub parse_request_uri : Text → Option Url

pub data Event : Type 0 where
  incoming : (remote_address method path : Text) → List (Text × Text) → Logged → Event
  returned : ℕ → (method path : Text) → Logged → Event

-- The map of the headers that are logged: a value that comes again is appended.
unfoldable pub add_header : Text → Text → List (Text × Text) → List (Text × Text)
add_header k v [] = (k, v) ∷ []
add_header k v ((j, prev) ∷ hs) =
    if text_eq j k then (j, prev ++ (b',' ∷ v)) ∷ hs else (j, prev) ∷ add_header k v hs

unfoldable pub put_header : Text → Text → List (Text × Text) → List (Text × Text)
put_header k v [] = (k, v) ∷ []
put_header k v ((j, prev) ∷ hs) = if text_eq j k then (j, v) ∷ hs else (j, prev) ∷ put_header k v hs

-- `hasPrefix`
unfoldable pub has_any_prefix : Text → List Text → Bool
has_any_prefix path prefixes = any (λ p. has_prefix path p) prefixes

-- The loop of `VisitAll`.
unfoldable pub visit_headers :
    List Text → List (Text × Text) → List (Text × Text) → List (Text × Text)
visit_headers redact headers [] = headers
visit_headers redact headers ((key, value) ∷ rest) =
    let k = canonical_header_key key in
    visit_headers redact
      (if contains redact k
        then put_header k redacted_value headers
        else add_header k value headers)
      rest

module _ (web : Web) where
  unfoldable pub matches : Route → Text → Text → Bool
  matches r method path =
      let m = if text_eq r.method [] then codes "GET" else r.method in
      text_eq path r.path && web.equal_fold method m

  unfoldable pub logs_body : RecordConfig → Text → Text → Bool
  logs_body c method path =
      if has_any_prefix path c.skip_body_paths
      then false
      else not (any (λ r. matches r method path) c.skip_body_routes)

  unfoldable pub with_query : Text → List Text → Option Url → Text
  with_query uri keys none = uri
  with_query uri keys (some u) =
      if text_eq u.raw_query []
      then uri
      else web.request_uri (record u { raw_query = redact_query web keys u.raw_query })

  module _ (fiber : Fiber) (codec : Codec) where
    unfoldable pub redacted_uri : Text → List Text → Text
    redacted_uri uri keys = with_query uri keys (fiber.parse_request_uri uri)

    -- What `Record` does with the result of `c.Next`.
    unfoldable pub handled_again : Option fiber.Err × Ctx → Ctx
    handled_again (none, c) = c
    handled_again (some herr, c) = fiber.send_status 500 c

    unfoldable pub handled : Option fiber.Err × Ctx → Ctx
    handled (none, c) = c
    handled (some err, c) = handled_again (fiber.error_handler err c)

    unfoldable pub logged_body : RecordConfig → Bool → Text → Logged
    logged_body cfg log_body body =
        let limit =
          if cfg.max_body_bytes == 0 then default_max_body_bytes else cfg.max_body_bytes in
        if log_body
        then redacted_body web (new_redact_keys web cfg.redact_body_keys) codec body limit
        else Logged.nil

    -- The handler of `Record`, around `next` as the rest of the chain: the events, and what the
    -- handler returns.
    unfoldable pub serve :
        RecordConfig → (Ctx → Option fiber.Err × Ctx) → Ctx → List Event × (Option fiber.Err × Ctx)
    serve cfg next c =
        if contains cfg.skip_paths c.path
        then ([], next c)
        else let log_body = logs_body cfg c.method c.path in
          let path = redacted_uri c.original_url (new_redact_keys web cfg.redact_query) in
          let headers = visit_headers (redact_headers cfg.redact_headers) [] c.request_headers in
          let remote = if text_eq c.forwarded_for [] then c.ip else c.forwarded_for in
          let done = handled (next c) in
          (
            incoming remote c.method path headers (logged_body cfg log_body c.request_body)
                ∷ returned done.status done.method path
                    (logged_body cfg log_body done.response_body)
                ∷ [],
            (none, done),
          )
