-- ===== src/Httpx/Record.antt =====
-- httpx/record.go: the middleware that logs a request and its response.
pub mod Logs
pub mod Recovered
use servicekit_go.Base.{
  ℕ, Bool, true, false, not, ◌&&◌, ◌||◌, List, [], ◌∷◌, ◌++◌, Text, codes, any, contains, text_eq,
  Option, none, some, ◌==◌, if◌then◌else◌,
}
use servicekit_go.Strings.{has_prefix, clean}
use servicekit_go.Httpx.Body.{Body, Logged, read_and_restore_body, decode_body}
use servicekit_go.Httpx.Recorder
use servicekit_go.Httpx.Recorder.{
  Writer, Call, Recorder, Answer, recorder, run, run_direct, logged_status,
  status_switching_protocols,
}
use servicekit_go.Httpx.Recover.{Panic}
use servicekit_go.Httpx.Redact.{new_redact_keys, redact_headers, redacted_url, headers}
use servicekit_go.Httpx.Web.{Url, Values, Web}

pub record Route : Type 0 where
  pub method : Text
  pub path : Text

-- A limit below zero is one of zero: `Record` takes the default for both.
pub record RecordConfig : Type 0 where
  pub skip_paths : List Text
  pub skip_body_paths : List Text
  pub skip_body_routes : List Route
  pub redact_query : List Text
  pub redact_headers : List Text
  pub max_body_bytes : ℕ

pub record Request : Type 0 where
  pub method : Text
  pub url : Url
  pub header : Values
  pub remote_addr : Text
  pub body : Option Body

abbrev pub default_max_body_bytes : ℕ
default_max_body_bytes = 65536

-- `hasPrefix`
unfoldable pub has_any_prefix : Text → List Text → Bool
has_any_prefix path prefixes = any (λ p. has_prefix path p) prefixes

unfoldable pub spellings : Text → List Text
spellings p = p ∷ clean p ∷ []

-- `isSkipped`: the keys of the map are the paths of the configuration.
unfoldable pub is_skipped : List Text → Text → Bool
is_skipped skip url_path = any (λ p. contains skip p) (spellings url_path)

unfoldable pub max_body : RecordConfig → ℕ
max_body cfg = if cfg.max_body_bytes == 0 then default_max_body_bytes else cfg.max_body_bytes

-- An event of the log.
pub data Event : Type 0 where
  incoming : (remote_address method path : Text) → List (Text × Text) → Logged → Event
  returned : ℕ → (method path : Text) → Logged → Event

module _ (web : Web) where
  unfoldable pub matches : Route → Text → Text → Bool
  matches r method path =
      let m = if text_eq r.method [] then codes "GET" else r.method in
      text_eq path r.path && web.equal_fold method m

  unfoldable pub logs_body : RecordConfig → Text → Text → Bool
  logs_body cfg method url_path = not (
      any
        (λ p.
          has_any_prefix p cfg.skip_body_paths
          || any (λ r. matches r method p) cfg.skip_body_routes)
        (spellings url_path))

  -- What is left to read of the body, and what the log shows of it.
  unfoldable pub request_body : Bool → ℕ → Request → Logged × Request
  request_body false limit r = (Logged.nil, r)
  request_body true limit r =
      let (raw, body) = read_and_restore_body r.body limit in
      (decode_body web raw, record r { body = body })

  module _ (writer : Writer) where
    unfoldable pub response_body : Bool → Recorder writer → Logged
    response_body log_body rec =
        if log_body && not (logged_status writer rec == status_switching_protocols)
        then decode_body web rec.body
        else Logged.nil

    -- The line behind the handler, which a panic that goes on skips.
    unfoldable pub second : Option Panic → Event → List Event
    second none event = event ∷ []
    second (some panic) event = []

    -- The handler that `Record` returns, around the next one, which is given by what it does on the
    -- recorder and on the client's own writer: a panic that goes on, a result, and the writer.
    unfoldable pub serve_by {ℓ} :
        {A : Type ℓ}
        → RecordConfig
        → (Request → Recorder writer → Option Panic × (A × Recorder writer))
        → (Request → writer.State → Option Panic × (A × writer.State))
        → Request
        → writer.State
        → List Event × (Option Panic × (A × writer.State))
    serve_by cfg next direct r w =
        if is_skipped cfg.skip_paths r.url.path
        then ([], direct r w)
        else let log_body = logs_body cfg r.method r.url.path in
          let limit = max_body cfg in
          let (req_body, r') = request_body log_body limit r in
          let path = redacted_url web r'.url (new_redact_keys web cfg.redact_query) in
          let (panic, (result, rec)) = next r' (recorder writer w log_body limit) in
          (
            incoming r'.remote_addr r'.method path
                  (headers r'.header (redact_headers cfg.redact_headers)) req_body
                ∷ second panic (
                    returned (logged_status writer rec) r'.method path
                      (response_body log_body rec)),
            (panic, (result, rec.inner)),
          )

    -- `Record` around a handler that is given by the calls it makes on its writer. The result: the
    -- events, the answers to the calls, and the writer.
    unfoldable pub serve :
        RecordConfig
        → (Request → List Call)
        → Request
        → writer.State
        → List Event × (List (Answer writer) × writer.State)
    serve cfg next r w =
        let done =
          serve_by cfg (λ r rec. (none, run writer (next r) rec))
            (λ r w. (none, run_direct writer (next r) w)) r w in
        (done.0, done.1.1)
