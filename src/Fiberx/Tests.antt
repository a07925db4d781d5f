-- ===== src/Fiberx/Tests.antt =====
-- Runs of fiberx/, and the witnesses.
use servicekit_go.Base.{
  List, [], ◌∷◌, Text, codes, contains, Option, none, some, text_eq, ◌≡◌, refl,
}
use servicekit_go.Fiberx.Body.{
  Json, object, array, string, scalar, no_members, member, no_elements, element, Codec, raw_message,
  redact_keys, is_json_space, has_more, marshalled, redact_decoded, redacted_text, redacted_body,
  non_json,
}
use servicekit_go.Fiberx.Body.Hidden.{Shows, redacted_body-Shows}
use servicekit_go.Fiberx.Record.Answers.{Answers}
use servicekit_go.Fiberx.Record.{Ctx, RecordConfig, Fiber, visit_headers}
use servicekit_go.Fiberx.Record.Headers.{shown, summary, values_of, shown-visit_headers}
use servicekit_go.Httpx.Redact.{
  redacted_value, remove_separators, lower_rune, to_lower, normalize_key, new_redact_keys,
  is_redacted, redact_headers,
}
use servicekit_go.Httpx.Tests.{plain_web}

-- {"user":{"Access_Token":"t","n":1},"tags":["x"]}
abbrev login : Json
login = object (
    member (codes "user")
      (object (
        member (codes "Access_Token") (string (codes "t"))
          (member (codes "n") (scalar (codes "1")) no_members)))
      (member (codes "tags") (array (element (string (codes "x")) no_elements)) no_members))

abbrev codec : Codec
codec = record { decode = λ raw. some (login, []); marshal = λ v. some (codes "{}") }

abbrev keys : List Text
keys = new_redact_keys plain_web []

redacting : Unit {0}
unfolding redact_keys is_json_space has_more marshalled redact_decoded redacted_text redacted_body
    text_eq contains remove_separators lower_rune to_lower normalize_key new_redact_keys is_redacted
redacting = tt

redact_keys_run :
    redact_keys plain_web keys login
    ≡ object (
        member
          (codes "user")
          (object (
            member
              (codes "Access_Token")
              (string redacted_value)
              (member (codes "n") (scalar (codes "1")) no_members)))
          (member (codes "tags") (array (element (string (codes "x")) no_elements)) no_members))
unfolding redacting
redact_keys_run = refl

logged : redacted_body plain_web keys codec (codes "{..}") 8 ≡ raw_message (codes "{}")
unfolding redacting
logged = refl

-- A decoder that leaves a text unread.
abbrev leaving : Text → Codec
leaving rest = record { decode = λ raw. some (login, rest); marshal = λ v. some (codes "{}") }

-- A brace behind the value goes unseen, anything else does not.
trailing_brace :
    redacted_body plain_web keys (leaving (codes " }")) (codes "{..} }") 8
    ≡ raw_message (codes "{}")
unfolding redacting
trailing_brace = refl

trailing_value : redacted_body plain_web keys (leaving (codes " 1")) (codes "{..} 1") 8 ≡ non_json 6
unfolding redacting
trailing_value = refl

redacted_body-Shows_example :
    Shows plain_web keys codec
      (codes "{..}")
      8
      (redacted_body plain_web keys codec (codes "{..}") 8)
redacted_body-Shows_example = redacted_body-Shows plain_web keys codec (codes "{..}") 8

abbrev sent : List (Text × Text)
sent = (codes "Cookie", codes "a") ∷ (codes "Accept", codes "b") ∷ (codes "Cookie", codes "c") ∷ []

shown-visit_headers_example :
    shown (codes "Cookie") (visit_headers (redact_headers []) [] sent)
    ≡ summary (redact_headers []) (codes "Cookie") (values_of (codes "Cookie") sent)
shown-visit_headers_example = shown-visit_headers (redact_headers []) (codes "Cookie") sent

abbrev failing : Fiber
failing = record {
  Err = Text;
  error_handler = λ err c. (none, record c { status = 404 });
  send_status = λ code c. record c { status = code };
  parse_request_uri = λ uri. none;
}

abbrev request : Ctx
request = record {
  method = codes "GET";
  path = codes "/x";
  original_url = codes "/x?a=b";
  request_headers = sent;
  request_body = [];
  ip = codes "10.0.0.1";
  forwarded_for = [];
  status = 200;
  response_body = [];
}

abbrev config : RecordConfig
config = record {
  skip_paths = [];
  skip_body_paths = [];
  skip_body_routes = [];
  redact_query = [];
  redact_headers = [];
  max_body_bytes = 0;
  redact_body_keys = [];
}

abbrev fail : Ctx → Option Text × Ctx
fail c = (some (codes "no such thing"), c)
