-- ===== src/Httpx/Tests/Record.antt =====
-- Runs of the recorder, of redaction and of `Record`, and the witnesses.
use servicekit_go.Base.{
  true, false, ◌&&◌, not, List, [], ◌∷◌, Text, codes, take, contains, text_eq, none, some,
  if◌then◌else◌, ◌==◌, ◌≡◌, ◌⊎◌, refl, All,
}
use servicekit_go.Strings.{clean, clean_loop, parent, or_dot, split, prepend, has_prefix}
use servicekit_go.Httpx.Body.{Body, Logged, decode_body}
use servicekit_go.Httpx.Record.{
  Request, RecordConfig, is_skipped, spellings, logs_body, max_body, serve,
}
use servicekit_go.Httpx.Record.Logs.{bodies, front, serve-run_direct, serve-bodies}
use servicekit_go.Httpx.Recorder.{
  Call, write, write_header, hijack, record_write, record_write_header, after_hijack, record_hijack,
  call, run, run_direct, recorder, logged_status,
}
use servicekit_go.Httpx.Recorder.Captured.{response, run-response}
use servicekit_go.Httpx.Redact.{
  remove_separators, lower_rune, to_lower, normalize_key, new_redact_keys, is_redacted,
  redact_query,
}
use servicekit_go.Httpx.Redact.Masked.{IsShown, Masks, redact_query-Masks}
use servicekit_go.Httpx.Tests.{sink, plain_web}
use servicekit_go.Base.{join}

-- To clean a path and to normalize a key.
cleaning : Unit {0}
unfolding clean clean_loop parent or_dot split prepend has_prefix text_eq join contains
    remove_separators lower_rune to_lower normalize_key new_redact_keys is_redacted
cleaning = tt

clean_runs :
    (clean (codes "//auth/./login/") ≡ codes "/auth/login")
    × (clean (codes "/a/../../b") ≡ codes "/b")
    × (clean (codes "a/../..") ≡ codes "..")
    × (clean [] ≡ codes ".")
unfolding cleaning
clean_runs = (refl, refl, refl, refl)

is_redacted_runs :
    (is_redacted plain_web (new_redact_keys plain_web []) (codes "Access-Token") ≡ true)
    × (is_redacted plain_web (new_redact_keys plain_web (codes "PIN_Code" ∷ [])) (codes "pincode")
        ≡ true)
    × (is_redacted plain_web (new_redact_keys plain_web []) (codes "name") ≡ false)
unfolding cleaning
is_redacted_runs = (refl, refl, refl)

redact_query-Masks_example :
    ((redact_query plain_web (new_redact_keys plain_web []) (codes "abc") ≡ codes "abc")
      × (false ≡ false)
      × All
          (IsShown plain_web (new_redact_keys plain_web []))
          ((codes "Access_Token", codes "abc" ∷ []) ∷ []))
    ⊎ ((q : List (Text × List Text)) × (redact_query plain_web
            (new_redact_keys plain_web [])
            (codes "abc")
          ≡ codes "encoded")
        × Masks plain_web
            (new_redact_keys plain_web [])
            ((codes "Access_Token", codes "abc" ∷ []) ∷ [])
            q)
redact_query-Masks_example =
    redact_query-Masks plain_web (new_redact_keys plain_web []) (codes "abc")

abbrev calls : List Call
calls =
    write (codes "hello")
    ∷ hijack
    ∷ write (codes " world")
    ∷ write_header 101
    ∷ write (codes "!")
    ∷ []

run-response_example :
    (run sink calls (recorder sink [] true 8)).1.body ≡ take 8 (codes "hello world")
run-response_example = run-response sink calls [] true 8

captured_run : (run sink calls (recorder sink [] true 8)).1.body ≡ codes "hello wo"
unfolding run call record_write record_hijack record_write_header after_hijack take
captured_run = refl

abbrev posted : Body
posted = record { bytes = codes "a=1"; failure = none }

abbrev request : Request
request = record {
  method = codes "POST";
  url = record { path = codes "/things"; raw_query = []; rest = [] };
  header = [];
  remote_addr = codes "10.0.0.1:5";
  body = some posted;
}

abbrev config : RecordConfig
config = record {
  skip_paths = codes "/health" ∷ [];
  skip_body_paths = codes "/auth/" ∷ [];
  skip_body_routes = [];
  redact_query = [];
  redact_headers = [];
  max_body_bytes = 0;
}

abbrev next : Request → List Call
next r = write (codes "ok") ∷ []

serve-run_direct_example :
    (serve plain_web sink config next request []).1 ≡ run_direct sink (next request) []
serve-run_direct_example = serve-run_direct plain_web sink config next request []

not_skipped : is_skipped config.skip_paths request.url.path ≡ false
unfolding cleaning is_skipped spellings
not_skipped = refl

serve-bodies_example : bodies plain_web sink (serve plain_web sink config next request []).0 ≡ (
    let log_body = logs_body plain_web config request.method request.url.path in
    let limit = max_body config in
    let switched =
      logged_status sink (run sink (next request) (recorder sink [] log_body limit)).1 == 101 in
    (if log_body then front plain_web sink limit request.body else Logged.nil)
    ∷ (if log_body && not switched
        then decode_body plain_web (take limit (response sink (next request) []))
        else Logged.nil)
    ∷ [])
serve-bodies_example = serve-bodies plain_web sink config next request [] not_skipped
