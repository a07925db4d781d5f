-- ===== src/Httpx/Tests/Recovered.antt =====
-- A run of `Record` around `Recover`, and the witnesses.
use servicekit_go.Base.{
  false, List, [], ◌∷◌, ◌++◌, codes, Option, none, some, contains, join, text_eq, ◌≡◌, ◌⊎◌, ◌≢◌,
  refl,
}
use servicekit_go.Httpx.Envelope.{error_calls, err_internal, status_internal_server_error}
use servicekit_go.Httpx.Record.{Request, RecordConfig, is_skipped, spellings, serve}
use servicekit_go.Httpx.Record.Recovered.{
  statuses, serve_recovered, serve_recovered-answered, serve_recovered-status,
}
use servicekit_go.Httpx.Recorder.{Call, set_header, run_direct}
use servicekit_go.Httpx.Recover.{Panic, abort_handler, other, recover}
use servicekit_go.Httpx.Recover.Recorded.{answered}
use servicekit_go.Httpx.Tests.{sink, plain_web, plain_json}
use servicekit_go.Strings.{split, prepend, parent, clean_loop, or_dot, clean}

abbrev request : Request
request = record {
  method = codes "POST";
  url = record { path = codes "/things"; raw_query = []; rest = [] };
  header = [];
  remote_addr = codes "10.0.0.1:5";
  body = none;
}

abbrev config : RecordConfig
config = record {
  skip_paths = codes "/health" ∷ [];
  skip_body_paths = [];
  skip_body_routes = [];
  redact_query = [];
  redact_headers = [];
  max_body_bytes = 0;
}

abbrev begun : List Call
begun = set_header (codes "A") (codes "b") ∷ []

-- A handler that panics before it writes.
abbrev next : Request → List Call × Option Panic
next r = (begun, some (other (codes "boom")))

kept : is_skipped config.skip_paths request.url.path ≡ false
unfolding is_skipped spellings contains text_eq split prepend parent clean_loop or_dot clean join
kept = refl

serve_recovered-status_example :
    (statuses (serve_recovered plain_web sink plain_json config next request []).0 ≡ 500 ∷ [])
    × ((serve_recovered plain_web sink plain_json config next request []).1 ≡ (
      none,
      (
        some (codes "boom"),
        (run_direct sink
            (begun ++ error_calls plain_json status_internal_server_error err_internal)
            []).1,
      ),
    ))
serve_recovered-status_example =
    serve_recovered-status plain_web sink plain_json config next request [] begun (codes "boom")
      kept refl refl

serve_recovered-answered_example :
    ((serve_recovered plain_web sink plain_json config next request []).1
      ≡ recover sink plain_json (next request) [])
    × (((some (other (codes "boom")) ≡ some abort_handler)
          × (statuses (serve_recovered plain_web sink plain_json config next request []).0 ≡ []))
        ⊎ ((some (other (codes "boom")) ≢ some abort_handler)
            × ((serve_recovered plain_web sink plain_json config next request []).0
                ≡ (serve plain_web sink config
                    (λ r. answered sink plain_json (next r) [])
                    request
                    []).0)))
serve_recovered-answered_example =
    serve_recovered-answered plain_web sink plain_json config next request []
