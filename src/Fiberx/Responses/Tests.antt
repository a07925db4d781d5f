-- ===== src/Fiberx/Responses/Tests.antt =====
-- Runs of the responses, and the witness.
use servicekit_go.Base.{ℕ, Text, codes, join, text_eq, Option, none, some, ◌≡◌, refl}
use servicekit_go.Base.Sort.{text_le, insert_by, sort_by}
use servicekit_go.Errorsx.{Err, coded, or_empty, find, code_of, message}
use servicekit_go.Fiberx.Responses.{Fiber, marshal_map, error_map, json, error}
use servicekit_go.Fiberx.Responses.Parity.{error_envelope, responses-envelope}
use servicekit_go.Httpx.Envelope.{marshal_member, marshal_object, marshal_envelope}
use servicekit_go.Httpx.Tests.{plain_json}

-- A context that keeps its status and its body.
abbrev keeping : Fiber
keeping = record {
  Ctx = ℕ × Option Text;
  Failure = Unit;
  status = λ code c. (code, c.1);
  json = λ body c. (none, (c.0, body));
}

abbrev fresh : ℕ × Option Text
fresh = (200, none)

abbrev gone : Err
gone = coded (codes "not_found") (codes "gone")

error_run :
    error plain_json keeping fresh 404 gone
    ≡ (none, (404, some (codes "{\"code\":\"not_found\",\"data\":null,\"error\":\"gone\"}")))
unfolding error marshal_map error_map sort_by insert_by text_le marshal_object marshal_member join
    code_of find or_empty message text_eq
error_run = refl

responses-envelope_example :
    (json plain_json keeping fresh 200 (some (codes "x"))
      ≡ keeping.json
          (marshal_envelope plain_json (some (codes "x")) none)
          (keeping.status 200 fresh))
    × (error plain_json keeping fresh 200 gone
        ≡ keeping.json (error_envelope plain_json gone) (keeping.status 200 fresh))
responses-envelope_example = responses-envelope plain_json keeping fresh 200 (some (codes "x")) gone
