-- ===== src/Httpx/Envelope.antt =====
-- httpx/httpx.go: the envelope of a response, as the calls that write it, and the health routes.
use servicekit_go.Base.{
  ℕ, List, [], ◌∷◌, ◌++◌, Text, codes, join, map, Option, none, some, ◌≡◌, refl,
}
use servicekit_go.Httpx.Recorder.{Call, set_header, write_header, write}

-- `json.Marshal`: of a value that is not nil, which can fail, and of a string, which cannot.
pub record Json : Type 1 where
  pub Data : Type 0
  pub marshal : Data → Option Text
  pub marshal_string : Text → Text

abbrev pub err_not_found : Text
err_not_found = codes "not found"

abbrev pub err_method_not_allowed : Text
err_method_not_allowed = codes "method not allowed"

abbrev pub err_internal : Text
err_internal = codes "internal server error"

abbrev pub err_body_too_large : Text
err_body_too_large = codes "request body too large"

abbrev pub status_internal_server_error : ℕ
status_internal_server_error = 500

-- `write` behind a body that could be marshalled.
unfoldable pub write_body : ℕ → Text → List Call
write_body status body =
    set_header (codes "Content-Type") (codes "application/json")
    ∷ write_header status
    ∷ write body
    ∷ []

module _ (js : Json) where
  -- An object of JSON, from its keys and the texts of their values.
  unfoldable pub marshal_member : Text × Text → Text
  marshal_member (k, v) = js.marshal_string k ++ (b':' ∷ v)

  unfoldable pub marshal_object : List (Text × Text) → Text
  marshal_object ms = b'{' ∷ (join (map marshal_member ms) (codes ",") ++ (b'}' ∷ []))

  abbrev pub null : Text
  null = codes "null"

  -- The text of the field `error`, which is null if there is none.
  unfoldable pub error_text : Option Text → Text
  error_text none = null
  error_text (some msg) = js.marshal_string msg

  -- The fields of `envelope`, in the order in which they are declared.
  abbrev pub fields : Text → Option Text → List (Text × Text)
  fields payload err = (codes "data", payload) ∷ (codes "error", error_text err) ∷ []

  unfoldable pub with_data : Option Text → Option Text → Option Text
  with_data none err = none
  with_data (some payload) err = some (marshal_object (fields payload err))

  unfoldable pub marshal_data : Option js.Data → Option Text
  marshal_data none = some null
  marshal_data (some d) = js.marshal d

  -- `json.Marshal(envelope{Data: data, Error: errMsg})`
  unfoldable pub marshal_envelope : Option js.Data → Option Text → Option Text
  marshal_envelope payload err = with_data (marshal_data payload) err

  -- `Error`, whose envelope can always be marshalled
  unfoldable pub error_calls : ℕ → Text → List Call
  error_calls status err = write_body status (marshal_object (fields null (some err)))

  unfoldable pub or_internal : ℕ → Option Text → List Call
  or_internal status none = error_calls status_internal_server_error err_internal
  or_internal status (some body) = write_body status body

  -- `write`
  unfoldable pub write_calls : ℕ → Option js.Data → Option Text → List Call
  write_calls status payload err = or_internal status (marshal_envelope payload err)

  -- `JSON` and `EmptyJSON`
  unfoldable pub json_calls : ℕ → js.Data → List Call
  json_calls status payload = write_calls status (some payload) none

  unfoldable pub empty_json_calls : ℕ → List Call
  empty_json_calls status = write_calls status none none

  unfoldable pub not_found : List Call
  not_found = error_calls 404 err_not_found

  unfoldable pub method_not_allowed : List Call
  method_not_allowed = error_calls 405 err_method_not_allowed

  -- `Error` calls `write` with no data, and so never comes back to itself.
  pub error_calls-write_calls :
      (status : ℕ) (err : Text) → error_calls status err ≡ write_calls status none (some err)
  unfolding error_calls write_calls or_internal marshal_envelope with_data marshal_data
  error_calls-write_calls status err = refl

-- A `ServeMux`, as the patterns that are registered with their handlers, the last first.
abbrev pub Mux : Type 0
Mux = List (Text × List Call)

-- `health` in `SetupHealthRoutes`
unfoldable pub health : List Call
health =
    set_header (codes "Content-Type") (codes "application/json")
    ∷ write (codes "{\"status\":\"ok\"}")
    ∷ []

unfoldable pub setup_health_routes : Mux → Mux
setup_health_routes mux = (codes "GET /health", health) ∷ (codes "GET /{$}", health) ∷ mux
