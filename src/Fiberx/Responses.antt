-- ===== src/Fiberx/Responses.antt =====
-- fiberx/fiberx.go: the responses, the health routes and the configuration behind proxies.
pub mod Parity
mod Tests
use servicekit_go.Base.{
  ℕ, not, Bool, true, false, List, [], ◌∷◌, ◌++◌, Text, codes, text_eq, text_eq_iff, Option, none,
  some, if◌then◌else◌, ◌≡◌, ◌≢◌, refl, ap, Bool-cases, inl, inr,
}
use servicekit_go.Base.Sort.{text_le, insert_by, sort_by}
use servicekit_go.Errorsx.{Err, message, code_of}
use servicekit_go.Httpx.Envelope.{
  Json, marshal_object, null, error_text, fields, with_data, marshal_data, marshal_envelope,
  or_internal, write_body, write_calls, error_calls, json_calls,
}
use servicekit_go.Httpx.Recorder.{Call}

-- What the package calls of a `fiber.Ctx`: `c.Status`, and `c.JSON` at what its encoder, which is
-- `json.Marshal`, makes of the argument.
pub record Fiber : Type 1 where
  pub Ctx : Type 0
  pub Failure : Type 0
  pub status : ℕ → Ctx → Ctx
  pub json : Option Text → Ctx → Option Failure × Ctx

-- The fields of `fiber.Config` that `TrustedProxyConfig` sets.
pub record ProxyConfig : Type 0 where
  pub proxy_header : Text
  pub enable_trusted_proxy_check : Bool
  pub trusted_proxies : List Text
  pub enable_ip_validation : Bool

unfoldable pub trusted_proxy_config : List Text → ProxyConfig
trusted_proxy_config trusted_proxies = record {
  proxy_header = codes "X-Forwarded-For";
  enable_trusted_proxy_check = true;
  trusted_proxies = trusted_proxies;
  enable_ip_validation = true;
}

module _ (js : Json) where
  -- `json.Marshal` of a map, whose keys are sorted.
  unfoldable pub marshal_map : List (Text × Text) → Text
  marshal_map ms = marshal_object js (sort_by (λ m. m.0) ms)

  unfoldable pub map_with_data : Option Text → Option Text
  map_with_data none = none
  map_with_data (some payload) =
      some (marshal_map ((codes "data", payload) ∷ (codes "error", null js) ∷ []))

  -- `body` in `Error`
  unfoldable pub error_map : Err → List (Text × Text)
  error_map err =
      let body = (codes "data", null js) ∷ (codes "error", js.marshal_string (message err)) ∷ [] in
      if not (text_eq (code_of err) [])
      then (codes "code", js.marshal_string (code_of err)) ∷ body
      else body

  module _ (fiber : Fiber) where
    unfoldable pub json : fiber.Ctx → ℕ → Option js.Data → Option fiber.Failure × fiber.Ctx
    json c status payload =
        fiber.json (map_with_data (marshal_data js payload)) (fiber.status status c)

    unfoldable pub empty_json : fiber.Ctx → ℕ → Option fiber.Failure × fiber.Ctx
    empty_json c status = json c status none

    unfoldable pub error : fiber.Ctx → ℕ → Err → Option fiber.Failure × fiber.Ctx
    error c status err = fiber.json (some (marshal_map (error_map err))) (fiber.status status c)

    -- `health` in `SetupHealthRoutes`
    unfoldable pub health : fiber.Ctx → Option fiber.Failure × fiber.Ctx
    health c =
        fiber.json (some (marshal_map ((codes "status", js.marshal_string (codes "ok")) ∷ []))) c

    -- `a.Get`, as the routes that are added to those of the application.
    unfoldable pub setup_health_routes :
        List (Text × (fiber.Ctx → Option fiber.Failure × fiber.Ctx))
        → List (Text × (fiber.Ctx → Option fiber.Failure × fiber.Ctx))
    setup_health_routes routes = (codes "/health", health) ∷ (codes "/", health) ∷ routes
