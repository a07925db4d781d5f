-- ===== src/Fiberx/Body.antt =====
-- fiberx/fiberx.go: what the log shows of a body.
pub mod Hidden
use servicekit_go.Base.{
  ℕ, Bool, false, not, ◌||◌, ◌==◌, List, [], ◌∷◌, Text, length, ltb, Option, none, some,
  if◌then◌else◌,
}
use servicekit_go.Httpx.Redact.{redacted_value, is_redacted}
use servicekit_go.Httpx.Web.{Web}

-- A decoded JSON value. An object has each key once; a scalar that is no string is its text.
mutual
  pub data Json : Type 0 where
    object : Members → Json
    array : Elements → Json
    string : Text → Json
    scalar : Text → Json

  pub data Members : Type 0 where
    no_members : Members
    member : Text → Json → Members → Members

  pub data Elements : Type 0 where
    no_elements : Elements
    element : Json → Elements → Elements

-- `Decode` of `json.NewDecoder` with `UseNumber`: the first value and the text that is left unread; and
-- `json.Marshal`.
pub record Codec : Type 0 where
  pub decode : Text → Option (Json × Text)
  pub marshal : Json → Option Text

-- The value of a body in the log: the texts with a size are data.
pub data Logged : Type 0 where
  nil : Logged
  omitted : ℕ → Logged
  non_json : ℕ → Logged
  raw_message : Text → Logged

-- JSON white space
unfoldable pub is_json_space : ℕ → Bool
is_json_space c = c == b' ' || c == 9 || c == 10 || c == 13

-- `dec.More()`, at the text that is left unread
unfoldable pub has_more : Text → Bool
has_more [] = false
has_more (c ∷ rest) = if is_json_space c then has_more rest else not (c == b']' || c == b'}')

module _ (web : Web) (redact : List Text) where
  -- `redactKeys`
  unfoldable mutual
    pub redact_keys : Json → Json
    redact_keys (object ms) = object (redact_members ms)
    redact_keys (array es) = array (redact_elements es)
    redact_keys (string s) = string s
    redact_keys (scalar s) = scalar s

    pub redact_members : Members → Members
    redact_members no_members = no_members
    redact_members (member k v ms) =
        let v' = redact_keys v in
        let ms' = redact_members ms in
        if is_redacted web redact k then member k (string redacted_value) ms' else member k v' ms'

    pub redact_elements : Elements → Elements
    redact_elements no_elements = no_elements
    redact_elements (element v es) = element (redact_keys v) (redact_elements es)

  unfoldable pub marshalled : ℕ → Option Text → Logged
  marshalled size none = omitted size
  marshalled size (some out) = raw_message out

  unfoldable pub redact_decoded : Codec → ℕ → Option (Json × Text) → Logged
  redact_decoded codec size none = non_json size
  redact_decoded codec size (some (v, rest)) =
      if has_more rest then non_json size else marshalled size (codec.marshal (redact_keys v))

  -- `redactedBody` behind the test for an empty body
  unfoldable pub redacted_text : Codec → Text → ℕ → Logged
  redacted_text codec raw limit =
      if ltb limit (length raw)
      then omitted (length raw)
      else redact_decoded codec (length raw) (codec.decode raw)

  unfoldable pub redacted_body : Codec → Text → ℕ → Logged
  redacted_body codec [] limit = nil
  redacted_body codec (c ∷ raw) limit = redacted_text codec (c ∷ raw) limit
