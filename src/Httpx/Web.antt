-- ===== src/Httpx/Web.antt =====
-- What httpx/record.go takes from the standard library's tables and formats.
use servicekit_go.Base.{ℕ, Bool, List, Text}

-- `path` is decoded; `rest` stands for the other parts of a URL.
pub record Url : Type 0 where
  pub path : Text
  pub raw_query : Text
  pub rest : Text

-- A query or a set of headers: keys with their values, each key once.
abbrev pub Values : Type 0
Values = List (Text × List Text)

pub record Web : Type 0 where
  -- `unicode.ToLower` above ASCII
  pub wide_lower : ℕ → ℕ
  -- `strings.EqualFold`
  pub equal_fold : Text → Text → Bool
  -- `url.ParseQuery`, with whether it met an error, and `Values.Encode`
  pub parse_query : Text → Values × Bool
  pub encode : Values → Text
  -- `URL.RequestURI`
  pub request_uri : Url → Text
  -- `json.Valid`
  pub json_valid : Text → Bool
