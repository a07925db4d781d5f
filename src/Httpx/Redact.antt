-- ===== src/Httpx/Redact.antt =====
-- httpx/record.go: the redaction of headers and of query keys.
pub mod Masked
use servicekit_go.Base.{
  ℕ, ◌+◌, Bool, false, not, ◌||◌, List, [], ◌∷◌, ◌++◌, Text, codes, any, map, contains, any-append,
  contains-map, text_eq, within, ltb, ◌==◌, join, if◌then◌else◌, ◌≡◌, refl, ◌∙◌, arith, All, inl,
  inr, ◌⊎◌, Bool-cases,
}
use servicekit_go.Httpx.Header.{canonical_header_key}
use servicekit_go.Httpx.Web.{Url, Values, Web}

abbrev pub redacted_value : Text
redacted_value = codes "[redacted]"

abbrev pub default_redact_headers : List Text
default_redact_headers =
    codes "Authorization"
    ∷ codes "Cookie"
    ∷ codes "Set-Cookie"
    ∷ codes "Proxy-Authorization"
    ∷ codes "X-Api-Key"
    ∷ []

abbrev pub default_redact_keys : List Text
default_redact_keys =
    codes "password"
    ∷ codes "oldpassword"
    ∷ codes "newpassword"
    ∷ codes "token"
    ∷ codes "accesstoken"
    ∷ codes "refreshtoken"
    ∷ codes "idtoken"
    ∷ codes "code"
    ∷ codes "secret"
    ∷ codes "clientsecret"
    ∷ codes "apikey"
    ∷ []

-- `keySeparators.Replace`
unfoldable pub remove_separators : Text → Text
remove_separators [] = []
remove_separators (c ∷ s) =
    if c == b'_' || c == b'-' then remove_separators s else c ∷ remove_separators s

module _ (web : Web) where
  unfoldable pub lower_rune : ℕ → ℕ
  lower_rune c = if within b'A' b'Z' c then c + 32 else if ltb c 128 then c else web.wide_lower c

  unfoldable pub to_lower : Text → Text
  to_lower s = map lower_rune s

  unfoldable pub normalize_key : Text → Text
  normalize_key key = remove_separators (to_lower key)

  -- A `RedactKeys` is the list of the keys of its map.
  unfoldable pub new_redact_keys : List Text → List Text
  new_redact_keys extra = map normalize_key (default_redact_keys ++ extra)

  unfoldable pub is_redacted : List Text → Text → Bool
  is_redacted keys key = contains keys (normalize_key key)

  -- The loop of `RedactQuery`.
  unfoldable pub redact_values : List Text → Values → Values
  redact_values keys [] = []
  redact_values keys ((key, vs) ∷ q) =
      (if is_redacted keys key then (key, redacted_value ∷ []) else (key, vs))
      ∷ redact_values keys q

  unfoldable pub redact_query : List Text → Text → Text
  redact_query keys raw_query =
      let (q, failed) = web.parse_query raw_query in
      if not (failed || any (λ e. is_redacted keys e.0) q)
      then raw_query
      else web.encode (redact_values keys q)

  unfoldable pub redacted_url : Url → List Text → Text
  redacted_url u keys =
      if text_eq u.raw_query []
      then web.request_uri u
      else web.request_uri (record u { raw_query = redact_query keys u.raw_query })

-- `redactHeader` in `Record`, as the list of the keys of its map
unfoldable pub redact_headers : List Text → List Text
redact_headers extra = map canonical_header_key (default_redact_headers ++ extra)

unfoldable pub headers : Values → List Text → List (Text × Text)
headers [] redact = []
headers ((k, v) ∷ header) redact =
    (if contains redact k then (k, redacted_value) else (k, join v (codes ",")))
    ∷ headers header redact

module _ (web : Web) where
  -- The keys whose values are hidden are those that are spelled like a default key or like one of
  -- the configuration, ignoring case and the separators, whatever the configuration adds.
  pub is_redacted-new_redact_keys :
      (extra : List Text) (key : Text)
      → is_redacted web (new_redact_keys web extra) key ≡ (
          any (λ k. text_eq (normalize_key web k) (normalize_key web key)) default_redact_keys
          || any (λ k. text_eq (normalize_key web k) (normalize_key web key)) extra)
  unfolding is_redacted new_redact_keys
  is_redacted-new_redact_keys extra key =
      contains-map (normalize_key web) (default_redact_keys ++ extra) (normalize_key web key)
      ∙ any-append (λ k. text_eq (normalize_key web k) (normalize_key web key)) default_redact_keys
          extra

  -- A value is hidden.
  abbrev pub Hidden : List Text → Text × List Text → Type 0
  Hidden keys (key, vs) = (is_redacted web keys key ≡ false) ⊎ (vs ≡ redacted_value ∷ [])

  redact_values-Hidden :
      (keys : List Text) (q : Values) → All (Hidden keys) (redact_values web keys q)
  unfolding redact_values
  redact_values-Hidden keys [] = tt
  redact_values-Hidden keys ((key, vs) ∷ q) = elim (Bool-cases (is_redacted web keys key)) [
    | inl e ↦ rw e (inr refl, redact_values-Hidden keys q)
    | inr e ↦ rw e (inl e, redact_values-Hidden keys q)
  ]

  none-Hidden :
      (keys : List Text) (q : Values)
      → any (λ e. is_redacted web keys e.0) q ≡ false
      → All (Hidden keys) q
  none-Hidden keys [] h = tt
  none-Hidden keys ((key, vs) ∷ q) h = (inl (ground arith), none-Hidden keys q (ground arith))

  -- The query that is logged shows no value of a hidden key: it is the query as sent, which is well
  -- formed and has no such key, or it is written from values that are all hidden where they have to
  -- be.
  redact_query-Hidden :
      (keys : List Text) (raw : Text)
      → ((redact_query web keys raw ≡ raw)
          × ((web.parse_query raw).1 ≡ false)
          × All (Hidden keys) (web.parse_query raw).0)
        ⊎ ((q : Values) × (redact_query web keys raw ≡ web.encode q) × All (Hidden keys) q)
  unfolding redact_query
  redact_query-Hidden keys raw =
      let (q, failed) = web.parse_query raw in
      elim (Bool-cases (failed || any (λ e. is_redacted web keys e.0) q)) [
        | inl e ↦ inr (redact_values web keys q, rw e refl, redact_values-Hidden keys q)
        | inr e ↦ inl (rw e refl, ground arith, none-Hidden keys q (ground arith))
      ]
