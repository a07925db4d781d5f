-- ===== src/Httpx/Logger/Hidden.antt =====
-- What the URL of an outbound request shows of its query.
use servicekit_go.Base.{
  Bool, true, false, ◌&&◌, ◌||◌, List, [], ◌∷◌, Text, contains, text_eq, text_eq_iff, if◌then◌else◌,
  ◌⊎◌, inl, inr, ◌≡◌, refl, ap, ◌∙◌, sym, arith, Bool-cases,
}
use servicekit_go.Httpx.Header.{values_at, put_at, values_at-put_at, values_at-put_at_other}
use servicekit_go.Httpx.Logger.{has, redact_listed, outbound_url}
use servicekit_go.Httpx.Redact.{redacted_value}
use servicekit_go.Httpx.Web.{Url, Values, Web}

has-put_at : (q : Values) (k l v : Text) → has (put_at q k v) l ≡ (text_eq k l || has q l)
unfolding has put_at
has-put_at [] k l v = refl
has-put_at ((j, vs) ∷ q) k l v = elim (Bool-cases (text_eq j k)) [
  | inl e ↦ ground (arith, e, ap (λ t. text_eq t l) ((text_eq_iff j k).0 e))
  | inr e ↦ ground (arith, e, has-put_at q k l v)
]

-- The values that are shown under a key.
abbrev pub shown_under : Values → List Text → Text → List Text
shown_under q keys k = if contains keys k && has q k then redacted_value ∷ [] else values_at q k

has-text_eq : (q : Values) (k l : Text) → text_eq k l ≡ true → has q k ≡ has q l
has-text_eq q k l e = ap (has q) ((text_eq_iff k l).0 e)

if_same : {x y : List Text} (b : Bool) → y ≡ x → (if b && true then x else y) ≡ x
if_same true e = refl
if_same false e = e

if_never : (x : List Text) {y : List Text} (b : Bool) → (if b && false then x else y) ≡ y
if_never x true = refl
if_never x false = refl

-- One step: what a key hides is hidden, and the rest is as before.
redacted_step :
    (q : Values) (key : Text) (keys : List Text) (k : Text)
    → shown_under (if has q key then put_at q key redacted_value else q) keys k
      ≡ shown_under q (key ∷ keys) k
unfolding contains
redacted_step q key keys k = elim (Bool-cases (has q key)) [
  | inl h ↦ elim (Bool-cases (text_eq key k)) [
    | inl e ↦
        rw (h, e, has-put_at q key k redacted_value, e, sym (has-text_eq q key k e), h)
          (if_same (contains keys k) (
            ap (values_at (put_at q key redacted_value)) (sym ((text_eq_iff key k).0 e))
            ∙ values_at-put_at q key redacted_value))
    | inr e ↦
        rw
          (
            h,
            e,
            has-put_at q key k redacted_value,
            e,
            values_at-put_at_other q key k redacted_value e,
          )
          refl
  ]
  | inr h ↦ elim (Bool-cases (text_eq key k)) [
    | inl e ↦
        rw (h, e, sym (has-text_eq q key k e), h) (if_never (redacted_value ∷ []) (contains keys k))
    | inr e ↦ rw (h, e) refl
  ]
]

values_at-redact_listed :
    (q : Values) (keys : List Text) (k : Text)
    → values_at (redact_listed q keys) k ≡ shown_under q keys k
unfolding redact_listed contains
values_at-redact_listed q [] k = refl
values_at-redact_listed q (key ∷ keys) k =
    values_at-redact_listed (if has q key then put_at q key redacted_value else q) keys k
    ∙ redacted_step q key keys k

module _ (web : Web) (redacted : Url → Text) where
  -- The URL that is logged is written by `URL.Redacted`, which masks a password, from the URL of the
  -- request, as it is where it has no query or no key is to be hidden, and else with a query in which
  -- each listed key that the query has shows the replacement as its only value and any other key all
  -- the values that it had.
  pub outbound_url-shown_under :
      (u : Url) (keys : List Text)
      → ((outbound_url web redacted u keys ≡ redacted u) × ((u.raw_query ≡ []) ⊎ (keys ≡ [])))
        ⊎ ((q : Values) × (outbound_url web redacted u keys
              ≡ redacted (record u { raw_query = web.encode q }))
            × ((k : Text) → values_at q k ≡ shown_under (web.parse_query u.raw_query).0 keys k))
  unfolding outbound_url
  outbound_url-shown_under u [] = inl (refl, inr refl)
  outbound_url-shown_under u (key ∷ keys) = elim (Bool-cases (text_eq u.raw_query [])) [
    | inl e ↦ inl (rw e refl, inl ((text_eq_iff _ _).0 e))
    | inr e ↦ inr (
      redact_listed (web.parse_query u.raw_query).0 (key ∷ keys),
      rw e refl,
      values_at-redact_listed (web.parse_query u.raw_query).0 (key ∷ keys),
    )
  ]
