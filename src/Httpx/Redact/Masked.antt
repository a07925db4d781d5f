-- ===== src/Httpx/Redact/Masked.antt =====
-- The query that is logged: `RedactQuery` of httpx/record.go.
use servicekit_go.Base.{
  true, false, ◌||◌, List, [], ◌∷◌, Text, any, ◌≡◌, ◌⊎◌, inl, inr, refl, All, Bool-cases, arith,
}
use servicekit_go.Httpx.Redact.{redacted_value, is_redacted, redact_values, redact_query}
use servicekit_go.Httpx.Web.{Values, Web}

module _ (web : Web) (keys : List Text) where
  abbrev pub IsShown : Text × List Text → Type 0
  IsShown (key, vs) = is_redacted web keys key ≡ false

  -- The same keys in the same order: one that has to be hidden holds the replacement alone, any other
  -- what it held.
  abbrev pub Masks : Values → Values → Type 0
  Masks [] [] = Unit
  Masks ((key, vs) ∷ sent) ((key', vs') ∷ shown) =
      (key' ≡ key)
      × (((is_redacted web keys key ≡ true) × (vs' ≡ redacted_value ∷ []))
          ⊎ ((is_redacted web keys key ≡ false) × (vs' ≡ vs)))
      × Masks sent shown
  Masks _ _ = ⊥

  redact_values-Masks : (q : Values) → Masks q (redact_values web keys q)
  unfolding redact_values
  redact_values-Masks [] = tt
  redact_values-Masks ((key, vs) ∷ q) = elim (Bool-cases (is_redacted web keys key)) [
    | inl e ↦ rw e (refl, inl (refl, refl), redact_values-Masks q)
    | inr e ↦ rw e (refl, inr (refl, refl), redact_values-Masks q)
  ]

  none-IsShown : (q : Values) → any (λ e. is_redacted web keys e.0) q ≡ false → All IsShown q
  none-IsShown [] h = tt
  none-IsShown ((key, vs) ∷ q) h = (ground arith, none-IsShown q (ground arith))

  -- The query that is logged shows no value of a hidden key: it is the query as sent, which is
  -- well formed and has no such key, or it is written from the values that were read from it,
  -- with the replacement in place of those under a key that has to be hidden and the others
  -- unchanged.
  pub redact_query-Masks :
      (raw : Text)
      → ((redact_query web keys raw ≡ raw)
          × ((web.parse_query raw).1 ≡ false)
          × All IsShown (web.parse_query raw).0)
        ⊎ ((q : Values) × (redact_query web keys raw ≡ web.encode q)
            × Masks (web.parse_query raw).0 q)
  unfolding redact_query
  redact_query-Masks raw =
      let (q, failed) = web.parse_query raw in
      elim (Bool-cases (failed || any (λ e. is_redacted web keys e.0) q)) [
        | inl e ↦ inr (redact_values web keys q, rw e refl, redact_values-Masks q)
        | inr e ↦ inl (rw e refl, ground arith, none-IsShown q (ground arith))
      ]
