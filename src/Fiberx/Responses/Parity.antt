-- ===== src/Fiberx/Responses/Parity.antt =====
-- The envelopes of fiberx are those of httpx.
use servicekit_go.Base.{
  ℕ, [], ◌∷◌, Text, codes, text_eq, Option, none, some, if◌then◌else◌, ◌≡◌, refl, ap, Bool-cases,
  inl, inr,
}
use servicekit_go.Base.Sort.{text_le, insert_by, sort_by}
use servicekit_go.Errorsx.{Err, message, code_of}
use servicekit_go.Fiberx.Responses.{Fiber, marshal_map, map_with_data, error_map, json, error}
use servicekit_go.Httpx.Envelope.{
  Json, marshal_object, null, error_text, fields, with_data, marshal_data, marshal_envelope,
}

module _ (js : Json) where
  map_with_data-with_data :
      (payload : Option Text) → map_with_data js payload ≡ with_data js payload none
  unfolding map_with_data with_data marshal_map sort_by insert_by text_le error_text
  map_with_data-with_data none = refl
  map_with_data-with_data (some payload) = refl

  -- What the envelope of an error is: that of httpx, with the code in front if there is one.
  abbrev pub error_envelope : Err → Option Text
  error_envelope err =
      if text_eq (code_of err) []
      then marshal_envelope js none (some (message err))
      else some (
          marshal_object js (
            (codes "code", js.marshal_string (code_of err))
            ∷ fields js (null js) (some (message err))))

  marshal_map-error_map :
      (err : Err) → some (marshal_map js (error_map js err)) ≡ error_envelope err
  unfolding marshal_map error_map sort_by insert_by text_le error_text marshal_envelope with_data
      marshal_data
  marshal_map-error_map err = elim (Bool-cases (text_eq (code_of err) [])) [
    | inl e ↦ rw e refl
    | inr e ↦ rw e refl
  ]

  module _ (fiber : Fiber) where
    -- fiberx hands Fiber the same bodies that httpx writes: a response's is the envelope of httpx, or
    -- a failure where the data cannot be marshalled, and an error's is that envelope too, with the
    -- code in front if the error has one. The status is the one that was asked for.
    pub responses-envelope :
        (c : fiber.Ctx) (status : ℕ) (payload : Option js.Data) (err : Err)
        → (json js fiber c status payload
            ≡ fiber.json (marshal_envelope js payload none) (fiber.status status c))
          × (error js fiber c status err ≡ fiber.json (error_envelope err) (fiber.status status c))
    unfolding json error marshal_envelope
    responses-envelope c status payload err = (
      ap (λ body. fiber.json body (fiber.status status c))
          (map_with_data-with_data (marshal_data js payload)),
      ap (λ body. fiber.json body (fiber.status status c)) (marshal_map-error_map err),
    )
