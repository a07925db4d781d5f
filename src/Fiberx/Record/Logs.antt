-- ===== src/Fiberx/Record/Logs.antt =====
-- What the handler logs of headers, and what it leaves of the response.
use servicekit_go.Base.{
  ℕ, false, List, [], ◌∷◌, Text, contains, text_eq, text_eq_iff, Option, none, ◌≡◌, ◌⊎◌, inl, inr,
  refl, All, Bool-cases,
}
use servicekit_go.Fiberx.Body.{Codec}
use servicekit_go.Fiberx.Record.{
  Ctx, RecordConfig, Fiber, Event, incoming, returned, add_header, put_header, visit_headers,
  handled, serve,
}
use servicekit_go.Httpx.Header.{canonical_header_key}
use servicekit_go.Httpx.Redact.{redacted_value}
use servicekit_go.Httpx.Web.{Web}

module _ (web : Web) (redact : List Text) where
  -- A header of the log shows no credential.
  abbrev Hidden : Text × Text → Type 0
  Hidden (k, v) = (contains redact k ≡ false) ⊎ (v ≡ redacted_value)

  put_header-Hidden :
      (k : Text) (hs : List (Text × Text))
      → All Hidden hs
      → All Hidden (put_header k redacted_value hs)
  unfolding put_header
  put_header-Hidden k [] h = (inr refl, tt)
  put_header-Hidden k ((j, prev) ∷ hs) h = elim (Bool-cases (text_eq j k)) [
    | inl e ↦ rw e (inr refl, h.1)
    | inr e ↦ rw e (h.0, put_header-Hidden k hs h.1)
  ]

  add_header-Hidden :
      (k v : Text) (hs : List (Text × Text))
      → contains redact k ≡ false
      → All Hidden hs
      → All Hidden (add_header k v hs)
  unfolding add_header
  add_header-Hidden k v [] ne h = (inl ne, tt)
  add_header-Hidden k v ((j, prev) ∷ hs) ne h = elim (Bool-cases (text_eq j k)) [
    | inl e ↦ rw e (inl (rw ((text_eq_iff j k).0 e) ne), h.1)
    | inr e ↦ rw e (h.0, add_header-Hidden k v hs ne h.1)
  ]

  visit_headers-Hidden :
      (headers rest : List (Text × Text))
      → All Hidden headers
      → All Hidden (visit_headers redact headers rest)
  unfolding visit_headers
  visit_headers-Hidden headers [] h = h
  visit_headers-Hidden headers ((key, value) ∷ rest) h =
      elim (Bool-cases (contains redact (canonical_header_key key))) [
        | inl e ↦ rw e (
            visit_headers-Hidden (put_header (canonical_header_key key) redacted_value headers) rest
              (put_header-Hidden (canonical_header_key key) headers h))
        | inr e ↦ rw e (
            visit_headers-Hidden (add_header (canonical_header_key key) value headers) rest
              (add_header-Hidden (canonical_header_key key) value headers e h))
      ]

  -- Of the headers that the log shows, each whose key has to be hidden shows the replacement alone,
  -- however often and in whatever spelling it was sent.
  visit_headers-AllHidden : (sent : List (Text × Text)) → All Hidden (visit_headers redact [] sent)
  visit_headers-AllHidden sent = visit_headers-Hidden [] sent tt

-- The status of a response in the log.
abbrev statuses : List Event → List ℕ
statuses [] = []
statuses (incoming remote_address method path headers body ∷ events) = statuses events
statuses (returned status method path body ∷ events) = status ∷ statuses events

module _ (web : Web) (fiber : Fiber) (codec : Codec) where
  -- A request that is not skipped logs the status that the client gets, also where the chain fails
  -- and the error handler, or status 500 in its place, writes the response; no error goes on.
  serve-statuses :
      (cfg : RecordConfig) (next : Ctx → Option fiber.Err × Ctx) (c : Ctx)
      → contains cfg.skip_paths c.path ≡ false
      → ((serve web fiber codec cfg next c).1 ≡ (none, handled web fiber codec (next c)))
        × (statuses (serve web fiber codec cfg next c).0
            ≡ (serve web fiber codec cfg next c).1.1.status ∷ [])
  unfolding serve
  serve-statuses cfg next c h = rw h (refl, refl)
