-- ===== src/Fiberx/Record/Answers.antt =====
-- What the client gets with `Record` and without it.
use servicekit_go.Base.{ℕ, List, [], ◌∷◌, Option, none, some, ◌≡◌}
use servicekit_go.Fiberx.Body.{Codec, Logged}
use servicekit_go.Fiberx.Record.{Ctx, Fiber, Event, incoming, returned}
use servicekit_go.Httpx.Web.{Web}

-- The responses in the log.
abbrev pub responses : List Event → List (ℕ × Logged)
responses [] = []
responses (incoming remote_address method path headers body ∷ events) = responses events
responses (returned status method path body ∷ events) = (status, body) ∷ responses events

module _ (web : Web) (fiber : Fiber) (codec : Codec) where
  -- What Fiber makes of the result of the outermost handler: the response as it is, or the error
  -- handler's, or status 500 where that fails too.
  pub data Answers : Option fiber.Err → Ctx → Ctx → Type 0 where
    as_is : (c : Ctx) → Answers none c c
    caught :
        (err : fiber.Err) (c d : Ctx)
        → fiber.error_handler err c ≡ (none, d)
        → Answers (some err) c d
    uncaught :
        (err again : fiber.Err) (c d : Ctx)
        → fiber.error_handler err c ≡ (some again, d)
        → Answers (some err) c (fiber.send_status 500 d)
