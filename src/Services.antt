-- ===== src/Services.antt =====
-- Services that call each other: the handlers `CorrelationID` and `Caller` of fiberx/fiberx.go in front
-- of a handler whose calls go through `NewInternalTransport` of httpx/caller.go.
pub mod Agree
mod Tests
use servicekit_go.Base.{List, [], ◌∷◌, Text, none, some}
use servicekit_go.Caller.{Context}
use servicekit_go.Fiberx.Handlers.{Ctx, correlation_id, caller}
use servicekit_go.Httpx.Transports.{RoundTripper, internal_transport}
use servicekit_go.Httpx.Web.{Values}

-- A request that has just come in, with nothing in its contexts.
abbrev pub no_values : Context
no_values = record { caller = none; correlation = none; idempotency = none }

abbrev pub receive : Values → Ctx
receive header = record {
  header = header;
  response_header = [];
  locals = no_values;
  user_context = no_values;
}

-- What the handler behind `CorrelationID` and `Caller` gets.
unfoldable pub entered : Text → Ctx → Ctx
entered new_id c = correlation_id new_id (caller (λ (d : Ctx). d)) c

-- The transport shows what leaves the service.
abbrev pub send : RoundTripper Values
send req = req.header

-- The headers of an internal call: `header` has those that the handler sets.
unfoldable pub called : Values → Context → Values
called header ctx = internal_transport send (some send) (record { header = header; context = ctx })

-- A service on the way of a request: the id that it would make up, and the headers that its handler
-- sets on its call of the next service.
pub record Service : Type 0 where
  pub new_id : Text
  pub header : Values

-- The contexts of the handlers, one service after the other.
unfoldable pub contexts : Values → List Service → List Context
contexts incoming [] = []
contexts incoming (s ∷ services) =
    let ctx = (entered s.new_id (receive incoming)).user_context in
    ctx ∷ contexts (called s.header ctx) services
