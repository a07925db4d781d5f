-- ===== src/Caller.antt =====
-- caller/caller.go: who made a request, in a context.
use servicekit_go.Base.{Text, Option, some}

pub record Caller : Type 0 where
  pub id : Text
  pub client : Text

-- The values that the repository's packages keep in a context: each is under a key of its own.
pub record Context : Type 0 where
  pub caller : Option Caller
  pub correlation : Option Text
  pub idempotency : Option Text

unfoldable pub new_context : Context → Caller → Context
new_context parent c = record parent { caller = some c }

-- `none` is the error `ErrNotFound`.
unfoldable pub from_context : Context → Option Caller
from_context ctx = ctx.caller
