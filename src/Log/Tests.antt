-- ===== src/Log/Tests.antt =====
-- Runs of the logger, and the witness.
use servicekit_go.Base.{List, [], ◌∷◌, ◌++◌, Text, codes, text_eq, none, some, ◌≡◌, refl, All}
use servicekit_go.Base.Int.{ℤ, pos}
use servicekit_go.Caller.{Context, from_context}
use servicekit_go.Log.{
  Value, Attr, string, duration, any, info, warn, error, args_to_attrs, enabled, is_blank,
  value_as_text, duration_as_text, written, write, with_caller, with_correlation, log, log_info,
  log_warn, log_error, log_debug,
}
use servicekit_go.Log.Stamps.{IsText, stamps, text_attr, no_context, log-stamps}

abbrev show : ℤ → Text
show d = codes "75.312ms"

abbrev ctx : Context
ctx = record {
  caller = some (record { id = codes "ops"; client = codes "cli" });
  correlation = some (codes "c-1");
  idempotency = none;
}

logging : Unit {0}
unfolding args_to_attrs enabled is_blank value_as_text duration_as_text written write with_caller
    with_correlation log from_context text_eq
logging = tt

-- A key without a value, behind a duration.
abbrev kvs : List Value
kvs = string (codes "duration") ∷ duration (pos 75312000) ∷ string (codes "odd") ∷ []

log_run :
    log show ctx warn (codes "done") kvs
    ≡ some (record {
      level = warn;
      msg = codes "done";
      attrs =
          text_attr (codes "correlation_id") (codes "c-1")
          ∷ text_attr (codes "caller") (codes "ops")
          ∷ text_attr (codes "caller_client") (codes "cli")
          ∷ text_attr (codes "duration") (codes "75.312ms")
          ∷ text_attr (codes "!BADKEY") (codes "odd")
          ∷ [];
    })
unfolding logging
log_run = refl

log-stamps_example :
    (rest : List Attr) × (log_info show no_context (codes "done") kvs
      ≡ some (record { level = info; msg = codes "done"; attrs = rest }))
    × (log_info show ctx (codes "done") kvs
        ≡ some (record { level = info; msg = codes "done"; attrs = stamps ctx ++ rest }))
    × (log_warn show ctx (codes "done") kvs
        ≡ some (record { level = warn; msg = codes "done"; attrs = stamps ctx ++ rest }))
    × (log_error show ctx (codes "done") (any (codes "broken")) kvs
        ≡ some (record {
          level = error;
          msg = codes "done";
          attrs =
              stamps ctx
              ++ record { key = codes "error"; value = value_as_text show (any (codes "broken")) }
                ∷ rest;
        }))
    × (log_debug show ctx (codes "done") kvs ≡ none)
    × All IsText rest
log-stamps_example = log-stamps show ctx (codes "done") (any (codes "broken")) kvs
