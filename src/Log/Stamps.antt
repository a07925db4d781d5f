-- ===== src/Log/Stamps.antt =====
-- What a line carries of its context.
use servicekit_go.Base.{
  false, List, [], ◌∷◌, ◌++◌, Text, codes, text_eq, Option, none, some, if◌then◌else◌, ◌≡◌, ◌≢◌,
  refl, ◌∙◌, ap, All, Bool-cases, inl, inr, append_assoc,
}
use servicekit_go.Base.Int.{ℤ}
use servicekit_go.Caller.{Caller, Context, from_context}
use servicekit_go.Log.{
  Level, Value, Attr, string, null, duration, args_to_attrs, enabled, is_blank, value_as_text,
  duration_as_text, written, write, with_caller, with_correlation, log, log_error, log_info,
  log_warn, log_debug, debug, info, warn, error,
}

abbrev pub text_attr : Text → Text → Attr
text_attr k v = record { key = k; value = string v }

abbrev pub caller_stamps : Option Caller → List Attr
caller_stamps none = []
caller_stamps (some c) =
    text_attr (codes "caller") c.id ∷ text_attr (codes "caller_client") c.client ∷ []

abbrev pub correlation_stamps : Option Text → List Attr
correlation_stamps none = []
correlation_stamps (some cid) = text_attr (codes "correlation_id") cid ∷ []

-- The attributes that a context puts on a line.
abbrev pub stamps : Context → List Attr
stamps ctx = correlation_stamps ctx.correlation ++ caller_stamps ctx.caller

abbrev pub no_context : Context
no_context = record { caller = none; correlation = none; idempotency = none }

-- A duration is not written as a number.
abbrev pub IsText : Attr → Type 0
IsText a = (d : ℤ) → a.value ≢ duration d

is_blank-named : (a : Attr) (v : Value) → text_eq a.key [] ≡ false → is_blank a v ≡ false
unfolding is_blank
is_blank-named a null h = h
is_blank-named a v h = refl

module _ (show : ℤ → Text) where
  value_as_text-IsText : (v : Value) (d : ℤ) → value_as_text show v ≢ duration d
  unfolding value_as_text
  value_as_text-IsText (duration e) d = cc
  value_as_text-IsText v d = cc

  duration_as_text-IsText : (a : Attr) → IsText (duration_as_text show a)
  unfolding duration_as_text
  duration_as_text-IsText a = value_as_text-IsText a.value

  written-IsText : (attrs : List Attr) → All IsText (written show attrs)
  unfolding written
  written-IsText [] = tt
  written-IsText (a ∷ attrs) =
      elim (Bool-cases (is_blank (duration_as_text show a) (duration_as_text show a).value)) [
        | inl e ↦ rw e (written-IsText attrs)
        | inr e ↦ rw e (duration_as_text-IsText a, written-IsText attrs)
      ]

  with_caller-stamps :
      (c : Option Caller) (kvs : List Value)
      → written show (args_to_attrs (with_caller show c kvs))
        ≡ caller_stamps c ++ written show (args_to_attrs kvs)
  unfolding with_caller args_to_attrs written duration_as_text value_as_text is_blank
  with_caller-stamps none kvs = refl
  with_caller-stamps (some c) kvs = refl

  with_correlation-stamps :
      (c : Option Text) (kvs : List Value)
      → written show (args_to_attrs (with_correlation show c kvs))
        ≡ correlation_stamps c ++ written show (args_to_attrs kvs)
  unfolding with_correlation args_to_attrs written duration_as_text value_as_text is_blank
  with_correlation-stamps none kvs = refl
  with_correlation-stamps (some c) kvs = refl

  written-error :
      (err : Value) (kvs : List Value)
      → written show (args_to_attrs (string (codes "error") ∷ err ∷ kvs))
        ≡ record { key = codes "error"; value = value_as_text show err }
          ∷ written show (args_to_attrs kvs)
  unfolding args_to_attrs written duration_as_text text_eq
  written-error err kvs =
      rw
        (is_blank-named (record { key = codes "error"; value = value_as_text show err })
          (value_as_text show err) refl)
        refl

  log-attrs :
      (ctx : Context) (level : Level) (msg : Text) (kvs : List Value)
      → log show ctx level msg kvs ≡ (
          if enabled level
          then some (record {
            level = level;
            msg = msg;
            attrs = stamps ctx ++ written show (args_to_attrs kvs);
          })
          else none)
  unfolding log write from_context
  log-attrs ctx level msg kvs =
      rw
        (
          with_correlation-stamps ctx.correlation (with_caller show ctx.caller kvs),
          with_caller-stamps ctx.caller kvs,
          append_assoc (correlation_stamps ctx.correlation) (caller_stamps ctx.caller)
              (written show (args_to_attrs kvs)),
        )
        refl

  -- Every line carries the correlation id and the caller of its context, those it has, in front of
  -- what it carries without a context, whatever arguments are passed, and no duration is left a
  -- number. An error comes first behind them. What is logged for debugging is not written at all.
  pub log-stamps :
      (ctx : Context) (msg : Text) (err : Value) (kvs : List Value)
      → (rest : List Attr) × (log_info show no_context msg kvs
          ≡ some (record { level = info; msg = msg; attrs = rest }))
        × (log_info show ctx msg kvs
            ≡ some (record { level = info; msg = msg; attrs = stamps ctx ++ rest }))
        × (log_warn show ctx msg kvs
            ≡ some (record { level = warn; msg = msg; attrs = stamps ctx ++ rest }))
        × (log_error show ctx msg err kvs
            ≡ some (record {
              level = error;
              msg = msg;
              attrs =
                  stamps ctx
                  ++ record { key = codes "error"; value = value_as_text show err } ∷ rest;
            }))
        × (log_debug show ctx msg kvs ≡ none)
        × All IsText rest
  unfolding log_info log_warn log_error log_debug enabled
  log-stamps ctx msg err kvs = (
    written show (args_to_attrs kvs),
    log-attrs no_context info msg kvs,
    log-attrs ctx info msg kvs,
    log-attrs ctx warn msg kvs,
    log-attrs ctx error msg (string (codes "error") ∷ err ∷ kvs)
        ∙ ap (λ t. some (record { level = error; msg = msg; attrs = stamps ctx ++ t }))
            (written-error err kvs),
    log-attrs ctx debug msg kvs,
    written-IsText (args_to_attrs kvs),
  )
