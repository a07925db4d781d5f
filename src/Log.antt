-- ===== src/Log.antt =====
-- log/log.go: the logger that stamps identifiers on every line, over the package log/slog with its
-- JSON handler.
pub mod Stamps
mod Tests
use servicekit_go.Base.{
  Bool, true, false, List, [], ◌∷◌, ◌++◌, Text, codes, text_eq, Option, none, some, if◌then◌else◌,
}
use servicekit_go.Base.Int.{ℤ}
use servicekit_go.Caller.{Caller, Context, from_context}

pub data Level : Type 0 where
  debug info warn error : Level

-- A value of slog: `duration` counts nanoseconds, `null` is nil, `attr` an attribute as a value, and
-- `any` stands for all other values.
pub data Value : Type 0 where
  string : Text → Value
  duration : ℤ → Value
  null : Value
  attr : Text → Value → Value
  any : Text → Value

pub record Attr : Type 0 where
  pub key : Text
  pub value : Value

-- A line that is written: the time is left out.
pub record Line : Type 0 where
  pub level : Level
  pub msg : Text
  pub attrs : List Attr

abbrev pub bad_key : Text
bad_key = codes "!BADKEY"

-- slog: a string is the key of the value behind it, an attribute stands for itself, and what has no
-- key gets a bad one.
unfoldable pub args_to_attrs : List Value → List Attr
args_to_attrs [] = []
args_to_attrs (string k ∷ []) = record { key = bad_key; value = string k } ∷ []
args_to_attrs (string k ∷ v ∷ args) = record { key = k; value = v } ∷ args_to_attrs args
args_to_attrs (attr k v ∷ args) = record { key = k; value = v } ∷ args_to_attrs args
args_to_attrs (v ∷ args) = record { key = bad_key; value = v } ∷ args_to_attrs args

-- slog: the handler is left at its level, which is that of information.
unfoldable pub enabled : Level → Bool
enabled debug = false
enabled _ = true

-- slog: an attribute with neither key nor value is left out.
unfoldable pub is_blank : Attr → Value → Bool
is_blank a null = text_eq a.key []
is_blank a _ = false

module _ (show : ℤ → Text) where
  unfoldable pub value_as_text : Value → Value
  value_as_text (duration d) = string (show d)
  value_as_text v = v

  -- `durationAsText`; `show` is `Duration.String`.
  unfoldable pub duration_as_text : Attr → Attr
  duration_as_text a = record a { value = value_as_text a.value }

  -- slog: the attributes that the handler writes.
  unfoldable pub written : List Attr → List Attr
  written [] = []
  written (a ∷ attrs) =
      let a' = duration_as_text a in
      let rest = written attrs in if is_blank a' a'.value then rest else a' ∷ rest

  -- `slog.Logger.Log`
  unfoldable pub write : Level → Text → List Value → Option Line
  write level msg args =
      if enabled level
      then some (record { level = level; msg = msg; attrs = written (args_to_attrs args) })
      else none

  unfoldable pub with_caller : Option Caller → List Value → List Value
  with_caller none kvs = kvs
  with_caller (some c) kvs =
      string (codes "caller") ∷ string c.id ∷ string (codes "caller_client") ∷ string c.client ∷ kvs

  unfoldable pub with_correlation : Option Text → List Value → List Value
  with_correlation none kvs = kvs
  with_correlation (some cid) kvs = string (codes "correlation_id") ∷ string cid ∷ kvs

  -- `Logger.log`; `correlation.FromContext` reads the id that the context holds, if any.
  unfoldable pub log : Context → Level → Text → List Value → Option Line
  log ctx level msg kvs =
      write level msg (with_correlation ctx.correlation (with_caller (from_context ctx) kvs))

  unfoldable pub log_debug : Context → Text → List Value → Option Line
  log_debug ctx msg kvs = log ctx debug msg kvs

  unfoldable pub log_info : Context → Text → List Value → Option Line
  log_info ctx msg kvs = log ctx info msg kvs

  unfoldable pub log_warn : Context → Text → List Value → Option Line
  log_warn ctx msg kvs = log ctx warn msg kvs

  unfoldable pub log_error : Context → Text → Value → List Value → Option Line
  log_error ctx msg err kvs = log ctx error msg (string (codes "error") ∷ err ∷ kvs)
