-- ===== src/Rsql/Coerce.antt =====
-- `coerce` of rsql/schema.go, with the parts of `strconv` that it calls.
pub mod Range
use servicekit_go.Base.{
  ℕ, ◌+◌, ◌-◌, ◌*◌, ◌^◌, Bool, true, false, not, ◌&&◌, List, [], ◌∷◌, Text, Option, none, some,
  codes, contains, within, ltb, leb, ◌==◌, if◌then◌else◌, ◌⊎◌, inl, inr,
}
use servicekit_go.Base.Int.{ℤ, pos, negsuc}
use servicekit_go.Rsql.Bound.{Kind, Field, Value}
use servicekit_go.Rsql.Result.{
  ValueError, not_in_enum, bad_syntax, out_of_range, bad_time, unsupported_kind,
}
use servicekit_go.Rsql.Std.{Std}

-- A result, or the reason why there is none.
abbrev pub Coerced {ℓ} : Type ℓ → Type ℓ
Coerced A = A ⊎ ValueError

abbrev pub max_uint64 : ℕ
max_uint64 = 2 ^ 64 - 1

abbrev pub cutoff_int64 : ℕ
cutoff_int64 = 2 ^ 63

-- The loop of `strconv.ParseUint(_, 10, 64)`; `raw` is what an error names.
unfoldable pub uint_loop : Text → ℕ → Text → Coerced ℕ
uint_loop raw n [] = inl n
uint_loop raw n (c ∷ cs) =
    let m = n * 10 + (c - b'0') in
    let rest = uint_loop raw m cs in
    if not (within b'0' b'9' c)
    then inr (bad_syntax raw)
    else if ltb max_uint64 m
    then inr (out_of_range raw)
    else rest

unfoldable pub parse_uint : Text → Text → Coerced ℕ
parse_uint raw [] = inr (bad_syntax raw)
parse_uint raw (c ∷ cs) = uint_loop raw 0 (c ∷ cs)

-- The range checks of `strconv.ParseInt(_, 10, 64)`.
unfoldable pub signed : Text → Bool → Coerced ℕ → Coerced ℤ
signed raw neg (inr e) = inr e
signed raw false (inl n) = if leb cutoff_int64 n then inr (out_of_range raw) else inl (pos n)
signed raw true (inl n) =
    if ltb cutoff_int64 n
    then inr (out_of_range raw)
    else if n == 0
    then inl (pos 0)
    else inl (negsuc (n - 1))

unfoldable pub parse_int : Text → Coerced ℤ
parse_int [] = inr (bad_syntax [])
parse_int (c ∷ cs) =
    if c == b'+'
    then signed (c ∷ cs) false (parse_uint (c ∷ cs) cs)
    else if c == b'-'
    then signed (c ∷ cs) true (parse_uint (c ∷ cs) cs)
    else signed (c ∷ cs) false (parse_uint (c ∷ cs) (c ∷ cs))

-- `strconv.ParseBool`
unfoldable pub parse_bool : Text → Coerced Bool
parse_bool s =
    if contains
      (codes "1" ∷ codes "t" ∷ codes "T" ∷ codes "TRUE" ∷ codes "true" ∷ codes "True" ∷ []) s
    then inl true
    else if contains
        (codes "0" ∷ codes "f" ∷ codes "F" ∷ codes "FALSE" ∷ codes "false" ∷ codes "False" ∷ []) s
    then inl false
    else inr (bad_syntax s)

abbrev pub tagged {ℓ} : {A : Type ℓ} → (A → Value) → Coerced A → Coerced Value
tagged f (inl a) = inl (f a)
tagged f (inr e) = inr e

abbrev pub or_error {ℓ} : {A : Type ℓ} → ValueError → Option A → Coerced A
or_error e none = inr e
or_error e (some a) = inl a

-- `len(f.Enum) > 0`
unfoldable pub is_empty {ℓ} : {A : Type ℓ} → List A → Bool
is_empty [] = true
is_empty (x ∷ xs) = false

module _ (std : Std) where
  -- `strconv.ParseFloat(_, 64)`, with its error
  unfoldable pub read_float : Text → Coerced ℕ
  read_float raw =
      or_error (if std.float_out_of_range raw then out_of_range raw else bad_syntax raw)
        (std.parse_float raw)

  -- `time.Parse(time.RFC3339, _)`, with its error
  unfoldable pub read_time : Text → Coerced ℕ
  read_time raw = or_error (bad_time (std.time_error raw)) (std.parse_time raw)

  -- The switch of `coerce`.
  unfoldable pub coerce_kind : Kind → Text → Coerced Value
  coerce_kind Kind.string raw = inl (Value.string raw)
  coerce_kind Kind.int raw = tagged Value.int (parse_int raw)
  coerce_kind Kind.float raw = tagged Value.float (read_float raw)
  coerce_kind Kind.bool raw = tagged Value.bool (parse_bool raw)
  coerce_kind Kind.time raw = tagged Value.time (read_time raw)
  coerce_kind Kind.other raw = inr (unsupported_kind raw)

  unfoldable pub coerce : Text → Field → Coerced Value
  coerce raw f =
      if not (is_empty f.enum) && not (contains f.enum raw)
      then inr (not_in_enum raw f.enum)
      else coerce_kind f.kind raw
