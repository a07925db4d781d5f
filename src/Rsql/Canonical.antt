-- ===== src/Rsql/Canonical.antt =====
-- rsql/canonical.go: a bound filter as a string.
pub mod Order
pub mod Quote
pub mod Numbers
use servicekit_go.Base.{
  ℕ, zero, suc, ◌+◌, ◌/◌, ◌%◌, Bool, true, false, not, ◌&&◌, ◌||◌, List, [], ◌∷◌, ◌++◌, map, Text,
  codes, any, join, ltb, ◌==◌, if◌then◌else◌,
}
use servicekit_go.Base.Int.{ℤ, pos, negsuc}
use servicekit_go.Base.Sort.{sort}
use servicekit_go.Rsql.Bound.{
  Value, BoundComparison, Bound, Bounds, nil, bound_and, bound_or, bound_comparison, no_bounds,
  bound,
}
use servicekit_go.Rsql.Lex.{is_reserved}
use servicekit_go.Rsql.Std.{Std}

-- The decimal digits of a number, before those of `acc`: a number has no more digits than itself.
unfoldable pub digits : ℕ → ℕ → Text → Text
digits zero n acc = acc
digits (suc f) n acc =
    let more = digits f (n / 10) ((b'0' + n % 10) ∷ acc) in
    if ltb n 10 then (b'0' + n) ∷ acc else more

unfoldable pub decimal : ℕ → Text
decimal n = digits (suc n) n []

unfoldable pub show_int : ℤ → Text
show_int (pos n) = decimal n
show_int (negsuc n) = b'-' ∷ decimal (suc n)

-- `strings.ContainsAny(s, reserved) || strings.ContainsAny(s, " \t\n")`
unfoldable pub is_special : Text → Bool
is_special s = any (λ c. is_reserved c || c == b' ' || c == b'\t' || c == b'\n') s

-- `strings.NewReplacer(…).Replace(s)`
unfoldable pub escape : Text → Text
escape [] = []
escape (c ∷ s) = if c == b'\\' || c == b'"' then b'\\' ∷ c ∷ escape s else c ∷ escape s

unfoldable pub quote : Text → Text
quote s = if not (is_special s) then s else b'"' ∷ (escape s ++ (b'"' ∷ []))

-- `writeGroup`, given the operands' strings
unfoldable pub write_group : Text → List Text → Text
write_group sep parts = b'(' ∷ (join (sort parts) sep ++ (b')' ∷ []))

module _ (std : Std) where
  -- `fmt.Sprintf("%v", v)`
  unfoldable pub show_value : Value → Text
  show_value (Value.string s) = s
  show_value (Value.int n) = show_int n
  show_value (Value.float x) = std.format_float x
  show_value (Value.bool true) = codes "true"
  show_value (Value.bool false) = codes "false"
  show_value (Value.time t) = std.format_time t

  unfoldable pub literal : Value → Text
  literal (Value.time t) = std.format_time t
  literal v = quote (show_value v)

  -- The values of a comparison.
  unfoldable pub write_values : List Value → Text
  write_values (v ∷ []) = literal v
  write_values vs = b'(' ∷ (join (sort (map literal vs)) (codes ",") ++ (b')' ∷ []))

  unfoldable pub write_comparison : BoundComparison → Text
  write_comparison c = c.selector ++ (c.op ++ write_values c.values)

  unfoldable mutual
    pub canonical : Bound → Text
    canonical nil = []
    canonical (bound_and bs) = write_group (codes ";") (canonical_all bs)
    canonical (bound_or bs) = write_group (codes ",") (canonical_all bs)
    canonical (bound_comparison c) = write_comparison c

    pub canonical_all : Bounds → List Text
    canonical_all no_bounds = []
    canonical_all (bound b bs) = canonical b ∷ canonical_all bs
