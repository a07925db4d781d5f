-- ===== src/Mongox.antt =====
-- rsql/mongox/mongox.go: a bound filter as a MongoDB query document. A `Filter` that the package
-- builds is a map with one entry.
pub mod Translate
mod Tests
use servicekit_go.Base.{Bool, true, false, List, [], ◌∷◌, Text, codes, text_eq, if◌then◌else◌}
use servicekit_go.Rsql.Ast.{Operator, op_eq, op_neq, op_gt, op_ge, op_lt, op_le, op_in, op_not_in}
use servicekit_go.Rsql.Bound.{
  Value, BoundComparison, Bound, Bounds, nil, bound_and, bound_or, bound_comparison, no_bounds,
  bound,
}

mutual
  pub data Filter : Type 0 where
    entry : Text → Any → Filter

  -- The values of the map.
  pub data Any : Type 0 where
    value : Value → Any
    values : List Value → Any
    filter : Filter → Any
    filters : Filters → Any

  pub data Filters : Type 0 where
    no_filters : Filters
    filter_cons : Filter → Filters → Filters

-- `panics` is the index out of range of `c.Values[0]`.
pub data Translated {ℓ} (A : Type ℓ) : Type ℓ where
  ok : A → Translated A
  unsupported_node : Translated A
  unsupported_operator : Operator → Translated A
  panics : Translated A

infixl 5 ◌>>=◌
abbrev pub ◌>>=◌ {ℓ κ} :
    {A : Type ℓ} {B : Type κ} → Translated A → (A → Translated B) → Translated B
ok a >>= f = f a
unsupported_node >>= f = unsupported_node
unsupported_operator op >>= f = unsupported_operator op
panics >>= f = panics

-- `c.Values[0]`
unfoldable pub first : List Value → Translated Value
first [] = panics
first (v ∷ vs) = ok v

-- `Filter{col: Filter{name: a}}`
abbrev pub condition : Text → Text → Any → Filter
condition col name a = entry col (filter (entry name a))

-- `Filter{col: Filter{name: c.Values[0]}}`
abbrev pub with_first : Text → Text → List Value → Translated Filter
with_first col name vs = do v ← first vs; ok (condition col name (value v))

unfoldable pub comparison : BoundComparison → Translated Filter
comparison c =
    let col = c.field.column in
    if text_eq c.op op_eq
    then first c.values >>= (λ v. ok (entry col (value v)))
    else if text_eq c.op op_neq
    then with_first col (codes "$ne") c.values
    else if text_eq c.op op_gt
    then with_first col (codes "$gt") c.values
    else if text_eq c.op op_ge
    then with_first col (codes "$gte") c.values
    else if text_eq c.op op_lt
    then with_first col (codes "$lt") c.values
    else if text_eq c.op op_le
    then with_first col (codes "$lte") c.values
    else if text_eq c.op op_in
    then ok (condition col (codes "$in") (values c.values))
    else if text_eq c.op op_not_in
    then ok (condition col (codes "$nin") (values c.values))
    else unsupported_operator c.op

unfoldable mutual
  pub to_filter : Bound → Translated Filter
  to_filter nil = unsupported_node
  to_filter (bound_and bs) = do parts ← each bs; ok (entry (codes "$and") (filters parts))
  to_filter (bound_or bs) = do parts ← each bs; ok (entry (codes "$or") (filters parts))
  to_filter (bound_comparison c) = comparison c

  pub each : Bounds → Translated Filters
  each no_bounds = ok no_filters
  each (bound b bs) = do m ← to_filter b; out ← each bs; ok (filter_cons m out)
