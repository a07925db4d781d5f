-- ===== src/Rsql/Schema.antt =====
-- rsql/schema.go: `Bind`, which checks a parsed filter against a schema and limits.
pub mod Spec
pub mod Sound
pub mod Walk
pub mod Bounded
pub mod Unfit
pub mod Unread
pub mod Blame
pub mod Refused
pub mod Errors
use servicekit_go.Base.{
  ℕ, suc, ◌+◌, ◌-◌, Bool, not, ◌&&◌, ◌||◌, List, [], ◌∷◌, ◌++◌, Text, contains, text_eq, ltb, ◌==◌,
  length, if◌then◌else◌, inl, inr,
}
use servicekit_go.Rsql.Ast.{
  Node, Nodes, and, or, comparison, no_nodes, node, Operator, op_in, op_not_in, length_nodes,
}
use servicekit_go.Rsql.Bound.{
  Field, Schema, Limits, Value, Bound, Bounds, bound_and, bound_or, bound_comparison, no_bounds,
  bound, ops_of,
}
use servicekit_go.Rsql.Coerce.{Coerced, is_empty, coerce}
use servicekit_go.Rsql.Method.{Method, pure, ◌>>=◌, ◌>>◌, check, found, lifted}
use servicekit_go.Rsql.Parse.{parse}
use servicekit_go.Rsql.Result
use servicekit_go.Rsql.Result.{
  Result, ok, err, too_many_comparisons, too_many_disjunctions, too_deep, not_filterable,
  operator_not_allowed, takes_one_value, bad_value,
}
use servicekit_go.Rsql.Std.{Std}

-- The part of the binder that changes; `schema` and `limits` are arguments of its methods.
pub record Binder : Type 0 where
  pub comparisons : ℕ
  pub disjunctions : ℕ

-- The binder of a call of `Bind`.
abbrev pub start : Binder
start = record { comparisons = 0; disjunctions = 0 }

-- `m > 0 && n > m`
unfoldable pub exceeds : ℕ → ℕ → Bool
exceeds n m = ltb 0 m && ltb m n

-- `f.Column = c.Selector` where the column is empty
unfoldable pub with_column : Text → Field → Field
with_column sel f = if text_eq f.column [] then record f { column = sel } else f

-- `allowed`
unfoldable pub allowed_ops : Field → List Operator
allowed_ops f = if is_empty f.ops then ops_of f.kind else f.ops

-- `multi`
unfoldable pub is_multi : Operator → Bool
is_multi op = text_eq op op_in || text_eq op op_not_in

-- `b.disjunctions += n - 1`: a parsed disjunction has two operands or more.
unfoldable pub count_or : ℕ → Method Binder (Unit {0})
count_or n b = ok (tt, record b { disjunctions = b.disjunctions + n - 1 })

-- `b.comparisons++`
unfoldable pub count_comparison : Method Binder (Unit {0})
count_comparison b = ok (tt, record b { comparisons = b.comparisons + 1 })

-- The limits that `Bind` checks behind the walk.
unfoldable pub check_counts : Limits → Bound → Binder → Result Bound
check_counts lim out b =
    if exceeds b.comparisons lim.max_comparisons
    then err (too_many_comparisons b.comparisons lim.max_comparisons)
    else if exceeds b.disjunctions lim.max_disjunctions
    then err (too_many_disjunctions b.disjunctions lim.max_disjunctions)
    else ok out

module _ (std : Std) where
  abbrev pub value_of : Text → Coerced Value → Result Value
  value_of sel (inl v) = ok v
  value_of sel (inr e) = err (bad_value sel e)

  -- The loop of `comparison` over the arguments.
  unfoldable pub coerce_all : Text → Field → List Value → List Text → Result (List Value)
  coerce_all sel f values [] = ok values
  coerce_all sel f values (raw ∷ args) =
      Result.◌>>=◌ (value_of sel (coerce std raw f)) (λ v. coerce_all sel f (values ++ v ∷ []) args)

  module _ (schema : Schema) where
    -- `binder.comparison`, which leaves the binder as it is
    unfoldable pub bind_comparison : Text → Operator → List Text → Method Binder Bound
    bind_comparison sel op args = do
      f₀ ← found (schema sel) (not_filterable sel)
      let f = with_column sel f₀
      check (contains (allowed_ops f) op) (operator_not_allowed op sel)
      check (is_multi op || length args == 1) (takes_one_value op sel (length args))
      values ← lifted (coerce_all sel f [] args)
      pure (bound_comparison (record { selector = sel; field = f; op = op; values = values }))

    module _ (lim : Limits) where
      unfoldable mutual
        pub walk : Node → ℕ → Method Binder Bound
        walk (and ns) depth = do
          check (not (exceeds depth lim.max_depth)) (too_deep lim.max_depth)
          bs ← walk_all ns depth
          pure (bound_and bs)
        walk (or ns) depth = do
          check (not (exceeds depth lim.max_depth)) (too_deep lim.max_depth)
          count_or (length_nodes ns)
          bs ← walk_all ns depth
          pure (bound_or bs)
        walk (comparison sel op args) depth = do
          check (not (exceeds depth lim.max_depth)) (too_deep lim.max_depth)
          count_comparison
          bind_comparison sel op args

        pub walk_all : Nodes → ℕ → Method Binder Bounds
        walk_all no_nodes depth = pure no_bounds
        walk_all (node n ns) depth = do
          b ← walk n (depth + 1)
          bs ← walk_all ns depth
          pure (bound b bs)

      -- `Bind` behind `parse`
      unfoldable pub bind_node : Node → Result Bound
      bind_node n = Result.◌>>=◌ (walk n 1 start) (λ (out, b). check_counts lim out b)

      unfoldable pub bind : Text → Result Bound
      bind expr = Result.◌>>=◌ (parse std expr) bind_node
