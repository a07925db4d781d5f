-- ===== src/Mongox/Translate.antt =====
-- The query document selects what the bound filter means, and there is one for all that `Bind`
-- accepts.
use mathlib.Core.Option
use mathlib.Core.Option.{Option}
use servicekit_go.Base.{
  Bool, true, false, ◌&&◌, ◌||◌, List, [], ◌∷◌, Text, some, none, codes, text_eq, map, length,
  if◌then◌else◌, ◌≡◌, ◌≢◌, ◌⊎◌, inl, inr, refl, arith, All, contains-All, ap, subst, sym,
}
use servicekit_go.Mongox.{
  Filter, Filters, entry, value, values, filter, filters, no_filters, filter_cons, ok, first,
  comparison, to_filter, each,
}
use servicekit_go.Rsql.Ast.{
  Operator, op_eq, op_neq, op_gt, op_ge, op_lt, op_le, op_in, op_not_in, operators, lookup,
}
use servicekit_go.Rsql.Bound.{
  Field, Schema, Value, BoundComparison, Bound, Bounds, nil, bound_and, bound_or, bound_comparison,
  no_bounds, bound,
}
use servicekit_go.Rsql.Schema.Spec.{IsBound, AreBound, IsBoundComparison}
use servicekit_go.Rsql.Tree.Eval.{eval, eval_join, both, either}

-- What stands behind a query operator: a value, or an array of values, which MongoDB tells apart.
pub data Operand : Type 0 where
  scalar : Value → Operand
  array : List Value → Operand

-- MongoDB on one document: equality of a column with a value, and a query operator on a column.
pub record Mongo : Type 0 where
  pub equals : Text → Value → Bool
  pub operator : Text → Text → Operand → Bool

-- The query operator for each comparison operator that takes one value, but equality.
abbrev pub value_operators : List (Operator × Text)
value_operators =
    (op_neq, codes "$ne")
    ∷ (op_gt, codes "$gt")
    ∷ (op_ge, codes "$gte")
    ∷ (op_lt, codes "$lt")
    ∷ (op_le, codes "$lte")
    ∷ []

-- The query operator for each comparison operator that takes a list.
abbrev pub list_operators : List (Operator × Text)
list_operators = (op_in, codes "$in") ∷ (op_not_in, codes "$nin") ∷ []

module _ (m : Mongo) where
  -- An operator that takes no list looks at a single value.
  abbrev selects_one : Text → Operator → List Value → Option Bool
  selects_one col op (v ∷ []) =
      if text_eq op op_eq
      then some (m.equals col v)
      else Option.map (λ name. m.operator col name (scalar v)) (lookup op value_operators)
  selects_one col op vs = none

  abbrev selects_by : Option Text → Text → Operator → List Value → Option Bool
  selects_by (some name) col op vs = some (m.operator col name (array vs))
  selects_by none col op vs = selects_one col op vs

  -- Whether a comparison selects the document.
  abbrev pub selects : Text → Operator → List Value → Option Bool
  selects col op vs = selects_by (lookup op list_operators) col op vs

  abbrev pub meaning : BoundComparison → Option Bool
  meaning c = selects c.field.column c.op c.values

  -- Whether a query document selects the document. The other forms are no filters of the package.
  abbrev mutual
    pub matches : Filter → Bool
    matches (entry k (value v)) = m.equals k v
    matches (entry k (values vs)) = false
    matches (entry k (filter (entry name (value v)))) = m.operator k name (scalar v)
    matches (entry k (filter (entry name (values vs)))) = m.operator k name (array vs)
    matches (entry k (filter f)) = false
    matches (entry k (filters fs)) =
        if text_eq k (codes "$and")
        then matches_all fs
        else if text_eq k (codes "$or")
        then matches_any fs
        else false

    pub matches_all : Filters → Bool
    matches_all no_filters = true
    matches_all (filter_cons f fs) = matches f && matches_all fs

    pub matches_any : Filters → Bool
    matches_any no_filters = false
    matches_any (filter_cons f fs) = matches f || matches_any fs

module _ (m : Mongo) where
  -- The comparison has a query document, which selects what the comparison selects.
  abbrev Translates : BoundComparison → Type 0
  Translates c = (f : Filter) × (comparison c ≡ ok f) × (meaning m c ≡ some (matches m f))

  abbrev with_values : Text → Field → Operator → List Value → BoundComparison
  with_values sel f op vs = record { selector = sel; field = f; op = op; values = vs }

  single-Translates :
      (sel : Text) (f : Field) (v : Value)
      → All (λ op. Translates (with_values sel f op (v ∷ []))) (map (λ e. e.1) operators)
  unfolding comparison first lookup text_eq
  single-Translates sel f v = (
    (_, refl, refl),
    (
      (_, refl, refl),
      (
        (_, refl, refl),
        (
          (_, refl, refl),
          (
            (_, refl, refl),
            (
              (_, refl, refl),
              (
                (_, refl, refl),
                (
                  (_, refl, refl),
                  (
                    (_, refl, refl),
                    (
                      (_, refl, refl),
                      (
                        (_, refl, refl),
                        (
                          (_, refl, refl),
                          ((_, refl, refl), ((_, refl, refl), ((_, refl, refl), tt))),
                        ),
                      ),
                    ),
                  ),
                ),
              ),
            ),
          ),
        ),
      ),
    ),
  )

  multi-Translates :
      (sel : Text) (f : Field) (op : Operator) (vs : List Value)
      → vs ≢ []
      → (op ≡ op_in) ⊎ (op ≡ op_not_in)
      → Translates (with_values sel f op vs)
  unfolding comparison lookup text_eq
  multi-Translates sel f op [] ne h = absurd (ne refl)
  multi-Translates sel f op (v ∷ []) ne (inl e) = rw e (_, refl, refl)
  multi-Translates sel f op (v ∷ []) ne (inr e) = rw e (_, refl, refl)
  multi-Translates sel f op (v ∷ w ∷ vs) ne (inl e) = rw e (_, refl, refl)
  multi-Translates sel f op (v ∷ w ∷ vs) ne (inr e) = rw e (_, refl, refl)

  comparison-Translates :
      (schema : Schema) (c : BoundComparison) → IsBoundComparison schema c → Translates c
  comparison-Translates schema c b = by_arity c.values refl b.arity
    where
      by_arity :
          (vs : List Value)
          → c.values ≡ vs
          → (length c.values ≡ 1) ⊎ ((c.values ≢ []) × ((c.op ≡ op_in) ⊎ (c.op ≡ op_not_in)))
          → Translates c
      by_arity vs e (inr (ne, multi)) = multi-Translates c.selector c.field c.op c.values ne multi
      by_arity [] e (inl one) = absurd (omega (arith, ap length e))
      by_arity (v ∷ []) e (inl one) =
          subst (λ vs. Translates (with_values c.selector c.field c.op vs)) (sym e)
            (contains-All (λ op. Translates (with_values c.selector c.field op (v ∷ [])))
              (map (λ x. x.1) operators) c.op b.op_known (single-Translates c.selector c.field v))
      by_arity (v ∷ w ∷ vs) e (inl one) = absurd (omega (arith, ap length e))

  module _ (schema : Schema) where
    mutual
      unfolding to_filter text_eq

      to_filter-Translates :
          (b : Bound)
          → IsBound schema b
          → (f : Filter) × (to_filter b ≡ ok f) × (eval (meaning m) b ≡ some (matches m f))
      to_filter-Translates nil h = absurd h
      to_filter-Translates (bound_and no_bounds) h = absurd (omega (arith, h.0))
      to_filter-Translates (bound_and (bound b bs)) h =
          let (f, e, v) = to_filter-Translates b h.1.0 in
          let (fs, es, both_of, either_of) = each-Translates bs h.1.1 in
          (entry (codes "$and") (filters (filter_cons f fs)), rw (e, es), ground arith)
      to_filter-Translates (bound_or no_bounds) h = absurd (omega (arith, h.0))
      to_filter-Translates (bound_or (bound b bs)) h =
          let (f, e, v) = to_filter-Translates b h.1.0 in
          let (fs, es, both_of, either_of) = each-Translates bs h.1.1 in
          (entry (codes "$or") (filters (filter_cons f fs)), rw (e, es), ground arith)
      to_filter-Translates (bound_comparison c) h = comparison-Translates schema c h

      each-Translates :
          (bs : Bounds)
          → AreBound schema bs
          → (fs : Filters) × (each bs ≡ ok fs)
            × (both (some true) (eval_join (meaning m) false bs) ≡ some (matches_all m fs))
            × (either (some false) (eval_join (meaning m) true bs) ≡ some (matches_any m fs))
      each-Translates no_bounds h = (no_filters, refl, refl, refl)
      each-Translates (bound b bs) h =
          let (f, e, v) = to_filter-Translates b h.0 in
          let (fs, es, both_of, either_of) = each-Translates bs h.1 in
          (filter_cons f fs, rw (e, es), ground arith, ground arith)

    -- Every filter that `Bind` can return has a query document: no node and no operator is refused,
    -- and no value is missing. The document selects exactly what the filter means: a conjunction all
    -- of its operands, a disjunction one, and a comparison its operator on its field's column, with
    -- its one value or, under "=in=" and "=out=" alone, with the array of its values.
    pub to_filter-IsBound :
        (b : Bound)
        → IsBound schema b
        → (f : Filter) × (to_filter b ≡ ok f) × (eval (meaning m) b ≡ some (matches m f))
    to_filter-IsBound = to_filter-Translates
