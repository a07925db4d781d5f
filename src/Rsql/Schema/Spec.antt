-- ===== src/Rsql/Schema/Spec.antt =====
-- What a bound filter is, and the sizes that the limits speak of, with no reference to the binder.
use Prim.Native.Nat.{max}
use servicekit_go.Base.{
  ℕ, suc, ◌+◌, ◌-◌, ◌≤◌, true, [], some, contains, length, ◌≡◌, ◌≢◌, ◌⊎◌, All, map,
}
use servicekit_go.Base.Int.{InRange}
use servicekit_go.Rsql.Bound.{
  Kind, Field, Schema, Limits, Value, BoundComparison, Bound, Bounds, nil, bound_and, bound_or,
  bound_comparison, no_bounds, bound, ops_of,
}
use servicekit_go.Rsql.Ast.{op_in, op_not_in, operators}

abbrev pub count_bounds : Bounds → ℕ
count_bounds no_bounds = 0
count_bounds (bound b bs) = suc (count_bounds bs)

-- A value has the type that the field declares; an integer fits an int64.
abbrev pub HasKind : Kind → Value → Type 0
HasKind Kind.string (Value.string s) = Unit
HasKind Kind.int (Value.int n) = InRange n
HasKind Kind.float (Value.float x) = Unit
HasKind Kind.bool (Value.bool b) = Unit
HasKind Kind.time (Value.time t) = Unit
HasKind _ _ = ⊥

-- A string is one of the field's enumeration, where it has one.
abbrev pub InEnum : Field → Value → Type 0
InEnum f (Value.string s) = (f.enum ≡ []) ⊎ (contains f.enum s ≡ true)
InEnum f _ = Unit

module _ (schema : Schema) where
  -- `field` is the schema's, under its own column or under the selector.
  pub record IsBoundComparison (c : BoundComparison) : Type 0 where
    pub declared : Field
    pub is_declared : schema c.selector ≡ some declared
    pub column_ne_nil : c.selector ≢ [] → c.field.column ≢ []
    pub column_is :
        (c.field.column ≡ declared.column)
        ⊎ ((declared.column ≡ []) × (c.field.column ≡ c.selector))
    pub kind_is : c.field.kind ≡ declared.kind
    pub ops_are : c.field.ops ≡ declared.ops
    pub enum_is : c.field.enum ≡ declared.enum
    pub op_allowed :
        (contains declared.ops c.op ≡ true)
        ⊎ ((declared.ops ≡ []) × (contains (ops_of declared.kind) c.op ≡ true))
    pub op_known : contains (map (λ e. e.1) operators) c.op ≡ true
    pub values_fit : All (λ v. HasKind declared.kind v × InEnum declared v) c.values
    pub arity : (length c.values ≡ 1) ⊎ ((c.values ≢ []) × ((c.op ≡ op_in) ⊎ (c.op ≡ op_not_in)))

  -- No node is nil, and a connective joins two or more.
  abbrev mutual
    pub IsBound : Bound → Type 0
    IsBound nil = ⊥
    IsBound (bound_and bs) = (2 ≤ count_bounds bs) × AreBound bs
    IsBound (bound_or bs) = (2 ≤ count_bounds bs) × AreBound bs
    IsBound (bound_comparison c) = IsBoundComparison c

    pub AreBound : Bounds → Type 0
    AreBound no_bounds = Unit
    AreBound (bound b bs) = IsBound b × AreBound bs

-- The comparisons of a filter.
abbrev mutual
  pub leaves : Bound → ℕ
  leaves nil = 0
  leaves (bound_and bs) = leaves_all bs
  leaves (bound_or bs) = leaves_all bs
  leaves (bound_comparison c) = 1

  pub leaves_all : Bounds → ℕ
  leaves_all no_bounds = 0
  leaves_all (bound b bs) = leaves b + leaves_all bs

-- The times that "," joins two operands.
abbrev mutual
  pub commas : Bound → ℕ
  commas nil = 0
  commas (bound_and bs) = commas_all bs
  commas (bound_or bs) = (count_bounds bs - 1) + commas_all bs
  commas (bound_comparison c) = 0

  pub commas_all : Bounds → ℕ
  commas_all no_bounds = 0
  commas_all (bound b bs) = commas b + commas_all bs

-- The nodes on the longest way down.
abbrev mutual
  pub height : Bound → ℕ
  height nil = 1
  height (bound_and bs) = suc (height_all bs)
  height (bound_or bs) = suc (height_all bs)
  height (bound_comparison c) = 1

  pub height_all : Bounds → ℕ
  height_all no_bounds = 0
  height_all (bound b bs) = max (height b) (height_all bs)

-- A limit of zero is none.
abbrev pub AtMost : ℕ → ℕ → Type 0
AtMost n m = (m ≡ 0) ⊎ (n ≤ m)

pub record IsWithin (lim : Limits) (b : Bound) : Type 0 where
  pub depth : AtMost (height b) lim.max_depth
  pub disjunctions : AtMost (commas b) lim.max_disjunctions
  pub comparisons : AtMost (leaves b) lim.max_comparisons
