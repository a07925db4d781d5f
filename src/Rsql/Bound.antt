-- ===== src/Rsql/Bound.antt =====
-- The types of rsql/schema.go: fields, schemas, limits, and the tree that the binder returns.
use servicekit_go.Base.{ℕ, Bool, List, [], ◌∷◌, Text, Option, ◌≡◌, refl}
use servicekit_go.Base.Int.{ℤ}
use servicekit_go.Rsql.Ast.{Operator, op_eq, op_neq, op_gt, op_ge, op_lt, op_le, op_in, op_not_in}

-- `other` stands for the integers that are no constant of the type.
pub data Kind : Type 0 where
  string int float bool time other : Kind

-- An empty list stands for a nil slice too: the code looks at their lengths alone.
pub record Field : Type 0 where
  pub column : Text
  pub kind : Kind
  pub ops : List Operator
  pub enum : List Text

-- A map from selectors.
abbrev pub Schema : Type 0
Schema = Text → Option Field

-- The code compares each limit with zero, and a limit below zero is no limit either.
pub record Limits : Type 0 where
  pub max_depth : ℕ
  pub max_disjunctions : ℕ
  pub max_comparisons : ℕ

-- The types that `coerce` gives to a value of type `any`.
pub data Value : Type 0 where
  string : Text → Value
  int : ℤ → Value
  float : ℕ → Value
  bool : Bool → Value
  time : ℕ → Value

pub record BoundComparison : Type 0 where
  pub selector : Text
  pub field : Field
  pub op : Operator
  pub values : List Value

-- The interface `Bound`: `nil` is its nil value.
mutual
  pub data Bound : Type 0 where
    nil : Bound
    bound_and : Bounds → Bound
    bound_or : Bounds → Bound
    bound_comparison : BoundComparison → Bound

  pub data Bounds : Type 0 where
    no_bounds : Bounds
    bound : Bound → Bounds → Bounds

-- The field of a connective as a slice, and back.
unfoldable pub to_list : Bounds → List Bound
to_list no_bounds = []
to_list (bound b bs) = b ∷ to_list bs

unfoldable pub of_list : List Bound → Bounds
of_list [] = no_bounds
of_list (b ∷ bs) = bound b (of_list bs)

pub to_list-of_list : (bs : List Bound) → to_list (of_list bs) ≡ bs
unfolding to_list of_list
to_list-of_list [] = refl
to_list-of_list (b ∷ bs) = cc (to_list-of_list bs)

pub of_list-to_list : (bs : Bounds) → of_list (to_list bs) ≡ bs
unfolding to_list of_list
of_list-to_list no_bounds = refl
of_list-to_list (bound b bs) = cc (of_list-to_list bs)

-- `Kind.ops`
unfoldable pub ops_of : Kind → List Operator
ops_of bool = op_eq ∷ op_neq ∷ []
ops_of string = op_eq ∷ op_neq ∷ op_in ∷ op_not_in ∷ []
ops_of _ = op_eq ∷ op_neq ∷ op_gt ∷ op_ge ∷ op_lt ∷ op_le ∷ op_in ∷ op_not_in ∷ []
