-- ===== src/Rsql/Ast.antt =====
-- rsql/ast.go: operators, and the syntax tree that the parser returns.
use servicekit_go.Base.{
  Text, codes, List, [], ◌∷◌, Option, none, some, text_eq, if◌then◌else◌, ℕ, suc,
}

abbrev pub Operator : Type 0
Operator = Text

abbrev pub op_eq : Operator
op_eq = codes "=="

abbrev pub op_neq : Operator
op_neq = codes "!="

abbrev pub op_gt : Operator
op_gt = codes "=gt="

abbrev pub op_ge : Operator
op_ge = codes "=ge="

abbrev pub op_lt : Operator
op_lt = codes "=lt="

abbrev pub op_le : Operator
op_le = codes "=le="

abbrev pub op_in : Operator
op_in = codes "=in="

abbrev pub op_not_in : Operator
op_not_in = codes "=out="

-- The entries of the map `operators`.
abbrev pub operators : List (Text × Operator)
operators =
    (codes "==", op_eq)
    ∷ (codes "=eq=", op_eq)
    ∷ (codes "!=", op_neq)
    ∷ (codes "=ne=", op_neq)
    ∷ (codes ">", op_gt)
    ∷ (codes "=gt=", op_gt)
    ∷ (codes ">=", op_ge)
    ∷ (codes "=ge=", op_ge)
    ∷ (codes "<", op_lt)
    ∷ (codes "=lt=", op_lt)
    ∷ (codes "<=", op_le)
    ∷ (codes "=le=", op_le)
    ∷ (codes "=in=", op_in)
    ∷ (codes "=out=", op_not_in)
    ∷ (codes "=nin=", op_not_in)
    ∷ []

-- A read of a map from strings: the entries have different keys.
unfoldable pub lookup {ℓ} : {V : Type ℓ} → Text → List (Text × V) → Option V
lookup k [] = none
lookup k ((j, v) ∷ m) = if text_eq j k then some v else lookup k m

mutual
  pub data Node : Type 0 where
    and : Nodes → Node
    or : Nodes → Node
    comparison : Text → Operator → List Text → Node

  pub data Nodes : Type 0 where
    no_nodes : Nodes
    node : Node → Nodes → Nodes

-- `len` of the nodes of a connective.
abbrev pub length_nodes : Nodes → ℕ
length_nodes no_nodes = 0
length_nodes (node n ns) = suc (length_nodes ns)
