-- ===== src/Rsql/Schema/Blame.antt =====
-- What the errors of the binder say, with no reference to its walk.
use Prim.Native.Nat.{max}
use servicekit_go.Base.{
  ℕ, suc, ◌+◌, ◌-◌, ◌<◌, false, List, [], ◌∷◌, Text, some, none, contains, length, ◌≡◌, ◌≢◌, ◌⊎◌,
}
use servicekit_go.Rsql.Ast.{
  Node, Nodes, and, or, comparison, no_nodes, node, Operator, op_in, op_not_in, length_nodes,
}
use servicekit_go.Rsql.Bound.{Field, Schema, Limits, ops_of}
use servicekit_go.Rsql.Result.{
  Error, too_many_comparisons, too_many_disjunctions, too_deep, not_filterable,
  operator_not_allowed, takes_one_value, bad_value,
}
use servicekit_go.Rsql.Schema.Unfit.{Unfit}
use servicekit_go.Rsql.Std.{Std}

-- The comparisons of a parsed filter.
abbrev mutual
  pub tree_leaves : Node → ℕ
  tree_leaves (and ns) = trees_leaves ns
  tree_leaves (or ns) = trees_leaves ns
  tree_leaves (comparison sel op args) = 1

  pub trees_leaves : Nodes → ℕ
  trees_leaves no_nodes = 0
  trees_leaves (node n ns) = tree_leaves n + trees_leaves ns

-- The times that "," joins two operands.
abbrev mutual
  pub tree_commas : Node → ℕ
  tree_commas (and ns) = trees_commas ns
  tree_commas (or ns) = (length_nodes ns - 1) + trees_commas ns
  tree_commas (comparison sel op args) = 0

  pub trees_commas : Nodes → ℕ
  trees_commas no_nodes = 0
  trees_commas (node n ns) = tree_commas n + trees_commas ns

-- The nodes on the longest way down.
abbrev mutual
  pub tree_height : Node → ℕ
  tree_height (and ns) = suc (trees_height ns)
  tree_height (or ns) = suc (trees_height ns)
  tree_height (comparison sel op args) = 1

  pub trees_height : Nodes → ℕ
  trees_height no_nodes = 0
  trees_height (node n ns) = max (tree_height n) (trees_height ns)

-- The comparison stands somewhere in the filter.
abbrev mutual
  pub Has : Text → Operator → List Text → Node → Type 0
  Has sel op args (and ns) = SomeHas sel op args ns
  Has sel op args (or ns) = SomeHas sel op args ns
  Has sel op args (comparison sel' op' args') = (sel ≡ sel') × (op ≡ op') × (args ≡ args')

  pub SomeHas : Text → Operator → List Text → Nodes → Type 0
  SomeHas sel op args no_nodes = ⊥
  SomeHas sel op args (node n ns) = Has sel op args n ⊎ SomeHas sel op args ns

abbrev pub Some : (Text → Type 0) → List Text → Type 0
Some P [] = ⊥
Some P (x ∷ xs) = P x ⊎ Some P xs

-- The field has its own operators, or those of its kind where it names none.
abbrev pub Forbids : Field → Operator → Type 0
Forbids f op =
    ((f.ops ≢ []) × (contains f.ops op ≡ false))
    ⊎ ((f.ops ≡ []) × (contains (ops_of f.kind) op ≡ false))

-- A limit of zero is none.
abbrev pub Exceeds : ℕ → ℕ → Type 0
Exceeds n m = (0 < m) × (m < n)

module _ (std : Std) (schema : Schema) where
  -- What the error says of one comparison.
  abbrev pub Blames : Text → Operator → List Text → Error → Type 0
  Blames sel op args (not_filterable sel') = (sel' ≡ sel) × (schema sel ≡ none)
  Blames sel op args (operator_not_allowed op' sel') =
      (op' ≡ op) × (sel' ≡ sel) × (f : Field) × (schema sel ≡ some f) × Forbids f op
  Blames sel op args (takes_one_value op' sel' n) =
      (op' ≡ op) × (sel' ≡ sel) × (n ≡ length args) × (n ≢ 1) × (op ≢ op_in) × (op ≢ op_not_in)
  Blames sel op args (bad_value sel' e) =
      (sel' ≡ sel) × (f : Field) × (schema sel ≡ some f) × Some (λ raw. Unfit std f raw e) args
  Blames sel op args _ = ⊥

  -- What the error says of the whole filter.
  module _ (lim : Limits) (n : Node) where
    abbrev pub IsBlamed : Error → Type 0
    IsBlamed (too_deep m) = (m ≡ lim.max_depth) × Exceeds (tree_height n) m
    IsBlamed (too_many_comparisons k m) =
        (m ≡ lim.max_comparisons) × (k ≡ tree_leaves n) × Exceeds k m
    IsBlamed (too_many_disjunctions k m) =
        (m ≡ lim.max_disjunctions) × (k ≡ tree_commas n) × Exceeds k m
    IsBlamed e =
        (sel : Text) × (op : Operator) × (args : List Text) × Has sel op args n
        × Blames sel op args e
