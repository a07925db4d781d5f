-- ===== src/Rsql/Print.antt =====
-- A syntax tree as text: what the canonical form writes, before it sorts.
pub mod From
pub mod Comparison
pub mod Operands
pub mod Fuel
pub mod Round
pub mod Normal
pub mod Sorted
pub mod Reread
pub mod Rebound
pub mod Key
pub mod Empty
use servicekit_go.Base.{ℕ, suc, ◌+◌, List, [], ◌∷◌, ◌++◌, map, Text, codes, join, length}
use servicekit_go.Rsql.Ast.{Node, Nodes, and, or, comparison, no_nodes, node}
use servicekit_go.Rsql.Canonical.{quote}

unfoldable pub print_args : List Text → Text
print_args (a ∷ []) = quote a
print_args args = b'(' ∷ (join (map quote args) (codes ",") ++ (b')' ∷ []))

-- A connective's operands stand in parentheses.
unfoldable pub print_group : Text → List Text → Text
print_group sep parts = b'(' ∷ (join parts sep ++ (b')' ∷ []))

unfoldable mutual
  pub print : Node → Text
  print (and ns) = print_group (codes ";") (print_all ns)
  print (or ns) = print_group (codes ",") (print_all ns)
  print (comparison sel op args) = sel ++ (op ++ print_args args)

  pub print_all : Nodes → List Text
  print_all no_nodes = []
  print_all (node n ns) = print n ∷ print_all ns

-- Fuel that is enough to parse the print of a tree.
abbrev mutual
  pub size : Node → ℕ
  size (and ns) = suc (size_all ns)
  size (or ns) = suc (size_all ns)
  size (comparison sel op args) = suc (length args)

  pub size_all : Nodes → ℕ
  size_all no_nodes = 0
  size_all (node n ns) = suc (size n + size_all ns)
