-- ===== src/Rsql/Parse/Shape.antt =====
-- The shape of the trees that the grammar builds, and what the node constructors make of it.
use servicekit_go.Base.{
  suc, ◌≤◌, ◌<◌, List, [], ◌∷◌, Text, some, true, length, ◌≡◌, ◌≢◌, refl, ap, map, arith, All,
  contains, text_eq_self,
}
use servicekit_go.Rsql.Ast.{
  Node, Nodes, and, or, comparison, no_nodes, node, Operator, operators, lookup, length_nodes,
}
use servicekit_go.Rsql.Parse.{nodes_of, join_nodes, join_and, join_or}

-- A tree that the grammar builds: connectives join two operands or more, an operator is one of the
-- canonical ones, and there is a value.
abbrev mutual
  pub IsParsed : Node → Type 0
  IsParsed (and ns) = (2 ≤ length_nodes ns) × AreParsed ns
  IsParsed (or ns) = (2 ≤ length_nodes ns) × AreParsed ns
  IsParsed (comparison s op args) = (contains (map (λ e. e.1) operators) op ≡ true) × (args ≢ [])

  pub AreParsed : Nodes → Type 0
  AreParsed no_nodes = Unit
  AreParsed (node n ns) = IsParsed n × AreParsed ns

pub nodes_of-AreParsed : (ns : List Node) → All IsParsed ns → AreParsed (nodes_of ns)
unfolding nodes_of
nodes_of-AreParsed [] h = tt
nodes_of-AreParsed (n ∷ ns) (h, t) = (h, nodes_of-AreParsed ns t)

pub length_nodes-nodes_of : (ns : List Node) → length_nodes (nodes_of ns) ≡ length ns
unfolding nodes_of
length_nodes-nodes_of [] = refl
length_nodes-nodes_of (n ∷ ns) = ap suc (length_nodes-nodes_of ns)

pub lookup-contains :
    (k : Text) (m : List (Text × Operator)) (v : Operator)
    → lookup k m ≡ some v
    → contains (map (λ e. e.1) m) v ≡ true
unfolding lookup contains
lookup-contains k [] v h = cc
lookup-contains k ((j, w) ∷ m) v h = ground (arith, lookup-contains k m v, text_eq_self v)

pub join_nodes-IsParsed :
    (join : List Node → Node) (ns : List Node)
    → ((ms : List Node) → 2 ≤ length ms → All IsParsed ms → IsParsed (join ms))
    → 0 < length ns
    → All IsParsed ns
    → IsParsed (join_nodes join ns)
unfolding join_nodes
join_nodes-IsParsed join [] k ne h = absurd (omega arith)
join_nodes-IsParsed join (n ∷ []) k ne h = h.0
join_nodes-IsParsed join (n ∷ m ∷ ns) k ne h = k (n ∷ m ∷ ns) (omega arith) h

pub join_and-IsParsed : (ms : List Node) → 2 ≤ length ms → All IsParsed ms → IsParsed (join_and ms)
unfolding join_and
join_and-IsParsed ms h g = (omega (arith, length_nodes-nodes_of ms), nodes_of-AreParsed ms g)

pub join_or-IsParsed : (ms : List Node) → 2 ≤ length ms → All IsParsed ms → IsParsed (join_or ms)
unfolding join_or
join_or-IsParsed ms h g = (omega (arith, length_nodes-nodes_of ms), nodes_of-AreParsed ms g)
