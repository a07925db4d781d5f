-- ===== src/Rsql/Parse.antt =====
-- rsql/parse.go: recursive descent over the lexer. `parse` takes the runes of its string. Each
-- token that is consumed costs at most one unit of fuel.
pub mod Shape
pub mod Total
pub mod Offsets
use servicekit_go.Rsql.Method.{Method, pure, ◌>>=◌, ◌>>◌, check, found}
use servicekit_go.Base.{
  ℕ, zero, suc, ◌+◌, Bool, true, false, not, [], ◌∷◌, ◌++◌, List, Text, Option, none, some, length,
  if◌then◌else◌,
}
use servicekit_go.Rsql.Ast.{
  Node, Nodes, and, or, comparison, no_nodes, node, Operator, operators, lookup,
}
use servicekit_go.Rsql.Lex.{
  TokenKind, tok_eof, tok_value, tok_op, tok_lparen, tok_rparen, tok_and, tok_or, Token, token,
  Lexer, lexer, next,
}
use servicekit_go.Rsql.Result
use servicekit_go.Rsql.Result.{
  Result, ok, err, out_of_fuel, Error, unexpected_token, expected_rparen, expected_selector,
  expected_operator, unknown_operator, expected_value,
}
use servicekit_go.Rsql.Std.{Std}

pub record Parser : Type 0 where
  pub lex : Lexer
  pub tok : Token

-- A method of the parser: it changes the parser, or ends the whole run with an error.
abbrev pub M {ℓ} : Type ℓ → Type ℓ
M = Method Parser

-- `p.tok`
abbrev pub current : M Token
current p = ok (p.tok, p)

unfoldable pub kind_eq : TokenKind → TokenKind → Bool
kind_eq tok_eof tok_eof = true
kind_eq tok_value tok_value = true
kind_eq tok_op tok_op = true
kind_eq tok_lparen tok_lparen = true
kind_eq tok_rparen tok_rparen = true
kind_eq tok_and tok_and = true
kind_eq tok_or tok_or = true
kind_eq _ _ = false

-- A slice of nodes as the field of a node.
unfoldable pub nodes_of : List Node → Nodes
nodes_of [] = no_nodes
nodes_of (n ∷ ns) = node n (nodes_of ns)

-- The end of `parseBinary`: a single operand is returned as it is.
unfoldable pub join_nodes : (List Node → Node) → List Node → Node
join_nodes join (n ∷ []) = n
join_nodes join ns = join ns

unfoldable pub join_or : List Node → Node
join_or ns = or (nodes_of ns)

unfoldable pub join_and : List Node → Node
join_and ns = and (nodes_of ns)

-- The parser before the first `advance`.
abbrev pub initial : Text → Parser
initial s = record { lex = lexer s 0; tok = token tok_eof [] 0 }

module _ (std : Std) where
  unfoldable pub advance : M (Unit {0})
  advance p = Result.◌>>=◌ (next std p.lex) (λ (t, l). ok (tt, record { lex = l; tok = t }))

  -- The closing parenthesis of a list or a group.
  unfoldable pub close {ℓ} : {A : Type ℓ} → A → M A
  close a = do
    t ← current
    check (kind_eq t.kind tok_rparen) (expected_rparen t.pos)
    advance
    pure a

  -- The loop of `parseArguments` over the values of a list.
  unfoldable pub argument_loop : ℕ → List Text → M (List Text)
  argument_loop zero args = λ p. out_of_fuel
  argument_loop (suc f) args = do
    t ← current
    check (kind_eq t.kind tok_value) (expected_value t.pos t.text)
    advance
    t' ← current
    let more = do advance; argument_loop f (args ++ t.text ∷ [])
    if kind_eq t'.kind tok_or then more else pure (args ++ t.text ∷ [])

  unfoldable pub parse_arguments : ℕ → M (List Text)
  parse_arguments f = do
    t ← current
    let single = do
      check (kind_eq t.kind tok_value) (expected_value t.pos t.text)
      advance
      pure (t.text ∷ [])
    let list = do advance; args ← argument_loop f []; close args
    if not (kind_eq t.kind tok_lparen) then single else list

  unfoldable pub parse_comparison : ℕ → M Node
  parse_comparison f = do
    t ← current
    check (kind_eq t.kind tok_value) (expected_selector t.pos t.text)
    advance
    o ← current
    check (kind_eq o.kind tok_op) (expected_operator o.pos t.text)
    op ← found (lookup o.text operators) (unknown_operator o.pos o.text)
    advance
    args ← parse_arguments f
    pure (comparison t.text op args)

  -- The loop of `parseBinary`.
  unfoldable pub operand_loop : ℕ → TokenKind → M Node → List Node → M (List Node)
  operand_loop zero sep operand nodes = λ p. out_of_fuel
  operand_loop (suc f) sep operand nodes = do
    t ← current
    let more = do advance; n ← operand; operand_loop f sep operand (nodes ++ n ∷ [])
    if kind_eq t.kind sep then more else pure nodes

  unfoldable pub parse_binary : ℕ → TokenKind → M Node → (List Node → Node) → M Node
  parse_binary f sep operand join = do
    first ← operand
    nodes ← operand_loop f sep operand (first ∷ [])
    pure (join_nodes join nodes)

  -- `parseAnd` and `parseOr`, given `parseConstraint`.
  unfoldable pub and_of : ℕ → M Node → M Node
  and_of f constraint = parse_binary f tok_and constraint join_and

  unfoldable pub or_of : ℕ → M Node → M Node
  or_of f constraint = parse_binary f tok_or (and_of f constraint) join_or

  unfoldable pub parse_constraint : ℕ → M Node
  parse_constraint zero = λ p. out_of_fuel
  parse_constraint (suc f) = do
    t ← current
    let group = do advance; n ← or_of f (parse_constraint f); close n
    if kind_eq t.kind tok_lparen then group else parse_comparison f

  unfoldable pub parse_and : ℕ → M Node
  parse_and f = and_of f (parse_constraint f)

  unfoldable pub parse_or : ℕ → M Node
  parse_or f = or_of f (parse_constraint f)

  -- `parse` with the fuel to use.
  unfoldable pub parse_with : ℕ → M Node
  parse_with f = do
    advance
    n ← parse_or f
    t ← current
    check (kind_eq t.kind tok_eof) (unexpected_token t.pos t.text)
    pure n

  unfoldable pub parse : Text → Result Node
  parse s = Result.◌>>=◌ (parse_with (suc (length s)) (initial s)) (λ (n, _). ok n)
