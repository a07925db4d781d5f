-- ===== src/Rsql/Parse/Total.antt =====
-- The parser ends on every input, and what it returns is a tree that the grammar can build.
use mathlib.Core.List.{concat-ne-nil}
use servicekit_go.Rsql.Method.{Ends-then, Ends-check, Ends-found, Ends-if}
use servicekit_go.Rsql.Parse.Shape.{
  IsParsed, lookup-contains, join_nodes-IsParsed, join_and-IsParsed, join_or-IsParsed,
}
use servicekit_go.Base.{
  ℕ, zero, suc, ◌+◌, ◌≤◌, ◌<◌, true, not, [], ◌∷◌, ◌++◌, List, Text, length, length-append, ◌≡◌,
  ◌≢◌, refl, arith, All, All-append, subst,
}
use servicekit_go.Rsql.Ast.{Node, operators, lookup}
use servicekit_go.Rsql.Lex.{
  TokenKind, tok_eof, tok_value, tok_op, tok_lparen, tok_rparen, tok_and, tok_or, next,
}
use servicekit_go.Rsql.Lex.Progress.{cost, next-Consumes}
use servicekit_go.Rsql.Result.{ok, out_of_fuel, Ends, Ends-bind, Ends-mono, Ends-ne-out_of_fuel}
use servicekit_go.Rsql.Std.{Std}
use servicekit_go.Rsql.Parse.{
  Parser, M, kind_eq, join_or, join_and, advance, argument_loop, parse_arguments, parse_comparison,
  operand_loop, parse_binary, and_of, or_of, parse_constraint, parse_or, initial, parse_with, parse,
  close,
}

-- The tokens that the parser can still meet are no more than this.
abbrev pub left : Parser → ℕ
left p = length p.lex.rest + cost p.tok.kind

cost-kind_eq : (k s : TokenKind) → kind_eq k s ≡ true → cost k ≡ cost s
unfolding kind_eq
cost-kind_eq k s h = ground arith

module _ (std : Std) where
  advance-Ends : (p : Parser) → Ends (λ r. left r.1 ≤ length p.lex.rest) (advance std p)
  unfolding advance
  advance-Ends p = Ends-bind _ _ (next std p.lex) _ (next-Consumes std p.lex) (λ r h. h)

  argument_loop-Ends :
      (f : ℕ) (args : List Text) (p : Parser)
      → left p < f
      → Ends (λ r. left r.1 ≤ left p × (r.0 ≢ [])) (argument_loop std f args p)
  unfolding argument_loop
  argument_loop-Ends zero args p h = absurd (omega arith)
  argument_loop-Ends (suc f) args p h =
      Ends-check _ (kind_eq p.tok.kind tok_value) _ _ p λ is_value.
        Ends-then _ _ (advance std) _ p (advance-Ends p) λ _ p₁ h₁.
          Ends-if _ (kind_eq p₁.tok.kind tok_or) _ _ p₁
            (λ is_or. Ends-then _ _ (advance std) _ p₁ (advance-Ends p₁) λ _ p₂ h₂.
              Ends-mono _ _ (argument_loop std f (args ++ p.tok.text ∷ []) p₂)
                (λ r g. (omega (arith, cost-kind_eq p.tok.kind tok_value is_value), g.1))
                (argument_loop-Ends f (args ++ p.tok.text ∷ []) p₂
                  (omega (arith, cost-kind_eq p.tok.kind tok_value is_value))))
            (λ _. (
              omega (arith, cost-kind_eq p.tok.kind tok_value is_value),
              concat-ne-nil p.tok.text args,
            ))

  parse_arguments-Ends :
      (f : ℕ) (p : Parser)
      → left p < f
      → Ends (λ r. left r.1 ≤ left p × (r.0 ≢ [])) (parse_arguments std f p)
  unfolding parse_arguments close
  parse_arguments-Ends f p h =
      Ends-if _ (not (kind_eq p.tok.kind tok_lparen)) _ _ p
        (λ _.
          Ends-check _ (kind_eq p.tok.kind tok_value) _ _ p λ is_value.
            Ends-then _ _ (advance std) _ p (advance-Ends p) λ _ p₁ h₁. (omega arith, cc))
        (λ _. Ends-then _ _ (advance std) _ p (advance-Ends p) λ _ p₁ h₁.
          Ends-then _ _ (argument_loop std f []) _ p₁ (argument_loop-Ends f [] p₁ (omega arith))
            λ args p₂ h₂. Ends-check _ (kind_eq p₂.tok.kind tok_rparen) _ _ p₂ λ _.
              Ends-then _ _ (advance std) _ p₂ (advance-Ends p₂) λ _ p₃ h₃. (omega arith, h₂.1))

  -- What a method that reads a node ensures of a parser with few tokens left.
  abbrev Reads : ℕ → M Node → Type 0
  Reads f m = (p : Parser) → left p < f → Ends (λ r. left r.1 ≤ left p × IsParsed r.0) (m p)

  parse_comparison-Reads : (f : ℕ) → Reads (suc f) (parse_comparison std f)
  unfolding parse_comparison
  parse_comparison-Reads f p h = Ends-check _ (kind_eq p.tok.kind tok_value) _ _ p λ is_value.
      Ends-then _ _ (advance std) _ p (advance-Ends p) λ _ p₁ h₁.
        Ends-check _ (kind_eq p₁.tok.kind tok_op) _ _ p₁ λ _.
          Ends-found _ (lookup p₁.tok.text operators) _ _ p₁ λ op is_op.
            Ends-then _ _ (advance std) _ p₁ (advance-Ends p₁) λ _ p₂ h₂.
              Ends-then _ _ (parse_arguments std f) _ p₂
                (parse_arguments-Ends f p₂
                  (omega (arith, cost-kind_eq p.tok.kind tok_value is_value)))
                λ args p₃ h₃. (omega arith, (lookup-contains p₁.tok.text operators op is_op, h₃.1))

  operand_loop-Ends :
      (f bound : ℕ) (sep : TokenKind) (operand : M Node) (nodes : List Node) (p : Parser)
      → cost sep ≡ 1
      → Reads bound operand
      → left p < f
      → left p < bound
      → All IsParsed nodes
      → Ends
          (λ r. (left r.1 ≤ left p) × All IsParsed r.0 × (length nodes ≤ length r.0))
          (operand_loop std f sep operand nodes p)
  unfolding operand_loop
  operand_loop-Ends zero bound sep operand nodes p c reads h hb g = absurd (omega arith)
  operand_loop-Ends (suc f) bound sep operand nodes p c reads h hb g =
      Ends-if _ (kind_eq p.tok.kind sep) _ _ p
        (λ is_sep. Ends-then _ _ (advance std) _ p (advance-Ends p) λ _ p₁ h₁.
          Ends-then _ _ operand _ p₁ (reads p₁ (omega arith)) λ n p₂ h₂.
            Ends-mono _ _ (operand_loop std f sep operand (nodes ++ n ∷ []) p₂)
              (λ r k. (omega arith, k.1, omega (arith, length-append nodes (n ∷ []))))
              (operand_loop-Ends f bound sep operand (nodes ++ n ∷ []) p₂ c reads
                (omega (arith, cost-kind_eq p.tok.kind sep is_sep)) (omega arith)
                (All-append IsParsed nodes (n ∷ []) g (h₂.1, tt))))
        (λ _. (omega arith, g, omega arith))

  parse_binary-Reads :
      (f : ℕ) (sep : TokenKind) (operand : M Node) (join : List Node → Node)
      → cost sep ≡ 1
      → Reads f operand
      → ((ms : List Node) → 2 ≤ length ms → All IsParsed ms → IsParsed (join ms))
      → Reads f (parse_binary std f sep operand join)
  unfolding parse_binary
  parse_binary-Reads f sep operand join c reads k p h =
      Ends-then _ _ operand _ p (reads p h) λ n p₁ h₁.
        Ends-then _ _ (operand_loop std f sep operand (n ∷ [])) _ p₁
          (operand_loop-Ends f f sep operand (n ∷ []) p₁ c reads (omega arith) (omega arith)
            (h₁.1, tt))
          λ ns p₂ h₂. (omega arith, join_nodes-IsParsed join ns k (omega arith) h₂.1)

  and_of-Reads :
      (f : ℕ) (constraint : M Node) → Reads f constraint → Reads f (and_of std f constraint)
  unfolding and_of
  and_of-Reads f constraint reads =
      parse_binary-Reads f tok_and constraint join_and refl reads join_and-IsParsed

  or_of-Reads :
      (f : ℕ) (constraint : M Node) → Reads f constraint → Reads f (or_of std f constraint)
  unfolding or_of
  or_of-Reads f constraint reads =
      parse_binary-Reads f tok_or (and_of std f constraint) join_or refl
        (and_of-Reads f constraint reads) join_or-IsParsed

  parse_constraint-Reads : (f : ℕ) → Reads f (parse_constraint std f)
  unfolding parse_constraint close
  parse_constraint-Reads zero p h = absurd (omega arith)
  parse_constraint-Reads (suc f) p h =
      Ends-if _ (kind_eq p.tok.kind tok_lparen) _ _ p
        (λ is_group. Ends-then _ _ (advance std) _ p (advance-Ends p) λ _ p₁ h₁.
          Ends-then _ _ (or_of std f (parse_constraint std f)) _ p₁
            (or_of-Reads f (parse_constraint std f) (parse_constraint-Reads f) p₁
              (omega (arith, cost-kind_eq p.tok.kind tok_lparen is_group)))
            λ n p₂ h₂. Ends-check _ (kind_eq p₂.tok.kind tok_rparen) _ _ p₂ λ _.
              Ends-then _ _ (advance std) _ p₂ (advance-Ends p₂) λ _ p₃ h₃. (omega arith, h₂.1))
        (λ _. parse_comparison-Reads f p h)

  parse-Ends : (s : Text) → Ends IsParsed (parse std s)
  unfolding parse parse_with parse_or
  parse-Ends s =
      let f = suc (length s) in
      Ends-bind _ _ (parse_with std f (initial s)) _
        (Ends-then _ (λ r. IsParsed r.0) (advance std) _ (initial s) (advance-Ends (initial s))
          λ _ p₁ h₁.
            Ends-then _ _ (parse_or std f) _ p₁
              (or_of-Reads f (parse_constraint std f) (parse_constraint-Reads f) p₁ (omega arith))
              λ n p₂ h₂. Ends-check _ (kind_eq p₂.tok.kind tok_eof) _ _ p₂ λ _. h₂.1)
        (λ r h. h)

  -- The parser comes to an end on every input: the fuel that `parse` hands out never runs out, so
  -- the loops of the lexer and of the parser terminate.
  pub parse-ne-out_of_fuel : (s : Text) → parse std s ≢ out_of_fuel
  parse-ne-out_of_fuel s = Ends-ne-out_of_fuel IsParsed (parse std s) (parse-Ends s)

  -- What the parser returns is a tree of the grammar: each conjunction and disjunction has two
  -- operands or more, each operator is a canonical one, and each comparison has a value.
  pub parse-IsParsed : (s : Text) (n : Node) → parse std s ≡ ok n → IsParsed n
  parse-IsParsed s n h = subst (Ends IsParsed) h (parse-Ends s)
