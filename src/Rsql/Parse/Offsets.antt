-- ===== src/Rsql/Parse/Offsets.antt =====
-- What the errors of the parser point at: rsql/parse.go.
use servicekit_go.Base.{
  ℕ, zero, suc, true, not, [], ◌∷◌, ◌++◌, List, Text, length, ◌≡◌, ◌≢◌, false, refl, arith, subst,
}
use servicekit_go.Rsql.Ast.{Node, operators, lookup}
use servicekit_go.Rsql.Lex.{
  TokenKind, tok_eof, tok_value, tok_op, tok_lparen, tok_rparen, tok_and, tok_or, next,
}
use servicekit_go.Rsql.Lex.Places.{At, Stands, Points, Spelled}
use servicekit_go.Rsql.Lex.Offsets.{next-Points, IsPlaced}
use servicekit_go.Rsql.Reports.{
  Reports, Reports-bind, Reports-then, Reports-check, Reports-found, Reports-method_if,
}
use servicekit_go.Rsql.Result.{err, Error}
use servicekit_go.Rsql.Std.{Std}
use servicekit_go.Rsql.Parse.{
  Parser, M, kind_eq, join_or, join_and, advance, argument_loop, parse_arguments, parse_comparison,
  operand_loop, parse_binary, and_of, or_of, parse_constraint, parse_or, initial, parse_with, parse,
  close,
}

ne-kind_eq : (k wanted : TokenKind) → kind_eq k wanted ≡ false → k ≢ wanted
unfolding kind_eq
ne-kind_eq k wanted h e = ground arith

Spelled-op :
    (s : Text) (k : TokenKind) (p : ℕ) (t : Text)
    → kind_eq k tok_op ≡ true
    → Spelled s k p t
    → Stands s p t
unfolding kind_eq
Spelled-op s tok_op p t h g = g
Spelled-op s tok_eof p t h g = cc
Spelled-op s tok_value p t h g = cc
Spelled-op s tok_lparen p t h g = cc
Spelled-op s tok_rparen p t h g = cc
Spelled-op s tok_and p t h g = cc
Spelled-op s tok_or p t h g = cc

module _ (std : Std) (s : Text) where
  -- The token at hand and the lexer stand in the text.
  abbrev Placed : Parser → Type 0
  Placed p = IsPlaced std s p.tok × At s p.lex.pos p.lex.rest

  -- A method keeps the parser in the text, or ends with an error that points into it.
  abbrev Keeps {ℓ} : {A : Type ℓ} → M A → Type 0
  Keeps m = (p : Parser) → Placed p → Reports (Points std s) (λ r. Placed r.1) (m p)

  advance-Placed :
      (p : Parser)
      → At s p.lex.pos p.lex.rest
      → Reports (Points std s) (λ r. Placed r.1) (advance std p)
  unfolding advance
  advance-Placed p h =
      Reports-bind (Points std s) _ _ (next std p.lex) _ (next-Points std s p.lex h) (λ r g. g)

  advance-Keeps : Keeps (advance std)
  advance-Keeps p h = advance-Placed p h.1

  close-Keeps {ℓ} : {A : Type ℓ} (a : A) → Keeps (close std a)
  unfolding close
  close-Keeps a p h =
      Reports-check (Points std s) _ (kind_eq p.tok.kind tok_rparen) _ _ p
        (λ other. (p.tok, refl, ne-kind_eq p.tok.kind tok_rparen other, h.0.0))
        λ _. Reports-then (Points std s) _ _ (advance std) _ p (advance-Keeps p h) λ _ p₁ h₁. h₁

  argument_loop-Keeps : (f : ℕ) (args : List Text) → Keeps (argument_loop std f args)
  unfolding argument_loop
  argument_loop-Keeps zero args p h = tt
  argument_loop-Keeps (suc f) args p h =
      Reports-check (Points std s) _ (kind_eq p.tok.kind tok_value) _ _ p
        (λ other. (p.tok.kind, ne-kind_eq p.tok.kind tok_value other, h.0.0))
        λ _. Reports-then (Points std s) _ _ (advance std) _ p (advance-Keeps p h) λ _ p₁ h₁.
          Reports-method_if (Points std s) _ (kind_eq p₁.tok.kind tok_or) _ _ p₁
            (λ _.
              Reports-then (Points std s) _ _ (advance std) _ p₁ (advance-Keeps p₁ h₁)
                λ _ p₂ h₂. argument_loop-Keeps f (args ++ p.tok.text ∷ []) p₂ h₂)
            (λ _. h₁)

  parse_arguments-Keeps : (f : ℕ) → Keeps (parse_arguments std f)
  unfolding parse_arguments
  parse_arguments-Keeps f p h =
      Reports-method_if (Points std s) _ (not (kind_eq p.tok.kind tok_lparen)) _ _ p
        (λ _.
          Reports-check (Points std s) _ (kind_eq p.tok.kind tok_value) _ _ p
            (λ other. (p.tok.kind, ne-kind_eq p.tok.kind tok_value other, h.0.0))
            λ _.
              Reports-then (Points std s) _ _ (advance std) _ p (advance-Keeps p h) λ _ p₁ h₁. h₁)
        (λ _. Reports-then (Points std s) _ _ (advance std) _ p (advance-Keeps p h) λ _ p₁ h₁.
          Reports-then (Points std s) _ _ (argument_loop std f []) _ p₁
            (argument_loop-Keeps f [] p₁ h₁) close-Keeps)

  parse_comparison-Keeps : (f : ℕ) → Keeps (parse_comparison std f)
  unfolding parse_comparison
  parse_comparison-Keeps f p h =
      Reports-check (Points std s) _ (kind_eq p.tok.kind tok_value) _ _ p
        (λ other. (p.tok.kind, ne-kind_eq p.tok.kind tok_value other, h.0.0))
        λ _. Reports-then (Points std s) _ _ (advance std) _ p (advance-Keeps p h) λ _ p₁ h₁.
          Reports-check (Points std s) _ (kind_eq p₁.tok.kind tok_op) _ _ p₁
            (λ other. (p₁.tok, refl, ne-kind_eq p₁.tok.kind tok_op other, h₁.0.0))
            λ is_op.
              Reports-found (Points std s) _ (lookup p₁.tok.text operators) _ _ p₁
                (λ unknown. (Spelled-op s p₁.tok.kind p₁.tok.pos p₁.tok.text is_op h₁.0.1, unknown))
                λ op _.
                  Reports-then (Points std s) _ _ (advance std) _ p₁ (advance-Keeps p₁ h₁)
                    λ _ p₂ h₂.
                      Reports-then (Points std s) _ _ (parse_arguments std f) _ p₂
                        (parse_arguments-Keeps f p₂ h₂) λ _ p₃ h₃. h₃

  operand_loop-Keeps :
      (f : ℕ) (sep : TokenKind) (operand : M Node) (nodes : List Node)
      → Keeps operand
      → Keeps (operand_loop std f sep operand nodes)
  unfolding operand_loop
  operand_loop-Keeps zero sep operand nodes keeps p h = tt
  operand_loop-Keeps (suc f) sep operand nodes keeps p h =
      Reports-method_if (Points std s) _ (kind_eq p.tok.kind sep) _ _ p
        (λ _. Reports-then (Points std s) _ _ (advance std) _ p (advance-Keeps p h) λ _ p₁ h₁.
          Reports-then (Points std s) _ _ operand _ p₁ (keeps p₁ h₁)
            λ n p₂ h₂. operand_loop-Keeps f sep operand (nodes ++ n ∷ []) keeps p₂ h₂)
        (λ _. h)

  parse_binary-Keeps :
      (f : ℕ) (sep : TokenKind) (operand : M Node) (join : List Node → Node)
      → Keeps operand
      → Keeps (parse_binary std f sep operand join)
  unfolding parse_binary
  parse_binary-Keeps f sep operand join keeps p h =
      Reports-then (Points std s) _ _ operand _ p (keeps p h) λ n p₁ h₁.
        Reports-then (Points std s) _ _ (operand_loop std f sep operand (n ∷ [])) _ p₁
          (operand_loop-Keeps f sep operand (n ∷ []) keeps p₁ h₁) λ _ p₂ h₂. h₂

  or_of-Keeps : (f : ℕ) (constraint : M Node) → Keeps constraint → Keeps (or_of std f constraint)
  unfolding or_of and_of
  or_of-Keeps f constraint keeps =
      parse_binary-Keeps f tok_or (and_of std f constraint) join_or
        (parse_binary-Keeps f tok_and constraint join_and keeps)

  parse_constraint-Keeps : (f : ℕ) → Keeps (parse_constraint std f)
  unfolding parse_constraint
  parse_constraint-Keeps zero p h = tt
  parse_constraint-Keeps (suc f) p h =
      Reports-method_if (Points std s) _ (kind_eq p.tok.kind tok_lparen) _ _ p
        (λ _. Reports-then (Points std s) _ _ (advance std) _ p (advance-Keeps p h) λ _ p₁ h₁.
          Reports-then (Points std s) _ _ (or_of std f (parse_constraint std f)) _ p₁
            (or_of-Keeps f (parse_constraint std f) (parse_constraint-Keeps f) p₁ h₁) close-Keeps)
        (λ _. parse_comparison-Keeps f p h)

  parse_with-Placed :
      (f : ℕ) (p : Parser)
      → At s p.lex.pos p.lex.rest
      → Reports (Points std s) (λ r. Placed r.1) (parse_with std f p)
  unfolding parse_with parse_or
  parse_with-Placed f p h =
      Reports-then (Points std s) _ _ (advance std) _ p (advance-Placed p h) λ _ p₁ h₁.
        Reports-then (Points std s) _ _ (or_of std f (parse_constraint std f)) _ p₁
          (or_of-Keeps f (parse_constraint std f) (parse_constraint-Keeps f) p₁ h₁)
          λ n p₂ h₂.
            Reports-check (Points std s) _ (kind_eq p₂.tok.kind tok_eof) _ _ p₂
              (λ other. (p₂.tok.kind, ne-kind_eq p₂.tok.kind tok_eof other, h₂.0.0)) λ _. h₂

  parse-Reports : Reports (Points std s) (λ n. Unit {0}) (parse std s)
  unfolding parse
  parse-Reports =
      Reports-bind (Points std s) _ _ (parse_with std (suc (length s)) (initial s)) _
        (parse_with-Placed (suc (length s)) (initial s) ([], refl, refl)) (λ r h. tt)

  -- An error of the parser points at what it says. Each message names an offset of the text: a
  -- token that the lexer reads there and whose kind is not the one that was wanted, an operator
  -- that stands there as it is quoted and is not in the table, the `!`, the `=` or the quote that
  -- opens what is not finished, the character that is quoted, which is no letter within an operator
  -- and is `~` elsewhere, or the end of the text behind a backslash. No error of the binder is
  -- among them.
  pub parse-Points : (e : Error) → parse std s ≡ err e → Points std s e
  parse-Points e h = subst (Reports (Points std s) (λ n. Unit {0})) h parse-Reports
