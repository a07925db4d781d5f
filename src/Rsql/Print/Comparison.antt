-- ===== src/Rsql/Print/Comparison.antt =====
-- The parser reads a printed comparison back.
use servicekit_go.Base.{
  ℕ, zero, suc, ◌≤◌, Bool, true, not, ◌&&◌, List, [], ◌++◌, map, Text, length, ◌≡◌, ◌≢◌, refl, ap,
  ◌∙◌, arith, All, contains, contains-All, append_assoc,
}
use servicekit_go.Rsql.Ast.{
  Node, Nodes, and, or, comparison, no_nodes, node, Operator, operators, length_nodes,
}
use servicekit_go.Rsql.Canonical.Quote.{IsWritable}
use servicekit_go.Rsql.Lex.{TokenKind, tok_op, token, lexer}
use servicekit_go.Rsql.Lex.Words.{IsBare, next-IsBare, ReadsOp, next-operators}
use servicekit_go.Rsql.Method.{pure, ◌>>=◌}
use servicekit_go.Rsql.Parse.{M, kind_eq, parse_arguments, parse_comparison, parse_constraint}
use servicekit_go.Rsql.Print.{print_args, print}
use servicekit_go.Rsql.Print.From.{
  Follows, Follows-Stops, from, advance_then, from_assoc, from-next, parse_arguments-print,
}
use servicekit_go.Rsql.Std.{Std}

-- A tree that can be written: selectors are bare words, operators canonical ones, and there is a
-- value.
abbrev mutual
  pub IsPrintable : Node → Type 0
  IsPrintable (and ns) = (2 ≤ length_nodes ns) × ArePrintable ns
  IsPrintable (or ns) = (2 ≤ length_nodes ns) × ArePrintable ns
  IsPrintable (comparison sel op args) =
      IsBare sel
      × (contains (map (λ e. e.1) operators) op ≡ true)
      × (args ≢ [])
      × All IsWritable args

  pub ArePrintable : Nodes → Type 0
  ArePrintable no_nodes = Unit
  ArePrintable (node n ns) = IsPrintable n × ArePrintable ns

-- Tokens that may stand behind an operand.
abbrev pub anything : TokenKind → Bool
anything k = true

abbrev pub not_sep : TokenKind → (TokenKind → Bool) → TokenKind → Bool
not_sep sep allowed k = allowed k && not (kind_eq k sep)

module _ (std : Std) (B : Type 0) where
  -- A method reads a text as a value, in front of the tokens that are allowed.
  abbrev pub Reads : (TokenKind → Bool) → {A : Type 0} → M A → Text → A → Type 0
  Reads allowed {A} m s a =
      (k' : TokenKind) (rest : Text) (pos : ℕ)
      → Follows k' rest
      → allowed k' ≡ true
      → (pos' : ℕ) × ((k : A → M B) → from std (s ++ rest) pos (m >>= k) ≡ from std rest pos' (k a))

  parse_comparison-print :
      (f : ℕ) (sel : Text) (op : Operator) (args : List Text)
      → length args ≤ f
      → IsPrintable (comparison sel op args)
      → Reads anything
          (parse_comparison std f)
          (print (comparison sel op args))
          (comparison sel op args)
  unfolding parse_comparison kind_eq print
  parse_comparison-print f sel op args h (bare, known, ne, ws) k' rest pos follows _ =
      let reads =
        contains-All (ReadsOp std) (map (λ e. e.1) operators) op known (next-operators std) in
      let text = print_args args ++ rest in
      let (pos₁, e₁) = next-IsBare std sel (op ++ text) pos bare (reads text 0).3 in
      let (pos₂, e₂, found_op, _) = reads text pos₁ in
      let (pos₃, arguments) =
        parse_arguments-print std {B = B} f args rest pos₂ h ne ws
          (Follows-Stops k' rest follows) in
      (
        pos₃,
        λ k.
            ap (λ t. from std t pos (parse_comparison std f >>= k))
              (append_assoc sel (op ++ print_args args) rest
                ∙ ap (λ t. sel ++ t) (append_assoc op (print_args args) rest))
            ∙ from-next std _ pos _ _ (parse_comparison std f >>= k) e₁
            ∙ advance_then std _ _ k
            ∙ rw (e₂, found_op)
                (advance_then std (record { lex = lexer text pos₂; tok = token tok_op op pos₁ })
                    (λ _. parse_arguments std f >>= (λ args. pure (comparison sel op args))) k
                  ∙ from_assoc std text pos₂ (parse_arguments std f) _ k
                  ∙ arguments _),
      )

  pub parse_constraint-comparison :
      (f : ℕ) (sel : Text) (op : Operator) (args : List Text)
      → suc (length args) ≤ f
      → IsPrintable (comparison sel op args)
      → Reads anything
          (parse_constraint std f)
          (print (comparison sel op args))
          (comparison sel op args)
  unfolding parse_constraint kind_eq print
  parse_constraint-comparison zero sel op args h p k' rest pos follows a = absurd (omega arith)
  parse_constraint-comparison (suc f) sel op args h p k' rest pos follows a =
      let reads =
        contains-All (ReadsOp std) (map (λ e. e.1) operators) op p.1 (next-operators std) in
      let (pos₁, e) = next-IsBare std sel (op ++ (print_args args ++ rest)) pos p.0 (reads _ 0).3 in
      let (pos', body) =
        parse_comparison-print f sel op args (omega arith) p k' rest pos follows a in
      let text =
        append_assoc sel (op ++ print_args args) rest
        ∙ ap (λ t. sel ++ t) (append_assoc op (print_args args) rest) in
      (pos', λ k. rw (text, e) refl ∙ body k)
