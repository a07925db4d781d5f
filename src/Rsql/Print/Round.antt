-- ===== src/Rsql/Print/Round.antt =====
-- The parser reads a printed tree back.
use servicekit_go.Base.{
  ℕ, zero, suc, ◌+◌, ◌≤◌, ◌<◌, Bool, List, [], ◌∷◌, ◌++◌, map, Text, codes, join, length, ◌≡◌, refl,
  sym, ap, ◌∙◌, arith, All, All-mono, append_assoc, append-nil,
}
use servicekit_go.Rsql.Ast.{Node, Nodes, and, or, comparison, no_nodes, node, length_nodes}
use servicekit_go.Rsql.Lex.{
  TokenKind, tok_eof, tok_lparen, tok_rparen, tok_and, tok_or, token, lexer,
}
use servicekit_go.Rsql.Method.{pure, ◌>>=◌, ◌>>◌, check}
use servicekit_go.Rsql.Parse.{
  current, parse_or, M, kind_eq, close, and_of, or_of, parse_constraint, join_nodes, join_and,
  join_or, nodes_of,
}
use servicekit_go.Rsql.Print.{print_group, print, print_all, size, size_all}
use servicekit_go.Rsql.Print.From.{
  advance_from, from, advance_then, from_assoc, next-Follows, next-lparen, next-rparen,
}
use servicekit_go.Rsql.Result.{ok, unexpected_token}
use servicekit_go.Rsql.Std.{Std}
use servicekit_go.Rsql.Parse.{parse_with, parse, initial}
use servicekit_go.Rsql.Print.Fuel.{length-print}
use servicekit_go.Rsql.Print.Comparison.{
  Reads, not_sep, anything, IsPrintable, ArePrintable, parse_constraint-comparison,
}
use servicekit_go.Rsql.Print.Operands.{
  semicolon-Separates, comma-Separates, ReadsAll, parse_binary-print,
}

-- The operands of a connective with their texts.
abbrev pieces : Nodes → List (Text × Node)
pieces no_nodes = []
pieces (node n ns) = (print n, n) ∷ pieces ns

pieces-print_all : (ns : Nodes) → map (λ o. o.0) (pieces ns) ≡ print_all ns
unfolding print
pieces-print_all no_nodes = refl
pieces-print_all (node n ns) = ap (λ t. print n ∷ t) (pieces-print_all ns)

nodes_of-pieces : (ns : Nodes) → nodes_of (map (λ o. o.1) (pieces ns)) ≡ ns
unfolding nodes_of
nodes_of-pieces no_nodes = refl
nodes_of-pieces (node n ns) = ap (node n) (nodes_of-pieces ns)

module _ (std : Std) (B : Type 0) where
  abbrev not_and : TokenKind → Bool
  not_and = not_sep tok_and anything

  abbrev neither : TokenKind → Bool
  neither = not_sep tok_or not_and

  single-and_of :
      (f : ℕ) (constraint : M Node) (s : Text) (n : Node)
      → 0 < f
      → Reads std B anything constraint s n
      → Reads std B not_and (and_of std f constraint) s n
  unfolding and_of join_nodes join
  single-and_of f constraint s n h reads =
      parse_binary-print std B tok_and b';' (semicolon-Separates std) anything refl constraint f
        join_and (s, n) [] h (reads, tt)

  single-or_of :
      (f : ℕ) (constraint : M Node) (s : Text) (n : Node)
      → 0 < f
      → Reads std B not_and (and_of std f constraint) s n
      → Reads std B neither (or_of std f constraint) s n
  unfolding or_of join_nodes join kind_eq
  single-or_of f constraint s n h reads =
      parse_binary-print std B tok_or b',' (comma-Separates std) not_and refl
        (and_of std f constraint) f join_or (s, n) [] h (reads, tt)

  -- A group in parentheses.
  parse_constraint-group :
      (f : ℕ) (s : Text) (n : Node)
      → Reads std B neither (or_of std f (parse_constraint std f)) s n
      → Reads std B anything (parse_constraint std (suc f)) (b'(' ∷ (s ++ (b')' ∷ []))) n
  unfolding parse_constraint kind_eq close
  parse_constraint-group f s n reads k' rest pos follows a =
      let (pos₁, group) = reads tok_rparen (b')' ∷ rest) (pos + 1) (rest, refl) refl in
      (
        pos₁ + 1,
        λ k. rw (next-lparen std _ pos) (
            advance_then std
              (record {
                lex = lexer ((s ++ (b')' ∷ [])) ++ rest) (pos + 1);
                tok = token tok_lparen (codes "(") pos;
              })
              (λ _. or_of std f (parse_constraint std f) >>= close std) k
            ∙ from_assoc std _ (pos + 1) (or_of std f (parse_constraint std f)) (close std) k
            ∙ ap
                (λ t.
                  from std t (pos + 1)
                    (or_of std f (parse_constraint std f) >>= (λ n. close std n >>= k)))
                (append_assoc s (b')' ∷ []) rest)
            ∙ group _
            ∙ rw (next-rparen std rest pos₁) (
                advance_then std
                  (record { lex = lexer rest (pos₁ + 1); tok = token tok_rparen (codes ")") pos₁ })
                  (λ _. pure n) k)),
      )

  length-pieces : (ns : Nodes) → length (pieces ns) ≤ size_all ns
  length-pieces no_nodes = omega arith
  length-pieces (node n ns) = omega (arith, length-pieces ns)

  -- The operands of a conjunction.
  and_of-pieces :
      (f : ℕ) (ns : Nodes)
      → 2 ≤ length_nodes ns
      → length (pieces ns) ≤ f
      → ReadsAll std B anything (parse_constraint std f) (pieces ns)
      → Reads std B not_and
          (and_of std f (parse_constraint std f))
          (join (print_all ns) (codes ";"))
          (and ns)
  unfolding and_of join_nodes join_and nodes_of print
  and_of-pieces f no_nodes two h reads = absurd (omega arith)
  and_of-pieces f (node n no_nodes) two h reads = absurd (omega arith)
  and_of-pieces f (node n (node m ns)) two h reads =
      let whole =
        parse_binary-print std B tok_and b';' (semicolon-Separates std) anything refl
          (parse_constraint std f) f join_and (print n, n) (pieces (node m ns)) (omega arith)
          reads in
      rw (pieces-print_all ns, nodes_of-pieces ns) at whole

  -- The operands of a disjunction.
  or_of-pieces :
      (f : ℕ) (ns : Nodes)
      → 2 ≤ length_nodes ns
      → length (pieces ns) ≤ f
      → ReadsAll std B anything (parse_constraint std f) (pieces ns)
      → Reads std B neither
          (or_of std f (parse_constraint std f))
          (join (print_all ns) (codes ","))
          (or ns)
  unfolding or_of join_nodes join_or nodes_of print kind_eq
  or_of-pieces f no_nodes two h reads = absurd (omega arith)
  or_of-pieces f (node n no_nodes) two h reads = absurd (omega arith)
  or_of-pieces f (node n (node m ns)) two h reads =
      let each =
        All-mono (λ o. Reads std B anything (parse_constraint std f) o.0 o.1)
          (λ o. Reads std B not_and (and_of std f (parse_constraint std f)) o.0 o.1)
          (pieces (node n (node m ns)))
          (λ o r. single-and_of f (parse_constraint std f) o.0 o.1 (omega arith) r) reads in
      let whole =
        parse_binary-print std B tok_or b',' (comma-Separates std) not_and refl
          (and_of std f (parse_constraint std f)) f join_or (print n, n) (pieces (node m ns))
          (omega arith) each in
      rw (pieces-print_all ns, nodes_of-pieces ns) at whole

  size-positive : (ns : Nodes) → 2 ≤ length_nodes ns → {f : ℕ} → size_all ns ≤ f → 0 < f
  size-positive no_nodes h g = absurd (omega arith)
  size-positive (node n ns) h g = omega arith

  mutual
    unfolding print print_group

    constraint-print :
        (n : Node) (f : ℕ)
        → size n ≤ f
        → IsPrintable n
        → Reads std B anything (parse_constraint std f) (print n) n
    constraint-print (comparison sel op args) zero h p = absurd (omega arith)
    constraint-print (comparison sel op args) (suc f) h p =
        parse_constraint-comparison std B (suc f) sel op args h p
    constraint-print (and ns) zero h p = absurd (omega arith)
    constraint-print (or ns) zero h p = absurd (omega arith)
    constraint-print (and ns) (suc f) h p =
        let reads = constraints-print ns f (omega arith) p.1 in
        parse_constraint-group f (join (print_all ns) (codes ";")) (and ns) (
          single-or_of f (parse_constraint std f) _ _ (size-positive ns p.0 (omega arith))
            (and_of-pieces f ns p.0 (omega (arith, length-pieces ns)) reads))
    constraint-print (or ns) (suc f) h p =
        let reads = constraints-print ns f (omega arith) p.1 in
        parse_constraint-group f (join (print_all ns) (codes ",")) (or ns)
          (or_of-pieces f ns p.0 (omega (arith, length-pieces ns)) reads)

    constraints-print :
        (ns : Nodes) (f : ℕ)
        → size_all ns ≤ f
        → ArePrintable ns
        → All (λ o. Reads std B anything (parse_constraint std f) o.0 o.1) (pieces ns)
    constraints-print no_nodes f h p = tt
    constraints-print (node n ns) f h p =
        (constraint-print n f (omega arith) p.0, constraints-print ns f (omega arith) p.1)

module _ (std : Std) where
  abbrev at_end : Node → M Node
  at_end n = do t ← current; check (kind_eq t.kind tok_eof) (unexpected_token t.pos t.text); pure n

  -- The parser reads the text of every tree back as the same tree, whatever its strings hold: the
  -- selectors have to be bare words and the operators canonical ones, each comparison needs a value,
  -- each connective two operands, and a string that is not quoted has to be a bare word.
  pub parse-print : (n : Node) → IsPrintable n → parse std (print n) ≡ ok n
  unfolding parse parse_with parse_or kind_eq
  parse-print n p =
      let f = suc (length (print n)) in
      let constraint = constraint-print std Node n f (omega (arith, length-print n p)) p in
      let (pos, reads) =
        single-or_of std Node f (parse_constraint std f) (print n) n (omega arith)
          (single-and_of std Node f (parse_constraint std f) (print n) n (omega arith) constraint)
          tok_eof [] 0 refl refl in
      let (t, l, e, kind) = next-Follows std tok_eof [] pos refl in
      let run =
        advance_from std (initial (print n)) (λ _. parse_or std f >>= at_end)
        ∙ ap (λ t. from std t 0 (parse_or std f >>= at_end)) (sym (append-nil (print n)))
        ∙ reads at_end in
      rw (run, e, kind) refl
