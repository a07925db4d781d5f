-- ===== src/Rsql/Print/Empty.antt =====
-- The canonical form of a comparison with the empty string: rsql/canonical.go, `literal`.
use servicekit_go.Base.{ℕ, true, [], ◌∷◌, ◌++◌, map, contains, contains-All, ◌≡◌, refl}
use servicekit_go.Rsql.Ast.{operators}
use servicekit_go.Rsql.Bound.{Value, BoundComparison, bound_comparison}
use servicekit_go.Rsql.Canonical.{
  is_special, quote, literal, show_value, write_values, write_comparison, canonical,
}
use servicekit_go.Rsql.Lex.{skip_space, next_at, next}
use servicekit_go.Rsql.Lex.Words.{IsBare, next-IsBare, ReadsOp, next-operators}
use servicekit_go.Rsql.Parse.{
  kind_eq, advance, parse_arguments, parse_comparison, parse_binary, and_of, or_of,
  parse_constraint, parse_or, parse_with, parse,
}
use servicekit_go.Rsql.Result.{err, expected_value}
use servicekit_go.Rsql.Std.{Std}

module _ (std : Std) where
  -- A comparison with the empty string has a canonical form that is no filter: nothing is
  -- written for the value, and the parser refuses the end of the text in its place. The
  -- selector has to be a bare word and the operator a canonical one.
  pub parse-canonical_empty :
      (c : BoundComparison)
      → IsBare c.selector
      → contains (map (λ e. e.1) operators) c.op ≡ true
      → (p : ℕ) × (parse std
            (canonical std (bound_comparison (record c { values = Value.string [] ∷ [] })))
          ≡ err (expected_value p []))
  unfolding canonical write_comparison write_values literal show_value quote is_special next next_at
      skip_space kind_eq advance parse_arguments parse_comparison parse_binary and_of or_of
      parse_constraint parse_or parse_with parse
  parse-canonical_empty c bare known =
      let reads =
        contains-All (ReadsOp std) (map (λ e. e.1) operators) c.op known (next-operators std) in
      let (pos₁, e₁) = next-IsBare std c.selector (c.op ++ []) 0 bare (reads [] 0).3 in
      let (pos₂, e₂, found_op, _) = reads [] pos₁ in (pos₂, rw (e₁, e₂, found_op) refl)
