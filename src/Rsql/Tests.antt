-- ===== src/Rsql/Tests.antt =====
-- Runs of the filter language, and the witnesses.
pub mod Filters
mod Texts
mod Errors
use servicekit_go.Rsql.Parse.Total.{parse-ne-out_of_fuel}
use servicekit_go.Base.{codes, [], ◌∷◌, ◌≡◌, refl, none, false, text_eq, ◌≢◌}
use servicekit_go.Rsql.Ast.{and, or, comparison, no_nodes, node, op_eq, op_in, op_ge, lookup}
use servicekit_go.Rsql.Std.{Std}
use servicekit_go.Rsql.Result.{
  ok, err, unexpected_token, trailing_escape, unexpected_character, unterminated_operator,
  out_of_fuel,
}
use servicekit_go.Rsql.Lex.{
  is_space, is_reserved, ends_bare, skip_space, read_quoted, finish_bare, read_bare, read_bang,
  read_angle, is_letter, read_word, read_equals, read_op, next_at, next,
}
use servicekit_go.Rsql.Parse.{
  kind_eq, nodes_of, join_nodes, join_or, join_and, advance, close, argument_loop, parse_arguments,
  parse_comparison, operand_loop, parse_binary, and_of, or_of, parse_constraint, parse_and,
  parse_or, parse_with, parse,
}

abbrev pub plain : Std
plain = record {
  wide_letter = λ c. false;
  parse_float = λ s. none;
  float_out_of_range = λ s. text_eq s (codes "1e999");
  format_float = λ x. codes "1.5";
  parse_time = λ s. none;
  time_error = λ s. codes "cannot parse";
  format_time = λ t. codes "2026-01-02T00:00:00Z";
}

-- To run the lexer and the parser.
pub lexing : Unit {0}
unfolding is_space is_reserved ends_bare skip_space read_quoted finish_bare read_bare read_bang
    read_angle is_letter read_word read_equals read_op next_at next
lexing = tt

pub parsing : Unit {0}
unfolding lexing text_eq lookup kind_eq nodes_of join_nodes join_or join_and advance close
    argument_loop parse_arguments parse_comparison operand_loop parse_binary and_of or_of
    parse_constraint parse_and parse_or parse_with parse
parsing = tt

parse_groups :
    parse plain (codes "a==1;(b=in=(2,'x y') , c>=\"q\\\"\")")
    ≡ ok (
        and (
          node (comparison (codes "a") op_eq (codes "1" ∷ [])) (
            node
              (or (
                node
                  (comparison (codes "b") op_in (codes "2" ∷ codes "x y" ∷ []))
                  (node (comparison (codes "c") op_ge (codes "q\"" ∷ [])) no_nodes)))
              no_nodes)))
unfolding parsing
parse_groups = refl

parse_errors :
    (parse plain (codes "a==1)") ≡ err (unexpected_token 4 (codes ")")))
    × (parse plain (codes "a==1\\") ≡ err (trailing_escape 5))
    × (parse plain (codes "a==~") ≡ err (unexpected_character 3 b'~'))
    × (parse plain (codes "a=eq") ≡ err (unterminated_operator 1))
unfolding parsing
parse_errors = (refl, refl, refl, refl)

parse-ne-out_of_fuel_example : parse plain (codes "((a") ≢ out_of_fuel
parse-ne-out_of_fuel_example = parse-ne-out_of_fuel plain (codes "((a")
