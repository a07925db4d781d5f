-- ===== src/Rsql/Tests/Errors.antt =====
-- Errors of the filter language: the witnesses.
use servicekit_go.Rsql.Schema.{bind}
use servicekit_go.Rsql.Schema.Errors.{IsExplained, bind-IsExplained}
use servicekit_go.Rsql.Tests.Filters.{people, small, binding, name_field}
use servicekit_go.Base.{ℕ, true, [], ◌∷◌, map, contains, text_eq, codes, ◌≡◌, refl}
use servicekit_go.Rsql.Ast.{op_eq, operators}
use servicekit_go.Rsql.Bound.{Value, BoundComparison, bound_comparison}
use servicekit_go.Rsql.Canonical.{canonical}
use servicekit_go.Rsql.Lex.{is_space, is_reserved, ends_bare}
use servicekit_go.Rsql.Lex.Words.{is_plain, IsBare}
use servicekit_go.Rsql.Print.Empty.{parse-canonical_empty}
use servicekit_go.Rsql.Lex.Places.{Points}
use servicekit_go.Rsql.Parse.{parse}
use servicekit_go.Rsql.Parse.Offsets.{parse-Points}
use servicekit_go.Rsql.Result.{ok, err, expected_value, unknown_operator, bad_value, bad_syntax}
use servicekit_go.Rsql.Tests.{plain, parsing}

unknown_error : parse plain (codes "a=like=b") ≡ err (unknown_operator 1 (codes "=like="))
unfolding parsing
unknown_error = refl

parse-Points_example : Points plain (codes "a=like=b") (unknown_operator 1 (codes "=like="))
parse-Points_example =
    parse-Points plain (codes "a=like=b") (unknown_operator 1 (codes "=like=")) unknown_error

value_error :
    bind plain people small (codes "name==bo;age==old")
    ≡ err (bad_value (codes "age") (bad_syntax (codes "old")))
unfolding binding
value_error = refl

bind-IsExplained_example :
    IsExplained plain people small
      (codes "name==bo;age==old")
      (bad_value (codes "age") (bad_syntax (codes "old")))
bind-IsExplained_example =
    bind-IsExplained plain people small (codes "name==bo;age==old")
      (bad_value (codes "age") (bad_syntax (codes "old"))) value_error

abbrev nameless : BoundComparison
nameless = record {
  selector = codes "name";
  field = name_field;
  op = op_eq;
  values = Value.string [] ∷ [];
}

bind-nameless : bind plain people small (codes "name==\"\"") ≡ ok (bound_comparison nameless)
unfolding binding
bind-nameless = refl

name-IsBare : IsBare (codes "name")
unfolding is_plain ends_bare is_space is_reserved
name-IsBare = (cc, (refl, (refl, (refl, (refl, tt)))))

op_eq_known : contains (map (λ e. e.1) operators) op_eq ≡ true
unfolding contains text_eq
op_eq_known = refl

parse-canonical_empty_example :
    (p : ℕ) × (parse plain (canonical plain (bound_comparison nameless))
      ≡ err (expected_value p []))
parse-canonical_empty_example = parse-canonical_empty plain nameless name-IsBare op_eq_known
