-- ===== src/Rsql/Tests/Filters.antt =====
-- Runs of the binder, of rewriting and of the canonical form, and the witnesses.

use servicekit_go.Base.{
  Bool, true, false, List, [], ◌∷◌, Text, codes, Option, none, some, text_eq, if◌then◌else◌, ◌≡◌,
  ◌↔◌, refl, contains, arith,
}
use servicekit_go.Base.Int.{pos}
use servicekit_go.Rsql.Ast.{Node, op_ge, op_in, node, and, comparison, no_nodes}
use servicekit_go.Rsql.Bound.{
  Kind, Field, Schema, Limits, Value, BoundComparison, Bound, nil, bound_and, bound_or,
  bound_comparison, no_bounds, bound, to_list, of_list, ops_of,
}
use servicekit_go.Rsql.Coerce.{
  uint_loop, parse_uint, signed, parse_int, parse_bool, is_empty, coerce_kind, coerce,
}
use servicekit_go.Rsql.Parse.{parse}
use servicekit_go.Rsql.Parse.Shape.{IsParsed}
use servicekit_go.Rsql.Parse.Total.{parse-IsParsed}
use servicekit_go.Rsql.Result.{
  ok, err, too_deep, too_many_disjunctions, not_filterable, bad_value, out_of_range,
}
use servicekit_go.Rsql.Schema.{
  exceeds, with_column, allowed_ops, is_multi, count_or, count_comparison, check_counts, coerce_all,
  bind_comparison, walk, bind_node, bind,
}
use servicekit_go.Rsql.Schema.Bounded.{unlimited, bind_limits_iff}
use servicekit_go.Rsql.Schema.Spec.{IsBound, IsWithin}
use servicekit_go.Rsql.Schema.Walk.{bind-IsBound}
use servicekit_go.Rsql.Tests.{plain, parsing}
use servicekit_go.Rsql.Tree.{combine, operand, flatten, connect, all_of, any_of, rewrite}
use servicekit_go.Rsql.Tree.Eval.{eval, eval_list, eval-combine}
use servicekit_go.Rsql.Tree.Remove.{removing, without, rewrite-removing}
use servicekit_go.Rsql.Tree.Tidy.{IsTidyOrNil, rewrite-IsTidyOrNil}

abbrev pub name_field : Field
name_field = record { column = codes "full_name"; kind = Kind.string; ops = []; enum = [] }

abbrev pub age_field : Field
age_field = record { column = []; kind = Kind.int; ops = []; enum = [] }

abbrev pub people : Schema
people sel =
    if text_eq sel (codes "name")
    then some name_field
    else if text_eq sel (codes "age")
    then some age_field
    else none

abbrev pub small : Limits
small = record { max_depth = 2; max_disjunctions = 1; max_comparisons = 3 }

abbrev pub request : Text
request = codes "name=in=(bo,al);age>=21"

abbrev pub names : BoundComparison
names = record {
  selector = codes "name";
  field = name_field;
  op = op_in;
  values = Value.string (codes "bo") ∷ Value.string (codes "al") ∷ [];
}

abbrev pub adult : BoundComparison
adult = record {
  selector = codes "age";
  field = record age_field { column = codes "age" };
  op = op_ge;
  values = Value.int (pos 21) ∷ [];
}

abbrev pub bound_request : Bound
bound_request =
    bound_and (bound (bound_comparison names) (bound (bound_comparison adult) no_bounds))

-- To run the binder.
unfoldable pub binding : Unit {0}
unfolding parsing contains uint_loop parse_uint signed parse_int parse_bool is_empty coerce_kind
    coerce exceeds with_column allowed_ops is_multi ops_of count_or count_comparison check_counts
    coerce_all bind_comparison walk bind_node bind
binding = tt

pub bind-small : bind plain people small request ≡ ok bound_request
unfolding binding
bind-small = refl

bind_errors :
    (bind plain people small (codes "name==a;(age>1,(age<2;age<3))") ≡ err (too_deep 2))
    × (bind plain people small (codes "name==a,age>1,age<2") ≡ err (too_many_disjunctions 2 1))
    × (bind plain people small (codes "salary>1") ≡ err (not_filterable (codes "salary")))
    × (bind plain people small (codes "age==9223372036854775808")
        ≡ err (bad_value (codes "age") (out_of_range (codes "9223372036854775808"))))
unfolding binding
bind_errors = (refl, refl, refl, refl)

abbrev request_tree : Node
request_tree = and (
    node (comparison (codes "name") op_in (codes "bo" ∷ codes "al" ∷ []))
      (node (comparison (codes "age") op_ge (codes "21" ∷ [])) no_nodes))

parse-request : parse plain request ≡ ok request_tree
unfolding parsing
parse-request = refl

parse-IsParsed_example : IsParsed request_tree
parse-IsParsed_example = parse-IsParsed plain request request_tree parse-request

bind-IsBound_example : IsBound people bound_request
bind-IsBound_example = bind-IsBound plain people small request bound_request bind-small

bind_limits_iff_example :
    (bind plain people small request ≡ ok bound_request)
    ↔ ((bind plain people unlimited request ≡ ok bound_request) × IsWithin small bound_request)
bind_limits_iff_example = bind_limits_iff plain people small request bound_request

-- Both comparisons hold.
abbrev all_hold : BoundComparison → Option Bool
all_hold c = some true

abbrev parts : List Bound
parts = nil ∷ bound_request ∷ bound_comparison adult ∷ []

eval-combine_example : eval all_hold (combine parts false) ≡ eval_list all_hold false parts
eval-combine_example = eval-combine all_hold parts false

combine_run :
    combine parts false
    ≡ bound_and (
        bound
          (bound_comparison names)
          (bound (bound_comparison adult) (bound (bound_comparison adult) no_bounds)))
unfolding combine operand flatten connect to_list of_list
combine_run = refl

abbrev is_age : BoundComparison → Bool
is_age c = text_eq c.selector (codes "age")

removing-tidy : (c : Bound) → IsTidyOrNil c → IsTidyOrNil (removing is_age c)
removing-tidy nil h = tt
removing-tidy (bound_and bs) h = h
removing-tidy (bound_or bs) h = h
removing-tidy (bound_comparison c) h = ground arith

rewrite-IsTidyOrNil_example : IsTidyOrNil (rewrite (removing is_age) bound_request)
rewrite-IsTidyOrNil_example = rewrite-IsTidyOrNil (removing is_age) bound_request removing-tidy

rewrite_run : rewrite (removing is_age) bound_request ≡ bound_comparison names
unfolding rewrite text_eq combine all_of any_of operand flatten connect to_list of_list
rewrite_run = refl

rewrite-removing_example :
    eval all_hold (rewrite (removing is_age) bound_request)
    ≡ eval (without is_age all_hold) bound_request
rewrite-removing_example = rewrite-removing is_age all_hold bound_request
