-- ===== src/Rsql/Tests/Texts.antt =====
-- Runs of the canonical form and of the parser on it, and the witnesses.
use servicekit_go.Base.{
  ◌↔◌, Bool, Bool-cases, Option, none, some, ap, ℕ, true, false, List, [], ◌∷◌, Text, codes, ◌≡◌,
  ◌≢◌, refl, inl, inr, arith, join, text_eq, contains,
}
use servicekit_go.Base.Sort.{text_le, insert_by, sort_by, sort}
use servicekit_go.Rsql.Ast.{Node, op_in, and, node, comparison, no_nodes, op_eq}
use servicekit_go.Rsql.Bound.{
  Field, BoundComparison, Value, bound, bound_and, bound_comparison, no_bounds, of_list, Bound,
}
use servicekit_go.Rsql.Canonical.{
  digits, decimal, show_int, is_special, escape, quote, write_group, show_value, literal,
  write_values, write_comparison, canonical,
}
use servicekit_go.Rsql.Canonical.Order.{Reorders}
use servicekit_go.Rsql.Lex.{is_space, is_reserved, ends_bare}
use servicekit_go.Rsql.Lex.Words.{is_plain}
use servicekit_go.Rsql.Parse.{nodes_of, parse}
use servicekit_go.Rsql.Print.{print}
use servicekit_go.Rsql.Print.Comparison.{IsPrintable}
use servicekit_go.Rsql.Print.Normal.{normal, IsWord, parse-canonical}
use servicekit_go.Rsql.Print.Key.{IsKeyed, canonical_iff, canonical-eval}
use servicekit_go.Rsql.Print.Rebound.{EnumsAreStrings, AreRestored, bind-canonical}
use servicekit_go.Rsql.Print.Sorted.{sorted}
use servicekit_go.Rsql.Tree.Eval.{eval}
use servicekit_go.Rsql.Print.Round.{parse-print}
use servicekit_go.Rsql.Result.{ok, err, expected_value}
use servicekit_go.Rsql.Schema.{bind}
use servicekit_go.Rsql.Schema.Bounded.{unlimited}
use servicekit_go.Rsql.Schema.Walk.{bind-IsBound}
use servicekit_go.Rsql.Tests.{plain, parsing}
use servicekit_go.Rsql.Tests.Filters.{
  adult, binding, people, small, request, bound_request, bind-small, names,
}
use servicekit_go.Rsql.Tree.Remove.{Leaves}

-- To write a filter.
writing : Unit {0}
unfolding digits decimal show_int is_special is_reserved escape quote write_group show_value literal
    write_values write_comparison canonical text_le insert_by sort_by sort join
writing = tt

canonical_run : canonical plain bound_request ≡ codes "(age=ge=21;name=in=(al,bo))"
unfolding writing
canonical_run = refl

-- A value that holds a backslash only stands without quotes, and the parser then drops it. An empty
-- string is not written at all, and the parser then finds no value.
abbrev named : Text → Bound
named s = bound_comparison (record names { op = op_eq; values = Value.string s ∷ [] })

canonical_backslash :
    (canonical plain (named (codes "a\\b")) ≡ codes "name==a\\b")
    × (parse plain (codes "name==a\\b") ≡ ok (comparison (codes "name") op_eq (codes "ab" ∷ [])))
unfolding writing parsing
canonical_backslash = (refl, refl)

canonical_empty :
    (canonical plain (named []) ≡ codes "name==")
    × (parse plain (codes "name==") ≡ err (expected_value 6 []))
unfolding writing parsing
canonical_empty = (refl, refl)

plain_time : (t : ℕ) → is_special (plain.format_time t) ≡ false
unfolding writing
plain_time t = refl

not_nil {ℓ} : {A : Type ℓ} (r : A) (rs : List A) → r ∷ rs ≢ []
not_nil r rs e = cc

wordy : Leaves (IsWord plain) bound_request
unfolding writing is_plain ends_bare is_space
wordy = (
  (
    (not_nil _ _, ground arith),
    (inr (not_nil _ _, ground arith), (inr (not_nil _ _, ground arith), tt)),
  ),
  (((not_nil _ _, ground arith), (inr (not_nil _ _, ground arith), tt)), tt),
)

parse-canonical_example :
    parse plain (canonical plain bound_request) ≡ ok (normal plain bound_request)
parse-canonical_example =
    parse-canonical plain people bound_request plain_time
      (bind-IsBound plain people small request bound_request bind-small) wordy

-- A string of a quote, a backslash and a space.
quoted_special : is_special (codes "\"\\ ") ≡ true
unfolding writing
quoted_special = refl

abbrev printable : Node
printable = and (
    node (comparison (codes "a") op_eq (codes "(" ∷ []))
      (node (comparison (codes "b") op_in (codes "x y" ∷ codes "z" ∷ [])) no_nodes))

printable-IsPrintable : IsPrintable printable
unfolding writing is_plain ends_bare is_space text_eq contains
printable-IsPrintable = (
  omega arith,
  (
    ((not_nil _ _, ground arith), refl, not_nil _ _, (inl refl, tt)),
    (
      (
        (not_nil _ _, ground arith),
        refl,
        not_nil _ _,
        (inl refl, (inr (not_nil _ _, ground arith), tt)),
      ),
      tt,
    ),
  ),
)

parse-print_example : parse plain (print printable) ≡ ok printable
parse-print_example = parse-print plain printable printable-IsPrintable

abbrev kept_enum : Option Field → List Text
kept_enum none = []
kept_enum (some f) = f.enum

strings : EnumsAreStrings plain people
strings sel f e = elim (Bool-cases (text_eq sel (codes "name"))) [
  | inl n ↦ inr (cc (ap kept_enum (rw n at e)))
  | inr n ↦ elim (Bool-cases (text_eq sel (codes "age"))) [
    | inl a ↦ inr (cc (ap kept_enum (rw (n, a) at e)))
    | inr a ↦ inr (cc (ap kept_enum (rw (n, a) at e)))
  ]
]

restored : Leaves (AreRestored plain people) bound_request
restored = ((tt, (tt, tt)), ((tt, tt), tt))

bind-canonical_example :
    (bind plain people unlimited (canonical plain bound_request) ≡ ok (sorted plain bound_request))
    × Reorders bound_request (sorted plain bound_request)
bind-canonical_example =
    bind-canonical plain people bound_request plain_time strings
      (bind-IsBound plain people small request bound_request bind-small) wordy restored

-- The same request in another order.
abbrev other_request : Bound
other_request = bound_and (
    bound (bound_comparison adult) (
      bound
        (bound_comparison
          (record names { values = Value.string (codes "al") ∷ Value.string (codes "bo") ∷ [] }))
        no_bounds))

bind-other : bind plain people small (codes "age>=21;name=in=(al,bo)") ≡ ok other_request
unfolding binding
bind-other = refl

wordy_other : Leaves (IsWord plain) other_request
unfolding writing is_plain ends_bare is_space
wordy_other = (
  ((not_nil _ _, ground arith), (inr (not_nil _ _, ground arith), tt)),
  (
    (
      (not_nil _ _, ground arith),
      (inr (not_nil _ _, ground arith), (inr (not_nil _ _, ground arith), tt)),
    ),
    tt,
  ),
)

bound_request-IsKeyed : IsKeyed plain people bound_request
bound_request-IsKeyed = record {
  is_bound = bind-IsBound plain people small request bound_request bind-small;
  words = wordy;
  restored = restored;
}

other_request-IsKeyed : IsKeyed plain people other_request
other_request-IsKeyed = record {
  is_bound =
      bind-IsBound plain people small (codes "age>=21;name=in=(al,bo)") other_request bind-other;
  words = wordy_other;
  restored = ((tt, tt), ((tt, (tt, tt)), tt));
}

canonical_iff_example :
    ((canonical plain bound_request ≡ canonical plain other_request)
      ↔ (sorted plain bound_request ≡ sorted plain other_request))
    × Reorders bound_request (sorted plain bound_request)
    × Reorders other_request (sorted plain other_request)
canonical_iff_example =
    canonical_iff plain people bound_request other_request plain_time strings bound_request-IsKeyed
      other_request-IsKeyed

-- One key for both.
keys : canonical plain bound_request ≡ canonical plain other_request
unfolding writing
keys = refl

-- A document that meets every comparison.
abbrev all_hold : BoundComparison → Option Bool
all_hold c = some true

canonical-eval_example : eval all_hold bound_request ≡ eval all_hold other_request
canonical-eval_example =
    canonical-eval plain people bound_request other_request plain_time strings bound_request-IsKeyed
      other_request-IsKeyed all_hold (λ c vs p. refl) keys

sorted_run :
    sorted plain bound_request
    ≡ bound_and (
        bound (bound_comparison adult) (
          bound
            (bound_comparison (record names {
              values = Value.string (codes "al") ∷ Value.string (codes "bo") ∷ [];
            }))
            no_bounds))
unfolding writing binding print nodes_of of_list
sorted_run = refl
