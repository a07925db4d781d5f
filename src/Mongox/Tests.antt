-- ===== src/Mongox/Tests.antt =====
-- Runs of the translation into query documents, and the witness.
use servicekit_go.Base.{false, [], ◌∷◌, codes, text_eq, some, ◌≡◌, refl}
use servicekit_go.Base.Int.{pos}
use servicekit_go.Mongox.{
  Filter, entry, value, values, filter, filters, no_filters, filter_cons, ok, panics,
  unsupported_node, first, comparison, to_filter,
}
use servicekit_go.Mongox.Translate.{Mongo, matches, meaning, to_filter-IsBound}
use servicekit_go.Rsql.Bound.{Value, nil, bound_comparison}
use servicekit_go.Rsql.Schema.Walk.{bind-IsBound}
use servicekit_go.Rsql.Tests.{plain}
use servicekit_go.Rsql.Tests.Filters.{people, small, request, adult, bound_request, bind-small}
use servicekit_go.Rsql.Tree.Eval.{eval}

abbrev one_document : Mongo
one_document = record {
  equals = λ col v. false;
  operator = λ col name v. text_eq name (codes "$in");
}

abbrev document : Filter
document = entry (codes "$and") (
    filters (
      filter_cons
        (entry (codes "full_name") (
          filter (
            entry (codes "$in")
              (values (Value.string (codes "bo") ∷ Value.string (codes "al") ∷ [])))))
        (filter_cons
          (entry (codes "age") (filter (entry (codes "$gte") (value (Value.int (pos 21))))))
          no_filters)))

to_filter_runs :
    (to_filter bound_request ≡ ok document)
    × (to_filter nil ≡ unsupported_node)
    × (to_filter (bound_comparison (record adult { values = [] })) ≡ panics)
unfolding to_filter comparison first text_eq
to_filter_runs = (refl, refl, refl)

to_filter-IsBound_example :
    (f : Filter) × (to_filter bound_request ≡ ok f)
    × (eval (meaning one_document) bound_request ≡ some (matches one_document f))
to_filter-IsBound_example =
    to_filter-IsBound one_document people bound_request
      (bind-IsBound plain people small request bound_request bind-small)
