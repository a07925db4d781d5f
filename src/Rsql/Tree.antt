-- ===== src/Rsql/Tree.antt =====
-- rsql/tree.go: joining bound filters, and rewriting a filter bottom-up.
pub mod Eval
pub mod Tidy
pub mod Remove
use servicekit_go.Base.{Bool, true, false, List, [], ◌∷◌, ◌++◌, if◌then◌else◌}
use servicekit_go.Rsql.Bound.{
  Bound, Bounds, nil, bound_and, bound_or, bound_comparison, no_bounds, bound, to_list, of_list,
}

-- What the loop of `combine` appends for one node.
unfoldable pub operand : Bool → Bound → List Bound
operand or nil = []
operand or (bound_and bs) = if or then bound_and bs ∷ [] else to_list bs
operand or (bound_or bs) = if or then to_list bs else bound_or bs ∷ []
operand or (bound_comparison c) = bound_comparison c ∷ []

-- The loop of `combine`.
unfoldable pub flatten : Bool → List Bound → List Bound → List Bound
flatten or flat [] = flat
flatten or flat (n ∷ ns) = flatten or (flat ++ operand or n) ns

-- The end of `combine`: no operand, one, or a connective.
unfoldable pub connect : Bool → List Bound → Bound
connect or [] = nil
connect or (b ∷ []) = b
connect or (b ∷ c ∷ bs) =
    if or then bound_or (of_list (b ∷ c ∷ bs)) else bound_and (of_list (b ∷ c ∷ bs))

unfoldable pub combine : List Bound → Bool → Bound
combine nodes or = connect or (flatten or [] nodes)

-- `All` and `Any`
unfoldable pub all_of : List Bound → Bound
all_of nodes = combine nodes false

unfoldable pub any_of : List Bound → Bound
any_of nodes = combine nodes true

module _ (fn : Bound → Bound) where
  unfoldable mutual
    pub rewrite : Bound → Bound
    rewrite nil = nil
    rewrite (bound_and bs) = fn (all_of (rewrite_all bs))
    rewrite (bound_or bs) = fn (any_of (rewrite_all bs))
    rewrite (bound_comparison c) = fn (bound_comparison c)

    pub rewrite_all : Bounds → List Bound
    rewrite_all no_bounds = []
    rewrite_all (bound b bs) = rewrite b ∷ rewrite_all bs
