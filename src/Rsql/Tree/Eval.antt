-- ===== src/Rsql/Tree/Eval.antt =====
-- The meaning of a filter, and that joining and rewriting keep it.
use servicekit_go.Base.{
  Bool, true, false, ◌&&◌, ◌||◌, List, [], ◌∷◌, ◌++◌, Option, none, some, if◌then◌else◌, ◌≡◌, refl,
  arith,
}
use servicekit_go.Rsql.Bound.{
  BoundComparison, Bound, Bounds, nil, bound_and, bound_or, bound_comparison, no_bounds, bound,
  to_list, of_list,
}
use servicekit_go.Rsql.Tree.{
  operand, flatten, connect, combine, all_of, any_of, rewrite, rewrite_all,
}

-- `none` is no condition at all, which neither connective counts.
abbrev pub both : Option Bool → Option Bool → Option Bool
both none y = y
both (some a) none = some a
both (some a) (some b) = some (a && b)

abbrev pub either : Option Bool → Option Bool → Option Bool
either none y = y
either (some a) none = some a
either (some a) (some b) = some (a || b)

abbrev pub join_with : Bool → Option Bool → Option Bool → Option Bool
join_with or x y = if or then either x y else both x y

join_with_assoc :
    (or : Bool) (x y z : Option Bool)
    → join_with or (join_with or x y) z ≡ join_with or x (join_with or y z)
join_with_assoc or x y z = ground arith

-- A filter on one document: `holds` says whether the document meets a comparison, and is `none` for
-- a comparison that is not to count.
module _ (holds : BoundComparison → Option Bool) where
  abbrev mutual
    pub eval : Bound → Option Bool
    eval nil = none
    eval (bound_and bs) = eval_join false bs
    eval (bound_or bs) = eval_join true bs
    eval (bound_comparison c) = holds c

    pub eval_join : Bool → Bounds → Option Bool
    eval_join or no_bounds = none
    eval_join or (bound b bs) = join_with or (eval b) (eval_join or bs)

  abbrev pub eval_list : Bool → List Bound → Option Bool
  eval_list or [] = none
  eval_list or (b ∷ bs) = join_with or (eval b) (eval_list or bs)

module _ (holds : BoundComparison → Option Bool) where
  eval_list-append :
      (or : Bool) (xs ys : List Bound)
      → eval_list holds or (xs ++ ys) ≡ join_with or (eval_list holds or xs) (eval_list holds or ys)
  eval_list-append or [] ys = ground arith
  eval_list-append or (x ∷ xs) ys = ground (
    arith,
    eval_list-append or xs ys,
    join_with_assoc or (eval holds x) (eval_list holds or xs) (eval_list holds or ys),
  )

  pub eval_join-of_list :
      (or : Bool) (bs : List Bound) → eval_join holds or (of_list bs) ≡ eval_list holds or bs
  unfolding of_list
  eval_join-of_list or [] = refl
  eval_join-of_list or (b ∷ bs) = ground (arith, eval_join-of_list or bs)

  eval_list-to_list :
      (or : Bool) (bs : Bounds) → eval_list holds or (to_list bs) ≡ eval_join holds or bs
  unfolding to_list
  eval_list-to_list or no_bounds = refl
  eval_list-to_list or (bound b bs) = ground (arith, eval_list-to_list or bs)

  eval_list-operand : (or : Bool) (b : Bound) → eval_list holds or (operand or b) ≡ eval holds b
  unfolding operand
  eval_list-operand or nil = refl
  eval_list-operand or (bound_and bs) = ground (arith, eval_list-to_list false bs)
  eval_list-operand or (bound_or bs) = ground (arith, eval_list-to_list true bs)
  eval_list-operand or (bound_comparison c) = ground arith

  eval_list-flatten :
      (or : Bool) (flat ns : List Bound)
      → eval_list holds or (flatten or flat ns)
        ≡ join_with or (eval_list holds or flat) (eval_list holds or ns)
  unfolding flatten
  eval_list-flatten or flat [] = ground arith
  eval_list-flatten or flat (n ∷ ns) = ground (
    arith,
    eval_list-flatten or (flat ++ operand or n) ns,
    eval_list-append or flat (operand or n),
    eval_list-operand or n,
    join_with_assoc or (eval_list holds or flat) (eval holds n) (eval_list holds or ns),
  )

  eval-connect : (or : Bool) (bs : List Bound) → eval holds (connect or bs) ≡ eval_list holds or bs
  unfolding connect
  eval-connect or [] = refl
  eval-connect or (b ∷ []) = ground arith
  eval-connect or (b ∷ c ∷ bs) =
      ground (arith, eval_join-of_list true (b ∷ c ∷ bs), eval_join-of_list false (b ∷ c ∷ bs))

  -- `All` means that each of its operands holds and `Any` that one of them does, where a nil operand
  -- counts for nothing, whatever is flattened or collapsed on the way.
  pub eval-combine :
      (nodes : List Bound) (or : Bool) → eval holds (combine nodes or) ≡ eval_list holds or nodes
  unfolding combine
  eval-combine nodes or =
      ground (arith, eval-connect or (flatten or [] nodes), eval_list-flatten or [] nodes)

  module _ (fn : Bound → Bound) (keeps : (b : Bound) → eval holds (fn b) ≡ eval holds b) where
    mutual
      unfolding rewrite all_of any_of

      pub rewrite-eval : (b : Bound) → eval holds (rewrite fn b) ≡ eval holds b
      rewrite-eval nil = refl
      rewrite-eval (bound_and bs) = ground (
        arith,
        keeps (all_of (rewrite_all fn bs)),
        eval-combine (rewrite_all fn bs) false,
        rewrite_all-eval false bs,
      )
      rewrite-eval (bound_or bs) = ground (
        arith,
        keeps (any_of (rewrite_all fn bs)),
        eval-combine (rewrite_all fn bs) true,
        rewrite_all-eval true bs,
      )
      rewrite-eval (bound_comparison c) = keeps (bound_comparison c)

      rewrite_all-eval :
          (or : Bool) (bs : Bounds) → eval_list holds or (rewrite_all fn bs) ≡ eval_join holds or bs
      rewrite_all-eval or no_bounds = refl
      rewrite_all-eval or (bound b bs) = ground (arith, rewrite-eval b, rewrite_all-eval or bs)
