-- ===== src/Rsql/Tree/Tidy.antt =====
-- The shape of the trees that joining and rewriting return.
use servicekit_go.Base.{◌≤◌, Bool, true, false, List, [], ◌∷◌, ◌++◌, arith, All, All-append}
use servicekit_go.Rsql.Bound.{
  Bound, Bounds, nil, bound_and, bound_or, bound_comparison, no_bounds, bound, to_list, of_list,
}
use servicekit_go.Rsql.Schema.Spec.{count_bounds}
use servicekit_go.Rsql.Tree.{
  operand, flatten, connect, combine, all_of, any_of, rewrite, rewrite_all,
}

-- A node that may stand in a connective: in a disjunction if `or`, else in a conjunction.
abbrev pub MayStand : Bool → Bound → Type 0
MayStand or nil = ⊥
MayStand false (bound_and bs) = ⊥
MayStand true (bound_or bs) = ⊥
MayStand or _ = Unit

-- No node is nil, each connective joins two operands or more, and none joins one of its own kind.
abbrev mutual
  pub IsTidy : Bound → Type 0
  IsTidy nil = ⊥
  IsTidy (bound_and bs) = (2 ≤ count_bounds bs) × AreTidy false bs
  IsTidy (bound_or bs) = (2 ≤ count_bounds bs) × AreTidy true bs
  IsTidy (bound_comparison c) = Unit

  pub AreTidy : Bool → Bounds → Type 0
  AreTidy or no_bounds = Unit
  AreTidy or (bound b bs) = MayStand or b × IsTidy b × AreTidy or bs

-- The same, or no filter at all.
abbrev pub IsTidyOrNil : Bound → Type 0
IsTidyOrNil nil = Unit
IsTidyOrNil (bound_and bs) = IsTidy (bound_and bs)
IsTidyOrNil (bound_or bs) = IsTidy (bound_or bs)
IsTidyOrNil (bound_comparison c) = Unit

abbrev Fits : Bool → Bound → Type 0
Fits or b = MayStand or b × IsTidy b

to_list-Fits : (or : Bool) (bs : Bounds) → AreTidy or bs → All (Fits or) (to_list bs)
unfolding to_list
to_list-Fits or no_bounds h = tt
to_list-Fits or (bound b bs) h = ((h.0, h.1), to_list-Fits or bs h.2)

of_list-AreTidy : (or : Bool) (bs : List Bound) → All (Fits or) bs → AreTidy or (of_list bs)
unfolding of_list
of_list-AreTidy or [] h = tt
of_list-AreTidy or (b ∷ bs) h = (h.0.0, h.0.1, of_list-AreTidy or bs h.1)

operand-Fits : (or : Bool) (b : Bound) → IsTidyOrNil b → All (Fits or) (operand or b)
unfolding operand
operand-Fits or nil h = tt
operand-Fits false (bound_and bs) h = to_list-Fits false bs h.1
operand-Fits true (bound_and bs) h = ((tt, h), tt)
operand-Fits false (bound_or bs) h = ((tt, h), tt)
operand-Fits true (bound_or bs) h = to_list-Fits true bs h.1
operand-Fits false (bound_comparison c) h = ((tt, tt), tt)
operand-Fits true (bound_comparison c) h = ((tt, tt), tt)

flatten-Fits :
    (or : Bool) (flat ns : List Bound)
    → All (Fits or) flat
    → All IsTidyOrNil ns
    → All (Fits or) (flatten or flat ns)
unfolding flatten
flatten-Fits or flat [] g h = g
flatten-Fits or flat (n ∷ ns) g h =
    flatten-Fits or (flat ++ operand or n) ns
      (All-append (Fits or) flat (operand or n) g (operand-Fits or n h.0)) h.1

IsTidy-IsTidyOrNil : (b : Bound) → IsTidy b → IsTidyOrNil b
IsTidy-IsTidyOrNil nil h = tt
IsTidy-IsTidyOrNil (bound_and bs) h = h
IsTidy-IsTidyOrNil (bound_or bs) h = h
IsTidy-IsTidyOrNil (bound_comparison c) h = tt

connect-IsTidyOrNil : (or : Bool) (bs : List Bound) → All (Fits or) bs → IsTidyOrNil (connect or bs)
unfolding connect of_list
connect-IsTidyOrNil or [] h = tt
connect-IsTidyOrNil or (b ∷ []) h = IsTidy-IsTidyOrNil b h.0.1
connect-IsTidyOrNil false (b ∷ c ∷ bs) h = (omega arith, of_list-AreTidy false (b ∷ c ∷ bs) h)
connect-IsTidyOrNil true (b ∷ c ∷ bs) h = (omega arith, of_list-AreTidy true (b ∷ c ∷ bs) h)

-- Joining tidy filters, some of them absent, gives a tidy filter or none: no adapter receives a
-- connective with one arm, an absent operand, or a connective under one of its own kind.
pub combine-IsTidyOrNil :
    (nodes : List Bound) (or : Bool) → All IsTidyOrNil nodes → IsTidyOrNil (combine nodes or)
unfolding combine
combine-IsTidyOrNil nodes or h =
    connect-IsTidyOrNil or (flatten or [] nodes) (flatten-Fits or [] nodes tt h)

module _ (fn : Bound → Bound) (keeps : (b : Bound) → IsTidyOrNil b → IsTidyOrNil (fn b)) where
  mutual
    unfolding rewrite all_of any_of

    rewrite-tidy : (b : Bound) → IsTidyOrNil (rewrite fn b)
    rewrite-tidy nil = tt
    rewrite-tidy (bound_and bs) =
        keeps _ (combine-IsTidyOrNil (rewrite_all fn bs) false (rewrite_all-tidy bs))
    rewrite-tidy (bound_or bs) =
        keeps _ (combine-IsTidyOrNil (rewrite_all fn bs) true (rewrite_all-tidy bs))
    rewrite-tidy (bound_comparison c) = keeps (bound_comparison c) tt

    rewrite_all-tidy : (bs : Bounds) → All IsTidyOrNil (rewrite_all fn bs)
    rewrite_all-tidy no_bounds = tt
    rewrite_all-tidy (bound b bs) = (rewrite-tidy b, rewrite_all-tidy bs)

-- Rewriting any filter at all, with a function that takes each tidy filter and nil to a tidy
-- filter or nil, gives a tidy filter or nil: no node is nil, each connective joins two operands
-- or more, and none joins one of its own kind. The function is called with nil too, where all
-- operands of a connective have been dropped.
pub rewrite-IsTidyOrNil :
    (fn : Bound → Bound) (b : Bound)
    → ((c : Bound) → IsTidyOrNil c → IsTidyOrNil (fn c))
    → IsTidyOrNil (rewrite fn b)
rewrite-IsTidyOrNil fn b keeps = rewrite-tidy fn keeps b
