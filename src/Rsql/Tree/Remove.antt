-- ===== src/Rsql/Tree/Remove.antt =====
-- Removing comparisons from a filter by `Rewrite`.
use servicekit_go.Base.{
  Bool, true, false, List, [], ◌∷◌, ◌++◌, Option, none, if◌then◌else◌, ◌≡◌, refl, arith, All,
  All-append, sym, ◌∙◌, Bool-cases, inl, inr,
}
use servicekit_go.Rsql.Bound.{
  BoundComparison, Bound, Bounds, nil, bound_and, bound_or, bound_comparison, no_bounds, bound,
  to_list, of_list,
}
use servicekit_go.Rsql.Tree.Eval.{eval, eval_join, rewrite-eval}
use servicekit_go.Rsql.Tree.{
  operand, flatten, connect, combine, all_of, any_of, rewrite, rewrite_all,
}

-- Every comparison of the filter has the property.
module _ (P : BoundComparison → Type 0) where
  abbrev mutual
    pub Leaves : Bound → Type 0
    Leaves nil = Unit
    Leaves (bound_and bs) = LeavesAll bs
    Leaves (bound_or bs) = LeavesAll bs
    Leaves (bound_comparison c) = P c

    pub LeavesAll : Bounds → Type 0
    LeavesAll no_bounds = Unit
    LeavesAll (bound b bs) = Leaves b × LeavesAll bs

module _ (P : BoundComparison → Type 0) where
  to_list-Leaves : (bs : Bounds) → LeavesAll P bs → All (Leaves P) (to_list bs)
  unfolding to_list
  to_list-Leaves no_bounds h = tt
  to_list-Leaves (bound b bs) h = (h.0, to_list-Leaves bs h.1)

  of_list-Leaves : (bs : List Bound) → All (Leaves P) bs → LeavesAll P (of_list bs)
  unfolding of_list
  of_list-Leaves [] h = tt
  of_list-Leaves (b ∷ bs) h = (h.0, of_list-Leaves bs h.1)

  operand-Leaves : (or : Bool) (b : Bound) → Leaves P b → All (Leaves P) (operand or b)
  unfolding operand
  operand-Leaves or nil h = tt
  operand-Leaves false (bound_and bs) h = to_list-Leaves bs h
  operand-Leaves true (bound_and bs) h = (h, tt)
  operand-Leaves false (bound_or bs) h = (h, tt)
  operand-Leaves true (bound_or bs) h = to_list-Leaves bs h
  operand-Leaves or (bound_comparison c) h = (h, tt)

  flatten-Leaves :
      (or : Bool) (flat ns : List Bound)
      → All (Leaves P) flat
      → All (Leaves P) ns
      → All (Leaves P) (flatten or flat ns)
  unfolding flatten
  flatten-Leaves or flat [] g h = g
  flatten-Leaves or flat (n ∷ ns) g h =
      flatten-Leaves or (flat ++ operand or n) ns
        (All-append (Leaves P) flat (operand or n) g (operand-Leaves or n h.0)) h.1

  connect-Leaves : (or : Bool) (bs : List Bound) → All (Leaves P) bs → Leaves P (connect or bs)
  unfolding connect
  connect-Leaves or [] h = tt
  connect-Leaves or (b ∷ []) h = h.0
  connect-Leaves false (b ∷ c ∷ bs) h = of_list-Leaves (b ∷ c ∷ bs) h
  connect-Leaves true (b ∷ c ∷ bs) h = of_list-Leaves (b ∷ c ∷ bs) h

  -- Joining brings no comparison in.
  combine-Leaves :
      (nodes : List Bound) (or : Bool) → All (Leaves P) nodes → Leaves P (combine nodes or)
  unfolding combine
  combine-Leaves nodes or h =
      connect-Leaves or (flatten or [] nodes) (flatten-Leaves or [] nodes tt h)

-- The rewriting function that drops the comparisons that pass a test.
abbrev pub removing : (BoundComparison → Bool) → Bound → Bound
removing test (bound_comparison c) = if test c then nil else bound_comparison c
removing test b = b

module _ (test : BoundComparison → Bool) where
  removing-Leaves :
      (b : Bound) → Leaves (λ c. test c ≡ false) b → Leaves (λ c. test c ≡ false) (removing test b)
  removing-Leaves nil h = tt
  removing-Leaves (bound_and bs) h = h
  removing-Leaves (bound_or bs) h = h
  removing-Leaves (bound_comparison c) h = rw h h

  removed-Leaves :
      (c : BoundComparison) → Leaves (λ c. test c ≡ false) (removing test (bound_comparison c))
  removed-Leaves c = elim (Bool-cases (test c)) [ inl e ↦ rw e tt | inr e ↦ rw e e ]

  mutual
    unfolding rewrite all_of any_of

    -- None of the comparisons that pass the test is left.
    rewrite-removing-Leaves : (b : Bound) → Leaves (λ c. test c ≡ false) (rewrite (removing test) b)
    rewrite-removing-Leaves nil = tt
    rewrite-removing-Leaves (bound_and bs) =
        removing-Leaves _
          (combine-Leaves _ (rewrite_all (removing test) bs) false (rewrite_all-removing-Leaves bs))
    rewrite-removing-Leaves (bound_or bs) =
        removing-Leaves _
          (combine-Leaves _ (rewrite_all (removing test) bs) true (rewrite_all-removing-Leaves bs))
    rewrite-removing-Leaves (bound_comparison c) = removed-Leaves c

    rewrite_all-removing-Leaves :
        (bs : Bounds) → All (Leaves (λ c. test c ≡ false)) (rewrite_all (removing test) bs)
    rewrite_all-removing-Leaves no_bounds = tt
    rewrite_all-removing-Leaves (bound b bs) =
        (rewrite-removing-Leaves b, rewrite_all-removing-Leaves bs)

  -- A comparison that passes the test counts for nothing.
  abbrev pub without : (BoundComparison → Option Bool) → BoundComparison → Option Bool
  without holds c = if test c then none else holds c

  module _ (holds : BoundComparison → Option Bool) where
    mutual
      eval-without :
          (b : Bound) → Leaves (λ c. test c ≡ false) b → eval (without holds) b ≡ eval holds b
      eval-without nil h = refl
      eval-without (bound_and bs) h = eval_join-without false bs h
      eval-without (bound_or bs) h = eval_join-without true bs h
      eval-without (bound_comparison c) h = rw h

      eval_join-without :
          (or : Bool) (bs : Bounds)
          → LeavesAll (λ c. test c ≡ false) bs
          → eval_join (without holds) or bs ≡ eval_join holds or bs
      eval_join-without or no_bounds h = refl
      eval_join-without or (bound b bs) h = rw (eval-without b h.0, eval_join-without or bs h.1)

    removing-eval : (b : Bound) → eval (without holds) (removing test b) ≡ eval (without holds) b
    removing-eval nil = refl
    removing-eval (bound_and bs) = refl
    removing-eval (bound_or bs) = refl
    removing-eval (bound_comparison c) = ground arith

    -- A filter from which the comparisons that pass a test have been removed means what it meant,
    -- except that those comparisons count for nothing.
    pub rewrite-removing :
        (b : Bound) → eval holds (rewrite (removing test) b) ≡ eval (without holds) b
    rewrite-removing b =
        sym (eval-without (rewrite (removing test) b) (rewrite-removing-Leaves b))
        ∙ rewrite-eval (without holds) (removing test) removing-eval b
