-- ===== src/Rsql/Print/Key.antt =====
-- The canonical form as a key: filters that share it mean the same.
use mathlib.Core.List.{Perm, Permᴰ}
use mathlib.Core.List.Perm
use mathlib.Core.Logic.{∥∥₁_elim}
use servicekit_go.Base.{
  ℕ, map, ◌↔◌, Bool, true, false, List, Option, ◌≡◌, refl, sym, ap, ◌∙◌, arith,
}
use servicekit_go.Base.Sort.{sort_by, sort_by-Perm}
use servicekit_go.Rsql.Print.{print}
use servicekit_go.Rsql.Schema.{bind}
use servicekit_go.Rsql.Schema.Bounded.{unlimited}
use servicekit_go.Rsql.Bound.{
  Schema, Value, BoundComparison, Bound, Bounds, nil, bound_and, bound_or, bound_comparison,
  no_bounds, bound, of_list,
}
use servicekit_go.Rsql.Canonical.{is_special, canonical}
use servicekit_go.Rsql.Canonical.Order.{Reorders, Reorders-canonical}
use servicekit_go.Rsql.Print.Normal.{IsWord}
use servicekit_go.Rsql.Print.Rebound.{EnumsAreStrings, AreRestored, bind-canonical}
use servicekit_go.Rsql.Print.Sorted.{sorted, sorted-Reorders, pairs, by_text}
use servicekit_go.Rsql.Result.{ok}
use servicekit_go.Rsql.Schema.Spec.{IsBound}
use servicekit_go.Rsql.Std.{Std}
use servicekit_go.Rsql.Tree.Eval.{eval, eval_join, eval_list, join_with, eval_join-of_list}
use servicekit_go.Rsql.Tree.Remove.{Leaves}

ok_inj : {b c : Bound} → ok b ≡ ok c → b ≡ c
ok_inj e = cc

join_with_swap :
    (or : Bool) (x y z : Option Bool)
    → join_with or x (join_with or y z) ≡ join_with or y (join_with or x z)
join_with_swap or x y z = ground arith

-- The order of a comparison's values does not matter to a meaning of comparisons.
abbrev pub IgnoresOrder : (BoundComparison → Option Bool) → Type 0
IgnoresOrder holds =
    (c : BoundComparison) (vs : List Value)
    → Perm c.values vs
    → holds (record c { values = vs }) ≡ holds c

module _ (holds : BoundComparison → Option Bool) where
  eval_list-permᴰ :
      (or : Bool) {xs ys : List Bound} → Permᴰ xs ys → eval_list holds or xs ≡ eval_list holds or ys
  eval_list-permᴰ or Permᴰ.nil = refl
  eval_list-permᴰ or (Permᴰ.cons e p) = cc (e, eval_list-permᴰ or p)
  eval_list-permᴰ or (Permᴰ.swap {a} {b} {l = l} e f) =
      join_with_swap or (eval holds a) (eval holds b) (eval_list holds or l) ∙ cc (e, f)
  eval_list-permᴰ or (Permᴰ.trans p q) = eval_list-permᴰ or p ∙ eval_list-permᴰ or q

  eval_list-perm :
      (or : Bool) {xs ys : List Bound} → Perm xs ys → eval_list holds or xs ≡ eval_list holds or ys
  eval_list-perm or p = ∥∥₁_elim p (hlevel) (eval_list-permᴰ or)

  module _ (std : Std) (ignores : IgnoresOrder holds) where
    eval_list-sorted :
        (or : Bool) (bs : Bounds)
        → eval_join holds or (of_list (map (λ p. p.1) (sort_by (λ p. print p.0) (pairs std bs))))
          ≡ eval_list holds or (map (λ p. p.1) (pairs std bs))
    eval_list-sorted or bs =
        eval_join-of_list holds or (map (λ p. p.1) (sort_by (λ p. print p.0) (pairs std bs)))
        ∙ sym
            (eval_list-perm or (Perm.map (λ p. p.1) (sort_by-Perm (λ p. print p.0) (pairs std bs))))

    mutual
      -- A filter means the same in the order of its canonical form.
      pub eval-sorted : (b : Bound) → eval holds (sorted std b) ≡ eval holds b
      eval-sorted nil = refl
      eval-sorted (bound_and bs) = eval_list-sorted false bs ∙ eval_list-pairs false bs
      eval-sorted (bound_or bs) = eval_list-sorted true bs ∙ eval_list-pairs true bs
      eval-sorted (bound_comparison c) =
          ignores c (sort_by (by_text std) c.values) (sort_by-Perm (by_text std) c.values)

      eval_list-pairs :
          (or : Bool) (bs : Bounds)
          → eval_list holds or (map (λ p. p.1) (pairs std bs)) ≡ eval_join holds or bs
      eval_list-pairs or no_bounds = refl
      eval_list-pairs or (bound b bs) = cc (eval-sorted b, eval_list-pairs or bs)

module _ (std : Std) (schema : Schema) where
  -- What a filter has to meet so that its canonical form is read back.
  pub record IsKeyed (b : Bound) : Type 0 where
    pub is_bound : IsBound schema b
    pub words : Leaves (IsWord std) b
    pub restored : Leaves (AreRestored std schema) b

  module _ (b c : Bound) (plain_time : (t : ℕ) → is_special (std.format_time t) ≡ false)
      (strings : EnumsAreStrings std schema) (kb : IsKeyed b) (kc : IsKeyed c) where
    canonical-sorted : canonical std b ≡ canonical std c → sorted std b ≡ sorted std c
    canonical-sorted e =
        let (read_b, _) =
          bind-canonical std schema b plain_time strings kb.is_bound kb.words kb.restored in
        let (read_c, _) =
          bind-canonical std schema c plain_time strings kc.is_bound kc.words kc.restored in
        ok_inj (sym read_b ∙ ap (bind std schema unlimited) e ∙ read_c)

    -- Two bound filters have one canonical form, and so one cache key, exactly if they are the same
    -- filter once operands and listed values are put in order, which changes nothing but their
    -- order. The conditions are those under which the form is read back: selectors and unquoted
    -- values are bare words, a written time needs no quotes, only fields of strings have an
    -- enumeration, and floats and times are read back from their texts.
    pub canonical_iff :
        ((canonical std b ≡ canonical std c) ↔ (sorted std b ≡ sorted std c))
        × Reorders b (sorted std b)
        × Reorders c (sorted std c)
    canonical_iff =
        let order_b = sorted-Reorders std b in
        let order_c = sorted-Reorders std c in
        (
          (
            canonical-sorted,
            λ e.
                Reorders-canonical std order_b
                ∙ ap (canonical std) e
                ∙ sym (Reorders-canonical std order_c),
          ),
          order_b,
          order_c,
        )

    -- Filters with one cache key mean the same on every document, under the conditions of
    -- `canonical_iff`, if the order of listed values does not matter to what a comparison means.
    pub canonical-eval :
        (holds : BoundComparison → Option Bool)
        → IgnoresOrder holds
        → canonical std b ≡ canonical std c
        → eval holds b ≡ eval holds c
    canonical-eval holds ignores e =
        sym (eval-sorted holds std ignores b)
        ∙ ap (eval holds) (canonical-sorted e)
        ∙ eval-sorted holds std ignores c
