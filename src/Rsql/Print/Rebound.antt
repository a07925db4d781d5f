-- ===== src/Rsql/Print/Rebound.antt =====
-- Binding the canonical form of a filter.
use servicekit_go.Base.{
  ◌⊎◌, ℕ, ◌+◌, ◌-◌, false, List, [], ◌∷◌, ◌++◌, map, Text, length-map, some, inl, ◌≡◌, refl, sym,
  ap, ◌∙◌, All, append_assoc, append-nil,
}
use servicekit_go.Base.Sort.{sort_by, map-sort_by_of, sort_by-All, length-sort_by}
use servicekit_go.Rsql.Ast.{Node, length_nodes}
use servicekit_go.Rsql.Bound.{
  Kind, Field, Value, Schema, BoundComparison, Bound, Bounds, nil, bound_and, bound_or,
  bound_comparison, no_bounds, bound, of_list,
}
use servicekit_go.Rsql.Canonical.{is_special, quote, show_value, canonical}
use servicekit_go.Rsql.Canonical.Order.{Reorders}
use servicekit_go.Rsql.Coerce.{coerce}
use servicekit_go.Rsql.Parse.{nodes_of}
use servicekit_go.Rsql.Print.{print}
use servicekit_go.Rsql.Print.Normal.{normal, IsWord, parse-canonical}
use servicekit_go.Rsql.Print.Sorted.{by_text, sorted, pairs, sorted_nodes, sorted-Reorders}
use servicekit_go.Rsql.Print.Reread.{Rereads, Restores, bound-Rereads}
use servicekit_go.Rsql.Result.{ok}
use servicekit_go.Rsql.Schema.{
  Binder, start, coerce_all, count_or, count_comparison, bind_comparison, walk, walk_all,
  check_counts, bind_node, bind,
}
use servicekit_go.Rsql.Schema.Bounded.{unlimited, exceeds-zero}
use servicekit_go.Rsql.Schema.Spec.{IsBound, AreBound}
use servicekit_go.Rsql.Std.{Std}
use servicekit_go.Rsql.Tree.Remove.{Leaves, LeavesAll}

module _ (std : Std) where
  module _ (schema : Schema) where
    coerce_all-show :
        (sel : Text) (f : Field) (before vs : List Value)
        → All (λ v. coerce std (show_value std v) f ≡ inl v) vs
        → coerce_all std sel f before (map (show_value std) vs) ≡ ok (before ++ vs)
    unfolding coerce_all
    coerce_all-show sel f before [] h = ap ok (sym (append-nil before))
    coerce_all-show sel f before (v ∷ vs) h =
        rw h.0 (
          coerce_all-show sel f (before ++ v ∷ []) vs h.1 ∙ ap ok (append_assoc before (v ∷ []) vs))

    bind_comparison-show :
        (c : BoundComparison) (b : Binder)
        → Rereads std schema c
        → bind_comparison std schema c.selector c.op
            (sort_by quote (map (show_value std) c.values))
            b
          ≡ ok (sorted std (bound_comparison c), b)
    unfolding bind_comparison
    bind_comparison-show c b h =
        let vs = sort_by (by_text std) c.values in
        let read = coerce_all-show c.selector c.field [] vs (
          sort_by-All (by_text std) (λ v. coerce std (show_value std v) c.field ≡ inl v) c.values
            h.reads) in
        rw
          (
            sym (map-sort_by_of (show_value std) quote c.values),
            h.is_declared,
            h.field_is,
            h.allowed,
            length-map (show_value std) vs,
            length-sort_by (by_text std) c.values,
            h.arity,
            read,
          )
          refl

    -- Of the fields only those of strings have an enumeration.
    abbrev pub EnumsAreStrings : Type 0
    EnumsAreStrings =
        (sel : Text) (f : Field) → schema sel ≡ some f → (f.kind ≡ Kind.string) ⊎ (f.enum ≡ [])

    abbrev pub AreRestored : BoundComparison → Type 0
    AreRestored c = All (Restores std) c.values

    abbrev Walks : Node × Bound → Type 0
    Walks p =
        (d : ℕ) (s : Binder) → (s' : Binder) × (walk std schema unlimited p.0 d s ≡ ok (p.1, s'))

    walk_all-of_list :
        (ps : List (Node × Bound)) (d : ℕ) (s : Binder)
        → All Walks ps
        → (s' : Binder) × (walk_all std schema unlimited (nodes_of (map (λ p. p.0) ps)) d s
            ≡ ok (of_list (map (λ p. p.1) ps), s'))
    unfolding walk nodes_of of_list
    walk_all-of_list [] d s h = (s, refl)
    walk_all-of_list (p ∷ ps) d s h =
        let (s₁, e) = h.0 (d + 1) s in
        let (s₂, f) = walk_all-of_list ps d s₁ h.1 in (s₂, rw (e, f) refl)

    mutual
      unfolding walk count_or count_comparison

      walk-normal :
          (b : Bound)
          → EnumsAreStrings
          → IsBound schema b
          → Leaves AreRestored b
          → Walks (normal std b, sorted std b)
      walk-normal nil strings h r d s = absurd h
      walk-normal (bound_and bs) strings h r d s =
          let ps = sort_by (λ p. print p.0) (pairs std bs) in
          let (s', e) =
            walk_all-of_list ps d s
              (sort_by-All (λ p. print p.0) Walks (pairs std bs) (walk-pairs bs strings h.1 r)) in
          (s', rw (exceeds-zero d, sorted_nodes std bs, e) refl)
      walk-normal (bound_or bs) strings h r d s =
          let ps = sort_by (λ p. print p.0) (pairs std bs) in
          let s₀ = record s {
            disjunctions = s.disjunctions + length_nodes (nodes_of (map (λ p. p.0) ps)) - 1;
          } in
          let (s', e) =
            walk_all-of_list ps d s₀
              (sort_by-All (λ p. print p.0) Walks (pairs std bs) (walk-pairs bs strings h.1 r)) in
          (s', rw (exceeds-zero d, sorted_nodes std bs, e) refl)
      walk-normal (bound_comparison c) strings h r d s =
          let s₀ = record s { comparisons = s.comparisons + 1 } in
          (
            s₀,
            rw (exceeds-zero d, bind_comparison-show c s₀ (bound-Rereads std schema c strings h r))
                refl,
          )

      walk-pairs :
          (bs : Bounds)
          → EnumsAreStrings
          → AreBound schema bs
          → LeavesAll AreRestored bs
          → All Walks (pairs std bs)
      walk-pairs no_bounds strings h r = tt
      walk-pairs (bound b bs) strings h r =
          (walk-normal b strings h.0 r.0, walk-pairs bs strings h.1 r.1)

    -- Without limits, binding the canonical form of a bound filter gives that filter again with its
    -- operands and values in the order of their texts. The selectors and unquoted values have to be
    -- bare words, a written time needs no quotes, only fields of strings have an enumeration, and the
    -- formats of the standard library read the filter's floats and times back from their texts.
    pub bind-canonical :
        (b : Bound)
        → ((t : ℕ) → is_special (std.format_time t) ≡ false)
        → EnumsAreStrings
        → IsBound schema b
        → Leaves (IsWord std) b
        → Leaves AreRestored b
        → (bind std schema unlimited (canonical std b) ≡ ok (sorted std b))
          × Reorders b (sorted std b)
    unfolding bind bind_node check_counts
    bind-canonical b plain_time strings h w r =
        let (s, e) = walk-normal b strings h r 1 start in
        (
          rw
              (
                parse-canonical std schema b plain_time h w,
                e,
                exceeds-zero s.comparisons,
                exceeds-zero s.disjunctions,
              )
              refl,
          sorted-Reorders std b,
        )
