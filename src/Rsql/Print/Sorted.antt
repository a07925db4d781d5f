-- ===== src/Rsql/Print/Sorted.antt =====
-- A filter in the order of its canonical form.
use mathlib.Core.List.{Perm}
use mathlib.Core.List.Perm
use servicekit_go.Base.{ℕ, suc, List, [], ◌∷◌, map, Text, length, ◌≡◌, refl, sym, ap, ◌∙◌, arith}
use servicekit_go.Base.Sort.{sort_by, insert_by, map-sort_by_of, length-sort_by, sort_by-Perm}
use servicekit_go.Rsql.Ast.{Node}
use servicekit_go.Rsql.Bound.{
  Value, BoundComparison, Bound, Bounds, nil, bound_and, bound_or, bound_comparison, no_bounds,
  bound, to_list, of_list, to_list-of_list,
}
use servicekit_go.Rsql.Canonical.{quote, show_value}
use servicekit_go.Rsql.Canonical.Order.{
  Reorders, ReordersAll, same, chain, and_perm, or_perm, and_all, or_all, values_perm, done, next,
}
use servicekit_go.Rsql.Print.{print}
use servicekit_go.Rsql.Print.Normal.{normal, normal_all}
use servicekit_go.Rsql.Std.{Std}

module _ {ℓ} {A : Type ℓ} where
  two_of :
      (xs : List A) (n : ℕ)
      → length xs ≡ suc (suc n)
      → (x : A) × (y : A) × (ws : List A) × (xs ≡ x ∷ y ∷ ws)
  two_of [] n e = absurd (omega arith)
  two_of (x ∷ []) n e = absurd (omega arith)
  two_of (x ∷ y ∷ ws) n e = (x, y, ws, refl)

module _ (std : Std) where
  abbrev pub by_text : Value → Text
  by_text v = quote (show_value std v)

  -- The filter with the operands and the values in the order of their texts, and the operands with
  -- their syntax trees.
  abbrev mutual
    pub sorted : Bound → Bound
    sorted nil = nil
    sorted (bound_and bs) =
        bound_and (of_list (map (λ p. p.1) (sort_by (λ p. print p.0) (pairs bs))))
    sorted (bound_or bs) = bound_or (of_list (map (λ p. p.1) (sort_by (λ p. print p.0) (pairs bs))))
    sorted (bound_comparison c) = bound_comparison (record c { values = sort_by by_text c.values })

    pub pairs : Bounds → List (Node × Bound)
    pairs no_bounds = []
    pairs (bound b bs) = (normal std b, sorted b) ∷ pairs bs

  pairs-normal : (bs : Bounds) → map (λ p. p.0) (pairs bs) ≡ normal_all std bs
  pairs-normal no_bounds = refl
  pairs-normal (bound b bs) = ap (λ t. normal std b ∷ t) (pairs-normal bs)

  pub sorted_nodes :
      (bs : Bounds)
      → sort_by print (normal_all std bs) ≡ map (λ p. p.0) (sort_by (λ p. print p.0) (pairs bs))
  sorted_nodes bs =
      ap (sort_by print) (sym (pairs-normal bs)) ∙ sym (map-sort_by_of (λ p. p.0) print (pairs bs))

  values-Reorders :
      (c : BoundComparison) (vs : List Value)
      → c.values ≡ vs
      → Reorders (bound_comparison c) (bound_comparison (record c { values = sort_by by_text vs }))
  unfolding sort_by insert_by
  values-Reorders c [] e = same (ap (λ t. bound_comparison (record c { values = t })) e)
  values-Reorders c (v ∷ []) e = same (ap (λ t. bound_comparison (record c { values = t })) e)
  values-Reorders c (v ∷ w ∷ vs) e =
      let (x, y, ws, f) =
        two_of (sort_by by_text (v ∷ w ∷ vs)) (length vs) (length-sort_by by_text (v ∷ w ∷ vs)) in
      values_perm refl refl e f (rw e (sort_by-Perm by_text (v ∷ w ∷ vs)))

  pairs-Perm :
      (bs : Bounds)
      → Perm
          (to_list (of_list (map (λ p. p.1) (pairs bs))))
          (to_list (of_list (map (λ p. p.1) (sort_by (λ p. print p.0) (pairs bs)))))
  pairs-Perm bs =
      rw
        (
          to_list-of_list (map (λ p. p.1) (pairs bs)),
          to_list-of_list (map (λ p. p.1) (sort_by (λ p. print p.0) (pairs bs))),
        )
        (Perm.map (λ p. p.1) (sort_by-Perm (λ p. print p.0) (pairs bs)))

  mutual
    unfolding of_list

    pub sorted-Reorders : (b : Bound) → Reorders b (sorted b)
    sorted-Reorders nil = same refl
    sorted-Reorders (bound_and bs) = chain (and_all (pairs-Reorders bs)) (and_perm (pairs-Perm bs))
    sorted-Reorders (bound_or bs) = chain (or_all (pairs-Reorders bs)) (or_perm (pairs-Perm bs))
    sorted-Reorders (bound_comparison c) = values-Reorders c c.values refl

    pairs-Reorders : (bs : Bounds) → ReordersAll bs (of_list (map (λ p. p.1) (pairs bs)))
    pairs-Reorders no_bounds = done
    pairs-Reorders (bound b bs) = next (sorted-Reorders b) (pairs-Reorders bs)
