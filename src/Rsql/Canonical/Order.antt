-- ===== src/Rsql/Canonical/Order.antt =====
-- The canonical form forgets the order of operands and of values.
use mathlib.Core.List.{Perm}
use mathlib.Core.List.Perm
use servicekit_go.Base.{List, [], ◌∷◌, map, Text, ◌≡◌, refl, ap, ◌∙◌, join, codes, ◌++◌}
use servicekit_go.Base.Sort.{sort-perm}
use servicekit_go.Rsql.Bound.{
  Value, BoundComparison, Bound, Bounds, bound_and, bound_or, bound_comparison, no_bounds, bound,
  to_list,
}
use servicekit_go.Rsql.Canonical.{
  write_group, literal, write_values, write_comparison, canonical, canonical_all,
}
use servicekit_go.Rsql.Std.{Std}

module _ (std : Std) where
  canonical_all-map : (bs : Bounds) → canonical_all std bs ≡ map (canonical std) (to_list bs)
  unfolding canonical to_list
  canonical_all-map no_bounds = refl
  canonical_all-map (bound b bs) = ap (λ t. canonical std b ∷ t) (canonical_all-map bs)

  write_group-perm :
      (sep : Text) (bs cs : Bounds)
      → Perm (to_list bs) (to_list cs)
      → write_group sep (canonical_all std bs) ≡ write_group sep (canonical_all std cs)
  unfolding write_group
  write_group-perm sep bs cs p =
      rw (canonical_all-map bs, canonical_all-map cs, sort-perm (Perm.map (canonical std) p))

-- Two filters that differ in the order of operands and of listed values only, at any depth.
mutual
  pub data Reorders : Bound → Bound → Type 0 where
    same : {b c : Bound} → b ≡ c → Reorders b c
    chain : {b c d : Bound} → Reorders b c → Reorders c d → Reorders b d
    and_perm :
        {bs cs : Bounds} → Perm (to_list bs) (to_list cs) → Reorders (bound_and bs) (bound_and cs)
    or_perm :
        {bs cs : Bounds} → Perm (to_list bs) (to_list cs) → Reorders (bound_or bs) (bound_or cs)
    and_all : {bs cs : Bounds} → ReordersAll bs cs → Reorders (bound_and bs) (bound_and cs)
    or_all : {bs cs : Bounds} → ReordersAll bs cs → Reorders (bound_or bs) (bound_or cs)
    values_perm :
        {c d : BoundComparison} {v w x y : Value} {vs ws : List Value}
        → c.selector ≡ d.selector
        → c.op ≡ d.op
        → c.values ≡ v ∷ w ∷ vs
        → d.values ≡ x ∷ y ∷ ws
        → Perm c.values d.values
        → Reorders (bound_comparison c) (bound_comparison d)

  pub data ReordersAll : Bounds → Bounds → Type 0 where
    done : ReordersAll no_bounds no_bounds
    next :
        {b c : Bound} {bs cs : Bounds}
        → Reorders b c
        → ReordersAll bs cs
        → ReordersAll (bound b bs) (bound c cs)

module _ (std : Std) where
  write_values-perm :
      (vs ws : List Value) {v w x y : Value} {vs' ws' : List Value}
      → vs ≡ v ∷ w ∷ vs'
      → ws ≡ x ∷ y ∷ ws'
      → Perm vs ws
      → write_values std vs ≡ write_values std ws
  unfolding write_values
  write_values-perm [] ws e f p = cc
  write_values-perm (v ∷ []) ws e f p = cc
  write_values-perm (v ∷ w ∷ vs) [] e f p = cc
  write_values-perm (v ∷ w ∷ vs) (x ∷ []) e f p = cc
  write_values-perm (v ∷ w ∷ vs) (x ∷ y ∷ ws) e f p =
      ap (λ t. b'(' ∷ (join t (codes ",") ++ (b')' ∷ []))) (sort-perm (Perm.map (literal std) p))

  mutual
    unfolding canonical write_comparison

    pub Reorders-canonical : {b c : Bound} → Reorders b c → canonical std b ≡ canonical std c
    Reorders-canonical (same e) = ap (canonical std) e
    Reorders-canonical (chain r s) = Reorders-canonical r ∙ Reorders-canonical s
    Reorders-canonical (and_perm {bs} {cs} p) = write_group-perm std _ bs cs p
    Reorders-canonical (or_perm {bs} {cs} p) = write_group-perm std _ bs cs p
    Reorders-canonical (and_all r) = ap (write_group _) (ReordersAll-canonical r)
    Reorders-canonical (or_all r) = ap (write_group _) (ReordersAll-canonical r)
    Reorders-canonical (values_perm {c} {d} sel op e f p) =
        rw (sel, op, write_values-perm c.values d.values e f p)

    ReordersAll-canonical :
        {bs cs : Bounds} → ReordersAll bs cs → canonical_all std bs ≡ canonical_all std cs
    ReordersAll-canonical done = refl
    ReordersAll-canonical (next r rs) = cc (Reorders-canonical r, ReordersAll-canonical rs)

  -- Filters that differ in the order of operands or of listed values only, at any depth, have one
  -- canonical form, and so one cache key.
  pub canonical-Reorders : (b c : Bound) → Reorders b c → canonical std b ≡ canonical std c
  canonical-Reorders b c r = Reorders-canonical r
