-- ===== src/Rsql/Schema/Bounded.antt =====
-- The limits refuse exactly the filters that exceed one of them.
use servicekit_go.Base.{ℕ, ◌+◌, ◌-◌, true, false, not, Text, ◌≡◌, refl, ◌↔◌, inl, arith, subst}
use servicekit_go.Rsql.Ast.{Node, Nodes, and, or, comparison, no_nodes, node, length_nodes}
use servicekit_go.Rsql.Bound.{Schema, Limits, Bound}
use servicekit_go.Rsql.Method.{Ends-then, Ends-check}
use servicekit_go.Rsql.Parse.Total.{parse-IsParsed}
use servicekit_go.Rsql.Result.{ok, Ends, Ends-run}
use servicekit_go.Rsql.Std.{Std}
use servicekit_go.Rsql.Schema.Spec.{AtMost, IsWithin, leaves, commas, height, height_all}
use servicekit_go.Rsql.Schema.Walk.{
  walk-Ends, Succeeds, bind-eq-ok, bind-eq-ok_of, bind_comparison-height,
}
use servicekit_go.Rsql.Schema.{
  Binder, exceeds, bind_comparison, walk, walk_all, count_or, count_comparison, bind, start,
}

abbrev pub unlimited : Limits
unlimited = record { max_depth = 0; max_disjunctions = 0; max_comparisons = 0 }

exceeds-eq-false : (n m : ℕ) → exceeds n m ≡ false → AtMost n m
unfolding exceeds
exceeds-eq-false n m h = ground arith

AtMost-exceeds : (n m : ℕ) → AtMost n m → exceeds n m ≡ false
unfolding exceeds
AtMost-exceeds n m h = ground arith

check-AtMost : (n m : ℕ) → not (exceeds n m) ≡ true → AtMost n m
check-AtMost n m h = exceeds-eq-false n m (ground arith)

AtMost-check : (n m : ℕ) → AtMost n m → not (exceeds n m) ≡ true
AtMost-check n m h = rw (AtMost-exceeds n m h)

pub exceeds-zero : (n : ℕ) → exceeds n 0 ≡ false
exceeds-zero n = AtMost-exceeds n 0 (inl refl)

module _ (std : Std) (schema : Schema) (lim : Limits) where
  -- A walk within the depth limit is the walk without one, and goes no deeper than the limit.
  mutual
    unfolding walk count_or count_comparison

    walk-unlimited :
        (n : Node) (depth : ℕ) (b : Binder)
        → Ends
            (λ r.
              (walk std schema unlimited n depth b ≡ ok r)
              × AtMost (depth + height r.0 - 1) lim.max_depth)
            (walk std schema lim n depth b)
    walk-unlimited (and ns) depth b = Ends-check _ (not (exceeds depth lim.max_depth)) _ _ b λ d.
        Ends-then _ _ (walk_all std schema lim ns depth) _ b
          (walk_all-unlimited ns depth b (check-AtMost depth lim.max_depth d))
          λ bs b' g. (rw (exceeds-zero depth, g.0), ground arith)
    walk-unlimited (or ns) depth b = Ends-check _ (not (exceeds depth lim.max_depth)) _ _ b λ d.
        let b₁ = record b { disjunctions = b.disjunctions + length_nodes ns - 1 } in
        Ends-then _ _ (walk_all std schema lim ns depth) _ b₁
          (walk_all-unlimited ns depth b₁ (check-AtMost depth lim.max_depth d))
          λ bs b' g. (rw (exceeds-zero depth, g.0), ground arith)
    walk-unlimited (comparison sel op args) depth b =
        Ends-check _ (not (exceeds depth lim.max_depth)) _ _ b λ d.
          let b₁ = record b { comparisons = b.comparisons + 1 } in
          Ends-run _ (bind_comparison std schema sel op args b₁) _
            (λ r e g.
              (rw (exceeds-zero depth, e), ground (arith, check-AtMost depth lim.max_depth d)))
            (bind_comparison-height std schema sel op args b₁)

    walk_all-unlimited :
        (ns : Nodes) (depth : ℕ) (b : Binder)
        → AtMost depth lim.max_depth
        → Ends
            (λ r.
              (walk_all std schema unlimited ns depth b ≡ ok r)
              × AtMost (depth + height_all r.0) lim.max_depth)
            (walk_all std schema lim ns depth b)
    walk_all-unlimited no_nodes depth b h = (refl, ground arith)
    walk_all-unlimited (node n ns) depth b h =
        Ends-then _ _ (walk std schema lim n (depth + 1)) _ b (walk-unlimited n (depth + 1) b)
          λ b₁ s₁ g₁.
            Ends-then _ _ (walk_all std schema lim ns depth) _ s₁ (walk_all-unlimited ns depth s₁ h)
              λ bs s₂ g₂. (rw (g₁.0, g₂.0), ground arith)

  -- The other way round: a walk without a limit is a walk under one that the result meets.
  mutual
    unfolding walk count_or count_comparison

    walk-limited :
        (n : Node) (depth : ℕ) (b : Binder)
        → Ends
            (λ r.
              AtMost (depth + height r.0 - 1) lim.max_depth → walk std schema lim n depth b ≡ ok r)
            (walk std schema unlimited n depth b)
    walk-limited (and ns) depth b = Ends-check _ (not (exceeds depth 0)) _ _ b λ d.
        Ends-then _ _ (walk_all std schema unlimited ns depth) _ b (walk_all-limited ns depth b)
          λ bs b' g a. rw (AtMost-check depth lim.max_depth (ground arith), g (ground arith))
    walk-limited (or ns) depth b = Ends-check _ (not (exceeds depth 0)) _ _ b λ d.
        let b₁ = record b { disjunctions = b.disjunctions + length_nodes ns - 1 } in
        Ends-then _ _ (walk_all std schema unlimited ns depth) _ b₁ (walk_all-limited ns depth b₁)
          λ bs b' g a. rw (AtMost-check depth lim.max_depth (ground arith), g (ground arith))
    walk-limited (comparison sel op args) depth b = Ends-check _ (not (exceeds depth 0)) _ _ b λ d.
        let b₁ = record b { comparisons = b.comparisons + 1 } in
        Ends-run _ (bind_comparison std schema sel op args b₁) _
          (λ r e g a. rw (AtMost-check depth lim.max_depth (ground arith), e))
          (bind_comparison-height std schema sel op args b₁)

    walk_all-limited :
        (ns : Nodes) (depth : ℕ) (b : Binder)
        → Ends
            (λ r.
              AtMost (depth + height_all r.0) lim.max_depth
              → walk_all std schema lim ns depth b ≡ ok r)
            (walk_all std schema unlimited ns depth b)
    walk_all-limited no_nodes depth b = λ _. refl
    walk_all-limited (node n ns) depth b =
        Ends-then _ _ (walk std schema unlimited n (depth + 1)) _ b (walk-limited n (depth + 1) b)
          λ b₁ s₁ g₁.
            Ends-then _ _ (walk_all std schema unlimited ns depth) _ s₁
              (walk_all-limited ns depth s₁) λ bs s₂ g₂ a. rw (g₁ (ground arith), g₂ (ground arith))

module _ (std : Std) (schema : Schema) (lim : Limits) where
  counts :
      (lim' : Limits) (expr : Text) (b : Bound) (n : Node) (c : Binder)
      → Succeeds std schema lim' expr b n c
      → (c.comparisons ≡ leaves b) × (c.disjunctions ≡ commas b)
  counts lim' expr b n c (parsed, walked, _, _) =
      let w =
        subst (Ends _) walked
          (walk-Ends std schema lim' n 1 start (parse-IsParsed std expr n parsed)) in
      (omega (arith, w.1), omega (arith, w.2))

  bind-unlimited :
      (expr : Text) (b : Bound)
      → bind std schema lim expr ≡ ok b
      → (bind std schema unlimited expr ≡ ok b) × IsWithin lim b
  bind-unlimited expr b h =
      let (n, c, s) = bind-eq-ok std schema lim expr b h in
      let (walked, depth) = subst (Ends _) s.1 (walk-unlimited std schema lim n 1 start) in
      let (cs, ds) = counts lim expr b n c s in
      (
        bind-eq-ok_of std schema unlimited expr b n c (s.0, walked, exceeds-zero _, exceeds-zero _),
        record {
          depth = ground arith;
          disjunctions = rw ds at (exceeds-eq-false _ _ s.3);
          comparisons = rw cs at (exceeds-eq-false _ _ s.2);
        },
      )

  bind-limited :
      (expr : Text) (b : Bound)
      → bind std schema unlimited expr ≡ ok b
      → IsWithin lim b
      → bind std schema lim expr ≡ ok b
  bind-limited expr b h w =
      let (n, c, s) = bind-eq-ok std schema unlimited expr b h in
      let (cs, ds) = counts unlimited expr b n c s in
      let walked = subst (Ends _) s.1 (walk-limited std schema lim n 1 start) in
      bind-eq-ok_of std schema lim expr b n c (
        s.0,
        walked (ground arith),
        AtMost-exceeds _ _ (rw cs w.comparisons),
        AtMost-exceeds _ _ (rw ds w.disjunctions),
      )

  -- A filter is accepted under limits exactly when it is accepted without any, with the same result,
  -- and the result's depth, disjunctions and comparisons are each within their limit; a limit of zero
  -- is none.
  pub bind_limits_iff :
      (expr : Text) (b : Bound)
      → (bind std schema lim expr ≡ ok b)
        ↔ ((bind std schema unlimited expr ≡ ok b) × IsWithin lim b)
  bind_limits_iff expr b = (bind-unlimited expr b, λ (h, w). bind-limited expr b h w)
