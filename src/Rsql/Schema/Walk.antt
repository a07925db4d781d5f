-- ===== src/Rsql/Schema/Walk.antt =====
-- The walk over the syntax tree: what it returns, and what it counts on the way.
use servicekit_go.Base.{
  ℕ, ◌+◌, ◌-◌, true, not, ◌||◌, List, [], Text, length, ◌==◌, ◌≡◌, ◌≢◌, refl, arith, contains,
  subst, ap, false, ◌∙◌, map,
}
use servicekit_go.Rsql.Ast.{
  Node, Nodes, and, or, comparison, no_nodes, node, Operator, length_nodes, operators,
}
use servicekit_go.Rsql.Bound.{Schema, Limits, Bound}
use servicekit_go.Rsql.Method.{Ends-then, Ends-check, Ends-found, Ends-lifted}
use servicekit_go.Rsql.Parse.{parse}
use servicekit_go.Rsql.Parse.Shape.{IsParsed, AreParsed}
use servicekit_go.Rsql.Parse.Total.{parse-IsParsed}
use servicekit_go.Rsql.Result.{ok, Ends, Ends-mono, first_step}
use servicekit_go.Rsql.Std.{Std}
use servicekit_go.Rsql.Schema.Spec.{
  IsBound, AreBound, count_bounds, leaves, leaves_all, commas, commas_all, height,
}
use servicekit_go.Rsql.Schema.Sound.{coerce_all-Ends, bound-IsBoundComparison}
use servicekit_go.Rsql.Schema.{
  Binder, exceeds, allowed_ops, is_multi, with_column, coerce_all, bind_comparison, walk, walk_all,
  count_or, count_comparison, bind_node, bind, check_counts, start,
}

check_counts-eq-ok :
    (lim : Limits) (out b : Bound) (c : Binder)
    → check_counts lim out c ≡ ok b
    → (out ≡ b)
      × (exceeds c.comparisons lim.max_comparisons ≡ false)
      × (exceeds c.disjunctions lim.max_disjunctions ≡ false)
unfolding check_counts
check_counts-eq-ok lim out b c h = ground arith

module _ (std : Std) (schema : Schema) where
  pub bind_comparison-Ends :
      (sel : Text) (op : Operator) (args : List Text) (b : Binder)
      → args ≢ []
      → contains (map (λ e. e.1) operators) op ≡ true
      → Ends
          (λ r. IsBound schema r.0 × (leaves r.0 ≡ 1) × (commas r.0 ≡ 0) × (r.1 ≡ b))
          (bind_comparison std schema sel op args b)
  unfolding bind_comparison
  bind_comparison-Ends sel op args b ne op_known = Ends-found _ (schema sel) _ _ b λ f is_declared.
      Ends-check _ (contains (allowed_ops (with_column sel f)) op) _ _ b λ allowed.
        Ends-check _ (is_multi op || length args == 1) _ _ b λ arity.
          Ends-lifted _ _ (coerce_all std sel (with_column sel f) [] args) _ b
            (coerce_all-Ends std sel (with_column sel f) [] args tt)
            λ vs h. (
              bound-IsBoundComparison std schema sel op args f vs ne op_known is_declared allowed
                  arity h.0 (omega (arith, h.1)),
              refl,
              refl,
              refl,
            )

  pub bind_comparison-height :
      (sel : Text) (op : Operator) (args : List Text) (b : Binder)
      → Ends (λ r. height r.0 ≡ 1) (bind_comparison std schema sel op args b)
  unfolding bind_comparison
  bind_comparison-height sel op args b = Ends-found _ (schema sel) _ _ b λ f _.
      Ends-check _ (contains (allowed_ops (with_column sel f)) op) _ _ b λ _.
        Ends-check _ (is_multi op || length args == 1) _ _ b λ _.
          Ends-lifted _ _ (coerce_all std sel (with_column sel f) [] args) _ b
            (coerce_all-Ends std sel (with_column sel f) [] args tt) λ _ _. refl

  module _ (lim : Limits) where
    mutual
      unfolding walk count_or count_comparison

      pub walk-Ends :
          (n : Node) (depth : ℕ) (b : Binder)
          → IsParsed n
          → Ends
              (λ r.
                IsBound schema r.0
                × (r.1.comparisons ≡ b.comparisons + leaves r.0)
                × (r.1.disjunctions ≡ b.disjunctions + commas r.0))
              (walk std schema lim n depth b)
      walk-Ends (and ns) depth b h = Ends-check _ (not (exceeds depth lim.max_depth)) _ _ b λ _.
          Ends-then _ _ (walk_all std schema lim ns depth) _ b (walk_all-Ends ns depth b h.1)
            λ bs b' g. ((omega arith, g.0), g.2, g.3)
      walk-Ends (or ns) depth b h = Ends-check _ (not (exceeds depth lim.max_depth)) _ _ b λ _.
          let b₁ = record b { disjunctions = b.disjunctions + length_nodes ns - 1 } in
          Ends-then _ _ (walk_all std schema lim ns depth) _ b₁ (walk_all-Ends ns depth b₁ h.1)
            λ bs b' g. ((omega arith, g.0), g.2, omega arith)
      walk-Ends (comparison sel op args) depth b h =
          Ends-check _ (not (exceeds depth lim.max_depth)) _ _ b λ _.
            let b₁ = record b { comparisons = b.comparisons + 1 } in
            Ends-mono _ _ (bind_comparison std schema sel op args b₁)
              (λ r g. (
                g.0,
                omega (arith, ap (λ s. s.comparisons) g.3),
                omega (arith, ap (λ s. s.disjunctions) g.3),
              ))
              (bind_comparison-Ends sel op args b₁ h.1 h.0)

      walk_all-Ends :
          (ns : Nodes) (depth : ℕ) (b : Binder)
          → AreParsed ns
          → Ends
              (λ r.
                AreBound schema r.0
                × (count_bounds r.0 ≡ length_nodes ns)
                × (r.1.comparisons ≡ b.comparisons + leaves_all r.0)
                × (r.1.disjunctions ≡ b.disjunctions + commas_all r.0))
              (walk_all std schema lim ns depth b)
      walk_all-Ends no_nodes depth b h = (tt, refl, omega arith, omega arith)
      walk_all-Ends (node n ns) depth b h =
          Ends-then _ _ (walk std schema lim n (depth + 1)) _ b (walk-Ends n (depth + 1) b h.0)
            λ b₁ s₁ g₁.
              Ends-then _ _ (walk_all std schema lim ns depth) _ s₁ (walk_all-Ends ns depth s₁ h.1)
                λ bs s₂ g₂. ((g₁.0, g₂.0), omega arith, omega arith, omega arith)

  -- The steps of a call that succeeds.
  abbrev pub Succeeds : Limits → Text → Bound → Node → Binder → Type 0
  Succeeds lim expr b n c =
      (parse std expr ≡ ok n)
      × (walk std schema lim n 1 start ≡ ok (b, c))
      × (exceeds c.comparisons lim.max_comparisons ≡ false)
      × (exceeds c.disjunctions lim.max_disjunctions ≡ false)

  pub bind-eq-ok :
      (lim : Limits) (expr : Text) (b : Bound)
      → bind std schema lim expr ≡ ok b
      → (n : Node) × (c : Binder) × Succeeds lim expr b n c
  unfolding bind bind_node
  bind-eq-ok lim expr b h =
      let (n, parsed, h₁) = first_step (parse std expr) (bind_node std schema lim) b h in
      let (r, walked, h₂) = first_step (walk std schema lim n 1 start) _ b h₁ in
      let (e, e₁, e₂) = check_counts-eq-ok lim r.0 b r.1 h₂ in
      (n, r.1, (parsed, walked ∙ ap (λ x. ok (x, r.1)) e, e₁, e₂))

  pub bind-eq-ok_of :
      (lim : Limits) (expr : Text) (b : Bound) (n : Node) (c : Binder)
      → Succeeds lim expr b n c
      → bind std schema lim expr ≡ ok b
  unfolding bind bind_node check_counts
  bind-eq-ok_of lim expr b n c (parsed, walked, e₁, e₂) = rw (parsed, walked, e₁, e₂)

  -- What `Bind` returns is a filter over the schema: every selector is declared, no other attribute
  -- can be reached, every operator is allowed on its field, every value has its field's
  -- type, an integer fits an int64 and a string lies in the field's enumeration, only "=in=" and
  -- "=out=" take several values, and no node is missing.
  pub bind-IsBound :
      (lim : Limits) (expr : Text) (b : Bound) → bind std schema lim expr ≡ ok b → IsBound schema b
  bind-IsBound lim expr b h =
      let (n, c, (parsed, walked, _, _)) = bind-eq-ok lim expr b h in
      (subst (Ends _) walked (walk-Ends lim n 1 start (parse-IsParsed std expr n parsed))).0
