-- ===== src/Rsql/Schema/Errors.antt =====
-- The errors of `Bind`: rsql/schema.go.
use servicekit_go.Base.{
  ℕ, suc, ◌+◌, ◌-◌, ◌≤◌, true, false, not, List, Text, ◌≡◌, ◌⊎◌, inl, inr, refl, ap, subst, arith,
  ◌∙◌,
}
use servicekit_go.Rsql.Ast.{
  Node, Nodes, and, or, comparison, no_nodes, node, Operator, length_nodes,
}
use servicekit_go.Rsql.Bound.{Schema, Limits, Bound}
use servicekit_go.Rsql.Parse.{parse}
use servicekit_go.Rsql.Parse.Shape.{IsParsed, AreParsed}
use servicekit_go.Rsql.Parse.Total.{parse-IsParsed}
use servicekit_go.Rsql.Reports.{
  Reports, Reports-bind, Reports-then, Reports-check, Reports-run, Reports-if,
}
use servicekit_go.Rsql.Result
use servicekit_go.Rsql.Result.{
  Result, ok, err, out_of_fuel, Error, ValueError, bad_value, too_deep, too_many_comparisons,
  too_many_disjunctions,
}
use servicekit_go.Rsql.Std.{Std}
use servicekit_go.Rsql.Schema.Refused.{bind_comparison-Reports}
use servicekit_go.Rsql.Schema.Blame.{
  tree_leaves, trees_leaves, tree_commas, trees_commas, tree_height, trees_height, Has, SomeHas,
  Exceeds, Blames, IsBlamed,
}
use servicekit_go.Rsql.Schema.{
  Binder, exceeds, bind_comparison, walk, walk_all, count_or, count_comparison, bind_node, bind,
  check_counts, start,
}

exceeds-Exceeds : (n m : ℕ) → exceeds n m ≡ true → Exceeds n m
unfolding exceeds
exceeds-Exceeds n m h = ground arith

module _ (std : Std) (schema : Schema) where
  module _ (lim : Limits) (whole : Node) where
    -- A part of the filter at a depth.
    abbrev IsPart : (Text → Operator → List Text → Type 0) → ℕ → ℕ → Type 0
    IsPart has height depth =
        ((sel : Text) (op : Operator) (args : List Text) → has sel op args → Has sel op args whole)
        × (depth + height ≤ suc (tree_height whole))

    abbrev Faults {ℓ} : {A : Type ℓ} → (A → Type 0) → Result A → Type 0
    Faults P = Reports (IsBlamed std schema lim whole) P

    Has-IsBlamed :
        (sel : Text) (op : Operator) (args : List Text)
        → Has sel op args whole
        → (e : Error) → Blames std schema sel op args e
        → IsBlamed std schema lim whole e
    Has-IsBlamed sel op args has (too_deep m) b = absurd b
    Has-IsBlamed sel op args has (too_many_comparisons k m) b = absurd b
    Has-IsBlamed sel op args has (too_many_disjunctions k m) b = absurd b
    Has-IsBlamed sel op args has e b = (sel, op, args, has, b)

    depth-Exceeds :
        (depth height : ℕ)
        → depth + suc height ≤ suc (tree_height whole)
        → not (exceeds depth lim.max_depth) ≡ false
        → Exceeds (tree_height whole) lim.max_depth
    depth-Exceeds depth height h e =
        omega (arith, exceeds-Exceeds depth lim.max_depth (ground arith))

    mutual
      unfolding walk count_or count_comparison

      walk-Faults :
          (n : Node) (depth : ℕ) (b : Binder)
          → IsParsed n
          → IsPart (λ sel op args. Has sel op args n) (tree_height n) depth
          → Faults
              (λ r.
                (r.1.comparisons ≡ b.comparisons + tree_leaves n)
                × (r.1.disjunctions ≡ b.disjunctions + tree_commas n))
              (walk std schema lim n depth b)
      walk-Faults (and ns) depth b p (has, h) =
          Reports-check _ _ (not (exceeds depth lim.max_depth)) _ _ b
            (λ e. (refl, depth-Exceeds depth (trees_height ns) h e))
            λ _.
              Reports-then _ _ _ (walk_all std schema lim ns depth) _ b
                (walk_all-Faults ns depth b p.1 (has, omega arith)) λ bs b' g. g
      walk-Faults (or ns) depth b p (has, h) =
          Reports-check _ _ (not (exceeds depth lim.max_depth)) _ _ b
            (λ e. (refl, depth-Exceeds depth (trees_height ns) h e))
            λ _.
              let b₁ = record b { disjunctions = b.disjunctions + length_nodes ns - 1 } in
              Reports-then _ _ _ (walk_all std schema lim ns depth) _ b₁
                (walk_all-Faults ns depth b₁ p.1 (has, omega arith))
                λ bs b' g. (g.0, omega (arith, g.1, p.0))
      walk-Faults (comparison sel op args) depth b p (has, h) =
          Reports-check _ _ (not (exceeds depth lim.max_depth)) _ _ b
            (λ e. (refl, depth-Exceeds depth 0 h e))
            λ _.
              let b₁ = record b { comparisons = b.comparisons + 1 } in
              Reports-run _ (λ r. r.1 ≡ b₁) _ (bind_comparison std schema sel op args b₁)
                (λ r _ g. (ap (λ s. s.comparisons) g, omega (arith, ap (λ s. s.disjunctions) g)))
                (bind_comparison-Reports std schema _ sel op args b₁
                  (Has-IsBlamed sel op args (has sel op args (refl, refl, refl))))

      walk_all-Faults :
          (ns : Nodes) (depth : ℕ) (b : Binder)
          → AreParsed ns
          → IsPart (λ sel op args. SomeHas sel op args ns) (suc (trees_height ns)) depth
          → Faults
              (λ r.
                (r.1.comparisons ≡ b.comparisons + trees_leaves ns)
                × (r.1.disjunctions ≡ b.disjunctions + trees_commas ns))
              (walk_all std schema lim ns depth b)
      walk_all-Faults no_nodes depth b p h = (omega arith, omega arith)
      walk_all-Faults (node n ns) depth b p (has, h) =
          Reports-then _ _ _ (walk std schema lim n (depth + 1)) _ b
            (walk-Faults n (depth + 1) b p.0
              ((λ sel op args g. has sel op args (inl g)), ground arith))
            λ _ b₁ g₁.
              Reports-then _ _ _ (walk_all std schema lim ns depth) _ b₁
                (walk_all-Faults ns depth b₁ p.1
                  ((λ sel op args g. has sel op args (inr g)), ground arith))
                λ _ b₂ g₂. (omega (arith, g₁, g₂), omega (arith, g₁, g₂))

    check_counts-Faults :
        (out : Bound) (b : Binder)
        → b.comparisons ≡ tree_leaves whole
        → b.disjunctions ≡ tree_commas whole
        → Faults (λ r. Unit {0}) (check_counts lim out b)
    unfolding check_counts
    check_counts-Faults out b comparisons disjunctions =
        Reports-if _ _ (exceeds b.comparisons lim.max_comparisons) _ _
          (λ e. (refl, comparisons, exceeds-Exceeds b.comparisons lim.max_comparisons e))
          (λ _.
            Reports-if _ _ (exceeds b.disjunctions lim.max_disjunctions) _ _
              (λ e. (refl, disjunctions, exceeds-Exceeds b.disjunctions lim.max_disjunctions e))
              (λ _. tt))

    pub bind_node-Faults : IsParsed whole → Faults (λ r. Unit {0}) (bind_node std schema lim whole)
    unfolding bind_node
    bind_node-Faults p =
        Reports-bind _ _ _ (walk std schema lim whole 1 start) _
          (walk-Faults whole 1 start p ((λ sel op args h. h), omega arith))
          λ r g. check_counts-Faults r.0 r.1 (omega (arith, g.0)) (omega (arith, g.1))

  -- The parser's error, or one that is right about the filter that was parsed.
  abbrev pub IsExplained : Limits → Text → Error → Type 0
  IsExplained lim expr e =
      (parse std expr ≡ err e)
      ⊎ ((n : Node) × (parse std expr ≡ ok n) × IsBlamed std schema lim n e)

  -- An error of `Bind` is the parser's, or it is right about the filter that was parsed. An error
  -- about a comparison is about one that stands in the filter: its selector is not declared, its
  -- operator is among neither the field's own nor, where the field names none, those of its kind,
  -- it has another number of values than one under an operator other than "=in=" and "=out=", or
  -- one of its values is at fault: it is not in the field's enumeration, which the error shows;
  -- or it is, if the field has one, and is no integer or begins like one that is beyond 64 bits,
  -- no float or one out of range, no Boolean, no time or of a kind that is not supported,
  -- whichever the error says. An error about a limit names that limit, which is not zero and
  -- which the filter's depth, comparisons or disjunctions exceed, the latter two by the count
  -- that is named.
  pub bind-IsExplained :
      (lim : Limits) (expr : Text) (e : Error)
      → bind std schema lim expr ≡ err e
      → IsExplained lim expr e
  unfolding bind
  bind-IsExplained lim expr e h = go (parse std expr) refl h
    where
      go :
          (r : Result Node)
          → parse std expr ≡ r
          → Result.◌>>=◌ r (bind_node std schema lim) ≡ err e
          → IsExplained lim expr e
      go (ok n) parsed h = inr (
        n,
        parsed,
        subst (Reports (IsBlamed std schema lim n) (λ r. Unit {0})) h
            (bind_node-Faults lim n (parse-IsParsed std expr n parsed)),
      )
      go (err e') parsed h = let same : e' ≡ e = cc in inl (parsed ∙ ap err same)
      go out_of_fuel parsed h = cc
