-- ===== src/Rsql/Print/Normal.antt =====
-- The canonical form as the text of a syntax tree, and the parser on it.
use servicekit_go.Base.{
  ℕ, suc, ◌≤◌, ◌<◌, false, List, [], ◌∷◌, ◌++◌, map, Text, codes, join, length, inl, inr, ◌⊎◌, ◌≡◌,
  ◌≢◌, refl, sym, ap, ◌∙◌, arith, All, length-map,
}
use servicekit_go.Base.Sort.{sort, sort_by, insert_by, map-sort_by, sort_by-All, length-sort_by}
use servicekit_go.Rsql.Ast.{Node, and, or, comparison, no_nodes, length_nodes}
use servicekit_go.Rsql.Bound.{
  Value, Schema, BoundComparison, Bound, Bounds, nil, bound_and, bound_or, bound_comparison,
  no_bounds, bound,
}
use servicekit_go.Rsql.Canonical.{
  is_special, quote, show_value, literal, write_values, write_comparison, write_group, canonical,
  canonical_all,
}
use servicekit_go.Rsql.Canonical.Quote.{IsWritable}
use servicekit_go.Rsql.Lex.Words.{IsBare}
use servicekit_go.Rsql.Parse.{nodes_of, parse}
use servicekit_go.Rsql.Parse.Shape.{length_nodes-nodes_of}
use servicekit_go.Rsql.Print.{print_args, print_group, print, print_all}
use servicekit_go.Rsql.Print.Comparison.{IsPrintable, ArePrintable}
use servicekit_go.Rsql.Print.Round.{parse-print}
use servicekit_go.Rsql.Result.{ok}
use servicekit_go.Rsql.Schema.Spec.{IsBound, AreBound, IsBoundComparison, count_bounds}
use servicekit_go.Rsql.Std.{Std}
use servicekit_go.Rsql.Tree.Remove.{Leaves, LeavesAll}

abbrev listed : List Text → Text
listed parts = b'(' ∷ (join parts (codes ",") ++ (b')' ∷ []))

print_args-many : (args : List Text) → 2 ≤ length args → print_args args ≡ listed (map quote args)
unfolding print_args
print_args-many [] h = absurd (omega arith)
print_args-many (a ∷ []) h = absurd (omega arith)
print_args-many (a ∷ b ∷ args) h = refl

module _ (std : Std) where
  -- The syntax tree of a filter, with the operands of each connective and the values of each
  -- comparison in the order of their texts.
  abbrev mutual
    pub normal : Bound → Node
    normal nil = and no_nodes
    normal (bound_and bs) = and (nodes_of (sort_by print (normal_all bs)))
    normal (bound_or bs) = or (nodes_of (sort_by print (normal_all bs)))
    normal (bound_comparison c) =
        comparison c.selector c.op (sort_by quote (map (show_value std) c.values))

    pub normal_all : Bounds → List Node
    normal_all no_bounds = []
    normal_all (bound b bs) = normal b ∷ normal_all bs

  -- A comparison whose selector and unquoted values are bare words.
  abbrev pub IsWord : BoundComparison → Type 0
  IsWord c = IsBare c.selector × All (λ v. IsWritable (show_value std v)) c.values

  print_all-nodes_of : (ns : List Node) → print_all (nodes_of ns) ≡ map print ns
  unfolding print nodes_of
  print_all-nodes_of [] = refl
  print_all-nodes_of (n ∷ ns) = ap (λ t. print n ∷ t) (print_all-nodes_of ns)

  print_all-sort : (ns : List Node) → print_all (nodes_of (sort_by print ns)) ≡ sort (map print ns)
  print_all-sort ns = print_all-nodes_of (sort_by print ns) ∙ map-sort_by print ns

  module _ (plain_time : (t : ℕ) → is_special (std.format_time t) ≡ false) where
    literal-quote : (v : Value) → literal std v ≡ quote (show_value std v)
    unfolding literal show_value quote
    literal-quote (Value.string s) = refl
    literal-quote (Value.int n) = refl
    literal-quote (Value.float x) = refl
    literal-quote (Value.bool b) = refl
    literal-quote (Value.time t) = rw (plain_time t) refl

    literals-quote : (vs : List Value) → map quote (map (show_value std) vs) ≡ map (literal std) vs
    literals-quote [] = refl
    literals-quote (v ∷ vs) = cc (literal-quote v, literals-quote vs)

    written-values :
        (vs : List Value)
        → print_args (sort_by quote (map (show_value std) vs)) ≡ write_values std vs
    unfolding write_values print_args sort sort_by insert_by join
    written-values [] = refl
    written-values (v ∷ []) = sym (literal-quote v)
    written-values (v ∷ w ∷ vs) =
        print_args-many (sort_by quote (map (show_value std) (v ∷ w ∷ vs))) (
          omega (
            arith,
            length-sort_by quote (map (show_value std) (v ∷ w ∷ vs)),
            length-map (show_value std) vs,
          ))
        ∙ ap listed (
            map-sort_by quote (map (show_value std) (v ∷ w ∷ vs))
            ∙ ap sort (literals-quote (v ∷ w ∷ vs)))

    mutual
      unfolding print print_group canonical write_group write_comparison

      pub print-normal :
          (schema : Schema) (b : Bound) → IsBound schema b → print (normal b) ≡ canonical std b
      print-normal schema nil h = absurd h
      print-normal schema (bound_and bs) h =
          rw (print_all-sort (normal_all bs), print-normal_all schema bs h.1)
      print-normal schema (bound_or bs) h =
          rw (print_all-sort (normal_all bs), print-normal_all schema bs h.1)
      print-normal schema (bound_comparison c) h = rw (written-values c.values)

      print-normal_all :
          (schema : Schema) (bs : Bounds)
          → AreBound schema bs
          → map print (normal_all bs) ≡ canonical_all std bs
      print-normal_all schema no_bounds h = refl
      print-normal_all schema (bound b bs) h =
          cc (print-normal schema b h.0, print-normal_all schema bs h.1)

  IsPrintable-sort : (ns : List Node) → All IsPrintable ns → ArePrintable (nodes_of ns)
  unfolding nodes_of
  IsPrintable-sort [] h = tt
  IsPrintable-sort (n ∷ ns) h = (h.0, IsPrintable-sort ns h.1)

  length-normal_all : (bs : Bounds) → length (normal_all bs) ≡ count_bounds bs
  length-normal_all no_bounds = refl
  length-normal_all (bound b bs) = ap suc (length-normal_all bs)

  many :
      (bs : Bounds)
      → 2 ≤ count_bounds bs
      → 2 ≤ length_nodes (nodes_of (sort_by print (normal_all bs)))
  many bs h = omega (
    arith,
    length_nodes-nodes_of (sort_by print (normal_all bs)),
    length-sort_by print (normal_all bs),
    length-normal_all bs,
  )

  All-map :
      (vs : List Value)
      → All (λ v. IsWritable (show_value std v)) vs
      → All IsWritable (map (show_value std) vs)
  All-map [] h = tt
  All-map (v ∷ vs) h = (h.0, All-map vs h.1)

  module _ (schema : Schema) where
    has_value : (c : BoundComparison) → IsBoundComparison schema c → 0 < length c.values
    has_value c h = some_values c.values h.arity
      where
        some_values :
            {P : Type 0} (vs : List Value) → (length vs ≡ 1) ⊎ ((vs ≢ []) × P) → 0 < length vs
        some_values [] (inl e) = omega arith
        some_values [] (inr h) = absurd (h.0 refl)
        some_values (v ∷ vs) h = omega arith

    mutual
      normal-IsPrintable : (b : Bound) → IsBound schema b → Leaves IsWord b → IsPrintable (normal b)
      normal-IsPrintable nil h w = absurd h
      normal-IsPrintable (bound_and bs) h w = (
        many bs h.0,
        IsPrintable-sort (sort_by print (normal_all bs))
            (sort_by-All print IsPrintable (normal_all bs) (normal_all-IsPrintable bs h.1 w)),
      )
      normal-IsPrintable (bound_or bs) h w = (
        many bs h.0,
        IsPrintable-sort (sort_by print (normal_all bs))
            (sort_by-All print IsPrintable (normal_all bs) (normal_all-IsPrintable bs h.1 w)),
      )
      normal-IsPrintable (bound_comparison c) h w =
          let texts = map (show_value std) c.values in
          (
            w.0,
            h.op_known,
            λ e. absurd (
                omega (
                  arith,
                  ap length e,
                  length-sort_by quote texts,
                  length-map (show_value std) c.values,
                  has_value c h,
                )),
            sort_by-All quote IsWritable texts (All-map c.values w.1),
          )

      normal_all-IsPrintable :
          (bs : Bounds) → AreBound schema bs → LeavesAll IsWord bs → All IsPrintable (normal_all bs)
      normal_all-IsPrintable no_bounds h w = tt
      normal_all-IsPrintable (bound b bs) h w =
          (normal-IsPrintable b h.0 w.0, normal_all-IsPrintable bs h.1 w.1)

    -- The canonical form is a filter of the language again, the same one with the operands and the
    -- values in the order of their texts: the selectors and the values that stand without quotes
    -- have to be bare words, and a written time needs no quotes.
    pub parse-canonical :
        (b : Bound)
        → ((t : ℕ) → is_special (std.format_time t) ≡ false)
        → IsBound schema b
        → Leaves IsWord b
        → parse std (canonical std b) ≡ ok (normal b)
    parse-canonical b plain_time h w =
        ap (parse std) (sym (print-normal plain_time schema b h))
        ∙ parse-print std (normal b) (normal-IsPrintable b h w)
