-- ===== src/Rsql/Print/Fuel.antt =====
-- Fuel that is enough for a printed tree.
use servicekit_go.Base.{
  ℕ, suc, ◌+◌, ◌≤◌, ◌<◌, List, [], ◌∷◌, ◌++◌, map, Text, codes, join, length, length-append,
  length-map, contains-All, ◌≢◌, refl, arith, All, inl, inr,
}
use servicekit_go.Rsql.Ast.{Node, Nodes, and, or, comparison, no_nodes, node, operators}
use servicekit_go.Rsql.Canonical.{quote, is_special}
use servicekit_go.Rsql.Canonical.Quote.{IsWritable}
use servicekit_go.Rsql.Print.{print_args, print_group, print, print_all, size, size_all}
use servicekit_go.Rsql.Print.Comparison.{IsPrintable, ArePrintable}

operators-positive : All (λ op. 0 < length op) (map (λ e. e.1) operators)
operators-positive = ground arith

length-quote : (s : Text) → IsWritable s → 0 < length (quote s)
unfolding quote is_special
length-quote [] (inl h) = ground arith
length-quote [] (inr h) = absurd (h.0 refl)
length-quote (c ∷ s) w = ground arith

-- Items with a separator of one rune between them.
length-join : (c : ℕ) (xs : List Text) → length xs ≤ suc (length (join xs (c ∷ [])))
unfolding join
length-join c [] = omega arith
length-join c (x ∷ []) = omega arith
length-join c (x ∷ y ∷ xs) =
    omega (arith, length-join c (y ∷ xs), length-append x (c ∷ join (y ∷ xs) (c ∷ [])))

length-print_args :
    (args : List Text) → args ≢ [] → All IsWritable args → length args ≤ length (print_args args)
unfolding print_args
length-print_args [] ne ws = absurd (ne refl)
length-print_args (a ∷ []) ne ws = length-quote a ws.0
length-print_args (a ∷ b ∷ args) ne ws =
    let texts = map quote (a ∷ b ∷ args) in
    omega (
      arith,
      length-join b',' texts,
      length-map quote (a ∷ b ∷ args),
      length-append (join texts (codes ",")) (b')' ∷ []),
    )

abbrev total : List Text → ℕ
total [] = 0
total (x ∷ xs) = length x + total xs

length-joined : (c : ℕ) (xs : List Text) → total xs + length xs ≤ suc (length (join xs (c ∷ [])))
unfolding join
length-joined c [] = omega arith
length-joined c (x ∷ []) = omega arith
length-joined c (x ∷ y ∷ xs) =
    omega (arith, length-joined c (y ∷ xs), length-append x (c ∷ join (y ∷ xs) (c ∷ [])))

length-print_group :
    (c : ℕ) (xs : List Text) → total xs + length xs < length (print_group (c ∷ []) xs)
unfolding print_group
length-print_group c xs =
    omega (arith, length-joined c xs, length-append (join xs (c ∷ [])) (b')' ∷ []))

mutual
  unfolding print

  pub length-print : (n : Node) → IsPrintable n → size n ≤ length (print n)
  length-print (and ns) p =
      omega (arith, length-print_all ns p.1, length-print_group b';' (print_all ns))
  length-print (or ns) p =
      omega (arith, length-print_all ns p.1, length-print_group b',' (print_all ns))
  length-print (comparison sel op args) (bare, known, ne, ws) = omega (
    arith,
    length-append sel (op ++ print_args args),
    length-append op (print_args args),
    length-print_args args ne ws,
    contains-All (λ op. 0 < length op) (map (λ e. e.1) operators) op known operators-positive,
  )

  length-print_all :
      (ns : Nodes) → ArePrintable ns → size_all ns ≤ total (print_all ns) + length (print_all ns)
  length-print_all no_nodes p = omega arith
  length-print_all (node n ns) p = omega (arith, length-print n p.0, length-print_all ns p.1)
