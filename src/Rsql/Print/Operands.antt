-- ===== src/Rsql/Print/Operands.antt =====
-- The parser reads printed operands back.
use servicekit_go.Base.{
  ℕ, zero, suc, ◌+◌, ◌<◌, Bool, true, false, List, [], ◌∷◌, ◌++◌, map, Text, codes, join, length,
  ◌≡◌, refl, ap, ◌∙◌, arith, All, append_assoc, append-nil,
}
use servicekit_go.Rsql.Ast.{Node}
use servicekit_go.Rsql.Lex.{TokenKind, tok_and, tok_or, token, lexer, next}
use servicekit_go.Rsql.Method.{◌>>=◌}
use servicekit_go.Rsql.Parse.{M, kind_eq, operand_loop, parse_binary, join_nodes}
use servicekit_go.Rsql.Print.From.{
  Follows, from, advance_then, from_assoc, next-Follows, next-comma, next-semicolon,
}
use servicekit_go.Rsql.Result.{ok}
use servicekit_go.Rsql.Std.{Std}
use servicekit_go.Rsql.Print.Comparison.{Reads, not_sep}

module _ (std : Std) where
  -- A token that separates operands, and its rune.
  pub record Separates (sep : TokenKind) (c : ℕ) : Type 0 where
    pub text : Text
    pub reads :
        (rest : Text) (pos : ℕ)
        → next std (lexer (c ∷ rest) pos) ≡ ok (token sep text pos, lexer rest (pos + 1))
    pub follows : (rest : Text) → Follows sep (c ∷ rest)
    pub same : kind_eq sep sep ≡ true

  pub semicolon-Separates : Separates tok_and b';'
  unfolding kind_eq
  semicolon-Separates = record {
    text = codes ";";
    reads = next-semicolon std;
    follows = λ rest. (rest, refl);
    same = refl;
  }

  pub comma-Separates : Separates tok_or b','
  unfolding kind_eq
  comma-Separates = record {
    text = codes ",";
    reads = next-comma std;
    follows = λ rest. (rest, refl);
    same = refl;
  }

module _ (std : Std) (B : Type 0) where
  -- The operands behind the first.
  abbrev more : ℕ → List (Text × Node) → Text → Text
  more c [] rest = rest
  more c (o ∷ os) rest = c ∷ (o.0 ++ more c os rest)

  abbrev pub ReadsAll : (TokenKind → Bool) → M Node → List (Text × Node) → Type 0
  ReadsAll allowed operand os = All (λ o. Reads std B allowed operand o.0 o.1) os

  module _ (sep : TokenKind) (c : ℕ) (separates : Separates std sep c) (allowed : TokenKind → Bool)
      (allows : allowed sep ≡ true) (operand : M Node) where
    differs : (k : TokenKind) → not_sep sep allowed k ≡ true → kind_eq k sep ≡ false
    differs k a = ground arith

    more-Follows :
        (os : List (Text × Node)) (k' : TokenKind) (rest : Text)
        → Follows k' rest
        → allowed k' ≡ true
        → (k : TokenKind) × Follows k (more c os rest) × (allowed k ≡ true)
    more-Follows [] k' rest follows a = (k', follows, a)
    more-Follows (o ∷ os) k' rest follows a = (sep, separates.follows _, allows)

    operand_loop-print :
        (f : ℕ) (acc : List Node) (os : List (Text × Node)) (k' : TokenKind) (rest : Text) (pos : ℕ)
        → length os < f
        → ReadsAll allowed operand os
        → Follows k' rest
        → not_sep sep allowed k' ≡ true
        → (pos' : ℕ) × ((k : List Node → M B)
            → from std (more c os rest) pos (operand_loop std f sep operand acc >>= k)
              ≡ from std rest pos' (k (acc ++ map (λ o. o.1) os)))
    unfolding operand_loop
    operand_loop-print zero acc os k' rest pos h reads follows a = absurd (omega arith)
    operand_loop-print (suc f) acc [] k' rest pos h reads follows a =
        let (t, l, e, kind) = next-Follows std k' rest pos follows in
        (pos, λ k. rw (e, ap (λ j. kind_eq j sep) kind ∙ differs k' a, append-nil acc) refl)
    operand_loop-print (suc f) acc (o ∷ os) k' rest pos h reads follows a =
        let (k'', follows', a') = more-Follows os k' rest follows (ground arith) in
        let (pos₁, first) = reads.0 k'' (more c os rest) (pos + 1) follows' a' in
        let (pos₂, ih) =
          operand_loop-print f (acc ++ o.1 ∷ []) os k' rest pos₁ (omega arith) reads.1 follows a in
        (
          pos₂,
          λ k.
              rw (separates.reads (o.0 ++ more c os rest) pos, separates.same)
                (advance_then std
                    (record {
                      lex = lexer (o.0 ++ more c os rest) (pos + 1);
                      tok = token sep separates.text pos;
                    })
                    (λ _. operand >>= (λ n. operand_loop std f sep operand (acc ++ n ∷ []))) k
                  ∙ from_assoc std _ (pos + 1) operand _ k
                  ∙ first _
                  ∙ ih k
                  ∙ ap (λ ns. from std rest pos₂ (k ns))
                      (append_assoc acc (o.1 ∷ []) (map (λ o. o.1) os))),
        )

    -- Operands with separators between them.
    abbrev pub joined : List (Text × Node) → Text
    joined os = join (map (λ o. o.0) os) (c ∷ [])

    joined-more :
        (o : Text × Node) (os : List (Text × Node)) (rest : Text)
        → joined (o ∷ os) ++ rest ≡ o.0 ++ more c os rest
    unfolding join
    joined-more o [] rest = refl
    joined-more o (p ∷ os) rest =
        append_assoc o.0 _ rest ∙ ap (λ t. o.0 ++ (c ∷ t)) (joined-more p os rest)

    -- `parseBinary` reads one operand or more, in front of anything but another separator.
    pub parse_binary-print :
        (f : ℕ) (build : List Node → Node) (o : Text × Node) (os : List (Text × Node))
        → length os < f
        → ReadsAll allowed operand (o ∷ os)
        → Reads std B
            (not_sep sep allowed)
            (parse_binary std f sep operand build)
            (joined (o ∷ os))
            (join_nodes build (map (λ o. o.1) (o ∷ os)))
    unfolding parse_binary
    parse_binary-print f build o os h reads k' rest pos follows a =
        let (k'', follows', a') = more-Follows os k' rest follows (ground arith) in
        let (pos₁, first) = reads.0 k'' (more c os rest) pos follows' a' in
        let (pos₂, loop) = operand_loop-print f (o.1 ∷ []) os k' rest pos₁ h reads.1 follows a in
        (
          pos₂,
          λ k.
              ap (λ t. from std t pos (parse_binary std f sep operand build >>= k))
                (joined-more o os rest)
              ∙ from_assoc std _ pos operand _ k
              ∙ first _
              ∙ from_assoc std _ pos₁ (operand_loop std f sep operand (o.1 ∷ [])) _ k
              ∙ loop _,
        )
