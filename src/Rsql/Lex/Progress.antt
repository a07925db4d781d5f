-- ===== src/Rsql/Lex/Progress.antt =====
-- The lexer ends on every input, and each token but the last consumes a rune.
use servicekit_go.Base.{ℕ, suc, ◌+◌, ◌≤◌, [], ◌∷◌, ◌++◌, Text, length, length-append, arith}
use servicekit_go.Rsql.Result.{Result, Ends, Ends-mono}
use servicekit_go.Rsql.Std.{Std}
use servicekit_go.Rsql.Lex.{
  TokenKind, tok_eof, Token, Lexer, lexer, read_bang, read_angle, read_equals, skip_space,
  read_quoted, read_bare, finish_bare, read_word, read_op, next_at, next,
}

-- What is left to parse: the runes, and the token at hand.
abbrev pub cost : TokenKind → ℕ
cost tok_eof = 0
cost _ = 1

abbrev pub Within : ℕ → Token × Lexer → Type 0
Within n r = length r.1.rest + cost r.0.kind ≤ n

abbrev pub Consumes : ℕ → Result (Token × Lexer) → Type 0
Consumes n = Ends (Within n)

length-skip_space : (rs : Text) (pos : ℕ) → length (skip_space pos rs).rest ≤ length rs
unfolding skip_space
length-skip_space [] pos = omega arith
length-skip_space (r ∷ rs) pos = ground (arith, length-skip_space rs (pos + 1))

read_quoted-Consumes :
    (start q : ℕ) (b : Text) (pos : ℕ) (rs : Text)
    → Consumes (length rs) (read_quoted start q b pos rs)
unfolding read_quoted
read_quoted-Consumes start q b pos [] = tt
read_quoted-Consumes start q b pos (r ∷ []) = ground arith
read_quoted-Consumes start q b pos (r ∷ e ∷ rs) = ground (
  arith,
  read_quoted-Consumes start q (b ++ e ∷ []) (pos + 2) rs,
  read_quoted-Consumes start q (b ++ r ∷ []) (pos + 1) (e ∷ rs),
)

finish_bare-Consumes :
    (start first : ℕ) (b : Text) (l : Lexer)
    → Consumes (length b + length l.rest) (finish_bare start first b l)
unfolding finish_bare
finish_bare-Consumes start first [] l = tt
finish_bare-Consumes start first (c ∷ b) l = omega arith

-- A bare word is not empty, so no more runes are left than there were with those written.
read_bare-Consumes :
    (start first : ℕ) (b : Text) (pos : ℕ) (rs : Text)
    → Consumes (length b + length rs) (read_bare start first b pos rs)
unfolding read_bare
read_bare-Consumes start first b pos [] = finish_bare-Consumes start first b (lexer [] pos)
read_bare-Consumes start first b pos (r ∷ []) = ground (
  arith,
  finish_bare-Consumes start first b (lexer (r ∷ []) pos),
  finish_bare-Consumes start first (b ++ r ∷ []) (lexer [] (pos + 1)),
  length-append b (r ∷ []),
)
read_bare-Consumes start first b pos (r ∷ e ∷ rs) = ground (
  arith,
  finish_bare-Consumes start first b (lexer (r ∷ e ∷ rs) pos),
  read_bare-Consumes start first (b ++ e ∷ []) (pos + 2) rs,
  read_bare-Consumes start first (b ++ r ∷ []) (pos + 1) (e ∷ rs),
  length-append b (e ∷ []),
  length-append b (r ∷ []),
)

module _ (std : Std) where
  read_word-Consumes :
      (start : ℕ) (name : Text) (pos : ℕ) (rs : Text)
      → Consumes (length rs) (read_word std start name pos rs)
  unfolding read_word
  read_word-Consumes start name pos [] = tt
  read_word-Consumes start name pos (r ∷ rs) =
      ground (arith, read_word-Consumes start (name ++ r ∷ []) (pos + 1) rs)

  read_op-Consumes : (start c : ℕ) (rs : Text) → Consumes (suc (length rs)) (read_op std start c rs)
  unfolding read_bang read_angle read_equals read_op
  read_op-Consumes start c [] = ground (arith, read_word-Consumes start [] (start + 1) [])
  read_op-Consumes start c (r ∷ rs) =
      ground (arith, read_word-Consumes start [] (start + 1) (r ∷ rs))

  next_at-Consumes : (start : ℕ) (rs : Text) → Consumes (length rs) (next_at std start rs)
  unfolding next_at
  next_at-Consumes start [] = omega arith
  next_at-Consumes start (r ∷ rs) = ground (
    arith,
    read_op-Consumes start r rs,
    read_quoted-Consumes start r [] (start + 1) rs,
    read_bare-Consumes start r [] start (r ∷ rs),
  )

  -- The lexer ends on every input, and a token other than the end consumes at least one rune.
  pub next-Consumes : (l : Lexer) → Consumes (length l.rest) (next std l)
  unfolding next
  next-Consumes l =
      let l' = skip_space l.pos l.rest in
      Ends-mono (Within (length l'.rest)) (Within (length l.rest)) (next_at std l'.pos l'.rest)
        (λ r h. omega (arith, length-skip_space l.rest l.pos)) (next_at-Consumes l'.pos l'.rest)
