-- ===== src/Rsql/Lex.antt =====
-- rsql/lex.go: the lexer. A lexer's `rest` is `src[pos:]`, so `peek` is a match on `rest`.
pub mod Places
pub mod Offsets
pub mod Progress
pub mod Words
use servicekit_go.Base.{
  ℕ, ◌+◌, Bool, not, ◌||◌, [], ◌∷◌, ◌++◌, Text, codes, any, ltb, within, ◌==◌, if◌then◌else◌,
}
use servicekit_go.Rsql.Result.{
  Result, ok, err, expected_equals, unterminated_operator, invalid_operator_character,
  unterminated_quote, trailing_escape, unexpected_character,
}
use servicekit_go.Rsql.Std.{Std}

pub data TokenKind : Type 0 where
  tok_eof tok_value tok_op tok_lparen tok_rparen tok_and tok_or : TokenKind

pub record Token : Type 0 where
  pub kind : TokenKind
  pub text : Text
  pub pos : ℕ

pub record Lexer : Type 0 where
  pub rest : Text
  pub pos : ℕ

abbrev pub reserved : Text
reserved = codes "\"'();,=!~<>"

-- `unicode.IsSpace`
unfoldable pub is_space : ℕ → Bool
is_space c =
    within 0x09 0x0d c
    || c == 0x20
    || c == 0x85
    || c == 0xa0
    || c == 0x1680
    || within 0x2000 0x200a c
    || within 0x2028 0x2029 c
    || c == 0x202f
    || c == 0x205f
    || c == 0x3000

-- `strings.ContainsRune(reserved, r)`
unfoldable pub is_reserved : ℕ → Bool
is_reserved r = any (λ c. c == r) reserved

-- The test that ends a bare word.
unfoldable pub ends_bare : ℕ → Bool
ends_bare r = is_space r || is_reserved r

abbrev pub token : TokenKind → Text → ℕ → Token
token k t p = record { kind = k; text = t; pos = p }

abbrev pub lexer : Text → ℕ → Lexer
lexer rs p = record { rest = rs; pos = p }

-- The loop over white space.
unfoldable pub skip_space : ℕ → Text → Lexer
skip_space pos [] = lexer [] pos
skip_space pos (r ∷ rs) = if is_space r then skip_space (pos + 1) rs else lexer (r ∷ rs) pos

-- The loop of `readQuoted` behind the quote `q`, with `b` written so far.
unfoldable pub read_quoted : ℕ → ℕ → Text → ℕ → Text → Result (Token × Lexer)
read_quoted start q b pos [] = err (unterminated_quote start)
read_quoted start q b pos (r ∷ []) =
    if r == b'\\'
    then err (trailing_escape (pos + 1))
    else if r == q
    then ok (token tok_value b start, lexer [] (pos + 1))
    else err (unterminated_quote start)
read_quoted start q b pos (r ∷ esc ∷ rs) =
    let escaped = read_quoted start q (b ++ esc ∷ []) (pos + 2) rs in
    let more = read_quoted start q (b ++ r ∷ []) (pos + 1) (esc ∷ rs) in
    if r == b'\\'
    then escaped
    else if r == q
    then ok (token tok_value b start, lexer (esc ∷ rs) (pos + 1))
    else more

-- What `readBare` does behind its loop: `first` is `src[start]`.
unfoldable pub finish_bare : ℕ → ℕ → Text → Lexer → Result (Token × Lexer)
finish_bare start first [] l = err (unexpected_character start first)
finish_bare start first (c ∷ b) l = ok (token tok_value (c ∷ b) start, l)

-- The loop of `readBare`, with `b` written so far.
unfoldable pub read_bare : ℕ → ℕ → Text → ℕ → Text → Result (Token × Lexer)
read_bare start first b pos [] = finish_bare start first b (lexer [] pos)
read_bare start first b pos (r ∷ []) =
    if r == b'\\'
    then err (trailing_escape (pos + 1))
    else if ends_bare r
    then finish_bare start first b (lexer (r ∷ []) pos)
    else finish_bare start first (b ++ r ∷ []) (lexer [] (pos + 1))
read_bare start first b pos (r ∷ esc ∷ rs) =
    let escaped = read_bare start first (b ++ esc ∷ []) (pos + 2) rs in
    let more = read_bare start first (b ++ r ∷ []) (pos + 1) (esc ∷ rs) in
    if r == b'\\'
    then escaped
    else if ends_bare r
    then finish_bare start first b (lexer (r ∷ esc ∷ rs) pos)
    else more

-- `case '!'` of `readOp`
unfoldable pub read_bang : ℕ → Text → Result (Token × Lexer)
read_bang start [] = err (expected_equals start)
read_bang start (r ∷ rs) =
    if r == b'='
    then ok (token tok_op (codes "!=") start, lexer rs (start + 2))
    else err (expected_equals start)

-- `case '<', '>'` of `readOp`
unfoldable pub read_angle : ℕ → ℕ → Text → Token × Lexer
read_angle start c [] = (token tok_op (c ∷ []) start, lexer [] (start + 1))
read_angle start c (r ∷ rs) =
    if r == b'='
    then (token tok_op (c ∷ b'=' ∷ []) start, lexer rs (start + 2))
    else (token tok_op (c ∷ []) start, lexer (r ∷ rs) (start + 1))

module _ (std : Std) where
  -- `unicode.IsLetter`: written out for Latin-1.
  unfoldable pub is_letter : ℕ → Bool
  is_letter c =
      if ltb 0xff c
      then std.wide_letter c
      else within b'A' b'Z' c
        || within b'a' b'z' c
        || c == 0xaa
        || c == 0xb5
        || c == 0xba
        || within 0xc0 0xd6 c
        || within 0xd8 0xf6 c
        || within 0xf8 0xff c

  -- The loop of `readOp` over the name of "=word=".
  unfoldable pub read_word : ℕ → Text → ℕ → Text → Result (Token × Lexer)
  read_word start name pos [] = err (unterminated_operator start)
  read_word start name pos (r ∷ rs) =
      let more = read_word start (name ++ r ∷ []) (pos + 1) rs in
      if r == b'='
      then ok (token tok_op (b'=' ∷ (name ++ b'=' ∷ [])) start, lexer rs (pos + 1))
      else if not (is_letter r)
      then err (invalid_operator_character pos r)
      else more

  -- '=' : either "==" or "=word="
  unfoldable pub read_equals : ℕ → Text → Result (Token × Lexer)
  read_equals start [] = read_word start [] (start + 1) []
  read_equals start (r ∷ rs) =
      if r == b'='
      then ok (token tok_op (codes "==") start, lexer rs (start + 2))
      else read_word start [] (start + 1) (r ∷ rs)

  -- `readOp`: `c` is `src[start]`, and `rs` stands behind it.
  unfoldable pub read_op : ℕ → ℕ → Text → Result (Token × Lexer)
  read_op start c rs =
      if c == b'!'
      then read_bang start rs
      else if c == b'<' || c == b'>'
      then ok (read_angle start c rs)
      else read_equals start rs

  -- `next` behind the loop over white space.
  unfoldable pub next_at : ℕ → Text → Result (Token × Lexer)
  next_at start [] = ok (token tok_eof [] start, lexer [] start)
  next_at start (r ∷ rs) =
      if r == b'('
      then ok (token tok_lparen (codes "(") start, lexer rs (start + 1))
      else if r == b')'
      then ok (token tok_rparen (codes ")") start, lexer rs (start + 1))
      else if r == b';'
      then ok (token tok_and (codes ";") start, lexer rs (start + 1))
      else if r == b','
      then ok (token tok_or (codes ",") start, lexer rs (start + 1))
      else if r == b'=' || r == b'!' || r == b'<' || r == b'>'
      then read_op start r rs
      else if r == b'"' || r == b'\''
      then read_quoted start r [] (start + 1) rs
      else read_bare start r [] start (r ∷ rs)

  unfoldable pub next : Lexer → Result (Token × Lexer)
  next l = let l' = skip_space l.pos l.rest in next_at l'.pos l'.rest
