-- ===== src/Rsql/Lex/Places.antt =====
-- What the errors of rsql/lex.go and rsql/parse.go point at: offsets, and what stands there.
use servicekit_go.Base.{
  ℕ, ◌+◌, ◌≤◌, true, false, ◌||◌, [], ◌∷◌, ◌++◌, Text, codes, length, length-append, append_assoc,
  ◌==◌, ◌≡◌, ◌≢◌, sym, ap, ◌∙◌, none, arith,
}
use servicekit_go.Rsql.Ast.{operators, lookup}
use servicekit_go.Rsql.Result.{
  ok, Error, expected_equals, unterminated_operator, invalid_operator_character, unterminated_quote,
  trailing_escape, unexpected_character, unexpected_token, expected_rparen, expected_selector,
  expected_operator, unknown_operator, expected_value,
}
use servicekit_go.Rsql.Std.{Std}
use servicekit_go.Rsql.Lex.{
  TokenKind, tok_eof, tok_value, tok_rparen, tok_op, Token, token, Lexer, lexer, is_letter, next,
}

-- `src[p:]` is `rs`.
abbrev pub At : Text → ℕ → Text → Type 0
At s p rs = (pre : Text) × (s ≡ pre ++ rs) × (length pre ≡ p)

-- The text `t` stands at the offset `p`.
abbrev pub Stands : Text → ℕ → Text → Type 0
Stands s p t = (post : Text) × At s p (t ++ post)

pub At-append : (s : Text) (p : ℕ) (t rs : Text) → At s p (t ++ rs) → At s (p + length t) rs
At-append s p t rs (pre, e, n) =
    (pre ++ t, e ∙ sym (append_assoc pre t rs), omega (arith, length-append pre t))

pub At-le : (s : Text) (p : ℕ) (rs : Text) → At s p rs → p ≤ length s
At-le s p rs (pre, e, n) = omega (arith, ap length e, length-append pre rs)

-- The token that the lexer reads at its offset.
abbrev pub IsToken : Std → Text → Token → Type 0
IsToken std s t =
    (rs : Text) × (l : Lexer) × At s t.pos rs × (next std (lexer rs t.pos) ≡ ok (t, l))

-- A token stands at the offset `p`, and `wanted` is not its kind.
abbrev pub Other : Std → Text → TokenKind → ℕ → Type 0
Other std s wanted p = (t : Token) × (t.pos ≡ p) × (t.kind ≢ wanted) × IsToken std s t

-- The same, for a token that is spelled out in the message.
abbrev pub OtherText : Std → Text → TokenKind → ℕ → Text → Type 0
OtherText std s wanted p text = (k : TokenKind) × (k ≢ wanted) × IsToken std s (token k text p)

-- What an error of the parser says of its text.
module _ (std : Std) (s : Text) where
  abbrev pub Points : Error → Type 0
  Points (expected_equals p) = Stands s p (codes "!")
  Points (unterminated_operator p) = Stands s p (codes "=")
  Points (invalid_operator_character p r) = Stands s p (r ∷ []) × (is_letter std r ≡ false)
  Points (unterminated_quote p) = (q : ℕ) × ((q == b'"' || q == b'\'') ≡ true) × Stands s p (q ∷ [])
  Points (trailing_escape p) = (pre : Text) × (s ≡ pre ++ codes "\\") × (p ≡ length s)
  Points (unexpected_character p r) = Stands s p (r ∷ []) × (r ≡ b'~')
  Points (unexpected_token p t) = OtherText std s tok_eof p t
  Points (expected_rparen p) = Other std s tok_rparen p
  Points (expected_selector p t) = OtherText std s tok_value p t
  Points (expected_operator p t) = Other std s tok_op p
  Points (unknown_operator p t) = Stands s p t × (lookup t operators ≡ none)
  Points (expected_value p t) = OtherText std s tok_value p t
  Points _ = ⊥

-- What a run of the lexer from `start` read.
module _ (s : Text) where
  -- An operator is spelled as it stands in the text.
  abbrev pub Spelled : TokenKind → ℕ → Text → Type 0
  Spelled tok_op p t = Stands s p t
  Spelled _ p t = Unit

  abbrev pub IsRead : ℕ → Token × Lexer → Type 0
  IsRead start r = (r.0.pos ≡ start) × Spelled r.0.kind r.0.pos r.0.text × At s r.1.pos r.1.rest
