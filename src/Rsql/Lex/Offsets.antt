-- ===== src/Rsql/Lex/Offsets.antt =====
-- The offsets of the lexer: where its tokens and the characters of its errors stand.
mod Values
mod Operators
use servicekit_go.Rsql.Lex.Offsets.Values.{read_quoted-Points, read_bare_first-Points}
use servicekit_go.Rsql.Lex.Offsets.Operators.{read_op-Points}
use mathlib.Core.List.{concat-ne-nil}
use servicekit_go.Base.{
  ℕ, ◌+◌, ◌≤◌, Bool, true, false, not, ◌||◌, [], ◌∷◌, ◌++◌, List, Text, codes, length,
  length-append, append_assoc, ◌==◌, ◌≡◌, ◌≢◌, refl, sym, ap, Bool-cases, inl, inr, ◌∙◌, subst,
  none, arith,
}
use servicekit_go.Rsql.Ast.{operators, lookup}
use servicekit_go.Rsql.Reports.{Reports, Reports-bind, Reports-run, Reports-if}
use servicekit_go.Rsql.Result.{
  Result, ok, Error, expected_equals, unterminated_operator, invalid_operator_character,
  unterminated_quote, trailing_escape, unexpected_character, unexpected_token, expected_rparen,
  expected_selector, expected_operator, unknown_operator, expected_value,
}
use servicekit_go.Rsql.Std.{Std}
use servicekit_go.Rsql.Lex.{
  TokenKind, tok_op, Token, token, Lexer, lexer, is_space, is_reserved, ends_bare, skip_space,
  read_quoted, finish_bare, read_bare, read_bang, read_angle, is_letter, read_word, read_equals,
  read_op, next_at, next,
}
use servicekit_go.Rsql.Lex.Places.{At, Stands, At-append, At-le, Points, Spelled, IsToken, IsRead}

-- No white space comes first.
abbrev Starts : Text → Type 0
Starts [] = Unit
Starts (r ∷ rs) = is_space r ≡ false

-- Of the reserved characters all but one begin a token.
unexpected_tilde :
    (r : ℕ)
    → is_space r ≡ false
    → (r == b'(') ≡ false
    → (r == b')') ≡ false
    → (r == b';') ≡ false
    → (r == b',') ≡ false
    → (r == b'=' || r == b'!' || r == b'<' || r == b'>') ≡ false
    → (r == b'"' || r == b'\'') ≡ false
    → ends_bare r ≡ true
    → r ≡ b'~'
unfolding ends_bare is_reserved
unexpected_tilde r h₀ h₁ h₂ h₃ h₄ h₅ h₆ h₇ = ground arith

module _ (std : Std) (s : Text) where
  skip_space-At :
      (rs : Text) (p : ℕ)
      → At s p rs
      → At s (skip_space p rs).pos (skip_space p rs).rest × Starts (skip_space p rs).rest
  unfolding skip_space
  skip_space-At [] p h = (h, tt)
  skip_space-At (r ∷ rs) p h =
      let rest = skip_space-At rs (p + 1) (At-append s p (r ∷ []) rs h) in
      elim (Bool-cases (is_space r)) [ inl space ↦ rw space rest | inr other ↦ rw other (h, other) ]

  next_at-Points :
      (p : ℕ) (rs : Text)
      → At s p rs
      → Starts rs
      → Reports (Points std s) (IsRead s p) (next_at std p rs)
  unfolding next_at
  next_at-Points p [] h first = (refl, tt, h)
  next_at-Points p (r ∷ rs) h first =
      let step = At-append s p (r ∷ []) rs h in
      Reports-if (Points std s) _ (r == b'(') _ _ (λ _. (refl, tt, step))
        λ h₁.
          Reports-if (Points std s) _ (r == b')') _ _ (λ _. (refl, tt, step))
            λ h₂.
              Reports-if (Points std s) _ (r == b';') _ _ (λ _. (refl, tt, step))
                λ h₃.
                  Reports-if (Points std s) _ (r == b',') _ _ (λ _. (refl, tt, step))
                    λ h₄.
                      Reports-if (Points std s) _ (r == b'=' || r == b'!' || r == b'<' || r == b'>')
                        _ _ (λ op. read_op-Points std s p r rs op h)
                        λ h₅.
                          Reports-if (Points std s) _ (r == b'"' || r == b'\'') _ _
                            (λ quoted.
                              read_quoted-Points std s p r [] (p + 1) rs (r, quoted, (rs, h)) step)
                            (λ h₆.
                              read_bare_first-Points std s r p rs
                                (unexpected_tilde r first h₁ h₂ h₃ h₄ h₅ h₆) h)

  -- The token is read at its offset, too.
  abbrev pub IsPlaced : Token → Type 0
  IsPlaced t = IsToken std s t × Spelled s t.kind t.pos t.text

  skip_space-Starts : (p : ℕ) (rs : Text) → Starts rs → skip_space p rs ≡ lexer rs p
  unfolding skip_space
  skip_space-Starts p [] h = refl
  skip_space-Starts p (r ∷ rs) h = rw h refl

  next-Starts : (p : ℕ) (rs : Text) → Starts rs → next std (lexer rs p) ≡ next_at std p rs
  unfolding next
  next-Starts p rs h = rw (skip_space-Starts p rs h) refl

  token-IsToken :
      (p : ℕ) (rs : Text) (t : Token) (l : Lexer)
      → At s p rs
      → next std (lexer rs p) ≡ ok (t, l)
      → t.pos ≡ p
      → IsToken std s t
  token-IsToken p rs t l h e n = (
    rs,
    l,
    subst (λ k. At s k rs) (sym n) h,
    subst (λ k. next std (lexer rs k) ≡ ok (t, l)) (sym n) e,
  )

  -- From a place in the text the lexer reads a token that stands in it, up to a place in it, or it
  -- names what stands there.
  pub next-Points :
      (l : Lexer)
      → At s l.pos l.rest
      → Reports (Points std s) (λ r. IsPlaced r.0 × At s r.1.pos r.1.rest) (next std l)
  unfolding next
  next-Points l h =
      let p = (skip_space l.pos l.rest).pos in
      let rs = (skip_space l.pos l.rest).rest in
      let (place, first) = skip_space-At l.rest l.pos h in
      Reports-run (Points std s) (IsRead s p) _ (next_at std p rs)
        (λ (t, l') run (n, spelled, rest).
          ((token-IsToken p rs t l' place (next-Starts p rs first ∙ run) n, spelled), rest))
        (next_at-Points p rs place first)
