-- ===== src/Rsql/Lex/Offsets/Values.antt =====
-- The offsets of the lexer's values: rsql/lex.go, `readQuoted` and `readBare`.
use mathlib.Core.List.{concat-ne-nil}
use servicekit_go.Base.{
  ℕ, ◌+◌, true, [], ◌∷◌, ◌++◌, Text, length, length-append, ◌==◌, ◌≡◌, ◌≢◌, refl, ap, ◌∙◌, arith,
}
use servicekit_go.Rsql.Reports.{Reports, Reports-if}
use servicekit_go.Rsql.Result.{unterminated_quote, trailing_escape}
use servicekit_go.Rsql.Std.{Std}
use servicekit_go.Rsql.Lex.{Lexer, lexer, ends_bare, read_quoted, finish_bare, read_bare}
use servicekit_go.Rsql.Lex.Places.{At, At-append, Points, IsRead}

module _ (std : Std) (s : Text) where
  trailing_escape-Points :
      (p r : ℕ) → (r == b'\\') ≡ true → At s p (r ∷ []) → Points std s (trailing_escape (p + 1))
  trailing_escape-Points p r h (pre, e, n) =
      let is_backslash : r ≡ b'\\' = ground arith in
      (
        pre,
        e ∙ ap (λ c. pre ++ c ∷ []) is_backslash,
        omega (arith, ap length e, length-append pre (r ∷ [])),
      )

  pub read_quoted-Points :
      (start q : ℕ) (b : Text) (p : ℕ) (rs : Text)
      → Points std s (unterminated_quote start)
      → At s p rs
      → Reports (Points std s) (IsRead s start) (read_quoted start q b p rs)
  unfolding read_quoted
  read_quoted-Points start q b p [] open_quote h = open_quote
  read_quoted-Points start q b p (r ∷ []) open_quote h =
      Reports-if (Points std s) _ (r == b'\\') _ _ (λ escape. trailing_escape-Points p r escape h)
        (λ _.
          Reports-if (Points std s) _ (r == q) _ _ (λ _. (refl, tt, At-append s p (r ∷ []) [] h))
            (λ _. open_quote))
  read_quoted-Points start q b p (r ∷ e ∷ rs) open_quote h =
      Reports-if (Points std s) _ (r == b'\\') _ _
        (λ _.
          read_quoted-Points start q (b ++ e ∷ []) (p + 2) rs open_quote
            (At-append s p (r ∷ e ∷ []) rs h))
        (λ _.
          Reports-if (Points std s) _ (r == q) _ _
            (λ _. (refl, tt, At-append s p (r ∷ []) (e ∷ rs) h))
            (λ _.
              read_quoted-Points start q (b ++ r ∷ []) (p + 1) (e ∷ rs) open_quote
                (At-append s p (r ∷ []) (e ∷ rs) h)))

  finish_bare-Points :
      (start first : ℕ) (b : Text) (l : Lexer)
      → b ≢ []
      → At s l.pos l.rest
      → Reports (Points std s) (IsRead s start) (finish_bare start first b l)
  unfolding finish_bare
  finish_bare-Points start first [] l ne h = absurd (ne refl)
  finish_bare-Points start first (c ∷ b) l ne h = (refl, tt, h)

  read_bare-Points :
      (start first : ℕ) (b : Text) (p : ℕ) (rs : Text)
      → b ≢ []
      → At s p rs
      → Reports (Points std s) (IsRead s start) (read_bare start first b p rs)
  unfolding read_bare
  read_bare-Points start first b p [] ne h = finish_bare-Points start first b (lexer [] p) ne h
  read_bare-Points start first b p (r ∷ []) ne h =
      Reports-if (Points std s) _ (r == b'\\') _ _ (λ escape. trailing_escape-Points p r escape h)
        (λ _.
          Reports-if (Points std s) _ (ends_bare r) _ _
            (λ _. finish_bare-Points start first b (lexer (r ∷ []) p) ne h)
            (λ _.
              finish_bare-Points start first (b ++ r ∷ []) (lexer [] (p + 1)) (concat-ne-nil r b)
                (At-append s p (r ∷ []) [] h)))
  read_bare-Points start first b p (r ∷ e ∷ rs) ne h =
      Reports-if (Points std s) _ (r == b'\\') _ _
        (λ _.
          read_bare-Points start first (b ++ e ∷ []) (p + 2) rs (concat-ne-nil e b)
            (At-append s p (r ∷ e ∷ []) rs h))
        (λ _.
          Reports-if (Points std s) _ (ends_bare r) _ _
            (λ _. finish_bare-Points start first b (lexer (r ∷ e ∷ rs) p) ne h)
            (λ _.
              read_bare-Points start first (b ++ r ∷ []) (p + 1) (e ∷ rs) (concat-ne-nil r b)
                (At-append s p (r ∷ []) (e ∷ rs) h)))

  -- The first round of the loop: only there can the word be empty at its end.
  pub read_bare_first-Points :
      (r : ℕ) (p : ℕ) (rs : Text)
      → (ends_bare r ≡ true → r ≡ b'~')
      → At s p (r ∷ rs)
      → Reports (Points std s) (IsRead s p) (read_bare p r [] p (r ∷ rs))
  unfolding read_bare finish_bare
  read_bare_first-Points r p [] tilde h =
      Reports-if (Points std s) _ (r == b'\\') _ _ (λ escape. trailing_escape-Points p r escape h)
        (λ _.
          Reports-if (Points std s) _ (ends_bare r) _ _ (λ ends. (([], h), tilde ends))
            (λ _. (refl, tt, At-append s p (r ∷ []) [] h)))
  read_bare_first-Points r p (e ∷ rs) tilde h =
      Reports-if (Points std s) _ (r == b'\\') _ _
        (λ _. read_bare-Points p r (e ∷ []) (p + 2) rs (cc) (At-append s p (r ∷ e ∷ []) rs h))
        (λ _.
          Reports-if (Points std s) _ (ends_bare r) _ _ (λ ends. ((e ∷ rs, h), tilde ends))
            (λ _.
              read_bare-Points p r (r ∷ []) (p + 1) (e ∷ rs) (cc)
                (At-append s p (r ∷ []) (e ∷ rs) h)))
