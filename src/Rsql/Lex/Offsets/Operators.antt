-- ===== src/Rsql/Lex/Offsets/Operators.antt =====
-- The offsets of the lexer's operators: rsql/lex.go, `readOp`.
use servicekit_go.Base.{
  ℕ, ◌+◌, true, not, ◌||◌, [], ◌∷◌, ◌++◌, Text, codes, length, length-append, append_assoc, ◌==◌,
  ◌≡◌, refl, sym, Bool-cases, inl, inr, subst, arith,
}
use servicekit_go.Rsql.Reports.{Reports, Reports-if}
use servicekit_go.Rsql.Std.{Std}
use servicekit_go.Rsql.Lex.{
  tok_op, token, lexer, read_bang, read_angle, is_letter, read_word, read_equals, read_op,
}
use servicekit_go.Rsql.Lex.Places.{At, At-append, Points, IsRead}

module _ (std : Std) (s : Text) where
  -- An operator that has been read whole.
  op-IsRead :
      (start p : ℕ) (t rs : Text)
      → At s start (t ++ rs)
      → p ≡ start + length t
      → IsRead s start (token tok_op t start, lexer rs p)
  op-IsRead start p t rs h n =
      (refl, (rs, h), subst (λ k. At s k rs) (sym n) (At-append s start t rs h))

  read_bang-Points :
      (start : ℕ) (rs : Text)
      → At s start (b'!' ∷ rs)
      → Reports (Points std s) (IsRead s start) (read_bang start rs)
  unfolding read_bang
  read_bang-Points start [] h = ([], h)
  read_bang-Points start (r ∷ rs) h =
      Reports-if (Points std s) _ (r == b'=') _ _
        (λ eq.
          op-IsRead start (start + 2) (codes "!=") rs
            (subst (λ c. At s start (b'!' ∷ c ∷ rs)) (ground arith) h) refl)
        (λ _. (r ∷ rs, h))

  read_angle-IsRead :
      (start c : ℕ) (rs : Text) → At s start (c ∷ rs) → IsRead s start (read_angle start c rs)
  unfolding read_angle
  read_angle-IsRead start c [] h = op-IsRead start (start + 1) (c ∷ []) [] h refl
  read_angle-IsRead start c (r ∷ rs) h = elim (Bool-cases (r == b'=')) [
    | inl eq ↦ rw eq (
        op-IsRead start (start + 2) (c ∷ b'=' ∷ []) rs
          (subst (λ d. At s start (c ∷ d ∷ rs)) (ground arith) h) refl)
    | inr ne ↦ rw ne (op-IsRead start (start + 1) (c ∷ []) (r ∷ rs) h refl)
  ]

  read_word-Points :
      (start : ℕ) (name : Text) (p : ℕ) (rs : Text)
      → At s start (b'=' ∷ (name ++ rs))
      → p ≡ start + 1 + length name
      → Reports (Points std s) (IsRead s start) (read_word std start name p rs)
  unfolding read_word
  read_word-Points start name p [] h n = (name ++ [], h)
  read_word-Points start name p (r ∷ rs) h n =
      let named : At s start (b'=' ∷ ((name ++ r ∷ []) ++ rs)) =
        subst (λ t. At s start (b'=' ∷ t)) (sym (append_assoc name (r ∷ []) rs)) h in
      Reports-if (Points std s) _ (r == b'=') _ _
        (λ eq.
          op-IsRead start (p + 1) (b'=' ∷ (name ++ b'=' ∷ [])) rs
            (subst (λ c. At s start (b'=' ∷ ((name ++ c ∷ []) ++ rs))) (ground arith) named)
            (omega (arith, length-append name (b'=' ∷ []))))
        (λ _.
          Reports-if (Points std s) _ (not (is_letter std r)) _ _
            (λ other. (
              (
                rs,
                subst (λ k. At s k (r ∷ rs)) (omega arith)
                    (At-append s start (b'=' ∷ name) (r ∷ rs) h),
              ),
              ground arith,
            ))
            (λ _.
              read_word-Points start (name ++ r ∷ []) (p + 1) rs named
                (omega (arith, length-append name (r ∷ [])))))

  read_equals-Points :
      (start : ℕ) (rs : Text)
      → At s start (b'=' ∷ rs)
      → Reports (Points std s) (IsRead s start) (read_equals std start rs)
  unfolding read_equals
  read_equals-Points start [] h = read_word-Points start [] (start + 1) [] h (omega arith)
  read_equals-Points start (r ∷ rs) h =
      Reports-if (Points std s) _ (r == b'=') _ _
        (λ eq.
          op-IsRead start (start + 2) (codes "==") rs
            (subst (λ c. At s start (b'=' ∷ c ∷ rs)) (ground arith) h) refl)
        (λ _. read_word-Points start [] (start + 1) (r ∷ rs) h (omega arith))

  pub read_op-Points :
      (start c : ℕ) (rs : Text)
      → (c == b'=' || c == b'!' || c == b'<' || c == b'>') ≡ true
      → At s start (c ∷ rs)
      → Reports (Points std s) (IsRead s start) (read_op std start c rs)
  unfolding read_op
  read_op-Points start c rs op h =
      Reports-if (Points std s) _ (c == b'!') _ _
        (λ bang. read_bang-Points start rs (subst (λ d. At s start (d ∷ rs)) (ground arith) h))
        (λ no_bang.
          Reports-if (Points std s) _ (c == b'<' || c == b'>') _ _
            (λ _. read_angle-IsRead start c rs h)
            (λ no_angle.
              read_equals-Points start rs (subst (λ d. At s start (d ∷ rs)) (ground arith) h)))
