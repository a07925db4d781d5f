-- ===== src/Rsql/Lex/Words.antt =====
-- The lexer on the pieces that the canonical form writes.
use servicekit_go.Base.{
  ℕ, ◌+◌, Bool, true, false, not, ◌&&◌, [], ◌∷◌, ◌++◌, Text, map, ◌==◌, ◌≡◌, ◌≢◌, refl, sym, ap,
  ◌∙◌, arith, All, append_assoc, append-nil, some, text_eq,
}
use servicekit_go.Rsql.Ast.{operators, lookup}
use servicekit_go.Rsql.Result.{ok}
use servicekit_go.Rsql.Std.{Std}
use servicekit_go.Rsql.Lex.{
  tok_value, tok_op, token, lexer, is_space, is_reserved, ends_bare, skip_space, read_bare,
  finish_bare, read_bang, is_letter, read_word, read_equals, read_op, next_at, next,
}

-- A rune that stands for itself in a bare word.
unfoldable pub is_plain : ℕ → Bool
is_plain r = not (ends_bare r) && not (r == b'\\')

-- A word that can be written bare.
abbrev pub IsBare : Text → Type 0
IsBare s = (s ≢ []) × All (λ r. is_plain r ≡ true) s

-- What may follow a bare word.
abbrev pub Stops : Text → Type 0
Stops [] = Unit
Stops (r ∷ rs) = ends_bare r ≡ true

read_bare-plain :
    (start first : ℕ) (b : Text) (pos r : ℕ) (rs : Text)
    → is_plain r ≡ true
    → read_bare start first b pos (r ∷ rs) ≡ read_bare start first (b ++ r ∷ []) (pos + 1) rs
unfolding read_bare is_plain
read_bare-plain start first b pos r [] h = ground arith
read_bare-plain start first b pos r (e ∷ rs) h = ground arith

ends_bare-backslash : (r : ℕ) → ends_bare r ≡ true → (r == b'\\') ≡ false
unfolding ends_bare is_space is_reserved
ends_bare-backslash r h = ground arith

read_bare-Stops :
    (start first : ℕ) (b : Text) (pos : ℕ) (rs : Text)
    → Stops rs
    → read_bare start first b pos rs ≡ finish_bare start first b (lexer rs pos)
unfolding read_bare
read_bare-Stops start first b pos [] h = refl
read_bare-Stops start first b pos (r ∷ []) h = ground (arith, ends_bare-backslash r)
read_bare-Stops start first b pos (r ∷ e ∷ rs) h = ground (arith, ends_bare-backslash r)

read_bare-All :
    (start first : ℕ) (s : Text) (b : Text) (pos : ℕ) (rest : Text)
    → All (λ r. is_plain r ≡ true) s
    → Stops rest
    → (pos' : ℕ) × (read_bare start first b pos (s ++ rest)
        ≡ finish_bare start first (b ++ s) (lexer rest pos'))
read_bare-All start first [] b pos rest h stops = (
  pos,
  read_bare-Stops start first b pos rest stops
      ∙ ap (λ t. finish_bare start first t (lexer rest pos)) (sym (append-nil b)),
)
read_bare-All start first (r ∷ s) b pos rest h stops =
    let (pos', e) = read_bare-All start first s (b ++ r ∷ []) (pos + 1) rest h.1 stops in
    (
      pos',
      read_bare-plain start first b pos r (s ++ rest) h.0
          ∙ e
          ∙ ap (λ t. finish_bare start first t (lexer rest pos')) (append_assoc b (r ∷ []) s),
    )

module _ (std : Std) where
  -- A plain rune begins a bare word.
  next-plain :
      (r : ℕ) (rs : Text) (pos : ℕ)
      → is_plain r ≡ true
      → next std (lexer (r ∷ rs) pos) ≡ read_bare pos r [] pos (r ∷ rs)
  unfolding next next_at skip_space is_plain ends_bare is_reserved
  next-plain r rs pos h = ground arith

  pub next-IsBare :
      (s : Text) (rest : Text) (pos : ℕ)
      → IsBare s
      → Stops rest
      → (pos' : ℕ) × (next std (lexer (s ++ rest) pos)
          ≡ ok (token tok_value s pos, lexer rest pos'))
  unfolding finish_bare
  next-IsBare [] rest pos h stops = absurd (h.0 refl)
  next-IsBare (r ∷ s) rest pos h stops =
      let (pos', e) = read_bare-All pos r (r ∷ s) [] pos rest h.1 stops in
      (pos', next-plain r (s ++ rest) pos h.1.0 ∙ e)

  -- The canonical operators, and that the table takes each to itself. Each ends a bare word.
  abbrev pub ReadsOp : Text → Type 0
  ReadsOp op =
      (rest : Text) (pos : ℕ)
      → (pos' : ℕ) × (next std (lexer (op ++ rest) pos) ≡ ok (token tok_op op pos, lexer rest pos'))
        × (lookup op operators ≡ some op)
        × Stops (op ++ rest)

  pub next-operators : All ReadsOp (map (λ e. e.1) operators)
  unfolding next next_at skip_space is_space is_reserved ends_bare read_op read_bang read_equals
      read_word is_letter lookup text_eq
  next-operators = (
    λ rest pos. (_, refl, refl, refl),
    (
      λ rest pos. (_, refl, refl, refl),
      (
        λ rest pos. (_, refl, refl, refl),
        (
          λ rest pos. (_, refl, refl, refl),
          (
            λ rest pos. (_, refl, refl, refl),
            (
              λ rest pos. (_, refl, refl, refl),
              (
                λ rest pos. (_, refl, refl, refl),
                (
                  λ rest pos. (_, refl, refl, refl),
                  (
                    λ rest pos. (_, refl, refl, refl),
                    (
                      λ rest pos. (_, refl, refl, refl),
                      (
                        λ rest pos. (_, refl, refl, refl),
                        (
                          λ rest pos. (_, refl, refl, refl),
                          (
                            λ rest pos. (_, refl, refl, refl),
                            (
                              λ rest pos. (_, refl, refl, refl),
                              (λ rest pos. (_, refl, refl, refl), tt),
                            ),
                          ),
                        ),
                      ),
                    ),
                  ),
                ),
              ),
            ),
          ),
        ),
      ),
    ),
  )
