-- ===== src/Rsql/Print/From.antt =====
-- Runs of the parser over a printed piece, with any text behind it and any method after it.
use mathlib.Core.Path.{fun_ext}
use servicekit_go.Base.{
  ℕ, zero, suc, ◌+◌, ◌≤◌, ◌<◌, List, [], ◌∷◌, ◌++◌, map, Text, codes, join, length, ◌≡◌, ◌≢◌, refl,
  ap, ◌∙◌, arith, All, append_assoc,
}
use servicekit_go.Rsql.Canonical.{quote}
use servicekit_go.Rsql.Canonical.Quote.{IsWritable, next-quote}
use servicekit_go.Rsql.Lex.{
  TokenKind, tok_eof, tok_value, tok_op, tok_lparen, tok_rparen, tok_and, tok_or, Token, token,
  Lexer, lexer, is_space, is_reserved, ends_bare, skip_space, next_at, next,
}
use servicekit_go.Rsql.Lex.Words.{Stops}
use servicekit_go.Rsql.Method.{pure, ◌>>=◌}
use servicekit_go.Rsql.Parse.{Parser, M, kind_eq, advance, argument_loop, parse_arguments, close}
use servicekit_go.Rsql.Print.{print_args}
use servicekit_go.Rsql.Result
use servicekit_go.Rsql.Result.{Result, ok, err, out_of_fuel}
use servicekit_go.Rsql.Std.{Std}

-- The kind of the token at the front of a text that may stand behind an operand.
abbrev pub Follows : TokenKind → Text → Type 0
Follows tok_eof rest = rest ≡ []
Follows tok_and rest = (r : Text) × (rest ≡ b';' ∷ r)
Follows tok_or rest = (r : Text) × (rest ≡ b',' ∷ r)
Follows tok_rparen rest = (r : Text) × (rest ≡ b')' ∷ r)
Follows _ rest = ⊥

pub Follows-Stops : (k : TokenKind) (rest : Text) → Follows k rest → Stops rest
unfolding ends_bare is_reserved is_space
Follows-Stops tok_eof rest e = rw e tt
Follows-Stops tok_and rest (r, e) = rw e refl
Follows-Stops tok_or rest (r, e) = rw e refl
Follows-Stops tok_rparen rest (r, e) = rw e refl
Follows-Stops tok_value rest h = absurd h
Follows-Stops tok_op rest h = absurd h
Follows-Stops tok_lparen rest h = absurd h

bind_assoc {ℓ κ μ} :
    {A : Type ℓ} {B : Type κ} {C : Type μ} (r : Result (A × Parser)) (f : A → M B) (k : B → M C)
    → Result.◌>>=◌ (Result.◌>>=◌ r (λ (a, p). f a p)) (λ (b, p). k b p)
      ≡ Result.◌>>=◌ r (λ (a, p). (f a >>= k) p)
bind_assoc (ok r) f k = refl
bind_assoc (err e) f k = refl
bind_assoc out_of_fuel f k = refl

module _ (std : Std) where
  -- A method that is called once the next token of the text has been read.
  abbrev pub from {ℓ} : {A : Type ℓ} → Text → ℕ → M A → Result (A × Parser)
  from s pos m = Result.◌>>=◌ (next std (lexer s pos)) (λ (t, l). m (record { lex = l; tok = t }))

  pub advance_from {ℓ} :
      {B : Type ℓ} (p : Parser) (k : Unit {0} → M B)
      → (advance std >>= k) p ≡ from p.lex.rest p.lex.pos (k tt)
  unfolding advance
  advance_from p k = go (next std p.lex)
    where
      go :
          (r : Result (Token × Lexer))
          → Result.◌>>=◌
              (Result.◌>>=◌ r (λ (t, l). ok (tt, record { lex = l; tok = t })))
              (λ (a, q). k a q)
            ≡ Result.◌>>=◌ r (λ (t, l). k tt (record { lex = l; tok = t }))
      go (ok r) = refl
      go (err e) = refl
      go out_of_fuel = refl

  pub next-Follows :
      (k : TokenKind) (rest : Text) (pos : ℕ)
      → Follows k rest
      → (t : Token) × (l : Lexer) × (next std (lexer rest pos) ≡ ok (t, l)) × (t.kind ≡ k)
  unfolding next next_at skip_space is_space
  next-Follows tok_eof rest pos e = rw e (_, _, refl, refl)
  next-Follows tok_and rest pos (r, e) = rw e (_, _, refl, refl)
  next-Follows tok_or rest pos (r, e) = rw e (_, _, refl, refl)
  next-Follows tok_rparen rest pos (r, e) = rw e (_, _, refl, refl)
  next-Follows tok_value rest pos h = absurd h
  next-Follows tok_op rest pos h = absurd h
  next-Follows tok_lparen rest pos h = absurd h

  pub advance_then {ℓ κ} :
      {A : Type ℓ} {B : Type κ} (p : Parser) (f : Unit {0} → M A) (k : A → M B)
      → ((advance std >>= f) >>= k) p ≡ from p.lex.rest p.lex.pos (f tt >>= k)
  advance_then p f k = bind_assoc (advance std p) f k ∙ advance_from p (λ u. f u >>= k)

  pub from_assoc {ℓ κ μ} :
      {A : Type ℓ} {B : Type κ} {C : Type μ} (s : Text) (pos : ℕ) (m : M A) (f : A → M B)
      (k : B → M C)
      → from s pos ((m >>= f) >>= k) ≡ from s pos (m >>= (λ a. f a >>= k))
  from_assoc s pos m f k = ap (from s pos) (fun_ext (λ p. bind_assoc (m p) f k))

  -- The values behind the first, and the end of the list.
  abbrev more_args : List Text → Text → Text
  more_args [] rest = b')' ∷ rest
  more_args (a ∷ bs) rest = b',' ∷ (quote a ++ more_args bs rest)

  pub next-rparen :
      (rest : Text) (pos : ℕ)
      → next std (lexer (b')' ∷ rest) pos)
        ≡ ok (token tok_rparen (codes ")") pos, lexer rest (pos + 1))
  unfolding next next_at skip_space is_space
  next-rparen rest pos = refl

  pub next-lparen :
      (rest : Text) (pos : ℕ)
      → next std (lexer (b'(' ∷ rest) pos)
        ≡ ok (token tok_lparen (codes "(") pos, lexer rest (pos + 1))
  unfolding next next_at skip_space is_space
  next-lparen rest pos = refl

  pub next-comma :
      (rest : Text) (pos : ℕ)
      → next std (lexer (b',' ∷ rest) pos) ≡ ok (token tok_or (codes ",") pos, lexer rest (pos + 1))
  unfolding next next_at skip_space is_space
  next-comma rest pos = refl

  pub next-semicolon :
      (rest : Text) (pos : ℕ)
      → next std (lexer (b';' ∷ rest) pos)
        ≡ ok (token tok_and (codes ";") pos, lexer rest (pos + 1))
  unfolding next next_at skip_space is_space
  next-semicolon rest pos = refl

  pub from-next {ℓ} :
      {A : Type ℓ} (s : Text) (pos : ℕ) (t : Token) (l : Lexer) (m : M A)
      → next std (lexer s pos) ≡ ok (t, l)
      → from s pos m ≡ m (record { lex = l; tok = t })
  from-next s pos t l m e = rw e

  more_args-Stops : (bs : List Text) (rest : Text) → Stops (more_args bs rest)
  unfolding ends_bare is_reserved is_space
  more_args-Stops [] rest = refl
  more_args-Stops (b ∷ bs) rest = refl

  -- The loop over the values of a list stops at the parenthesis.
  argument_loop-print {ℓ} :
      {B : Type ℓ} (f : ℕ) (acc : List Text) (a : Text) (bs : List Text) (rest : Text) (pos : ℕ)
      → length bs < f
      → IsWritable a
      → All IsWritable bs
      → (pos' : ℕ) × ((k : List Text → M B)
          → from (quote a ++ more_args bs rest) pos (argument_loop std f acc >>= k)
            ≡ from (b')' ∷ rest) pos' (k (acc ++ a ∷ bs)))
  unfolding argument_loop kind_eq
  argument_loop-print zero acc a bs rest pos h w ws = absurd (omega arith)
  argument_loop-print (suc f) acc a [] rest pos h w ws =
      let (pos₁, e) = next-quote std a (b')' ∷ rest) pos w (more_args-Stops [] rest) in
      (
        pos₁,
        λ k.
            from-next _ pos _ _ (argument_loop std (suc f) acc >>= k) e
            ∙ advance_then _ _ k
            ∙ rw (next-rparen rest pos₁),
      )
  argument_loop-print {B} (suc f) acc a (b ∷ bs) rest pos h w ws =
      let text = quote b ++ more_args bs rest in
      let (pos₁, e) = next-quote std a (b',' ∷ text) pos w (more_args-Stops (b ∷ bs) rest) in
      let (pos₂, ih) =
        argument_loop-print {B = B} f (acc ++ a ∷ []) b bs rest (pos₁ + 1) (omega arith) ws.0
          ws.1 in
      (
        pos₂,
        λ k.
            from-next _ pos _ _ (argument_loop std (suc f) acc >>= k) e
            ∙ advance_then _ _ k
            ∙ rw (next-comma text pos₁) (
                advance_then
                  (record { lex = lexer text (pos₁ + 1); tok = token tok_or (codes ",") pos₁ })
                  (λ _. argument_loop std f (acc ++ a ∷ [])) k
                ∙ ih k
                ∙ rw append_assoc),
      )

  join-more_args :
      (a : Text) (bs : List Text) (rest : Text)
      → join (map quote (a ∷ bs)) (codes ",") ++ (b')' ∷ rest) ≡ quote a ++ more_args bs rest
  unfolding join
  join-more_args a [] rest = refl
  join-more_args a (b ∷ bs) rest =
      append_assoc (quote a) _ _ ∙ ap (λ t. quote a ++ (b',' ∷ t)) (join-more_args b bs rest)

  -- The parser reads printed values back, in front of anything that ends a word.
  pub parse_arguments-print {ℓ} :
      {B : Type ℓ} (f : ℕ) (args : List Text) (rest : Text) (pos : ℕ)
      → length args ≤ f
      → args ≢ []
      → All IsWritable args
      → Stops rest
      → (pos' : ℕ) × ((k : List Text → M B)
          → from (print_args args ++ rest) pos (parse_arguments std f >>= k)
            ≡ from rest pos' (k args))
  unfolding parse_arguments kind_eq close print_args
  parse_arguments-print f [] rest pos h ne ws stops = absurd (ne refl)
  parse_arguments-print f (a ∷ []) rest pos h ne ws stops =
      let (pos₁, e) = next-quote std a rest pos ws.0 stops in
      (pos₁, λ k. from-next _ pos _ _ (parse_arguments std f >>= k) e ∙ advance_then _ _ k)
  parse_arguments-print {B} f (a ∷ b ∷ bs) rest pos h ne ws stops =
      let (pos₁, loop) =
        argument_loop-print {B = B} f [] a (b ∷ bs) rest (pos + 1) (omega arith) ws.0 ws.1 in
      (
        pos₁ + 1,
        λ k.
            from-next _ pos _ _ (parse_arguments std f >>= k) (next-lparen _ pos)
            ∙ advance_then _ _ k
            ∙ ap (λ t. from t (pos + 1) ((argument_loop std f [] >>= close std) >>= k))
                (append_assoc (join (map quote (a ∷ b ∷ bs)) (codes ",")) (b')' ∷ []) rest
                  ∙ join-more_args a (b ∷ bs) rest)
            ∙ from_assoc _ (pos + 1) (argument_loop std f []) (close std) k
            ∙ loop _
            ∙ rw (next-rparen rest pos₁) (
                advance_then
                  (record { lex = lexer rest (pos₁ + 1); tok = token tok_rparen (codes ")") pos₁ })
                  (λ _. pure (a ∷ b ∷ bs)) k),
      )
