-- ===== src/Rsql/Canonical/Quote.antt =====
-- The lexer reads a written value back.
use mathlib.Core.Bool.{false≢true}
use servicekit_go.Base.{
  ℕ, ◌+◌, true, false, ◌||◌, [], ◌∷◌, ◌++◌, Text, ◌==◌, Bool-cases, ◌⊎◌, inl, inr, ◌≡◌, refl, sym,
  ap, ◌∙◌, arith, append_assoc, append-nil,
}
use servicekit_go.Rsql.Result.{ok}
use servicekit_go.Rsql.Std.{Std}
use servicekit_go.Rsql.Lex.{
  tok_value, token, lexer, is_space, skip_space, read_quoted, next_at, next,
}
use servicekit_go.Rsql.Lex.Words.{IsBare, Stops, next-IsBare}
use servicekit_go.Rsql.Canonical.{is_special, escape, quote}

-- A string that the canonical form can write: it is quoted, or it can stand bare.
abbrev pub IsWritable : Text → Type 0
IsWritable s = (is_special s ≡ true) ⊎ IsBare s

read_quoted-other :
    (start q : ℕ) (b : Text) (pos r : ℕ) (rs : Text)
    → (r == b'\\') ≡ false
    → (r == q) ≡ false
    → read_quoted start q b pos (r ∷ rs) ≡ read_quoted start q (b ++ r ∷ []) (pos + 1) rs
unfolding read_quoted
read_quoted-other start q b pos r [] h g = ground arith
read_quoted-other start q b pos r (e ∷ rs) h g = ground arith

read_quoted-end :
    (start : ℕ) (b : Text) (pos : ℕ) (rest : Text)
    → read_quoted start b'"' b pos (b'"' ∷ rest)
      ≡ ok (token tok_value b start, lexer rest (pos + 1))
unfolding read_quoted
read_quoted-end start b pos [] = refl
read_quoted-end start b pos (r ∷ rest) = refl

read_quoted-escape :
    (start : ℕ) (s b : Text) (pos : ℕ) (rest : Text)
    → (pos' : ℕ) × (read_quoted start b'"' b pos (escape s ++ (b'"' ∷ rest))
        ≡ ok (token tok_value (b ++ s) start, lexer rest pos'))
unfolding escape read_quoted
read_quoted-escape start [] b pos rest = (
  pos + 1,
  read_quoted-end start b pos rest
      ∙ ap (λ t. ok (token tok_value t start, lexer rest (pos + 1))) (sym (append-nil b)),
)
read_quoted-escape start (c ∷ s) b pos rest = elim (Bool-cases (c == b'\\' || c == b'"')) [
  | inl e ↦
      let (pos', h) = read_quoted-escape start s (b ++ c ∷ []) (pos + 2) rest in
      (pos', rw e (h ∙ rw append_assoc))
  | inr e ↦
      let (pos', h) = read_quoted-escape start s (b ++ c ∷ []) (pos + 1) rest in
      (
        pos',
        rw e (
            read_quoted-other start b'"' b pos c _ (ground arith) (ground arith)
            ∙ h
            ∙ rw append_assoc),
      )
]

IsBare-IsWritable : (s : Text) → IsWritable s → is_special s ≡ false → IsBare s
IsBare-IsWritable s (inl special) e = absurd (false≢true (sym e ∙ special))
IsBare-IsWritable s (inr bare) e = bare

module _ (std : Std) where
  next_quote :
      (rs : Text) (pos : ℕ)
      → next std (lexer (b'"' ∷ rs) pos) ≡ read_quoted pos b'"' [] (pos + 1) rs
  unfolding next next_at skip_space is_space
  next_quote rs pos = refl

  -- The lexer reads a written string back, whatever runes it holds, as one value, in front of
  -- anything that ends a word.
  pub next-quote :
      (s rest : Text) (pos : ℕ)
      → IsWritable s
      → Stops rest
      → (pos' : ℕ) × (next std (lexer (quote s ++ rest) pos)
          ≡ ok (token tok_value s pos, lexer rest pos'))
  unfolding quote
  next-quote s rest pos w stops = elim (Bool-cases (is_special s)) [
    | inl e ↦
        let (pos', h) = read_quoted-escape pos s [] (pos + 1) rest in
        (pos', rw e (next_quote _ pos ∙ rw append_assoc h))
    | inr e ↦ rw e (next-IsBare std s rest pos (IsBare-IsWritable s w e) stops)
  ]
