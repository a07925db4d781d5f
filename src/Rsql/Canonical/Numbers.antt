-- ===== src/Rsql/Canonical/Numbers.antt =====
-- The numbers that rsql/canonical.go writes, as `coerce` of rsql/schema.go reads them.
use servicekit_go.Base.{
  ℕ, zero, suc, ◌+◌, ◌*◌, ◌/◌, ◌%◌, ◌≤◌, ◌<◌, true, false, [], ◌∷◌, Text, within, ltb, Bool-cases,
  inl, inr, ◌≡◌, refl, ap, ◌∙◌, arith,
}
use servicekit_go.Base.Int.{ℤ, pos, negsuc, InRange}
use servicekit_go.Rsql.Canonical.{digits, decimal, show_int}
use servicekit_go.Rsql.Coerce.{max_uint64, uint_loop, parse_uint, signed, parse_int}

-- One digit more.
uint_loop-digit :
    (raw acc : Text) (m d : ℕ)
    → d < 10
    → m * 10 + d ≤ max_uint64
    → uint_loop raw m ((b'0' + d) ∷ acc) ≡ uint_loop raw (m * 10 + d) acc
unfolding uint_loop
uint_loop-digit raw acc m d small fits = ground arith

uint_loop-digits :
    (raw acc : Text) (f n : ℕ)
    → n < f
    → n ≤ max_uint64
    → uint_loop raw 0 (digits f n acc) ≡ uint_loop raw n acc
unfolding digits
uint_loop-digits raw acc zero n h fits = absurd (omega arith)
uint_loop-digits raw acc (suc f) n h fits = elim (Bool-cases (ltb n 10)) [
  | inl e ↦ rw e (
      uint_loop-digit raw acc 0 n (ground arith) (ground arith)
      ∙ ap (λ m. uint_loop raw m acc) (omega arith))
  | inr e ↦ rw e (
      uint_loop-digits raw ((b'0' + n % 10) ∷ acc) f (n / 10) (ground arith) (omega arith)
      ∙ uint_loop-digit raw acc (n / 10) (n % 10) (omega arith) (omega arith)
      ∙ ap (λ m. uint_loop raw m acc) (omega arith))
]

-- A written number begins with a digit.
digits-cons :
    (f n c : ℕ) (acc : Text)
    → within b'0' b'9' c ≡ true
    → (d : ℕ) × (cs : Text) × (digits f n (c ∷ acc) ≡ d ∷ cs) × (within b'0' b'9' d ≡ true)
unfolding digits
digits-cons zero n c acc h = (c, acc, refl, h)
digits-cons (suc f) n c acc h = elim (Bool-cases (ltb n 10)) [
  | inl e ↦ (b'0' + n, c ∷ acc, rw e refl, ground arith)
  | inr e ↦
      let (d, cs, g, k) = digits-cons f (n / 10) (b'0' + n % 10) (c ∷ acc) (ground arith) in
      (d, cs, rw e g, k)
]

decimal-cons : (n : ℕ) → (c : ℕ) × (cs : Text) × (decimal n ≡ c ∷ cs) × (within b'0' b'9' c ≡ true)
unfolding decimal digits
decimal-cons n = elim (Bool-cases (ltb n 10)) [
  | inl e ↦ (b'0' + n, [], rw e refl, ground arith)
  | inr e ↦
      let (d, cs, g, k) = digits-cons n (n / 10) (b'0' + n % 10) [] (ground arith) in
      (d, cs, rw e g, k)
]

parse_uint-cons : (raw t cs : Text) (c : ℕ) → t ≡ c ∷ cs → parse_uint raw t ≡ uint_loop raw 0 t
unfolding parse_uint
parse_uint-cons raw t cs c e = rw e refl

parse_uint-decimal : (raw : Text) (n : ℕ) → n ≤ max_uint64 → parse_uint raw (decimal n) ≡ inl n
unfolding decimal uint_loop
parse_uint-decimal raw n fits =
    let (c, cs, e, _) = decimal-cons n in
    parse_uint-cons raw (decimal n) cs c e ∙ uint_loop-digits raw [] (suc n) n (omega arith) fits

parse_int-unsigned :
    (t cs : Text) (c : ℕ)
    → t ≡ c ∷ cs
    → within b'0' b'9' c ≡ true
    → parse_int t ≡ signed t false (parse_uint t t)
unfolding parse_int
parse_int-unsigned t cs c e h = rw e (ground (arith, h))

-- An int64 is read back from its text.
pub parse_int-show_int : (n : ℤ) → InRange n → parse_int (show_int n) ≡ inl n
unfolding show_int parse_int signed
parse_int-show_int (pos n) h =
    let (c, cs, e, k) = decimal-cons n in
    parse_int-unsigned (decimal n) cs c e k
    ∙ ap (signed (decimal n) false) (parse_uint-decimal (decimal n) n (omega arith))
    ∙ ground arith
parse_int-show_int (negsuc n) h = rw (parse_uint-decimal _ (suc n) (omega arith)) (ground arith)
