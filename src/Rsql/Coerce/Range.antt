-- ===== src/Rsql/Coerce/Range.antt =====
-- The range of the integers that `coerce` accepts.
use servicekit_go.Base.{
  ℕ, Bool, true, false, [], ◌∷◌, Text, ltb, leb, ◌==◌, inl, inr, ◌≡◌, arith, Bool-cases, subst,
}
use servicekit_go.Base.Int.{ℤ, InRange}
use servicekit_go.Rsql.Coerce.{Coerced, cutoff_int64, parse_uint, signed, parse_int}

-- An integer that was read fits an int64.
abbrev Fits : Coerced ℤ → Type 0
Fits (inl n) = InRange n
Fits (inr e) = Unit

signed-Fits : (raw : Text) (neg : Bool) (c : Coerced ℕ) → Fits (signed raw neg c)
unfolding signed
signed-Fits raw neg (inr e) = tt
signed-Fits raw false (inl n) = elim (Bool-cases (leb cutoff_int64 n)) [
  | inl e ↦ rw e tt
  | inr e ↦ rw e (ground arith)
]
signed-Fits raw true (inl n) = elim (Bool-cases (ltb cutoff_int64 n)) [
  | inl e ↦ rw e tt
  | inr e ↦ elim (Bool-cases (n == 0)) [
    | inl z ↦ rw (e, z) (omega arith)
    | inr z ↦ rw (e, z) (ground arith)
  ]
]

parse_int-Fits : (raw : Text) → Fits (parse_int raw)
unfolding parse_int
parse_int-Fits [] = tt
parse_int-Fits (c ∷ cs) = elim (Bool-cases (c == b'+')) [
  | inl e ↦ rw e (signed-Fits (c ∷ cs) false (parse_uint (c ∷ cs) cs))
  | inr e ↦ elim (Bool-cases (c == b'-')) [
    | inl m ↦ rw (e, m) (signed-Fits (c ∷ cs) true (parse_uint (c ∷ cs) cs))
    | inr m ↦ rw (e, m) (signed-Fits (c ∷ cs) false (parse_uint (c ∷ cs) (c ∷ cs)))
  ]
]

pub parse_int-InRange : (raw : Text) (n : ℤ) → parse_int raw ≡ inl n → InRange n
parse_int-InRange raw n h = subst Fits h (parse_int-Fits raw)
