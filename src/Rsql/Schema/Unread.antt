-- ===== src/Rsql/Schema/Unread.antt =====
-- `coerce` of rsql/schema.go names the reason why a text is no value.
use servicekit_go.Base.{
  ℕ, ◌+◌, ◌-◌, ◌*◌, ◌≤◌, Bool, true, false, not, ◌&&◌, List, [], ◌∷◌, Text, contains, within, ltb,
  leb, ◌==◌, Option, none, some, ◌≡◌, ◌≢◌, ◌⊎◌, inl, inr, refl, ap, arith, All, Bool-cases,
  if◌then◌else◌,
}
use servicekit_go.Rsql.Bound.{Kind, Field, Value}
use servicekit_go.Rsql.Coerce.{
  Coerced, max_uint64, cutoff_int64, uint_loop, parse_uint, signed, parse_int, parse_bool,
  read_float, read_time, coerce_kind, coerce, is_empty, tagged, or_error,
}
use servicekit_go.Rsql.Result.{ValueError, bad_syntax, out_of_range, bad_time}
use servicekit_go.Rsql.Schema.Unfit.{
  IsDigit, read_from, unsigned, has_minus, Stops, Floods, NoInt, NoValue, Unfit,
}
use servicekit_go.Rsql.Std.{Std}

-- What holds of the reason, where there is no value.
abbrev pub Refuses {ℓ} : {A : Type ℓ} → (ValueError → Type 0) → Coerced A → Type 0
Refuses P (inl a) = Unit
Refuses P (inr e) = P e

Refuses-tagged {ℓ} :
    {A : Type ℓ} (P : ValueError → Type 0) (f : A → Value) (c : Coerced A)
    → Refuses P c
    → Refuses P (tagged f c)
Refuses-tagged P f (inl a) h = tt
Refuses-tagged P f (inr e) h = h

-- What the loop makes of digits.
abbrev Loops : Text → ℕ → Text → Coerced ℕ → Type 0
Loops raw n cs (inl m) = All IsDigit cs × (m ≡ read_from n cs)
Loops raw n cs (inr e) =
    ((e ≡ bad_syntax raw) × Stops n cs) ⊎ ((e ≡ out_of_range raw) × Floods n cs)

-- One digit more in front.
Loops-digit :
    (raw : Text) (n c : ℕ) (cs : Text) (r : Coerced ℕ)
    → IsDigit c
    → Loops raw (n * 10 + (c - b'0')) cs r
    → Loops raw n (c ∷ cs) r
Loops-digit raw n c cs (inl m) d (all_digits, e) = ((d, all_digits), e)
Loops-digit raw n c cs (inr e) d (inl (is, (front, x, behind, split, digits, no_digit, small))) =
    inl (is, (c ∷ front, x, behind, ap (λ t. c ∷ t) split, (d, digits), no_digit, small))
Loops-digit raw n c cs (inr e) d (inr (is, (front, behind, split, digits, big))) =
    inr (is, (c ∷ front, behind, ap (λ t. c ∷ t) split, (d, digits), big))

uint_loop-Loops :
    (raw : Text) (n : ℕ) (cs : Text) → n ≤ max_uint64 → Loops raw n cs (uint_loop raw n cs)
unfolding uint_loop
uint_loop-Loops raw n [] h = (tt, refl)
uint_loop-Loops raw n (c ∷ cs) h = elim (Bool-cases (within b'0' b'9' c)) [
  | inr e ↦ rw e (inl (refl, ([], c, cs, refl, tt, (λ d. ground arith), h)))
  | inl e ↦ elim (Bool-cases (ltb max_uint64 (n * 10 + (c - b'0')))) [
    | inl big ↦ rw (e, big) (inr (refl, (c ∷ [], cs, refl, (ground arith, tt), ground arith)))
    | inr small ↦
        rw (e, small)
          (Loops-digit raw n c cs _ (ground arith)
            (uint_loop-Loops raw (n * 10 + (c - b'0')) cs (ground arith)))
  ]
]

signed-NoInt :
    (raw : Text) (neg : Bool) (cs : Text) (r : Coerced ℕ)
    → Loops raw 0 cs r
    → Refuses (NoInt raw neg cs) (signed raw neg r)
unfolding signed
signed-NoInt raw neg cs (inr e) (inl (is, stops)) = inl (is, inr stops)
signed-NoInt raw neg cs (inr e) (inr (is, floods)) = inr (is, inl floods)
signed-NoInt raw false cs (inl n) (digits, e) = elim (Bool-cases (leb cutoff_int64 n)) [
  | inl h ↦ rw h (inr (refl, inr (digits, ground (arith, e))))
  | inr h ↦ rw h tt
]
signed-NoInt raw true cs (inl n) (digits, e) = elim (Bool-cases (ltb cutoff_int64 n)) [
  | inl h ↦ rw h (inr (refl, inr (digits, ground (arith, e))))
  | inr h ↦ elim (Bool-cases (n == 0)) [ inl z ↦ rw (h, z) tt | inr z ↦ rw (h, z) tt ]
]

parse_uint-NoInt :
    (raw : Text) (neg : Bool) (cs : Text)
    → Refuses (NoInt raw neg cs) (signed raw neg (parse_uint raw cs))
unfolding parse_uint signed
parse_uint-NoInt raw neg [] = inl (refl, inl refl)
parse_uint-NoInt raw neg (c ∷ cs) =
    signed-NoInt raw neg (c ∷ cs) _ (uint_loop-Loops raw 0 (c ∷ cs) (omega arith))

parse_int-NoInt : (raw : Text) → Refuses (NoInt raw (has_minus raw) (unsigned raw)) (parse_int raw)
unfolding parse_int
parse_int-NoInt [] = inl (refl, inl refl)
parse_int-NoInt (c ∷ cs) = elim (Bool-cases (c == b'+')) [
  | inl e ↦
      let m : (c == b'-') ≡ false = ground arith in rw (e, m) (parse_uint-NoInt (c ∷ cs) false cs)
  | inr e ↦ elim (Bool-cases (c == b'-')) [
    | inl m ↦ rw (e, m) (parse_uint-NoInt (c ∷ cs) true cs)
    | inr m ↦ rw (e, m) (parse_uint-NoInt (c ∷ cs) false (c ∷ cs))
  ]
]

module _ (std : Std) where
  read_float-NoValue : (raw : Text) → Refuses (NoValue std Kind.float raw) (read_float std raw)
  unfolding read_float
  read_float-NoValue raw = go (std.parse_float raw) refl
    where
      go :
          (o : Option ℕ)
          → std.parse_float raw ≡ o
          → Refuses
              (NoValue std Kind.float raw)
              (or_error (if std.float_out_of_range raw then out_of_range raw else bad_syntax raw) o)
      go (some x) h = tt
      go none h = elim (Bool-cases (std.float_out_of_range raw)) [
        | inl e ↦ rw e (h, inr (refl, refl))
        | inr e ↦ rw e (h, inl (refl, refl))
      ]

  read_time-NoValue : (raw : Text) → Refuses (NoValue std Kind.time raw) (read_time std raw)
  unfolding read_time
  read_time-NoValue raw = go (std.parse_time raw) refl
    where
      go :
          (o : Option ℕ)
          → std.parse_time raw ≡ o
          → Refuses (NoValue std Kind.time raw) (or_error (bad_time (std.time_error raw)) o)
      go (some x) h = tt
      go none h = (h, refl)

  parse_bool-NoValue : (raw : Text) → Refuses (NoValue std Kind.bool raw) (parse_bool raw)
  unfolding parse_bool contains
  parse_bool-NoValue raw = ground arith

  coerce_kind-NoValue :
      (k : Kind) (raw : Text) → Refuses (NoValue std k raw) (coerce_kind std k raw)
  unfolding coerce_kind
  coerce_kind-NoValue Kind.string raw = tt
  coerce_kind-NoValue Kind.int raw =
      Refuses-tagged _ Value.int (parse_int raw) (parse_int-NoInt raw)
  coerce_kind-NoValue Kind.float raw =
      Refuses-tagged _ Value.float (read_float std raw) (read_float-NoValue raw)
  coerce_kind-NoValue Kind.bool raw =
      Refuses-tagged _ Value.bool (parse_bool raw) (parse_bool-NoValue raw)
  coerce_kind-NoValue Kind.time raw =
      Refuses-tagged _ Value.time (read_time std raw) (read_time-NoValue raw)
  coerce_kind-NoValue Kind.other raw = refl

  Refuses-mono {ℓ} :
      {A : Type ℓ} (P Q : ValueError → Type 0) (c : Coerced A)
      → ((e : ValueError) → P e → Q e)
      → Refuses P c
      → Refuses Q c
  Refuses-mono P Q (inl a) f h = tt
  Refuses-mono P Q (inr e) f h = f e h

  pub coerce-Unfit : (f : Field) (raw : Text) → Refuses (Unfit std f raw) (coerce std raw f)
  unfolding coerce is_empty
  coerce-Unfit f raw = elim (listed f.enum) [
    | inl (e, ne, unlisted) ↦ rw e (inl (refl, ne, unlisted))
    | inr (e, fits) ↦ rw e (
        Refuses-mono _ _ (coerce_kind std f.kind raw) (λ e h. inr (fits, h))
          (coerce_kind-NoValue f.kind raw))
  ]
    where
      listed :
          (es : List Text)
          → (((not (is_empty es) && not (contains es raw)) ≡ true)
              × (es ≢ [])
              × (contains es raw ≡ false))
            ⊎ (((not (is_empty es) && not (contains es raw)) ≡ false)
                × ((es ≡ []) ⊎ (contains es raw ≡ true)))
      listed [] = inr (refl, inl refl)
      listed (e ∷ es) = elim (Bool-cases (contains (e ∷ es) raw)) [
        | inl h ↦ rw h (inr (refl, inr refl))
        | inr h ↦ rw h (inl (refl, cc, refl))
      ]
