-- ===== src/Money/Currency.antt =====
-- The currencies that `New` accepts.
use servicekit_go.Base.{
  ℕ, ◌≤◌, true, false, [], ◌∷◌, Text, all, length, ◌⊎◌, inl, inr, ◌≡◌, ◌≢◌, refl, ap, sym, ◌∙◌,
  arith, Bool-cases,
}
use servicekit_go.Rsql.Lex.{is_space}
use servicekit_go.Strings.{trim_left, trim_right, trim_space, keep_unless_space}
use servicekit_go.Money
use servicekit_go.Money.{
  Decimals, rune_bytes, byte_length, is_currency_rune, valid_currency, upper_rune, to_upper, new,
}

byte_length-all : (c : Text) → all is_currency_rune c ≡ true → byte_length c ≡ length c
unfolding byte_length rune_bytes is_currency_rune
byte_length-all [] h = refl
byte_length-all (r ∷ c) h = ground (arith, byte_length-all c)

is_currency_rune-space : (r : ℕ) → is_currency_rune r ≡ true → is_space r ≡ false
unfolding is_currency_rune is_space
is_currency_rune-space r h = ground arith

trim_right-all : (c : Text) → all is_currency_rune c ≡ true → trim_right c ≡ c
unfolding trim_right keep_unless_space
trim_right-all [] h = refl
trim_right-all (r ∷ []) h = rw (is_currency_rune-space r (ground arith)) refl
trim_right-all (r ∷ s ∷ c) h = rw (trim_right-all (s ∷ c) (ground arith)) refl

trim_left-all : (c : Text) → all is_currency_rune c ≡ true → trim_left c ≡ c
unfolding trim_left
trim_left-all [] h = refl
trim_left-all (r ∷ c) h = rw (is_currency_rune-space r (ground arith)) refl

trim_space-all : (c : Text) → all is_currency_rune c ≡ true → trim_space c ≡ c
unfolding trim_space
trim_space-all c h = ap trim_left (trim_right-all c h) ∙ trim_left-all c h

sides_differ {ℓ κ} : {A : Type ℓ} {B : Type κ} {a : A} {b : B} → inr b ≢ inl a
sides_differ e = cc

module _ (d : Decimals) where
  to_upper-all : (c : Text) → all is_currency_rune c ≡ true → to_upper d c ≡ c
  unfolding to_upper upper_rune is_currency_rune
  to_upper-all [] h = refl
  to_upper-all (r ∷ c) h = ground (arith, to_upper-all c)

  valid_currency-all : (c : Text) → valid_currency c ≡ true → all is_currency_rune c ≡ true
  unfolding valid_currency
  valid_currency-all c h = ground arith

  valid_currency-eq-true :
      (c : Text)
      → valid_currency c ≡ true
      → (all is_currency_rune c ≡ true) × (3 ≤ length c) × (length c ≤ 5)
  unfolding valid_currency
  valid_currency-eq-true c h = (
    valid_currency-all c h,
    ground (arith, valid_currency-all c h, byte_length-all c),
    ground (arith, valid_currency-all c h, byte_length-all c),
  )

  -- Three to five characters, each a capital letter or a digit.
  abbrev pub IsCode : Text → Type 0
  IsCode c = (all is_currency_rune c ≡ true) × (3 ≤ length c) × (length c ≤ 5)

  valid_currency-IsCode : (c : Text) → IsCode c → valid_currency c ≡ true
  unfolding valid_currency
  valid_currency-IsCode c h = ground (arith, byte_length-all c h.0)

  abbrev money_or : Money.Money d → Money.Money d ⊎ Text → Money.Money d
  money_or m (inl n) = n
  money_or m (inr e) = m

  -- `New` gives a currency of three to five characters, each a capital letter or a digit, keeps the
  -- amount, and accepts that currency again, with any amount, as it is.
  new-currency :
      (amount other : d.Decimal) (currency : Text) (m : Money.Money d)
      → new d amount currency ≡ inl m
      → (m.amount ≡ amount)
        × (all is_currency_rune m.currency ≡ true)
        × (3 ≤ length m.currency)
        × (length m.currency ≤ 5)
        × (new d other m.currency ≡ inl (record m { amount = other }))
  unfolding new
  new-currency amount other currency m h =
      elim (Bool-cases (valid_currency (to_upper d (trim_space currency)))) [
        | inr v ↦ absurd (sides_differ (rw v at h))
        | inl v ↦
            let e = ap (money_or m) (rw v at h) in
            let (al, low, high) = valid_currency-eq-true (to_upper d (trim_space currency)) v in
            let same =
              ap (to_upper d) (trim_space-all (to_upper d (trim_space currency)) al)
              ∙ to_upper-all (to_upper d (trim_space currency)) al in
            rw (sym e) (refl, al, low, high, rw (same, v) refl)
      ]

  -- What `New` may return, where `c` is the currency trimmed and in capitals.
  abbrev pub Outcome : d.Decimal → Text → Money.Money d ⊎ Text → Type 0
  Outcome amount c (inl m) =
      (m.amount ≡ amount) × (m.currency ≡ c) × IsCode c × (new d amount m.currency ≡ inl m)
  Outcome amount c (inr e) = (e ≡ c) × (¬ IsCode c)

  -- `New` trims the currency and puts it in capitals. It accepts what is then three to five
  -- characters, each a capital letter or a digit, keeps the amount, whatever its sign, and takes that
  -- currency again as it is; of any other it gives the error, which names it.
  pub new-Outcome :
      (amount : d.Decimal) (currency : Text)
      → Outcome amount (to_upper d (trim_space currency)) (new d amount currency)
  unfolding new
  new-Outcome amount currency =
      let c = to_upper d (trim_space currency) in
      elim (Bool-cases (valid_currency c)) [
        | inr v ↦ rw v (refl, λ h. cc (valid_currency-IsCode c h, v))
        | inl v ↦
            let m : Money.Money d = record { amount = amount; currency = c } in
            let accepted : new d amount currency ≡ inl m = rw v refl in
            let again = (new-currency amount amount currency m accepted).4 in
            rw v (refl, refl, valid_currency-eq-true c v, again)
      ]
