-- ===== src/Money.antt =====
-- money/money.go: amounts with a currency. The amounts are those of a decimal library.
pub mod Currency
mod Tests
use servicekit_go.Base.{
  ℕ, ◌+◌, ◌-◌, ◌≤◌, Bool, true, false, not, ◌&&◌, ◌||◌, List, [], ◌∷◌, ◌++◌, Text, codes, map, all,
  length, ltb, leb, within, text_eq, ◌==◌, if◌then◌else◌, ◌⊎◌, inl, inr, ◌≡◌, refl, ap, sym, ◌∙◌,
  arith, Bool-cases,
}
use servicekit_go.Rsql.Lex.{is_space}
use servicekit_go.Strings.{trim_left, trim_right, trim_space, keep_unless_space}

-- What the package takes from the decimal library, and `unicode.ToUpper` above ASCII.
pub record Decimals : Type 1 where
  pub Decimal : Type 0
  pub zero : Decimal
  pub add : Decimal → Decimal → Decimal
  pub is_zero : Decimal → Bool
  pub is_negative : Decimal → Bool
  pub show : Decimal → Text
  pub wide_upper : ℕ → ℕ

-- The bytes of a rune in UTF-8.
unfoldable pub rune_bytes : ℕ → ℕ
rune_bytes r = if ltb r 128 then 1 else if ltb r 2048 then 2 else if ltb r 65536 then 3 else 4

-- `len(c)`
unfoldable pub byte_length : Text → ℕ
byte_length [] = 0
byte_length (r ∷ c) = rune_bytes r + byte_length c

unfoldable pub is_currency_rune : ℕ → Bool
is_currency_rune r = within b'A' b'Z' r || within b'0' b'9' r

unfoldable pub valid_currency : Text → Bool
valid_currency c =
    if ltb (byte_length c) 3 || ltb 5 (byte_length c) then false else all is_currency_rune c

module _ (d : Decimals) where
  unfoldable pub upper_rune : ℕ → ℕ
  upper_rune c = if within b'a' b'z' c then c - 32 else if ltb c 128 then c else d.wide_upper c

  -- `strings.ToUpper`
  unfoldable pub to_upper : Text → Text
  to_upper s = map upper_rune s

  pub record Money : Type 0 where
    pub amount : d.Decimal
    pub currency : Text

  -- The error of `New` holds the currency it names.
  unfoldable pub new : d.Decimal → Text → Money ⊎ Text
  new amount currency =
      let c = to_upper (trim_space currency) in
      if not (valid_currency c) then inr c else inl (record { amount = amount; currency = c })

  unfoldable pub is_zero : Money → Bool
  is_zero m = d.is_zero m.amount

  unfoldable pub is_negative : Money → Bool
  is_negative m = d.is_negative m.amount

  unfoldable pub same_currency : Money → Money → Bool
  same_currency m other = text_eq m.currency other.currency

  unfoldable pub add : Money → Money → Money
  add m other = record { amount = d.add m.amount other.amount; currency = m.currency }

  unfoldable pub zero : Money → Money
  zero m = record { amount = d.zero; currency = m.currency }

  -- `Money.String`
  unfoldable pub show : Money → Text
  show m = d.show m.amount ++ (b' ' ∷ m.currency)
