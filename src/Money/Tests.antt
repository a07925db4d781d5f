-- ===== src/Money/Tests.antt =====
-- Runs of money, and the witness.
use servicekit_go.Base.{ℕ, ◌==◌, false, codes, inl, inr, ◌≡◌, refl}
use servicekit_go.Rsql.Lex.{is_space}
use servicekit_go.Strings.{trim_left, trim_right, trim_space, keep_unless_space}
use servicekit_go.Money.{
  Decimals, new, rune_bytes, byte_length, is_currency_rune, valid_currency, upper_rune, to_upper,
}
use servicekit_go.Money.Currency.{Outcome, new-Outcome}

-- Whole amounts.
abbrev whole : Decimals
whole = record {
  Decimal = ℕ;
  zero = 0;
  add = λ a b. a;
  is_zero = λ a. a == 0;
  is_negative = λ a. false;
  show = λ a. codes "1";
  wide_upper = λ c. c;
}

checking : Unit {0}
unfolding new rune_bytes byte_length is_currency_rune valid_currency upper_rune to_upper is_space
    trim_left trim_right trim_space keep_unless_space
checking = tt

new-usd : new whole 5 (codes " usd ") ≡ inl (record { amount = 5; currency = codes "USD" })
unfolding checking
new-usd = refl

new_errors :
    (new whole 5 (codes "US") ≡ inr (codes "US")) × (new whole 5 (codes "u$d") ≡ inr (codes "U$D"))
unfolding checking
new_errors = (refl, refl)

new-Outcome_example :
    Outcome whole 5 (to_upper whole (trim_space (codes " usd "))) (new whole 5 (codes " usd "))
new-Outcome_example = new-Outcome whole 5 (codes " usd ")
