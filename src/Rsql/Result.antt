-- ===== src/Rsql/Result.antt =====
-- The errors of rsql/, one constructor for each `fmt.Errorf`, and results that may be one.
use servicekit_go.Base.{ℕ, Text, List, ◌≡◌, refl, ◌≢◌}

-- Why a value does not have its field's type. `bad_time` holds the words of `time.Parse`.
pub data ValueError : Type 0 where
  not_in_enum : Text → List Text → ValueError
  bad_syntax : Text → ValueError
  out_of_range : Text → ValueError
  bad_time : Text → ValueError
  unsupported_kind : Text → ValueError

-- The numbers are the offsets that the messages show; a text is the token or the name.
pub data Error : Type 0 where
  expected_equals : ℕ → Error
  unterminated_operator : ℕ → Error
  invalid_operator_character : ℕ → ℕ → Error
  unterminated_quote : ℕ → Error
  trailing_escape : ℕ → Error
  unexpected_character : ℕ → ℕ → Error
  unexpected_token : ℕ → Text → Error
  expected_rparen : ℕ → Error
  expected_selector : ℕ → Text → Error
  expected_operator : ℕ → Text → Error
  unknown_operator : ℕ → Text → Error
  expected_value : ℕ → Text → Error
  too_many_comparisons : ℕ → ℕ → Error
  too_many_disjunctions : ℕ → ℕ → Error
  too_deep : ℕ → Error
  not_filterable : Text → Error
  operator_not_allowed : Text → Text → Error
  takes_one_value : Text → Text → ℕ → Error
  bad_value : Text → ValueError → Error

-- `out_of_fuel` has no counterpart in the program: the parser's fuel never runs out.
pub data Result {ℓ} (A : Type ℓ) : Type ℓ where
  ok : A → Result A
  err : Error → Result A
  out_of_fuel : Result A

module _ {ℓ κ} {A : Type ℓ} {B : Type κ} where
  infixl 5 ◌>>=◌
  abbrev pub ◌>>=◌ : Result A → (A → Result B) → Result B
  ok a >>= f = f a
  err e >>= f = err e
  out_of_fuel >>= f = out_of_fuel

  -- What a successful call of the rest says of the first step.
  pub first_step :
      (m : Result A) (k : A → Result B) (b : B)
      → m >>= k ≡ ok b
      → (a : A) × (m ≡ ok a) × (k a ≡ ok b)
  first_step out_of_fuel k b h = cc
  first_step (err e) k b h = cc
  first_step (ok a) k b h = (a, refl, h)

-- The run kept within its fuel, and `P` holds of what it returned, if anything.
abbrev pub Ends {ℓ} : {A : Type ℓ} → (A → Type 0) → Result A → Type 0
Ends P (ok a) = P a
Ends P (err e) = Unit
Ends P out_of_fuel = ⊥

pub Ends-bind {ℓ κ} :
    {A : Type ℓ} {B : Type κ} (P : A → Type 0) (Q : B → Type 0) (m : Result A) (f : A → Result B)
    → Ends P m
    → ((a : A) → P a → Ends Q (f a))
    → Ends Q (m >>= f)
Ends-bind P Q (ok a) f h k = k a h
Ends-bind P Q (err e) f h k = tt
Ends-bind P Q out_of_fuel f h k = absurd h

pub Ends-ne-out_of_fuel {ℓ} :
    {A : Type ℓ} (P : A → Type 0) (m : Result A) → Ends P m → m ≢ out_of_fuel
Ends-ne-out_of_fuel P (ok a) h = cc
Ends-ne-out_of_fuel P (err e) h = cc
Ends-ne-out_of_fuel P out_of_fuel h = absurd h

pub Ends-mono {ℓ} :
    {A : Type ℓ} (P Q : A → Type 0) (m : Result A) → ((a : A) → P a → Q a) → Ends P m → Ends Q m
Ends-mono P Q (ok a) k h = k a h
Ends-mono P Q (err e) k h = tt
Ends-mono P Q out_of_fuel k h = absurd h

-- A property of what was returned, with the run that returned it.
pub Ends-run {ℓ} :
    {A : Type ℓ} (P : A → Type 0) (m : Result A) (Q : A → Type 0)
    → ((a : A) → m ≡ ok a → P a → Q a)
    → Ends P m
    → Ends Q m
Ends-run P (ok a) Q k h = k a refl h
Ends-run P (err e) Q k h = tt
Ends-run P out_of_fuel Q k h = absurd h
