-- ===== src/Rsql/Reports.antt =====
-- What the errors of rsql/ say: a run holds `P` of what it returned, or `E` of its error.
use servicekit_go.Base.{Bool, true, false, Option, none, some, if◌then◌else◌, ◌≡◌, refl}
use servicekit_go.Rsql.Method.{Method, ◌>>=◌, check, found, lifted}
use servicekit_go.Rsql.Result
use servicekit_go.Rsql.Result.{Result, ok, err, out_of_fuel, Error}

abbrev pub Reports {ℓ} : (Error → Type 0) → {A : Type ℓ} → (A → Type 0) → Result A → Type 0
Reports E P (ok a) = P a
Reports E P (err e) = E e
Reports E P out_of_fuel = Unit

module _ (E : Error → Type 0) where
  pub Reports-bind {ℓ κ} :
      {A : Type ℓ} {B : Type κ} (P : A → Type 0) (Q : B → Type 0) (m : Result A) (f : A → Result B)
      → Reports E P m
      → ((a : A) → P a → Reports E Q (f a))
      → Reports E Q (Result.◌>>=◌ m f)
  Reports-bind P Q (ok a) f h k = k a h
  Reports-bind P Q (err e) f h k = h
  Reports-bind P Q out_of_fuel f h k = tt

  pub Reports-run {ℓ} :
      {A : Type ℓ} (P Q : A → Type 0) (m : Result A)
      → ((a : A) → m ≡ ok a → P a → Q a)
      → Reports E P m
      → Reports E Q m
  Reports-run P Q (ok a) k h = k a refl h
  Reports-run P Q (err e) k h = h
  Reports-run P Q out_of_fuel k h = tt

  pub Reports-if {ℓ} :
      {A : Type ℓ} (P : A → Type 0) (b : Bool) (m n : Result A)
      → (b ≡ true → Reports E P m)
      → (b ≡ false → Reports E P n)
      → Reports E P (if b then m else n)
  Reports-if P true m n h k = h refl
  Reports-if P false m n h k = k refl

  -- The same for methods, step by step.
  pub Reports-then {ℓ κ} :
      {S : Type 0} {A : Type ℓ} {B : Type κ} (P : A × S → Type 0) (Q : B × S → Type 0)
      (m : Method S A) (k : A → Method S B) (s : S)
      → Reports E P (m s)
      → ((a : A) (s' : S) → P (a, s') → Reports E Q (k a s'))
      → Reports E Q ((m >>= k) s)
  Reports-then P Q m k s h f = Reports-bind P Q (m s) (λ (a, s'). k a s') h (λ (a, s'). f a s')

  pub Reports-check {κ} :
      {S : Type 0} {B : Type κ} (Q : B × S → Type 0) (b : Bool) (e : Error)
      (k : Unit {0} → Method S B) (s : S)
      → (b ≡ false → E e)
      → (b ≡ true → Reports E Q (k tt s))
      → Reports E Q ((check b e >>= k) s)
  Reports-check Q true e k s g h = h refl
  Reports-check Q false e k s g h = g refl

  pub Reports-found {ℓ κ} :
      {S : Type 0} {A : Type ℓ} {B : Type κ} (Q : B × S → Type 0) (o : Option A) (e : Error)
      (k : A → Method S B) (s : S)
      → (o ≡ none → E e)
      → ((a : A) → o ≡ some a → Reports E Q (k a s))
      → Reports E Q ((found o e >>= k) s)
  Reports-found Q none e k s g h = g refl
  Reports-found Q (some a) e k s g h = h a refl

  pub Reports-lifted {ℓ κ} :
      {S : Type 0} {A : Type ℓ} {B : Type κ} (P : A → Type 0) (Q : B × S → Type 0) (r : Result A)
      (k : A → Method S B) (s : S)
      → Reports E P r
      → ((a : A) → P a → Reports E Q (k a s))
      → Reports E Q ((lifted r >>= k) s)
  Reports-lifted P Q (ok a) k s h f = f a h
  Reports-lifted P Q (err e) k s h f = h
  Reports-lifted P Q out_of_fuel k s h f = tt

  pub Reports-method_if {ℓ} :
      {S : Type 0} {A : Type ℓ} (P : A × S → Type 0) (b : Bool) (m n : Method S A) (s : S)
      → (b ≡ true → Reports E P (m s))
      → (b ≡ false → Reports E P (n s))
      → Reports E P ((if b then m else n) s)
  Reports-method_if P true m n s h k = h refl
  Reports-method_if P false m n s h k = k refl
