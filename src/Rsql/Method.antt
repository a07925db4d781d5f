-- ===== src/Rsql/Method.antt =====
-- Methods that change their receiver and may fail: the parser's and the binder's. An error ends the
-- whole run, so the receiver that a failed method leaves is never read.
use servicekit_go.Base.{Bool, true, false, Option, none, some, if◌then◌else◌, ◌≡◌, refl}
use servicekit_go.Rsql.Result
use servicekit_go.Rsql.Result.{Result, ok, err, out_of_fuel, Error, Ends, Ends-bind}

abbrev pub Method {ℓ} : Type 0 → Type ℓ → Type ℓ
Method S A = S → Result (A × S)

abbrev pub pure {ℓ} : {S : Type 0} {A : Type ℓ} → A → Method S A
pure a s = ok (a, s)

module _ {ℓ κ} {S : Type 0} {A : Type ℓ} {B : Type κ} where
  infixl 5 ◌>>=◌ ◌>>◌
  abbrev pub ◌>>=◌ : Method S A → (A → Method S B) → Method S B
  ◌>>=◌ m f s = Result.◌>>=◌ (m s) (λ (a, s'). f a s')

  abbrev pub ◌>>◌ : Method S A → Method S B → Method S B
  m >> k = m >>= λ _. k

-- `if !b { return nil, e }`
abbrev pub check : {S : Type 0} → Bool → Error → Method S (Unit {0})
check true e s = ok (tt, s)
check false e s = err e

-- `v, ok := …; if !ok { return nil, e }`
abbrev pub found {ℓ} : {S : Type 0} {A : Type ℓ} → Option A → Error → Method S A
found none e s = err e
found (some a) e s = ok (a, s)

-- A call of a function that leaves the receiver alone.
abbrev pub lifted {ℓ} : {S : Type 0} {A : Type ℓ} → Result A → Method S A
lifted r s = Result.◌>>=◌ r (λ a. ok (a, s))

-- What a run ensures, step by step.
module _ {ℓ κ} {S : Type 0} {A : Type ℓ} {B : Type κ} where
  pub Ends-then :
      (P : A × S → Type 0) (Q : B × S → Type 0) (m : Method S A) (k : A → Method S B) (s : S)
      → Ends P (m s)
      → ((a : A) (s' : S) → P (a, s') → Ends Q (k a s'))
      → Ends Q ((m >>= k) s)
  Ends-then P Q m k s h f = Ends-bind P Q (m s) (λ (a, s'). k a s') h (λ (a, s'). f a s')

pub Ends-check {κ} :
    {S : Type 0} {B : Type κ} (Q : B × S → Type 0) (b : Bool) (e : Error)
    (k : Unit {0} → Method S B) (s : S)
    → (b ≡ true → Ends Q (k tt s))
    → Ends Q ((check b e >>= k) s)
Ends-check Q true e k s h = h refl
Ends-check Q false e k s h = tt

pub Ends-found {ℓ κ} :
    {S : Type 0} {A : Type ℓ} {B : Type κ} (Q : B × S → Type 0) (o : Option A) (e : Error)
    (k : A → Method S B) (s : S)
    → ((a : A) → o ≡ some a → Ends Q (k a s))
    → Ends Q ((found o e >>= k) s)
Ends-found Q none e k s h = tt
Ends-found Q (some a) e k s h = h a refl

pub Ends-if {ℓ} :
    {S : Type 0} {A : Type ℓ} (P : A × S → Type 0) (b : Bool) (m n : Method S A) (s : S)
    → (b ≡ true → Ends P (m s))
    → (b ≡ false → Ends P (n s))
    → Ends P ((if b then m else n) s)
Ends-if P true m n s h k = h refl
Ends-if P false m n s h k = k refl

pub Ends-lifted {ℓ κ} :
    {S : Type 0} {A : Type ℓ} {B : Type κ} (P : A → Type 0) (Q : B × S → Type 0) (r : Result A)
    (k : A → Method S B) (s : S)
    → Ends P r
    → ((a : A) → P a → Ends Q (k a s))
    → Ends Q ((lifted r >>= k) s)
Ends-lifted P Q (ok a) k s h f = f a h
Ends-lifted P Q (err e) k s h f = tt
Ends-lifted P Q out_of_fuel k s h f = absurd h
