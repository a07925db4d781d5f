-- ===== src/Base/Texts.antt =====
-- Texts: a Go string is the list of its runes, or of its bytes where a module says so.
use Prim.Native.Char.{code}
use Prim.Native.Nat.{ℕ}
use Prim.Native.String.{String}
use mathlib.Core.Path.{◌≡◌, refl, subst, ap}
use mathlib.Core.Logic.{◌↔◌, inl, inr}
use mathlib.Core.Bool.{false≢true, Bool, true, false, ◌&&◌, ◌||◌}
use mathlib.Core.List.{List, [], ◌∷◌, ◌++◌, map}
use native.Mathlib.Omega.{arith}
use servicekit_go.Base.Tests.{◌==◌, Bool-cases}
use servicekit_go.Base.Lists.{All, any}

abbrev pub Text : Type 0
Text = List ℕ

-- The code points of a literal.
abbrev pub codes : String → Text
codes String.[] = []
codes (String.◌∷◌ c s) = code c ∷ codes s

-- `a == b` on Go strings
unfoldable pub text_eq : Text → Text → Bool
text_eq [] [] = true
text_eq (x ∷ xs) (y ∷ ys) = x == y && text_eq xs ys
text_eq _ _ = false

pub text_eq_iff : (a b : Text) → (text_eq a b ≡ true) ↔ (a ≡ b)
unfolding text_eq
text_eq_iff (x ∷ a) (y ∷ b) = ground (arith, text_eq_iff a b)
text_eq_iff _ _ = ground arith

pub text_eq_self : (a : Text) → text_eq a a ≡ true
text_eq_self a = (text_eq_iff a a).1 refl

-- `slices.Contains` on a slice of strings
unfoldable pub contains : List Text → Text → Bool
contains [] t = false
contains (x ∷ xs) t = text_eq x t || contains xs t

-- `strings.Join`
unfoldable pub join : List Text → Text → Text
join [] sep = []
join (x ∷ []) sep = x
join (x ∷ y ∷ ys) sep = x ++ (sep ++ join (y ∷ ys) sep)

-- What holds of each member of a list holds of a text that the list contains.
pub contains-All {ℓ} :
    (P : Text → Type ℓ) (xs : List Text) (t : Text) → contains xs t ≡ true → All P xs → P t
unfolding contains
contains-All P [] t h g = absurd (false≢true h)
contains-All P (x ∷ xs) t h g = elim (Bool-cases (text_eq x t)) [
  | inl e ↦ subst P ((text_eq_iff x t).0 e) g.0
  | inr e ↦ contains-All P xs t (ground arith) g.1
]

module _ {ℓ} {A : Type ℓ} (f : A → Text) where
  pub contains-map :
      (xs : List A) (t : Text) → contains (map f xs) t ≡ any (λ x. text_eq (f x) t) xs
  unfolding contains
  contains-map [] t = refl
  contains-map (x ∷ xs) t = ap (λ b. text_eq (f x) t || b) (contains-map xs t)
