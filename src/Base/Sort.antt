-- ===== src/Base/Sort.antt =====
-- `sort.Strings`: insertion sort by the order of strings. Any sort returns this list, since equal
-- strings cannot be told apart.
use mathlib.Core.List.{Perm, Permᴰ}
use mathlib.Core.List.Perm
use mathlib.Core.Logic.{∥∥₁_elim}
use mathlib.Core.Bool.{Bool, true, false, ◌||◌, ◌&&◌}
use mathlib.Core.List.{List, [], ◌∷◌, map}
use mathlib.Core.Path.{◌≡◌, refl, ap, ◌∙◌}
use mathlib.Core.Logic.{inl, inr}
use native.Mathlib.Omega.{arith}
use servicekit_go.Base.Tests.{ltb, ◌==◌, if◌then◌else◌, Bool-cases}
use servicekit_go.Base.Lists.{length, All}
use servicekit_go.Base.Texts.{Text}
use Prim.Native.Nat.{suc}

-- The order of strings. By runes it is the order by bytes, since the texts are UTF-8.
unfoldable pub text_le : Text → Text → Bool
text_le [] ys = true
text_le (x ∷ xs) [] = false
text_le (x ∷ xs) (y ∷ ys) = ltb x y || x == y && text_le xs ys

module _ {ℓ} {A : Type ℓ} (key : A → Text) where
  unfoldable pub insert_by : A → List A → List A
  insert_by a [] = a ∷ []
  insert_by a (b ∷ bs) = if text_le (key a) (key b) then a ∷ b ∷ bs else b ∷ insert_by a bs

  unfoldable pub sort_by : List A → List A
  sort_by [] = []
  sort_by (a ∷ cs) = insert_by a (sort_by cs)

unfoldable pub sort : List Text → List Text
sort = sort_by (λ t. t)

pub text_le_total : (a b : Text) → text_le a b ≡ false → text_le b a ≡ true
unfolding text_le
text_le_total [] b h = cc
text_le_total (x ∷ a) [] h = refl
text_le_total (x ∷ a) (y ∷ b) h = ground (arith, text_le_total a b)

pub text_le_antisymm : (a b : Text) → text_le a b ≡ true → text_le b a ≡ true → a ≡ b
unfolding text_le
text_le_antisymm [] [] h g = refl
text_le_antisymm [] (y ∷ b) h g = cc
text_le_antisymm (x ∷ a) [] h g = cc
text_le_antisymm (x ∷ a) (y ∷ b) h g = ground (arith, text_le_antisymm a b)

pub text_le_trans : (a b c : Text) → text_le a b ≡ true → text_le b c ≡ true → text_le a c ≡ true
unfolding text_le
text_le_trans [] b c h g = refl
text_le_trans (x ∷ a) [] c h g = cc
text_le_trans (x ∷ a) (y ∷ b) [] h g = cc
text_le_trans (x ∷ a) (y ∷ b) (z ∷ c) h g = ground (arith, text_le_trans a b c)

-- Sorting by a key sorts the keys.
pub map-insert_by {ℓ} :
    {A : Type ℓ} (key : A → Text) (a : A) (cs : List A)
    → map key (insert_by key a cs) ≡ insert_by (λ t. t) (key a) (map key cs)
unfolding insert_by
map-insert_by key a [] = refl
map-insert_by key a (b ∷ cs) = elim (Bool-cases (text_le (key a) (key b))) [
  | inl e ↦ rw e
  | inr e ↦ rw (e, map-insert_by key a cs)
]

pub map-sort_by {ℓ} :
    {A : Type ℓ} (key : A → Text) (cs : List A) → map key (sort_by key cs) ≡ sort (map key cs)
unfolding sort sort_by
map-sort_by key [] = refl
map-sort_by key (a ∷ cs) =
    map-insert_by key a (sort_by key cs) ∙ ap (insert_by (λ t. t) (key a)) (map-sort_by key cs)

abbrev insert : Text → List Text → List Text
insert = insert_by (λ t. t)

insert_comm : (a b : Text) (ts : List Text) → insert a (insert b ts) ≡ insert b (insert a ts)
unfolding insert_by
insert_comm a b [] = ground (arith, text_le_total a b, text_le_antisymm a b)
insert_comm a b (t ∷ ts) = ground (
  arith,
  text_le_total a b,
  text_le_antisymm a b,
  text_le_total a t,
  text_le_total b t,
  text_le_trans a b t,
  text_le_trans b a t,
  insert_comm a b ts,
)

sort-permᴰ : {xs ys : List Text} → Permᴰ xs ys → sort xs ≡ sort ys
unfolding sort sort_by
sort-permᴰ Permᴰ.nil = refl
sort-permᴰ (Permᴰ.cons {a} {l₂ = l} e p) =
    ap (insert a) (sort-permᴰ p) ∙ ap (λ t. insert t (sort l)) e
sort-permᴰ (Permᴰ.swap {a} {b} {l = l} e f) = insert_comm a b (sort l) ∙ cc
sort-permᴰ (Permᴰ.trans p q) = sort-permᴰ p ∙ sort-permᴰ q

-- The order of the texts does not show in the sorted list.
pub sort-perm : {xs ys : List Text} → Perm xs ys → sort xs ≡ sort ys
sort-perm p = ∥∥₁_elim p (hlevel) sort-permᴰ

module _ {ℓ} {A : Type ℓ} (key : A → Text) where
  insert_by-All {κ} :
      (P : A → Type κ) (a : A) (cs : List A) → P a → All P cs → All P (insert_by key a cs)
  unfolding insert_by
  insert_by-All P a [] p ps = (p, ps)
  insert_by-All P a (b ∷ cs) p ps = elim (Bool-cases (text_le (key a) (key b))) [
    | inl e ↦ rw e (p, ps)
    | inr e ↦ rw e (ps.0, insert_by-All P a cs p ps.1)
  ]

  pub sort_by-All {κ} : (P : A → Type κ) (cs : List A) → All P cs → All P (sort_by key cs)
  unfolding sort_by
  sort_by-All P [] ps = tt
  sort_by-All P (a ∷ cs) ps = insert_by-All P a (sort_by key cs) ps.0 (sort_by-All P cs ps.1)

  length-insert_by : (a : A) (cs : List A) → length (insert_by key a cs) ≡ suc (length cs)
  unfolding insert_by
  length-insert_by a [] = refl
  length-insert_by a (b ∷ cs) = elim (Bool-cases (text_le (key a) (key b))) [
    | inl e ↦ rw e
    | inr e ↦ rw (e, length-insert_by a cs)
  ]

  pub length-sort_by : (cs : List A) → length (sort_by key cs) ≡ length cs
  unfolding sort_by
  length-sort_by [] = refl
  length-sort_by (a ∷ cs) = omega (arith, length-insert_by a (sort_by key cs), length-sort_by cs)

-- Sorting by a key of an image.
module _ {ℓ κ} {A : Type ℓ} {B : Type κ} (f : A → B) (key : B → Text) where
  map-insert_by_of :
      (a : A) (cs : List A)
      → map f (insert_by (λ x. key (f x)) a cs) ≡ insert_by key (f a) (map f cs)
  unfolding insert_by
  map-insert_by_of a [] = refl
  map-insert_by_of a (b ∷ cs) = elim (Bool-cases (text_le (key (f a)) (key (f b)))) [
    | inl e ↦ rw e refl
    | inr e ↦ rw e (ap (λ t. f b ∷ t) (map-insert_by_of a cs))
  ]

  pub map-sort_by_of : (cs : List A) → map f (sort_by (λ x. key (f x)) cs) ≡ sort_by key (map f cs)
  unfolding sort_by
  map-sort_by_of [] = refl
  map-sort_by_of (a ∷ cs) =
      map-insert_by_of a (sort_by (λ x. key (f x)) cs)
      ∙ ap (insert_by key (f a)) (map-sort_by_of cs)

module _ {ℓ} {A : Type ℓ} (key : A → Text) where
  insert_by-Perm : (a : A) (cs : List A) → Perm (a ∷ cs) (insert_by key a cs)
  unfolding insert_by
  insert_by-Perm a [] = Perm.refl _
  insert_by-Perm a (b ∷ cs) = elim (Bool-cases (text_le (key a) (key b))) [
    | inl e ↦ rw e (Perm.refl _)
    | inr e ↦ rw e (Perm.trans (Perm.swap _ _ _) (Perm.cons b (insert_by-Perm a cs)))
  ]

  pub sort_by-Perm : (cs : List A) → Perm cs (sort_by key cs)
  unfolding sort_by
  sort_by-Perm [] = Perm.refl _
  sort_by-Perm (a ∷ cs) =
      Perm.trans (Perm.cons a (sort_by-Perm cs)) (insert_by-Perm a (sort_by key cs))
