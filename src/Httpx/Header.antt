-- ===== src/Httpx/Header.antt =====
-- Headers of net/http and the values of net/url: a list of keys with their values, each key once.
-- `Header.Get` and `Header.Set` of net/http, as httpx/middleware.go, httpx/correlation.go and
-- httpx/caller.go call them, bring the key into canonical form first; `Values.Get` and `Values.Set` of
-- net/url take it as it is.
use servicekit_go.Base.{
  ℕ, ◌+◌, ◌-◌, Bool, true, ◌||◌, List, [], ◌∷◌, Text, codes, all, any, within, ◌==◌, text_eq,
  text_eq_self, text_eq_iff, subst, if◌then◌else◌, ◌≡◌, arith, false, Bool-cases, inl, inr, sym, ap,
  refl,
}
use servicekit_go.Httpx.Web.{Values}

-- A byte of a token, as in the name of a header.
unfoldable pub is_token_byte : ℕ → Bool
is_token_byte c =
    within b'a' b'z' c
    || within b'A' b'Z' c
    || within b'0' b'9' c
    || any (λ d. d == c) (codes "!#$%&'*+-.^_`|~")

-- The letter as it stands at the start of a word, or within one.
unfoldable pub canonical_byte : Bool → ℕ → ℕ
canonical_byte true c = if within b'a' b'z' c then c - 32 else c
canonical_byte false c = if within b'A' b'Z' c then c + 32 else c

-- A word starts behind each "-".
unfoldable pub canonical_loop : Bool → Text → Text
canonical_loop upper [] = []
canonical_loop upper (c ∷ s) = canonical_byte upper c ∷ canonical_loop (c == b'-') s

-- `http.CanonicalHeaderKey`: a key with another byte than those of a token is left as it is.
unfoldable pub canonical_header_key : Text → Text
canonical_header_key s = if all is_token_byte s then canonical_loop true s else s

-- The first value, or no text.
unfoldable pub first_value : List Text → Text
first_value [] = []
first_value (v ∷ vs) = v

-- The values under a key of the map.
unfoldable pub values_at : Values → Text → List Text
values_at [] k = []
values_at ((j, vs) ∷ h) k = if text_eq j k then vs else values_at h k

-- `Values.Set`
unfoldable pub put_at : Values → Text → Text → Values
put_at [] k v = (k, v ∷ []) ∷ []
put_at ((j, vs) ∷ h) k v = if text_eq j k then (j, v ∷ []) ∷ h else (j, vs) ∷ put_at h k v

-- What stands under a key as it is.
abbrev pub header_value : Values → Text → Text
header_value h k = first_value (values_at h k)

-- `Header.Get`
unfoldable pub get : Values → Text → Text
get h k = first_value (values_at h (canonical_header_key k))

-- `Header.Set`
unfoldable pub set : Values → Text → Text → Values
set h k v = put_at h (canonical_header_key k) v

pub values_at-put_at : (h : Values) (k v : Text) → values_at (put_at h k v) k ≡ v ∷ []
unfolding values_at put_at
values_at-put_at [] k v = ground (arith, text_eq_self k)
values_at-put_at ((j, vs) ∷ h) k v = ground (arith, values_at-put_at h k v)

pub values_at-put_at_other :
    (h : Values) (k l v : Text) → text_eq k l ≡ false → values_at (put_at h k v) l ≡ values_at h l
unfolding values_at put_at
values_at-put_at_other [] k l v ne = ground arith
values_at-put_at_other ((j, vs) ∷ h) k l v ne = elim (Bool-cases (text_eq j k)) [
  | inl e ↦
      subst (λ j. values_at (put_at ((j, vs) ∷ h) k v) l ≡ values_at ((j, vs) ∷ h) l)
        (sym ((text_eq_iff j k).0 e)) (rw (text_eq_self k, ne) refl)
  | inr e ↦ ground (arith, values_at-put_at_other h k l v ne)
]

pub get-set : (h : Values) (k v : Text) → get (set h k v) k ≡ v
unfolding get set first_value
get-set h k v = ap first_value (values_at-put_at h (canonical_header_key k) v)

pub get-set_other :
    (h : Values) (k l v : Text)
    → text_eq (canonical_header_key k) (canonical_header_key l) ≡ false
    → get (set h k v) l ≡ get h l
unfolding get set
get-set_other h k l v ne =
    ap first_value (values_at-put_at_other h (canonical_header_key k) (canonical_header_key l) v ne)
