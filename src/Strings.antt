-- ===== src/Strings.antt =====
-- What the code uses of Go's packages `strings` and `path`, on texts.
use servicekit_go.Base.{
  ℕ, Bool, true, false, ◌&&◌, ◌||◌, List, [], ◌∷◌, ◌++◌, Text, codes, join, text_eq, ◌==◌,
  if◌then◌else◌, ◌≡◌, refl, arith, Bool-cases, inl, inr,
}
use mathlib.Core.List.{reverse}
use servicekit_go.Rsql.Lex.{is_space}

-- `strings.TrimSpace`
unfoldable pub trim_left : Text → Text
trim_left [] = []
trim_left (c ∷ s) = if is_space c then trim_left s else c ∷ s

-- A rune in front of a text from which trailing space has been cut.
unfoldable pub keep_unless_space : ℕ → Text → Text
keep_unless_space c [] = if is_space c then [] else c ∷ []
keep_unless_space c (d ∷ s) = c ∷ d ∷ s

unfoldable pub trim_right : Text → Text
trim_right [] = []
trim_right (c ∷ s) = keep_unless_space c (trim_right s)

unfoldable pub trim_space : Text → Text
trim_space s = trim_left (trim_right s)

unfoldable pub prepend : ℕ → List Text → List Text
prepend c [] = (c ∷ []) ∷ []
prepend c (w ∷ ws) = (c ∷ w) ∷ ws

-- `strings.Split` by a single rune
unfoldable pub split : ℕ → Text → List Text
split sep [] = [] ∷ []
split sep (c ∷ s) = if c == sep then [] ∷ split sep s else prepend c (split sep s)

-- `strings.HasPrefix`
unfoldable pub has_prefix : Text → Text → Bool
has_prefix s [] = true
has_prefix [] (c ∷ p) = false
has_prefix (d ∷ s) (c ∷ p) = d == c && has_prefix s p

-- What ".." makes of the elements before it.
unfoldable pub parent : Bool → List Text → List Text
parent true [] = []
parent false [] = codes ".." ∷ []
parent rooted (e ∷ out) = if text_eq e (codes "..") then codes ".." ∷ e ∷ out else out

-- The elements of `path.Clean`, last first; `rooted` paths have no parent.
unfoldable pub clean_loop : Bool → List Text → List Text → List Text
clean_loop rooted out [] = out
clean_loop rooted out (e ∷ es) =
    let skipped = clean_loop rooted out es in
    let up = clean_loop rooted (parent rooted out) es in
    let down = clean_loop rooted (e ∷ out) es in
    if text_eq e [] || text_eq e (codes ".")
    then skipped
    else if text_eq e (codes "..")
    then up
    else down

unfoldable pub or_dot : Text → Text
or_dot [] = codes "."
or_dot (c ∷ s) = c ∷ s

-- `path.Clean`
unfoldable pub clean : Text → Text
clean [] = codes "."
clean (c ∷ s) =
    if c == b'/'
    then b'/' ∷ join (reverse (clean_loop true [] (split b'/' s))) (codes "/")
    else or_dot (join (reverse (clean_loop false [] (split b'/' (c ∷ s)))) (codes "/"))

prepend-append :
    (c : ℕ) (ws vs : List Text) (w : Text) → prepend c ((w ∷ ws) ++ vs) ≡ prepend c (w ∷ ws) ++ vs
unfolding prepend
prepend-append c ws vs w = refl

pub split-cons : (sep : ℕ) (s : Text) → (w : Text) × (ws : List Text) × (split sep s ≡ w ∷ ws)
unfolding split prepend
split-cons sep [] = ([], [], refl)
split-cons sep (c ∷ s) = elim (Bool-cases (c == sep)) [
  | inl e ↦ ([], split sep s, rw e)
  | inr e ↦ let (w, ws, h) = split-cons sep s in (c ∷ w, ws, rw (e, h))
]

-- A separator splits a text in two.
pub split-append : (sep : ℕ) (s t : Text) → split sep (s ++ (sep ∷ t)) ≡ split sep s ++ split sep t
unfolding split
split-append sep [] t = ground arith
split-append sep (c ∷ s) t = elim (Bool-cases (c == sep)) [
  | inl e ↦ rw (e, split-append sep s t)
  | inr e ↦
      let (w, ws, h) = split-cons sep s in
      rw (e, split-append sep s t, h, prepend-append c ws (split sep t) w)
]
