-- ===== src/Errorsx.antt =====
-- errorsx/errorsx.go: errors with a code.
mod Tests
use servicekit_go.Base.{List, [], ◌∷◌, ◌++◌, Text, ◌≡◌, ◌≢◌, refl, All, Option, none, some}

-- An error: one of the package, one that wraps others in order, or another.
mutual
  pub data Err : Type 0 where
    coded : (code msg : Text) → Err
    wraps : Text → Errs → Err
    other : Text → Err

  pub data Errs : Type 0 where
    no_errs : Errs
    err_cons : Err → Errs → Errs

-- `New`
abbrev pub new : Text → Text → Err
new code msg = coded code msg

-- `Error`
unfoldable pub message : Err → Text
message (coded code msg) = msg
message (wraps msg errs) = msg
message (other msg) = msg

unfoldable pub or_else : Option Text → Option Text → Option Text
or_else none b = b
or_else (some a) b = some a

-- `errors.As` for a coded error, with the code that it finds
unfoldable mutual
  pub find : Err → Option Text
  find (coded code msg) = some code
  find (wraps msg errs) = find_any errs
  find (other msg) = none

  pub find_any : Errs → Option Text
  find_any no_errs = none
  find_any (err_cons e errs) = or_else (find e) (find_any errs)

unfoldable pub or_empty : Option Text → Text
or_empty none = []
or_empty (some code) = code

-- `Code`
unfoldable pub code_of : Err → Text
code_of err = or_empty (find err)

-- The codes of an error's tree, in the order in which it is searched.
abbrev mutual
  pub codes_in : Err → List Text
  codes_in (coded code msg) = code ∷ []
  codes_in (wraps msg errs) = codes_in_all errs
  codes_in (other msg) = []

  pub codes_in_all : Errs → List Text
  codes_in_all no_errs = []
  codes_in_all (err_cons e errs) = codes_in e ++ codes_in_all errs

abbrev pub first_of : List Text → Option Text
first_of [] = none
first_of (c ∷ cs) = some c

first_of-append : (cs ds : List Text) → first_of (cs ++ ds) ≡ or_else (first_of cs) (first_of ds)
unfolding or_else
first_of-append [] ds = refl
first_of-append (c ∷ cs) ds = refl

mutual
  unfolding find

  find-codes_in : (e : Err) → find e ≡ first_of (codes_in e)
  find-codes_in (coded code msg) = refl
  find-codes_in (wraps msg errs) = find_any-codes_in errs
  find-codes_in (other msg) = refl

  find_any-codes_in : (errs : Errs) → find_any errs ≡ first_of (codes_in_all errs)
  find_any-codes_in no_errs = refl
  find_any-codes_in (err_cons e errs) =
      rw (find-codes_in e, find_any-codes_in errs, first_of-append (codes_in e) (codes_in_all errs))
        refl

-- The code of an error is the first one in its tree, or no text where there is none.
code_of-first : (e : Err) → code_of e ≡ or_empty (first_of (codes_in e))
unfolding code_of
code_of-first e = rw (find-codes_in e) refl
