-- ===== src/Errorsx/Tests.antt =====
-- A run of the search for a code.
use servicekit_go.Base.{codes, ◌≡◌, refl}
use servicekit_go.Errorsx.{
  Err, coded, wraps, other, no_errs, err_cons, or_else, or_empty, find, code_of,
}

abbrev wrapped : Err
wrapped =
    wraps (codes "outer")
      (err_cons (other (codes "io")) (err_cons (coded (codes "not_found") (codes "gone")) no_errs))

code_of-wrapped : code_of wrapped ≡ codes "not_found"
unfolding code_of find or_else or_empty
code_of-wrapped = refl
