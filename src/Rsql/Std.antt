-- ===== src/Rsql/Std.antt =====
-- What rsql/ takes from the standard library's tables and from its number and time formats. A
-- float64 is its 64 bits, a time.Time the nanoseconds of its instant since year 1 in UTC.
use servicekit_go.Base.{ℕ, Bool, Option, Text}

pub record Std : Type 0 where
  -- `unicode.IsLetter` above U+00FF
  pub wide_letter : ℕ → Bool
  -- `strconv.ParseFloat(_, 64)` and `fmt.Sprintf("%v", _)` at a float64
  pub parse_float : Text → Option ℕ
  -- whether the error of `strconv.ParseFloat` is `ErrRange`, not `ErrSyntax`
  pub float_out_of_range : Text → Bool
  pub format_float : ℕ → Text
  -- `time.Parse(time.RFC3339, _)` and `t.UTC().Format(time.RFC3339Nano)`
  pub parse_time : Text → Option ℕ
  -- the words of the error of `time.Parse`
  pub time_error : Text → Text
  pub format_time : ℕ → Text
