-- ===== src/Rsql/Schema/Unfit.antt =====
-- Why a text is no value of a field, with no reference to `coerce` of rsql/schema.go.
use servicekit_go.Base.{
  ℕ, ◌+◌, ◌-◌, ◌*◌, ◌^◌, ◌≤◌, ◌<◌, Bool, true, false, ◌||◌, List, [], ◌∷◌, ◌++◌, Text, codes,
  contains, ◌==◌, if◌then◌else◌, none, ◌≡◌, ◌≢◌, ◌⊎◌, All,
}
use servicekit_go.Rsql.Bound.{Kind, Field}
use servicekit_go.Rsql.Result.{
  ValueError, not_in_enum, bad_syntax, out_of_range, bad_time, unsupported_kind,
}
use servicekit_go.Rsql.Std.{Std}

abbrev pub IsDigit : ℕ → Type 0
IsDigit c = (b'0' ≤ c) × (c ≤ b'9')

-- The number that the digits continue.
abbrev pub read_from : ℕ → Text → ℕ
read_from n [] = n
read_from n (c ∷ cs) = read_from (n * 10 + (c - b'0')) cs

-- A text that may begin with a sign, which may be "-".
abbrev pub unsigned : Text → Text
unsigned [] = []
unsigned (c ∷ cs) = if c == b'+' || c == b'-' then cs else c ∷ cs

abbrev pub has_minus : Text → Bool
has_minus [] = false
has_minus (c ∷ cs) = c == b'-'

-- Digits of a number that fits 64 bits, and then something else.
abbrev pub Stops : ℕ → Text → Type 0
Stops n cs =
    (front : Text) × (c : ℕ) × (behind : Text) × (cs ≡ front ++ (c ∷ behind))
    × All IsDigit front
    × (¬ IsDigit c)
    × (read_from n front ≤ 2 ^ 64 - 1)

-- Digits of a number that does not fit 64 bits, and anything behind.
abbrev pub Floods : ℕ → Text → Type 0
Floods n cs =
    (front : Text) × (behind : Text) × (cs ≡ front ++ behind)
    × All IsDigit front
    × (2 ^ 64 - 1 < read_from n front)

-- The number has no place in 64 bits with a sign.
abbrev pub IsOver : Bool → ℕ → Type 0
IsOver false n = 2 ^ 63 ≤ n
IsOver true n = 2 ^ 63 < n

abbrev pub NoInt : Text → Bool → Text → ValueError → Type 0
NoInt raw neg cs e =
    ((e ≡ bad_syntax raw) × ((cs ≡ []) ⊎ Stops 0 cs))
    ⊎ ((e ≡ out_of_range raw) × (Floods 0 cs ⊎ (All IsDigit cs × IsOver neg (read_from 0 cs))))

-- The spellings of a Boolean.
abbrev pub bool_words : List Text
bool_words =
    codes "1"
    ∷ codes "t"
    ∷ codes "T"
    ∷ codes "TRUE"
    ∷ codes "true"
    ∷ codes "True"
    ∷ codes "0"
    ∷ codes "f"
    ∷ codes "F"
    ∷ codes "FALSE"
    ∷ codes "false"
    ∷ codes "False"
    ∷ []

module _ (std : Std) where
  -- What the error says of the text, at each kind. That a text is no float or no time is told by
  -- `strconv.ParseFloat` and `time.Parse`, and so is the reason.
  abbrev pub NoValue : Kind → Text → ValueError → Type 0
  NoValue Kind.string raw e = ⊥
  NoValue Kind.int raw e = NoInt raw (has_minus raw) (unsigned raw) e
  NoValue Kind.float raw e =
      (std.parse_float raw ≡ none)
      × (((e ≡ bad_syntax raw) × (std.float_out_of_range raw ≡ false))
          ⊎ ((e ≡ out_of_range raw) × (std.float_out_of_range raw ≡ true)))
  NoValue Kind.bool raw e = (e ≡ bad_syntax raw) × (contains bool_words raw ≡ false)
  NoValue Kind.time raw e = (std.parse_time raw ≡ none) × (e ≡ bad_time (std.time_error raw))
  NoValue Kind.other raw e = e ≡ unsupported_kind raw

  -- A text that the enumeration does not list, or that is none of the kind.
  abbrev pub Unfit : Field → Text → ValueError → Type 0
  Unfit f raw e =
      ((e ≡ not_in_enum raw f.enum) × (f.enum ≢ []) × (contains f.enum raw ≡ false))
      ⊎ (((f.enum ≡ []) ⊎ (contains f.enum raw ≡ true)) × NoValue f.kind raw e)
