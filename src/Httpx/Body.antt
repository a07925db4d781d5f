-- ===== src/Httpx/Body.antt =====
-- httpx/record.go: the front of a request's body is read and put back.
use servicekit_go.Base.{
  ℕ, zero, suc, [], ◌∷◌, ◌++◌, Text, take, Option, none, some, if◌then◌else◌, ◌≡◌, refl, ap,
}
use servicekit_go.Httpx.Web.{Web}

-- A reader: the bytes it still has, and how it ends behind them (`none` is io.EOF, else an error).
pub record Body : Type 0 where
  pub bytes : Text
  pub failure : Option Text

unfoldable pub drop : ℕ → Text → Text
drop zero s = s
drop (suc n) [] = []
drop (suc n) (c ∷ s) = drop n s

-- `io.ReadAll(io.LimitReader(body, limit))`, and the body behind it
unfoldable pub read_limited : ℕ → Body → Text × Body
read_limited limit b = (take limit b.bytes, record b { bytes = drop limit b.bytes })

-- `io.MultiReader(bytes.NewReader(head), body)`
unfoldable pub multi_reader : Text → Body → Body
multi_reader head b = record b { bytes = head ++ b.bytes }

-- `none` is a nil body.
unfoldable pub read_and_restore_body : Option Body → ℕ → Text × Option Body
read_and_restore_body none limit = ([], none)
read_and_restore_body (some body) limit =
    let (head, rest) = read_limited limit body in (head, some (multi_reader head rest))

-- The value of a body in the log.
pub data Logged : Type 0 where
  nil : Logged
  json : Text → Logged
  string : Text → Logged

unfoldable pub decode_body : Web → Text → Logged
decode_body web [] = nil
decode_body web (c ∷ raw) = if web.json_valid (c ∷ raw) then json (c ∷ raw) else string (c ∷ raw)

take-drop : (n : ℕ) (s : Text) → take n s ++ drop n s ≡ s
unfolding take drop
take-drop zero s = refl
take-drop (suc n) [] = refl
take-drop (suc n) (c ∷ s) = ap (λ t. c ∷ t) (take-drop n s)

-- Reading the front of a body for the log takes the bytes up to the limit, all there are where a
-- read fails before it, and leaves the handler a body with the same bytes and the same end.
pub read_and_restore_body-bytes :
    (body : Body) (limit : ℕ)
    → read_and_restore_body (some body) limit ≡ (take limit body.bytes, some body)
unfolding read_and_restore_body read_limited multi_reader
read_and_restore_body-bytes body limit =
    ap (λ s. (take limit body.bytes, some (record body { bytes = s }))) (take-drop limit body.bytes)
