-- ===== src/Httpx/Middleware/Chain.antt =====
-- The order of a chain.
use servicekit_go.Base.{List, [], ◌∷◌, ◌++◌, ◌≡◌, refl, ap, ◌∙◌}
use mathlib.Core.List.{reverse, reverse-cons}
use servicekit_go.Httpx.Middleware.{chain_loop, chain}

module _ {ℓ} {H : Type ℓ} where
  -- The middlewares around a handler, the first of the list outermost.
  abbrev pub around : List (H → H) → H → H
  around [] h = h
  around (m ∷ ms) h = m (around ms h)

  chain_loop-append :
      (h : H) (ms ns : List (H → H)) → chain_loop h (ms ++ ns) ≡ chain_loop (chain_loop h ms) ns
  unfolding chain_loop
  chain_loop-append h [] ns = refl
  chain_loop-append h (m ∷ ms) ns = chain_loop-append (m h) ms ns

  -- The first middleware of a chain runs outermost.
  pub chain-around : (h : H) (ms : List (H → H)) → chain h ms ≡ around ms h
  unfolding chain chain_loop
  chain-around h [] = refl
  chain-around h (m ∷ ms) =
      ap (chain_loop h) (reverse-cons m ms)
      ∙ chain_loop-append h (reverse ms) (m ∷ [])
      ∙ ap m (chain-around h ms)
