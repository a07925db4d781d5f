-- ===== src/Httpx/Ip/Trusted.antt =====
-- Which addresses a resolver trusts.
use servicekit_go.Base.{
  Bool, false, not, ◌&&◌, ◌||◌, List, [], ◌∷◌, ◌++◌, any, any-append, Text, text_eq, Option, none,
  some, inl, inr, ◌≡◌, arith, Bool-cases, Option-cases,
}
use servicekit_go.Strings.{trim_space}
use servicekit_go.Httpx.Ip.{
  Net, Resolver, entry_prefix, then_loop, resolver_loop, new_ip_resolver, trusts,
}

module _ (net : Net) where
  -- An entry of the configuration covers an address: as a prefix, or else as the address itself.
  abbrev pub covers_as : Option net.Prefix → Option net.Addr → net.Addr → Bool
  covers_as (some p) b a = net.covers p a
  covers_as none (some b) a = net.covers (net.single b) a
  covers_as none none a = false

  abbrev pub entry_covers : net.Addr → Text → Bool
  entry_covers a raw =
      not (text_eq (trim_space raw) [])
      && covers_as (net.parse_prefix (trim_space raw)) (net.parse_addr (trim_space raw)) a

  resolver_loop-covers :
      (trusted : List net.Prefix) (cidrs : List Text) (r : Resolver net) (a : net.Addr)
      → resolver_loop net trusted cidrs ≡ inl r
      → trusts net r a ≡ (any (λ p. net.covers p a) trusted || any (entry_covers a) cidrs)
  unfolding resolver_loop trusts entry_prefix then_loop
  resolver_loop-covers trusted [] r a h = ground arith
  resolver_loop-covers trusted (raw ∷ cidrs) r a h =
      elim (Bool-cases (text_eq (trim_space raw) [])) [
        | inl blank ↦ ground (arith, resolver_loop-covers trusted cidrs r a)
        | inr entry ↦ elim (Option-cases (net.parse_prefix (trim_space raw))) [
          | inr (p, e) ↦ ground (
            arith,
            resolver_loop-covers (trusted ++ p ∷ []) cidrs r a,
            any-append (λ p. net.covers p a) trusted (p ∷ []),
          )
          | inl e ↦ elim (Option-cases (net.parse_addr (trim_space raw))) [
            | inr (b, f) ↦ ground (
              arith,
              resolver_loop-covers (trusted ++ net.single b ∷ []) cidrs r a,
              any-append (λ p. net.covers p a) trusted (net.single b ∷ []),
            )
            | inl f ↦ ground arith
          ]
        ]
      ]

  -- A resolver trusts exactly the addresses that an entry covers, where blank entries count for
  -- nothing.
  pub new_ip_resolver-covers :
      (cidrs : List Text) (r : Resolver net) (a : net.Addr)
      → new_ip_resolver net cidrs ≡ inl r
      → trusts net r a ≡ any (entry_covers a) cidrs
  unfolding new_ip_resolver
  new_ip_resolver-covers cidrs r a h = resolver_loop-covers [] cidrs r a h
