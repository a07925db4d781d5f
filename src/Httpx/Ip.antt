-- ===== src/Httpx/Ip.antt =====
-- httpx/ip.go: the address of the client behind trusted proxies.
pub mod Client
pub mod Spoof
pub mod Trusted
use servicekit_go.Base.{
  Bool, true, false, not, List, [], ◌∷◌, ◌++◌, any, Text, codes, join, text_eq, Option, none, some,
  if◌then◌else◌, ◌⊎◌, inl, inr,
}
use mathlib.Core.List.{reverse}
use servicekit_go.Strings.{trim_space, split}

-- What the file takes from `net` and `net/netip`.
pub record Net : Type 1 where
  pub Addr : Type 0
  pub Prefix : Type 0
  -- `netip.ParseAddr`, `netip.ParsePrefix` and `Addr.String`
  pub parse_addr : Text → Option Addr
  pub parse_prefix : Text → Option Prefix
  pub show : Addr → Text
  -- `Addr.Unmap`, `Addr.WithZone("")`, `netip.PrefixFrom(addr, addr.BitLen())`, `Prefix.Contains`
  pub unmap : Addr → Addr
  pub without_zone : Addr → Addr
  pub single : Addr → Prefix
  pub covers : Prefix → Addr → Bool
  -- the host of `net.SplitHostPort`
  pub split_host_port : Text → Option Text

-- The parts of a request that the resolver reads; `forwarded` are the lines of X-Forwarded-For.
pub record Request : Type 0 where
  pub remote_addr : Text
  pub forwarded : List Text

-- The host, or the text as it is.
unfoldable pub host_or : Text → Option Text → Text
host_or raw none = raw
host_or raw (some host) = host

module _ (net : Net) where
  -- The resolver; `none` is the nil pointer.
  abbrev pub Resolver : Type 0
  Resolver = Option (List net.Prefix)

  -- The error of `NewIPResolver` holds the entry.
  unfoldable pub entry_prefix : Text → Option net.Prefix → Option net.Addr → net.Prefix ⊎ Text
  entry_prefix entry (some p) addr = inl p
  entry_prefix entry none (some a) = inl (net.single a)
  entry_prefix entry none none = inr entry

  unfoldable pub then_loop : net.Prefix ⊎ Text → (net.Prefix → Resolver ⊎ Text) → Resolver ⊎ Text
  then_loop (inl p) f = f p
  then_loop (inr entry) f = inr entry

  -- The loop of `NewIPResolver`.
  unfoldable pub resolver_loop : List net.Prefix → List Text → Resolver ⊎ Text
  resolver_loop trusted [] = inl (some trusted)
  resolver_loop trusted (raw ∷ cidrs) =
      let entry = trim_space raw in
      let blank = resolver_loop trusted cidrs in
      let next =
        then_loop (entry_prefix entry (net.parse_prefix entry) (net.parse_addr entry))
          (λ p. resolver_loop (trusted ++ p ∷ []) cidrs) in
      if text_eq entry [] then blank else next

  unfoldable pub new_ip_resolver : List Text → Resolver ⊎ Text
  new_ip_resolver cidrs = resolver_loop [] cidrs

  unfoldable pub trusts : Resolver → net.Addr → Bool
  trusts none addr = false
  trusts (some trusted) addr = any (λ p. net.covers p addr) trusted

  unfoldable pub normalized : Option net.Addr → Option net.Addr
  normalized none = none
  normalized (some addr) = some (net.without_zone (net.unmap addr))

  -- The address without its port, where there is one.
  unfoldable pub parse_host : Option Text → Option net.Addr
  parse_host none = none
  parse_host (some host) = net.parse_addr host

  unfoldable pub first_addr : Option net.Addr → Option net.Addr → Option net.Addr
  first_addr (some a) b = some a
  first_addr none b = b

  unfoldable pub parse_hop : Text → Option net.Addr
  parse_hop s = normalized (first_addr (net.parse_addr s) (parse_host (net.split_host_port s)))

  unfoldable pub peer_addr : Request → Text
  peer_addr req = host_or req.remote_addr (net.split_host_port req.remote_addr)

  -- What the loop of `ClientIP` does with one hop.
  unfoldable pub hop_or : Resolver → net.Addr → Option net.Addr → Text → Text
  hop_or r peer none next = net.show peer
  hop_or r peer (some hop) next = if not (trusts r hop) then net.show hop else next

  -- The loop of `ClientIP`, over the hops from the right on.
  unfoldable pub walk_hops : Resolver → net.Addr → List Text → Text
  walk_hops r peer [] = net.show peer
  walk_hops r peer (hop ∷ hops) = hop_or r peer (parse_hop (trim_space hop)) (walk_hops r peer hops)

  -- `ClientIP` behind a peer that could be parsed.
  unfoldable pub forwarded_ip : Resolver → net.Addr → Text → Text
  forwarded_ip r peer forwarded =
      if not (trusts r peer)
      then net.show peer
      else if text_eq forwarded []
      then net.show peer
      else walk_hops r peer (reverse (split b',' forwarded))

  unfoldable pub or_raw : Text → Option net.Addr → (net.Addr → Text) → Text
  or_raw raw none f = raw
  or_raw raw (some peer) f = f peer

  unfoldable pub client_ip : Resolver → Request → Text
  client_ip r req =
      let raw = peer_addr req in
      or_raw raw (parse_hop raw) (λ peer. forwarded_ip r peer (join req.forwarded (codes ",")))
