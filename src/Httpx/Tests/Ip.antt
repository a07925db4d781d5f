-- ===== src/Httpx/Tests/Ip.antt =====
-- Runs of the resolver, and the witnesses.
use servicekit_go.Base.{
  List, [], ◌∷◌, ◌++◌, any, Text, codes, join, contains, text_eq, Option, none, some, if◌then◌else◌,
  inl, inr, ◌≡◌, ◌↔◌, ◌≢◌, refl,
}
use servicekit_go.Rsql.Lex.{is_space}
use servicekit_go.Strings.{trim_left, trim_right, trim_space, keep_unless_space, split, prepend}
use servicekit_go.Httpx.Ip.{
  Net, Request, Resolver, host_or, entry_prefix, then_loop, resolver_loop, new_ip_resolver, trusts,
  normalized, parse_host, first_addr, parse_hop, peer_addr, hop_or, walk_hops, forwarded_ip, or_raw,
  client_ip,
}
use servicekit_go.Httpx.Ip.Client.{Outcome, client_ip_iff}
use servicekit_go.Httpx.Ip.Spoof.{client_ip-spoofed}
use servicekit_go.Httpx.Ip.Trusted.{entry_covers, new_ip_resolver-covers}

abbrev known : Text → Option Text
known s =
    if contains (codes "10.0.0.1" ∷ codes "10.0.0.2" ∷ codes "9.9.9.9" ∷ codes "1.1.1.1" ∷ []) s
    then some s
    else none

abbrev host_part : List Text → Option Text
host_part (host ∷ port ∷ []) = some host
host_part _ = none

-- Four addresses, and no prefix but single addresses.
abbrev four : Net
four = record {
  Addr = Text;
  Prefix = Text;
  parse_addr = known;
  parse_prefix = λ s. none;
  show = λ a. a;
  unmap = λ a. a;
  without_zone = λ a. a;
  single = λ a. a;
  covers = λ p a. text_eq p a;
  split_host_port = λ s. host_part (split b':' s);
}

abbrev entries : List Text
entries = codes " 10.0.0.1 " ∷ [] ∷ codes "10.0.0.2" ∷ []

abbrev proxies : Resolver four
proxies = some (codes "10.0.0.1" ∷ codes "10.0.0.2" ∷ [])

-- To run the resolver.
resolving : Unit {0}
unfolding text_eq contains join is_space trim_left trim_right trim_space keep_unless_space split
    prepend host_or entry_prefix then_loop resolver_loop new_ip_resolver trusts normalized
    parse_host first_addr parse_hop peer_addr hop_or walk_hops forwarded_ip or_raw client_ip
resolving = tt

new_ip_resolver_runs :
    (new_ip_resolver four entries ≡ inl proxies)
    × (new_ip_resolver four (codes "10.0.0.1" ∷ codes "nowhere" ∷ []) ≡ inr (codes "nowhere"))
unfolding resolving
new_ip_resolver_runs = (refl, refl)

abbrev request : Request
request = record {
  remote_addr = codes "10.0.0.1:443";
  forwarded = codes "1.1.1.1, 9.9.9.9:80" ∷ codes "10.0.0.2" ∷ [];
}

client_ip_runs :
    (client_ip four proxies request ≡ codes "9.9.9.9")
    × (client_ip four none request ≡ codes "10.0.0.1")
    × (client_ip four proxies (record request { forwarded = codes "x,10.0.0.2" ∷ [] })
        ≡ codes "10.0.0.1")
    × (client_ip four proxies (record request { remote_addr = codes "@" }) ≡ codes "@")
unfolding resolving
client_ip_runs = (refl, refl, refl, refl)

client_ip_iff_example :
    (client_ip four proxies request ≡ codes "9.9.9.9")
    ↔ Outcome four proxies request (codes "9.9.9.9")
client_ip_iff_example = client_ip_iff four proxies request (codes "9.9.9.9")

not_empty : join (codes "1.1.1.1, 9.9.9.9:80" ∷ codes "10.0.0.2" ∷ []) (codes ",") ≢ []
unfolding resolving
not_empty e = cc

client_ip-spoofed_example :
    client_ip four proxies (record request {
      forwarded =
          (codes "6.6.6.6,8.8.8.8" ∷ []) ++ codes "1.1.1.1, 9.9.9.9:80" ∷ codes "10.0.0.2" ∷ [];
    })
    ≡ codes "9.9.9.9"
unfolding resolving
client_ip-spoofed_example =
    client_ip-spoofed four proxies (codes "10.0.0.1:443") (codes "6.6.6.6,8.8.8.8" ∷ [])
      (codes "1.1.1.1, 9.9.9.9:80") (codes "10.0.0.2" ∷ []) (codes "10.0.0.1") (codes "9.9.9.9")
      (codes "1.1.1.1" ∷ []) (codes "10.0.0.2" ∷ []) (codes " 9.9.9.9:80") refl refl not_empty refl
      ((codes "10.0.0.2", refl, refl), tt) refl refl

resolves : new_ip_resolver four entries ≡ inl proxies
unfolding resolving
resolves = refl

new_ip_resolver-covers_example :
    trusts four proxies (codes "9.9.9.9") ≡ any (entry_covers four (codes "9.9.9.9")) entries
new_ip_resolver-covers_example =
    new_ip_resolver-covers four entries proxies (codes "9.9.9.9") resolves
