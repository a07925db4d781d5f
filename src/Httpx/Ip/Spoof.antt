-- ===== src/Httpx/Ip/Spoof.antt =====
-- What a caller puts into X-Forwarded-For in front of the proxies' own hops.
use servicekit_go.Base.{
  ℕ, false, true, List, [], ◌∷◌, ◌++◌, Text, codes, join, some, ◌≡◌, ◌≢◌, refl, sym, ap, ◌∙◌, All,
  append_assoc,
}
use servicekit_go.Strings.{trim_space, split, split-append}
use servicekit_go.Httpx.Ip.{Net, Resolver, trusts, parse_hop, peer_addr, client_ip}
use servicekit_go.Httpx.Ip.Client.{Trusted, hops, client, client_ip_iff}

join-append :
    (x y : Text) (xs ys : List Text)
    → join ((x ∷ xs) ++ y ∷ ys) (codes ",")
      ≡ join (x ∷ xs) (codes ",") ++ (b',' ∷ join (y ∷ ys) (codes ","))
unfolding join
join-append x y [] ys = refl
join-append x y (z ∷ xs) ys =
    ap (λ t. x ++ (b',' ∷ t)) (join-append z y xs ys)
    ∙ sym (append_assoc x (b',' ∷ join (z ∷ xs) (codes ",")) (b',' ∷ join (y ∷ ys) (codes ",")))

not_nil : (s : Text) (c : ℕ) (t : Text) → s ++ c ∷ t ≢ []
not_nil [] c t e = cc
not_nil (d ∷ s) c t e = cc

module _ (net : Net) (r : Resolver net) where
  hops-append :
      (spoofed : List Text) (line : Text) (lines : List Text)
      → join (line ∷ lines) (codes ",") ≢ []
      → (front : List Text) × (hops net r (spoofed ++ line ∷ lines)
          ≡ front ++ hops net r (line ∷ lines))
        × (join (spoofed ++ line ∷ lines) (codes ",") ≢ [])
  hops-append [] line lines ne = ([], refl, ne)
  hops-append (x ∷ xs) line lines ne =
      let e = join-append x line xs lines in
      (
        split b',' (join (x ∷ xs) (codes ",")),
        ap (split b',') e
            ∙ split-append b',' (join (x ∷ xs) (codes ",")) (join (line ∷ lines) (codes ",")),
        λ z. not_nil _ _ _ (sym e ∙ z),
      )

  -- A caller cannot choose its own address: once the lines of the header hold a hop that is no
  -- trusted proxy, with trusted ones only to its right and a trusted peer, it is the one reported,
  -- whatever lines the caller puts in front of them.
  pub client_ip-spoofed :
      (addr : Text) (spoofed : List Text) (line : Text) (lines : List Text) (peer a : net.Addr)
      (left right : List Text) (hop : Text)
      → parse_hop net (peer_addr net (record { remote_addr = addr; forwarded = [] })) ≡ some peer
      → trusts net r peer ≡ true
      → join (line ∷ lines) (codes ",") ≢ []
      → hops net r (line ∷ lines) ≡ left ++ hop ∷ right
      → All (Trusted net r) right
      → parse_hop net (trim_space hop) ≡ some a
      → trusts net r a ≡ false
      → client_ip net r (record { remote_addr = addr; forwarded = spoofed ++ line ∷ lines })
        ≡ net.show a
  unfolding peer_addr
  client_ip-spoofed addr spoofed line lines peer a left right hop readable t ne h all good un =
      let (front, e, ne') = hops-append spoofed line lines ne in
      (client_ip_iff net r _ (net.show a)).1 (
        client peer a (front ++ left) right hop readable t ne'
          (e ∙ ap (λ t. front ++ t) h ∙ sym (append_assoc front left (hop ∷ right))) all good un)
