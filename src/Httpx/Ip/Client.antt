-- ===== src/Httpx/Ip/Client.antt =====
-- Which address the resolver reports.
use servicekit_go.Base.{
  true, false, List, [], ◌∷◌, ◌++◌, Text, codes, join, text_eq, Option-cases, none, some, ◌≡◌, ◌≢◌,
  ◌↔◌, refl, sym, ap, ◌∙◌, arith, All, All-append, Bool-cases, inl, inr, append_assoc, append-nil,
  subst, text_eq_iff,
}
use mathlib.Core.List.{reverse, reverse-append, reverse-cons, reverse-reverse}
use servicekit_go.Strings.{trim_space, split}
use servicekit_go.Httpx.Ip.{
  Net, Request, Resolver, trusts, parse_hop, peer_addr, hop_or, walk_hops, forwarded_ip, or_raw,
  client_ip,
}

All-reverse {ℓ κ} : {A : Type ℓ} (P : A → Type κ) (xs : List A) → All P xs → All P (reverse xs)
All-reverse P [] h = tt
All-reverse P (x ∷ xs) h =
    rw (reverse-cons x xs) (All-append P (reverse xs) (x ∷ []) (All-reverse P xs h.1) (h.0, tt))

reverse-middle {ℓ} :
    {A : Type ℓ} (near far : List A) (x : A)
    → reverse (near ++ x ∷ far) ≡ reverse far ++ x ∷ reverse near
reverse-middle near far x =
    reverse-append near (x ∷ far)
    ∙ ap (λ t. t ++ reverse near) (reverse-cons x far)
    ∙ append_assoc (reverse far) (x ∷ []) (reverse near)

module _ (net : Net) (r : Resolver net) where
  -- A hop that is a trusted proxy.
  abbrev pub Trusted : Text → Type 0
  Trusted s = (a : net.Addr) × (parse_hop net (trim_space s) ≡ some a) × (trusts net r a ≡ true)

  walk_hops-Trusted :
      (peer : net.Addr) (near far : List Text)
      → All Trusted near
      → walk_hops net r peer (near ++ far) ≡ walk_hops net r peer far
  unfolding walk_hops hop_or
  walk_hops-Trusted peer [] far h = refl
  walk_hops-Trusted peer (s ∷ near) far ((a, e, t), hs) =
      rw (e, t) (walk_hops-Trusted peer near far hs)

  -- The hops of the header's lines, from the left.
  abbrev pub hops : List Text → List Text
  hops lines = split b',' (join lines (codes ","))

  -- The result, and why. The hops that count are the right ones, up to the first that is not a
  -- trusted proxy.
  pub data Outcome (req : Request) : Text → Type 0 where
    unreadable_peer : parse_hop net (peer_addr net req) ≡ none → Outcome req (peer_addr net req)
    untrusted_peer :
        (peer : net.Addr)
        → parse_hop net (peer_addr net req) ≡ some peer
        → trusts net r peer ≡ false
        → Outcome req (net.show peer)
    not_forwarded :
        (peer : net.Addr)
        → parse_hop net (peer_addr net req) ≡ some peer
        → join req.forwarded (codes ",") ≡ []
        → Outcome req (net.show peer)
    all_trusted :
        (peer : net.Addr)
        → parse_hop net (peer_addr net req) ≡ some peer
        → All Trusted (hops req.forwarded)
        → Outcome req (net.show peer)
    malformed_hop :
        (peer : net.Addr) (left right : List Text) (hop : Text)
        → parse_hop net (peer_addr net req) ≡ some peer
        → hops req.forwarded ≡ left ++ hop ∷ right
        → All Trusted right
        → parse_hop net (trim_space hop) ≡ none
        → Outcome req (net.show peer)
    client :
        (peer a : net.Addr) (left right : List Text) (hop : Text)
        → parse_hop net (peer_addr net req) ≡ some peer
        → trusts net r peer ≡ true
        → join req.forwarded (codes ",") ≢ []
        → hops req.forwarded ≡ left ++ hop ∷ right
        → All Trusted right
        → parse_hop net (trim_space hop) ≡ some a
        → trusts net r a ≡ false
        → Outcome req (net.show a)

  module _ (req : Request) (peer : net.Addr)
      (readable : parse_hop net (peer_addr net req) ≡ some peer)
      (trusted : trusts net r peer ≡ true) (sent : join req.forwarded (codes ",") ≢ []) where
    placed :
        (near far : List Text) (hop : Text)
        → reverse (hops req.forwarded) ≡ near ++ hop ∷ far
        → hops req.forwarded ≡ reverse far ++ hop ∷ reverse near
    placed near far hop e =
        sym (reverse-reverse (hops req.forwarded)) ∙ ap reverse e ∙ reverse-middle near far hop

    -- The walk, behind trusted hops `near`.
    walk_hops-Outcome :
        (near far : List Text)
        → All Trusted near
        → reverse (hops req.forwarded) ≡ near ++ far
        → Outcome req (walk_hops net r peer far)
    unfolding walk_hops hop_or
    walk_hops-Outcome near [] h e = all_trusted peer readable (
        subst (All Trusted)
          (ap reverse (sym (e ∙ append-nil near)) ∙ reverse-reverse (hops req.forwarded))
          (All-reverse Trusted near h))
    walk_hops-Outcome near (hop ∷ far) h e = elim (Option-cases (parse_hop net (trim_space hop))) [
      | inl none_of ↦ rw none_of (
          malformed_hop peer (reverse far) (reverse near) hop readable (placed near far hop e)
            (All-reverse Trusted near h) none_of)
      | inr (a, some_of) ↦ elim (Bool-cases (trusts net r a)) [
        | inl t ↦
            rw (some_of, t)
              (walk_hops-Outcome (near ++ hop ∷ []) far
                (All-append Trusted near (hop ∷ []) h ((a, some_of, t), tt))
                (e ∙ sym (append_assoc near (hop ∷ []) far)))
        | inr t ↦
            rw (some_of, t)
              (client peer a (reverse far) (reverse near) hop readable trusted sent
                (placed near far hop e) (All-reverse Trusted near h) some_of t)
      ]
    ]

  client_ip-Outcome : (req : Request) → Outcome req (client_ip net r req)
  unfolding client_ip or_raw forwarded_ip
  client_ip-Outcome req = elim (Option-cases (parse_hop net (peer_addr net req))) [
    | inl e ↦ rw e (unreadable_peer e)
    | inr (peer, e) ↦ elim (Bool-cases (trusts net r peer)) [
      | inr t ↦ rw (e, t) (untrusted_peer peer e t)
      | inl t ↦ elim (Bool-cases (text_eq (join req.forwarded (codes ",")) [])) [
        | inl none_sent ↦
            rw (e, t, none_sent) (not_forwarded peer e ((text_eq_iff _ _).0 none_sent))
        | inr sent ↦
            rw (e, t, sent)
              (walk_hops-Outcome req peer e t (λ z. cc (sent, (text_eq_iff _ _).1 z)) []
                (reverse (hops req.forwarded)) tt refl)
      ]
    ]
  ]

  -- A walk from the right that meets trusted hops first.
  walk_hops-middle :
      (peer : net.Addr) (left right : List Text) (hop : Text)
      → All Trusted right
      → walk_hops net r peer (reverse (left ++ hop ∷ right))
        ≡ walk_hops net r peer (hop ∷ reverse left)
  walk_hops-middle peer left right hop h =
      ap (walk_hops net r peer) (reverse-middle left right hop)
      ∙ walk_hops-Trusted peer (reverse right) (hop ∷ reverse left) (All-reverse Trusted right h)

  -- Where the walk reports the peer, so does the rest.
  forwarded_ip-peer :
      (peer : net.Addr) (text : Text)
      → walk_hops net r peer (reverse (split b',' text)) ≡ net.show peer
      → forwarded_ip net r peer text ≡ net.show peer
  unfolding forwarded_ip
  forwarded_ip-peer peer text walk = ground (arith, walk)

  forwarded_ip-walk :
      (peer : net.Addr) (text : Text)
      → trusts net r peer ≡ true
      → text ≢ []
      → forwarded_ip net r peer text ≡ walk_hops net r peer (reverse (split b',' text))
  unfolding forwarded_ip text_eq
  forwarded_ip-walk peer [] t ne = absurd (ne refl)
  forwarded_ip-walk peer (c ∷ text) t ne = rw t refl

  untrusted :
      (peer : net.Addr) (text : Text)
      → trusts net r peer ≡ false
      → forwarded_ip net r peer text ≡ net.show peer
  unfolding forwarded_ip
  untrusted peer text u = rw u refl

  nothing : (peer : net.Addr) → forwarded_ip net r peer [] ≡ net.show peer
  unfolding forwarded_ip text_eq
  nothing peer = ground arith

  Outcome-client_ip : (req : Request) (t : Text) → Outcome req t → client_ip net r req ≡ t
  unfolding client_ip or_raw walk_hops hop_or
  Outcome-client_ip req t (unreadable_peer e) = rw e
  Outcome-client_ip req t (untrusted_peer peer e u) =
      rw (e, untrusted peer (join req.forwarded (codes ",")) u) refl
  Outcome-client_ip req t (not_forwarded peer e none_sent) = rw (e, none_sent) (nothing peer)
  Outcome-client_ip req t (all_trusted peer e all) = rw e (
      forwarded_ip-peer peer (join req.forwarded (codes ",")) (
        ap (walk_hops net r peer) (sym (append-nil (reverse (hops req.forwarded))))
        ∙ walk_hops-Trusted peer (reverse (hops req.forwarded)) []
            (All-reverse Trusted (hops req.forwarded) all)))
  Outcome-client_ip req t (malformed_hop peer left right hop e h all bad) = rw e (
      forwarded_ip-peer peer (join req.forwarded (codes ",")) (
        ap (λ t. walk_hops net r peer (reverse t)) h
        ∙ walk_hops-middle peer left right hop all
        ∙ rw bad refl))
  Outcome-client_ip req t (client peer a left right hop e u ne h all good un) = rw e (
      forwarded_ip-walk peer (join req.forwarded (codes ",")) u ne
      ∙ ap (λ t. walk_hops net r peer (reverse t)) h
      ∙ walk_hops-middle peer left right hop all
      ∙ rw (good, un) refl)

  -- `ClientIP` reports the peer as it is sent if it is no address, the nearest hop that is no trusted
  -- proxy if the peer is one and each hop between is one, and in all other cases the peer: if the
  -- peer is not trusted, nothing is forwarded, each hop is trusted, or a hop is malformed.
  pub client_ip_iff : (req : Request) (t : Text) → (client_ip net r req ≡ t) ↔ Outcome req t
  client_ip_iff req t =
      (λ e. subst (Outcome req) e (client_ip-Outcome req), Outcome-client_ip req t)
