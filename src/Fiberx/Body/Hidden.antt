-- ===== src/Fiberx/Body/Hidden.antt =====
-- No credential is logged in a body.
use servicekit_go.Base.{
  ℕ, ◌≤◌, ◌<◌, true, false, Option, none, ◌≢◌, subst, List, [], ◌∷◌, Text, length, ltb, some, ◌≡◌,
  ◌⊎◌, inl, inr, refl, arith, Bool-cases,
}
use servicekit_go.Fiberx.Body.{
  Json, Members, Elements, object, array, string, scalar, no_members, member, no_elements, element,
  Codec, Logged, nil, omitted, non_json, raw_message, redact_keys, redact_members, redact_elements,
  has_more, is_json_space, marshalled, redact_decoded, redacted_text, redacted_body,
}
use servicekit_go.Httpx.Redact.{redacted_value, is_redacted}
use servicekit_go.Httpx.Web.{Web}

-- Behind a value: white space to the end, or up to a closing bracket or brace.
abbrev pub IsUnseen : Text → Type 0
IsUnseen [] = Unit
IsUnseen (c ∷ rest) =
    ((c ≡ b']') ⊎ (c ≡ b'}')) ⊎ (((c ≡ b' ') ⊎ (c ≡ 9) ⊎ (c ≡ 10) ⊎ (c ≡ 13)) × IsUnseen rest)

-- What `has_more` skips is not seen.
has_more-IsUnseen :
    (rest : Text)
    → ((has_more rest ≡ true) × (¬ IsUnseen rest)) ⊎ ((has_more rest ≡ false) × IsUnseen rest)
unfolding has_more is_json_space
has_more-IsUnseen [] = inr (refl, tt)
has_more-IsUnseen (c ∷ rest) = ground (arith, has_more-IsUnseen rest)

module _ (web : Web) (redact : List Text) where
  -- At any depth, a key that has to be hidden holds the replacement.
  abbrev mutual
    pub IsHidden : Json → Type 0
    IsHidden (object ms) = AreHidden ms
    IsHidden (array es) = EachHidden es
    IsHidden (string s) = Unit
    IsHidden (scalar s) = Unit

    pub AreHidden : Members → Type 0
    AreHidden no_members = Unit
    AreHidden (member k v ms) =
        ((is_redacted web redact k ≡ false) ⊎ (v ≡ string redacted_value))
        × IsHidden v
        × AreHidden ms

    pub EachHidden : Elements → Type 0
    EachHidden no_elements = Unit
    EachHidden (element v es) = IsHidden v × EachHidden es

  -- A value with some of its members replaced, all of them under keys that have to be hidden.
  abbrev mutual
    pub Replaces : Json → Json → Type 0
    Replaces (object ms) (object ns) = ReplacesMembers ms ns
    Replaces (array es) (array fs) = ReplacesElements es fs
    Replaces (string s) (string t) = s ≡ t
    Replaces (scalar s) (scalar t) = s ≡ t
    Replaces _ _ = ⊥

    pub ReplacesMembers : Members → Members → Type 0
    ReplacesMembers no_members no_members = Unit
    ReplacesMembers (member k v ms) (member j w ns) =
        (k ≡ j) × ((is_redacted web redact k ≡ true) ⊎ Replaces v w) × ReplacesMembers ms ns
    ReplacesMembers _ _ = ⊥

    pub ReplacesElements : Elements → Elements → Type 0
    ReplacesElements no_elements no_elements = Unit
    ReplacesElements (element v es) (element w fs) = Replaces v w × ReplacesElements es fs
    ReplacesElements _ _ = ⊥

module _ (web : Web) (redact : List Text) where
  mutual
    unfolding redact_keys

    keys-IsHidden :
        (v : Json)
        → IsHidden web redact (redact_keys web redact v)
          × Replaces web redact v (redact_keys web redact v)
    keys-IsHidden (object ms) = members-IsHidden ms
    keys-IsHidden (array es) = elements-IsHidden es
    keys-IsHidden (string s) = (tt, refl)
    keys-IsHidden (scalar s) = (tt, refl)

    members-IsHidden :
        (ms : Members)
        → AreHidden web redact (redact_members web redact ms)
          × ReplacesMembers web redact ms (redact_members web redact ms)
    members-IsHidden no_members = (tt, tt)
    members-IsHidden (member k v ms) =
        let (hv, rv) = keys-IsHidden v in
        let (hs, rs) = members-IsHidden ms in
        elim (Bool-cases (is_redacted web redact k)) [
          | inl e ↦ rw e ((inr refl, tt, hs), (refl, inl e, rs))
          | inr e ↦ rw e ((inl e, hv, hs), (refl, inr rv, rs))
        ]

    elements-IsHidden :
        (es : Elements)
        → EachHidden web redact (redact_elements web redact es)
          × ReplacesElements web redact es (redact_elements web redact es)
    elements-IsHidden no_elements = (tt, tt)
    elements-IsHidden (element v es) =
        let (hv, rv) = keys-IsHidden v in
        let (hs, rs) = elements-IsHidden es in ((hv, hs), (rv, rs))

  -- Redaction hides the value of each key that has to be hidden, at any depth, and changes nothing
  -- else: the other members, the elements and the scalars are those of the value.
  pub redact_keys-IsHidden :
      (v : Json)
      → IsHidden web redact (redact_keys web redact v)
        × Replaces web redact v (redact_keys web redact v)
  redact_keys-IsHidden = keys-IsHidden

  -- What a log may show of a body: nothing of an empty one, of one beyond the limit, of one that is no
  -- JSON or has more behind its value and of one that cannot be written again its size, and else a
  -- redacted value.
  abbrev pub Shows : Codec → Text → ℕ → Logged → Type 0
  Shows codec raw limit nil = raw ≡ []
  Shows codec raw limit (non_json n) =
      (n ≡ length raw)
      × (length raw ≤ limit)
      × ((codec.decode raw ≡ none)
          ⊎ ((v : Json) × (rest : Text) × (codec.decode raw ≡ some (v, rest)) × (¬ IsUnseen rest)))
  Shows codec raw limit (omitted n) =
      (n ≡ length raw)
      × ((limit < length raw)
          ⊎ ((v w : Json) × (rest : Text) × (codec.decode raw ≡ some (v, rest))
              × IsUnseen rest
              × (codec.marshal w ≡ none)
              × IsHidden web redact w
              × Replaces web redact v w))
  Shows codec raw limit (raw_message out) =
      (v w : Json) × (rest : Text) × (codec.decode raw ≡ some (v, rest))
      × IsUnseen rest
      × (codec.marshal w ≡ some out)
      × (length raw ≤ limit)
      × (raw ≢ [])
      × IsHidden web redact w
      × Replaces web redact v w

  -- Of a body the log shows nothing if it is empty, and only its size if it is longer than the limit,
  -- does not begin with a JSON value, has more behind it or cannot be written as JSON again. Else the
  -- value is logged whole, with the value of each key that has to be hidden replaced at any depth, and
  -- nothing else changed. What stands behind the value counts as nothing more, and is dropped, if it is
  -- white space or, behind white space, begins with a closing bracket or brace.
  pub redacted_body-Shows :
      (codec : Codec) (raw : Text) (limit : ℕ)
      → Shows codec raw limit (redacted_body web redact codec raw limit)
  unfolding redacted_body redacted_text redact_decoded marshalled
  redacted_body-Shows codec [] limit = refl
  redacted_body-Shows codec (c ∷ raw) limit = elim (Bool-cases (ltb limit (length (c ∷ raw)))) [
    | inl big ↦ rw big (refl, inl (ground arith))
    | inr fits ↦ rw fits (decoded (codec.decode (c ∷ raw)) refl (ground arith))
  ]
    where
      written :
          (v : Json) (rest : Text) (o : Option Text)
          → length (c ∷ raw) ≤ limit
          → codec.decode (c ∷ raw) ≡ some (v, rest)
          → IsUnseen rest
          → codec.marshal (redact_keys web redact v) ≡ o
          → Shows codec (c ∷ raw) limit (marshalled web redact (length (c ∷ raw)) o)
      written v rest none le e u f = (
        refl,
        inr (v, redact_keys web redact v, rest, e, u, f, (keys-IsHidden v).0, (keys-IsHidden v).1),
      )
      written v rest (some out) le e u f = (
        v,
        redact_keys web redact v,
        rest,
        e,
        u,
        f,
        le,
        cc,
        (keys-IsHidden v).0,
        (keys-IsHidden v).1,
      )

      decoded :
          (o : Option (Json × Text))
          → codec.decode (c ∷ raw) ≡ o
          → length (c ∷ raw) ≤ limit
          → Shows codec (c ∷ raw) limit (redact_decoded web redact codec (length (c ∷ raw)) o)
      decoded none e le = (refl, le, inl e)
      decoded (some (v, rest)) e le = elim (has_more-IsUnseen rest) [
        | inl (m, u) ↦ rw m (refl, le, inr (v, rest, e, u))
        | inr (m, u) ↦ rw m (written v rest (codec.marshal (redact_keys web redact v)) le e u refl)
      ]

  -- What is logged whole is redacted JSON within the limit.
  redacted_body-IsHidden :
      (codec : Codec) (raw : Text) (limit : ℕ) (out : Text)
      → redacted_body web redact codec raw limit ≡ raw_message out
      → Shows codec raw limit (raw_message out)
  redacted_body-IsHidden codec raw limit out h =
      subst (Shows codec raw limit) h (redacted_body-Shows codec raw limit)
