-- ===== src/Fiberx/Record/Headers.antt =====
-- The headers of a request in the log: `VisitAll` in `Record` of fiberx/fiberx.go.
use servicekit_go.Base.{
  ℕ, List, [], ◌∷◌, ◌++◌, Text, codes, contains, join, text_eq, text_eq_iff, Option, none, some,
  if◌then◌else◌, ◌≡◌, refl, ap, ◌∙◌, arith, append_assoc,
}
use servicekit_go.Fiberx.Record.{add_header, put_header, visit_headers}
use servicekit_go.Httpx.Header.{canonical_header_key}
use servicekit_go.Httpx.Redact.{redacted_value}

-- What the log shows under a key.
abbrev pub shown : Text → List (Text × Text) → Option Text
shown k [] = none
shown k ((j, v) ∷ hs) = if text_eq j k then some v else shown k hs

-- A value joins what is shown already.
abbrev added : Option Text → Text → Text
added none v = v
added (some prev) v = prev ++ (b',' ∷ v)

shown-add_header :
    (l k v : Text) (hs : List (Text × Text))
    → shown l (add_header k v hs)
      ≡ (if text_eq k l then some (added (shown k hs) v) else shown l hs)
unfolding add_header
shown-add_header l k v [] = refl
shown-add_header l k v ((j, prev) ∷ hs) =
    ground (arith, text_eq_iff j k, text_eq_iff j l, text_eq_iff k l, shown-add_header l k v hs)

shown-put_header :
    (l k v : Text) (hs : List (Text × Text))
    → shown l (put_header k v hs) ≡ (if text_eq k l then some v else shown l hs)
unfolding put_header
shown-put_header l k v [] = refl
shown-put_header l k v ((j, prev) ∷ hs) =
    ground (arith, text_eq_iff j k, text_eq_iff j l, text_eq_iff k l, shown-put_header l k v hs)

-- The values that come behind those that are shown already.
abbrev joined : Option Text → List Text → Option Text
joined o [] = o
joined o (v ∷ vs) = joined (some (added o v)) vs

abbrev masked : Option Text → List Text → Option Text
masked o [] = o
masked o (v ∷ vs) = some redacted_value

masked-redacted : (vs : List Text) → masked (some redacted_value) vs ≡ some redacted_value
masked-redacted [] = refl
masked-redacted (v ∷ vs) = refl

join-added :
    (p w : Text) (c : ℕ) (vs : List Text) (sep : Text)
    → join ((p ++ (c ∷ w)) ∷ vs) sep ≡ p ++ (c ∷ join (w ∷ vs) sep)
unfolding join
join-added p w c [] sep = refl
join-added p w c (v ∷ vs) sep = append_assoc p (c ∷ w) (sep ++ join (v ∷ vs) sep)

joined-join : (p : Text) (vs : List Text) → joined (some p) vs ≡ some (join (p ∷ vs) (codes ","))
unfolding join
joined-join p [] = refl
joined-join p (v ∷ vs) =
    joined-join (p ++ (b',' ∷ v)) vs ∙ ap some (join-added p v b',' vs (codes ","))

-- What a log may show of a header's values.
abbrev pub summary : List Text → Text → List Text → Option Text
summary redact k [] = none
summary redact k (v ∷ vs) =
    if contains redact k then some redacted_value else some (join (v ∷ vs) (codes ","))

summary_lem :
    (redact : List Text) (k : Text) (vs : List Text)
    → (if contains redact k then masked none vs else joined none vs) ≡ summary redact k vs
summary_lem redact k [] = ground arith
summary_lem redact k (v ∷ vs) = ground (arith, joined-join v vs)

-- The values that were sent under a key, in their order, whatever its spelling.
abbrev pub values_of : Text → List (Text × Text) → List Text
values_of k [] = []
values_of k ((key, v) ∷ rest) =
    if text_eq (canonical_header_key key) k then v ∷ values_of k rest else values_of k rest

module _ (redact : List Text) where
  shown-visit_headers_from :
      (l : Text) (rest headers : List (Text × Text))
      → shown l (visit_headers redact headers rest) ≡ (
          if contains redact l
          then masked (shown l headers) (values_of l rest)
          else joined (shown l headers) (values_of l rest))
  unfolding visit_headers
  shown-visit_headers_from l [] headers = ground arith
  shown-visit_headers_from l ((key, v) ∷ rest) headers =
      let k = canonical_header_key key in
      ground (
        arith,
        text_eq_iff k l,
        shown-put_header l k redacted_value headers,
        shown-add_header l k v headers,
        masked-redacted (values_of l rest),
        shown-visit_headers_from l rest (put_header k redacted_value headers),
        shown-visit_headers_from l rest (add_header k v headers),
      )

  -- The log shows a header under each canonical key that was sent and no other: the replacement alone
  -- if the key has to be hidden, and else all its values in the order in which they were sent,
  -- joined by commas, however often and in whatever spelling it was sent.
  pub shown-visit_headers :
      (k : Text) (sent : List (Text × Text))
      → shown k (visit_headers redact [] sent) ≡ summary redact k (values_of k sent)
  shown-visit_headers k sent =
      shown-visit_headers_from k sent [] ∙ summary_lem redact k (values_of k sent)
