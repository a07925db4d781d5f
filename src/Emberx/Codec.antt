-- ===== src/Emberx/Codec.antt =====
-- emberx/codec.go: the codecs of entities and of slices of entities.
use servicekit_go.Base.{
  ℕ, List, [], ◌∷◌, ◌++◌, Text, Option, none, some, some_inj, All, ◌≡◌, refl, sym, ap, ◌∙◌,
  append_assoc, append-nil, subst,
}

-- `entityBlob`, which has the fields of a marshaled entity of ember.
pub record EntityBlob : Type 0 where
  pub id : Text
  pub version : ℕ
  pub payload : Text

infixl 5 ◌>>=◌
abbrev pub ◌>>=◌ {ℓ κ} : {A : Type ℓ} {B : Type κ} → Option A → (A → Option B) → Option B
none >>= f = none
some a >>= f = f a

-- An entity marshaler of ember, and `encoding/json` on blobs and on lists of raw messages. `none` is
-- an error.
pub record Marshaler : Type 1 where
  pub Entity : Type 0
  pub marshal : Entity → Option EntityBlob
  pub unmarshal : EntityBlob → Option Entity
  pub marshal_blob : EntityBlob → Option Text
  pub unmarshal_blob : Text → Option EntityBlob
  -- What the JSON of a blob keeps of it: the data without white space and with "<", ">" and "&"
  -- escaped, and an id with each byte replaced that is no UTF-8.
  pub as_written : EntityBlob → EntityBlob
  pub marshal_list : List Text → Option Text
  pub unmarshal_list : Text → Option (List Text)
  -- Go's values, and the assertions that one is an entity or a slice of entities.
  pub Any : Type 0
  pub as_entity : Any → Option Entity
  pub as_slice : Any → Option (List Entity)

module _ (m : Marshaler) where
  -- `codec.Marshal` behind the assertion, as `sliceCodec.Marshal` calls it for each entity
  unfoldable pub codec_marshal : m.Entity → Option Text
  codec_marshal e = do me ← m.marshal e; m.marshal_blob me

  -- `codec.Marshal`: a value of another type is an error.
  unfoldable pub codec_marshal_any : m.Any → Option Text
  codec_marshal_any v = do e ← m.as_entity v; codec_marshal e

  unfoldable pub codec_unmarshal : Text → Option m.Entity
  codec_unmarshal b = do eb ← m.unmarshal_blob b; m.unmarshal eb

  -- The loop of `sliceCodec.Marshal`.
  unfoldable pub marshal_loop : List Text → List m.Entity → Option (List Text)
  marshal_loop blobs [] = some blobs
  marshal_loop blobs (e ∷ s) = do b ← codec_marshal e; marshal_loop (blobs ++ b ∷ []) s

  -- `sliceCodec.Marshal` behind the assertion
  unfoldable pub slice_marshal : List m.Entity → Option Text
  slice_marshal s = do blobs ← marshal_loop [] s; m.marshal_list blobs

  unfoldable pub slice_marshal_any : m.Any → Option Text
  slice_marshal_any v = do s ← m.as_slice v; slice_marshal s

  -- The loop of `sliceCodec.Unmarshal`.
  unfoldable pub unmarshal_loop : List m.Entity → List Text → Option (List m.Entity)
  unmarshal_loop s [] = some s
  unmarshal_loop s (blob ∷ blobs) = do e ← codec_unmarshal blob; unmarshal_loop (s ++ e ∷ []) blobs

  unfoldable pub slice_unmarshal : Text → Option (List m.Entity)
  slice_unmarshal b = do blobs ← m.unmarshal_list b; unmarshal_loop [] blobs

  -- The text of a blob.
  abbrev pub IsWritten : Text → Type 0
  IsWritten t = (b : EntityBlob) × (m.marshal_blob b ≡ some t)

  -- What the codecs rely on: the marshaler reads an entity back from what JSON keeps of its blob, and
  -- the JSON of a blob and of a list of such texts is read back as what it keeps. The texts of a list
  -- are as they are in its own JSON, which changes nothing of what it has written once.
  pub record ReadsBack : Type 0 where
    pub entity :
        (e : m.Entity) (b : EntityBlob) (t : Text)
        → m.marshal e ≡ some b
        → m.marshal_blob b ≡ some t
        → m.unmarshal (m.as_written b) ≡ some e
    pub blob :
        (b : EntityBlob) (t : Text)
        → m.marshal_blob b ≡ some t
        → m.unmarshal_blob t ≡ some (m.as_written b)
    pub list :
        (bs : List Text) (t : Text)
        → All IsWritten bs
        → m.marshal_list bs ≡ some t
        → m.unmarshal_list t ≡ some bs

first_some {ℓ κ} :
    {A : Type ℓ} {B : Type κ} (o : Option A) (f : A → Option B) (b : B)
    → (o >>= f) ≡ some b
    → (a : A) × (o ≡ some a) × (f a ≡ some b)
first_some none f b h = cc
first_some (some a) f b h = (a, refl, h)

module _ (m : Marshaler) (reads : ReadsBack m) where
  codec_unmarshal-codec_marshal :
      (e : m.Entity) (t : Text) → codec_marshal m e ≡ some t → codec_unmarshal m t ≡ some e
  unfolding codec_marshal codec_unmarshal
  codec_unmarshal-codec_marshal e t h =
      let (b, f, g) = first_some (m.marshal e) m.marshal_blob t h in
      rw (reads.blob b t g) (reads.entity e b t f g)

  codec_marshal-IsWritten : (e : m.Entity) (t : Text) → codec_marshal m e ≡ some t → IsWritten m t
  unfolding codec_marshal
  codec_marshal-IsWritten e t h =
      let (b, f, g) = first_some (m.marshal e) m.marshal_blob t h in (b, g)

  unmarshal_loop-marshal_loop :
      (s done : List m.Entity) (before blobs : List Text)
      → marshal_loop m before s ≡ some blobs
      → (written : List Text) × (blobs ≡ before ++ written)
        × All (IsWritten m) written
        × (unmarshal_loop m done written ≡ some (done ++ s))
  unfolding marshal_loop unmarshal_loop
  unmarshal_loop-marshal_loop [] done before blobs h =
      ([], sym (some_inj h) ∙ sym (append-nil before), tt, ap some (sym (append-nil done)))
  unmarshal_loop-marshal_loop (e ∷ s) done before blobs h =
      let (b, f, g) =
        first_some (codec_marshal m e) (λ b. marshal_loop m (before ++ b ∷ []) s) blobs h in
      let (written, k, w, r) =
        unmarshal_loop-marshal_loop s (done ++ e ∷ []) (before ++ b ∷ []) blobs g in
      (
        b ∷ written,
        k ∙ append_assoc before (b ∷ []) written,
        (codec_marshal-IsWritten e b f, w),
        rw (codec_unmarshal-codec_marshal e b f) (r ∙ ap some (append_assoc done (e ∷ []) s)),
      )

  -- A batch of entities that could be written is read back as the same entities in the same order.
  pub slice_unmarshal-slice_marshal :
      (s : List m.Entity) (t : Text) → slice_marshal m s ≡ some t → slice_unmarshal m t ≡ some s
  unfolding slice_marshal slice_unmarshal
  slice_unmarshal-slice_marshal s t h =
      let (blobs, f, g) = first_some (marshal_loop m [] s) m.marshal_list t h in
      let (written, k, w, r) = unmarshal_loop-marshal_loop s [] [] blobs f in
      rw (reads.list blobs t (subst (All (IsWritten m)) (sym k) w) g, k) r

  -- A codec writes nothing but entities, and reads back what it has written as the same entity.
  pub codec_unmarshal-codec_marshal_any :
      (v : m.Any) (t : Text)
      → codec_marshal_any m v ≡ some t
      → (e : m.Entity) × (m.as_entity v ≡ some e) × (codec_unmarshal m t ≡ some e)
  unfolding codec_marshal_any
  codec_unmarshal-codec_marshal_any v t h =
      let (e, f, g) = first_some (m.as_entity v) (codec_marshal m) t h in
      (e, f, codec_unmarshal-codec_marshal e t g)

  -- The codec of slices writes nothing but batches of entities, and reads a batch back as the same
  -- entities in the same order, where the marshaler reads an entity back from what JSON keeps of its
  -- blob, and the JSON of blobs and of lists of them is read back as what it keeps.
  pub slice_unmarshal-slice_marshal_any :
      (v : m.Any) (t : Text)
      → slice_marshal_any m v ≡ some t
      → (s : List m.Entity) × (m.as_slice v ≡ some s) × (slice_unmarshal m t ≡ some s)
  unfolding slice_marshal_any
  slice_unmarshal-slice_marshal_any v t h =
      let (s, f, g) = first_some (m.as_slice v) (slice_marshal m) t h in
      (s, f, slice_unmarshal-slice_marshal s t g)
