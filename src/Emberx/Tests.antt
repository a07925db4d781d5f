-- ===== src/Emberx/Tests.antt =====
-- Runs of emberx/, and the witnesses.
use servicekit_go.Base.{
  ℕ, zero, suc, ◌==◌, List, [], ◌∷◌, Text, codes, Option, none, some, some_inj, if◌then◌else◌, ◌≡◌,
  ◌≢◌, refl, ap, sym, ◌∙◌,
}
use servicekit_go.Caller.{Caller, Context, from_context}
use servicekit_go.Emberx.Codec.{
  EntityBlob, Marshaler, ReadsBack, codec_marshal, marshal_loop, slice_marshal, slice_marshal_any,
  codec_marshal_any, slice_unmarshal, slice_unmarshal-slice_marshal_any,
}
use servicekit_go.Emberx.Metadata.{
  Metadata, HandleFunc, string, stamp, stamp_found, get_metadata, caller, caller-get_metadata,
}

abbrev staff : Caller
staff = record { id = codes "ana@example.com"; client = codes "desk" }

abbrev published : Context
published = record { caller = some staff; correlation = some (codes "c1"); idempotency = none }

abbrev consumed : Context
consumed = record { caller = none; correlation = none; idempotency = none }

abbrev ext : Context → Option Metadata
ext ctx = some ((codes "caller", string (codes "forged")) ∷ [])

abbrev stamped : Metadata
stamped =
    (codes "caller_client", string (codes "desk"))
    ∷ (codes "caller", string (codes "ana@example.com"))
    ∷ (codes "caller", string (codes "forged"))
    ∷ []

abbrev seen_caller : HandleFunc (Option Caller)
seen_caller ctx e = ctx.caller

in_context : from_context published ≡ some staff
unfolding from_context
in_context = refl

get_metadata-stamped : get_metadata ext published ≡ some stamped
unfolding get_metadata stamp_found stamp from_context
get_metadata-stamped = refl

has_id : staff.id ≢ []
has_id e = cc

caller-get_metadata_example :
    (seen : Context) × (caller seen_caller consumed (record { id = codes "e1"; metadata = stamped })
      ≡ seen_caller seen (record { id = codes "e1"; metadata = stamped }))
    × (from_context seen ≡ some staff)
caller-get_metadata_example =
    caller-get_metadata ext published consumed staff stamped (codes "e1") seen_caller in_context
      has_id get_metadata-stamped

-- An entity with an id, a version and a number.
record Note : Type 0 where
  id : Text
  version : ℕ
  count : ℕ

-- The data of a note: as many digits as it counts, with white space between them.
abbrev spaced : ℕ → Text
spaced zero = []
spaced (suc n) = b'1' ∷ b' ' ∷ spaced n

abbrev tally : Text → ℕ
tally [] = 0
tally (c ∷ t) = if c == b' ' then tally t else suc (tally t)

abbrev compact : Text → Text
compact [] = []
compact (c ∷ t) = if c == b' ' then compact t else c ∷ compact t

-- A list of texts as one text: 1 in front of each rune, and 0 behind each text.
abbrev framed : Text → Text → Text
framed [] rest = 0 ∷ rest
framed (r ∷ t) rest = 1 ∷ r ∷ framed t rest

abbrev list_text : List Text → Text
list_text [] = []
list_text (t ∷ ts) = framed t (list_text ts)

abbrev add_first : ℕ → List Text → List Text
add_first r [] = []
add_first r (t ∷ ts) = (r ∷ t) ∷ ts

abbrev text_list : Text → List Text
text_list [] = []
text_list (zero ∷ t) = [] ∷ text_list t
text_list (suc n ∷ []) = []
text_list (suc n ∷ r ∷ t) = add_first r (text_list t)

abbrev fields_blob : List Text → Option EntityBlob
fields_blob (i ∷ (v ∷ []) ∷ p ∷ []) = some (record { id = i; version = v; payload = p })
fields_blob _ = none

-- A value is an entity if it holds one.
abbrev only : List Note → Option Note
only (n ∷ []) = some n
only _ = none

abbrev notes : Marshaler
notes = record {
  Entity = Note;
  marshal = λ n. some (record { id = n.id; version = n.version; payload = spaced n.count });
  unmarshal = λ b. some (record { id = b.id; version = b.version; count = tally b.payload });
  marshal_blob = λ b. some (list_text (b.id ∷ (b.version ∷ []) ∷ compact b.payload ∷ []));
  unmarshal_blob = λ t. fields_blob (text_list t);
  as_written = λ b. record b { payload = compact b.payload };
  marshal_list = λ ts. some (list_text ts);
  unmarshal_list = λ t. some (text_list t);
  Any = List Note;
  as_entity = only;
  as_slice = λ v. some v;
}

text_list-framed : (t rest : Text) → text_list (framed t rest) ≡ t ∷ text_list rest
text_list-framed [] rest = refl
text_list-framed (r ∷ t) rest = ap (add_first r) (text_list-framed t rest)

text_list-list_text : (ts : List Text) → text_list (list_text ts) ≡ ts
text_list-list_text [] = refl
text_list-list_text (t ∷ ts) =
    text_list-framed t (list_text ts) ∙ ap (λ ts. t ∷ ts) (text_list-list_text ts)

tally-spaced : (n : ℕ) → tally (compact (spaced n)) ≡ n
tally-spaced zero = refl
tally-spaced (suc n) = ap suc (tally-spaced n)

notes-ReadsBack : ReadsBack notes
notes-ReadsBack = record {
  entity = λ e b t h _.
      ap notes.unmarshal (ap notes.as_written (sym (some_inj h)))
      ∙ ap (λ n. some (record { id = e.id; version = e.version; count = n }))
          (tally-spaced e.count);
  blob = λ b t h.
      ap notes.unmarshal_blob (sym (some_inj h))
      ∙ ap fields_blob (text_list-list_text (b.id ∷ (b.version ∷ []) ∷ compact b.payload ∷ []));
  list = λ bs t _ h. ap notes.unmarshal_list (sym (some_inj h)) ∙ ap some (text_list-list_text bs);
}

abbrev batch : List Note
batch =
    record { id = codes "n1"; version = 2; count = 3 }
    ∷ record { id = codes "n2"; version = 0; count = 1 }
    ∷ []

abbrev batch_text : Text
batch_text = list_text (
    list_text (codes "n1" ∷ (2 ∷ []) ∷ codes "111" ∷ [])
    ∷ list_text (codes "n2" ∷ (0 ∷ []) ∷ codes "1" ∷ [])
    ∷ [])

written : slice_marshal_any notes batch ≡ some batch_text
unfolding slice_marshal_any slice_marshal marshal_loop codec_marshal
written = refl

slice_unmarshal-slice_marshal_any_example :
    (s : List Note) × (notes.as_slice batch ≡ some s) × (slice_unmarshal notes batch_text ≡ some s)
slice_unmarshal-slice_marshal_any_example =
    slice_unmarshal-slice_marshal_any notes notes-ReadsBack batch batch_text written

-- A batch is no entity.
refused : codec_marshal_any notes batch ≡ none
unfolding codec_marshal_any
refused = refl
