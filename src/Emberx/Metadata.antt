-- ===== src/Emberx/Metadata.antt =====
-- emberx/caller.go and emberx/emberx.go: the caller and the idempotency key on events.
use servicekit_go.Base.{
  false, not, List, [], ◌∷◌, Text, codes, text_eq, text_eq_iff, Option, none, some, if◌then◌else◌,
  ◌≡◌, ◌≢◌, refl, ap, sym, ◌∙◌, arith, Bool-cases, Option-cases, some_inj, inl, inr,
}
use servicekit_go.Caller.{Caller, Context, new_context, from_context}

-- A value of the metadata: the code looks at strings alone.
pub data Value : Type 0 where
  string : Text → Value
  other : Value

-- A map; a later key hides an earlier one.
abbrev pub Metadata : Type 0
Metadata = List (Text × Value)

abbrev pub metadata_key_caller : Text
metadata_key_caller = codes "caller"

abbrev pub metadata_key_caller_client : Text
metadata_key_caller_client = codes "caller_client"

-- `md[k].(string)`
unfoldable pub get_string : Metadata → Text → Option Text
get_string [] k = none
get_string ((j, string s) ∷ md) k = if text_eq j k then some s else get_string md k
get_string ((j, other) ∷ md) k = if text_eq j k then none else get_string md k

unfoldable pub stamp : Option Caller → Metadata → Metadata
stamp none md = md
stamp (some c) md =
    (metadata_key_caller_client, string c.client) ∷ (metadata_key_caller, string c.id) ∷ md

unfoldable pub stamp_found : Option Caller → Option Metadata → Option Metadata
stamp_found c none = none
stamp_found c (some md) = some (stamp c md)

-- `MetadataGetter.Get`; `ext` is the one of ember, and `none` its error.
unfoldable pub get_metadata : (Context → Option Metadata) → Context → Option Metadata
get_metadata ext ctx = stamp_found (from_context ctx) (ext ctx)

pub record ReceivedEvent : Type 0 where
  pub id : Text
  pub metadata : Metadata

abbrev pub HandleFunc {ℓ} : Type ℓ → Type ℓ
HandleFunc A = Context → ReceivedEvent → A

unfoldable pub or_empty : Option Text → Text
or_empty none = []
or_empty (some s) = s

unfoldable pub caller_of : Option Text → Option Text → Context → Context
caller_of none client ctx = ctx
caller_of (some id) client ctx =
    if not (text_eq id [])
    then new_context ctx (record { id = id; client = or_empty client })
    else ctx

-- `Caller`
unfoldable pub caller {ℓ} : {A : Type ℓ} → HandleFunc A → HandleFunc A
caller next ctx e =
    next
      (caller_of (get_string e.metadata metadata_key_caller)
        (get_string e.metadata metadata_key_caller_client) ctx)
      e

-- `IdempotencyKey`
unfoldable pub idempotency_key {ℓ} : {A : Type ℓ} → HandleFunc A → HandleFunc A
idempotency_key next ctx e = next (record ctx { idempotency = some e.id }) e

id_sent : (c : Caller) → c.id ≢ [] → text_eq c.id [] ≡ false
id_sent c ne = elim (Bool-cases (text_eq c.id [])) [
  | inl e ↦ absurd (ne ((text_eq_iff c.id []).0 e))
  | inr e ↦ e
]

get_metadata-stamp :
    (ext : Context → Option Metadata) (ctx : Context) (c : Caller) (md : Metadata)
    → from_context ctx ≡ some c
    → get_metadata ext ctx ≡ some md
    → (base : Metadata) × (stamp (some c) base ≡ md)
unfolding get_metadata stamp_found
get_metadata-stamp ext ctx c md h g = elim (Option-cases (ext ctx)) [
  | inl e ↦ absurd (ground (arith, rw (h, e) at g))
  | inr (base, e) ↦ (base, some_inj (rw (h, e) at g))
]

caller_of-stamp :
    (c : Caller) (base : Metadata) (ctx : Context)
    → c.id ≢ []
    → from_context (
        caller_of
          (get_string (stamp (some c) base) metadata_key_caller)
          (get_string (stamp (some c) base) metadata_key_caller_client)
          ctx)
      ≡ some c
unfolding get_string stamp text_eq caller_of or_empty new_context from_context
caller_of-stamp c base ctx ne = rw (id_sent c ne) refl

-- The caller of a request reaches the handler of each event that the request publishes: the metadata
-- stamped in the request's context give the handler's context that caller, if it has an id.
pub caller-get_metadata {ℓ} :
    {A : Type ℓ} (ext : Context → Option Metadata) (published handled : Context) (c : Caller)
    (md : Metadata) (id : Text) (next : HandleFunc A)
    → from_context published ≡ some c
    → c.id ≢ []
    → get_metadata ext published ≡ some md
    → (seen : Context) × (caller next handled (record { id = id; metadata = md })
        ≡ next seen (record { id = id; metadata = md }))
      × (from_context seen ≡ some c)
unfolding caller
caller-get_metadata ext published handled c md id next h ne g =
    let (base, e) = get_metadata-stamp ext published c md h g in
    (
      _,
      refl,
      ap
            (λ m. from_context (
              caller_of (get_string m metadata_key_caller) (get_string m metadata_key_caller_client)
                handled))
            (sym e)
          ∙ caller_of-stamp c base handled ne,
    )
