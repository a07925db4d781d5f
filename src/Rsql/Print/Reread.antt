-- ===== src/Rsql/Print/Reread.antt =====
-- The values of a bound filter, as they are read from their texts.
use servicekit_go.Base.{
  ◌⊎◌, inr, All-mono, Bool, not, ◌&&◌, text_eq, subst, ◌≢◌, Bool-cases, text_eq_iff, text_eq_self,
  ℕ, true, false, ◌||◌, List, [], ◌∷◌, Text, length, contains, some, ◌==◌, inl, ◌≡◌, refl, sym, ◌∙◌,
  arith, All,
}
use servicekit_go.Rsql.Ast.{Operator, op_in, op_not_in}
use servicekit_go.Rsql.Bound.{Kind, Field, ops_of, Value, Schema, BoundComparison}
use servicekit_go.Rsql.Canonical.{show_value}
use servicekit_go.Rsql.Coerce.{coerce, coerce_kind, parse_bool, read_float, read_time, is_empty}
use servicekit_go.Rsql.Canonical.Numbers.{parse_int-show_int}
use servicekit_go.Rsql.Schema.{with_column, allowed_ops, is_multi}
use servicekit_go.Rsql.Schema.Sound.{InEnum-enum}
use servicekit_go.Rsql.Schema.Spec.{HasKind, InEnum, IsBoundComparison}
use servicekit_go.Rsql.Std.{Std}

and_false : (b : Bool) → (not b && false) ≡ false
and_false true = refl
and_false false = refl

Field-ext :
    (f g : Field) → f.column ≡ g.column → f.kind ≡ g.kind → f.ops ≡ g.ops → f.enum ≡ g.enum → f ≡ g
Field-ext f g a b c d = λ i. record { column = a i; kind = b i; ops = c i; enum = d i }

with_column-fields :
    (sel : Text) (d f : Field)
    → (sel ≢ [] → f.column ≢ [])
    → (f.column ≡ d.column) ⊎ ((d.column ≡ []) × (f.column ≡ sel))
    → f.kind ≡ d.kind
    → f.ops ≡ d.ops
    → f.enum ≡ d.enum
    → with_column sel d ≡ f
unfolding with_column text_eq
with_column-fields sel d f ne (inr (e, g)) k o m =
    rw e (Field-ext (record d { column = sel }) f (sym g) (sym k) (sym o) (sym m))
with_column-fields sel d f ne (inl e) k o m = elim (Bool-cases (text_eq d.column [])) [
  | inr n ↦ rw n (Field-ext d f (sym e) (sym k) (sym o) (sym m))
  | inl n ↦
      let empty = (text_eq_iff d.column []).0 n in
      elim (Bool-cases (text_eq sel [])) [
        | inl z ↦ rw n (
            Field-ext (record d { column = sel }) f ((text_eq_iff sel []).0 z ∙ sym empty ∙ sym e)
              (sym k) (sym o) (sym m))
        | inr z ↦ absurd (ne (λ q. cc ((text_eq_iff sel []).1 q)) (e ∙ empty))
      ]
]

is_empty-contains : (ops : List Text) (op : Text) → contains ops op ≡ true → is_empty ops ≡ false
unfolding contains is_empty
is_empty-contains [] op h = cc
is_empty-contains (o ∷ ops) op h = refl

allowed_ops-contains :
    (f : Field) (op : Operator)
    → (contains f.ops op ≡ true) ⊎ ((f.ops ≡ []) × (contains (ops_of f.kind) op ≡ true))
    → contains (allowed_ops f) op ≡ true
unfolding allowed_ops is_empty
allowed_ops-contains f op (inl h) = rw (is_empty-contains f.ops op h) h
allowed_ops-contains f op (inr (e, h)) = rw e h

is_multi-arity :
    (op : Operator) (n : ℕ) → (op ≡ op_in) ⊎ (op ≡ op_not_in) → (is_multi op || n == 1) ≡ true
unfolding is_multi
is_multi-arity op n (inl e) = rw (e, text_eq_self op_in) refl
is_multi-arity op n (inr e) = ground (arith, e, text_eq_self op_not_in)

module _ (std : Std) where
  -- A float and a time are read back from their texts.
  abbrev pub Restores : Value → Type 0
  Restores (Value.float x) = std.parse_float (std.format_float x) ≡ some x
  Restores (Value.time t) = std.parse_time (std.format_time t) ≡ some t
  Restores _ = Unit

  coerce_kind-show :
      (k : Kind) (v : Value)
      → HasKind k v
      → Restores v
      → coerce_kind std k (show_value std v) ≡ inl v
  unfolding coerce_kind show_value parse_bool read_float read_time contains text_eq
  coerce_kind-show Kind.string (Value.string s) h r = refl
  coerce_kind-show Kind.int (Value.int n) h r = rw (parse_int-show_int n h) refl
  coerce_kind-show Kind.float (Value.float x) h r = rw r refl
  coerce_kind-show Kind.bool (Value.bool true) h r = refl
  coerce_kind-show Kind.bool (Value.bool false) h r = refl
  coerce_kind-show Kind.time (Value.time t) h r = rw r refl
  coerce_kind-show _ _ h r = absurd h

  in_enum :
      (f : Field) (v : Value)
      → HasKind f.kind v
      → InEnum f v
      → (f.kind ≡ Kind.string) ⊎ (f.enum ≡ [])
      → (f.enum ≡ []) ⊎ (contains f.enum (show_value std v) ≡ true)
  unfolding show_value
  in_enum f v h e (inr none_is) = inl none_is
  in_enum f (Value.string s) h e (inl k) = e
  in_enum f (Value.int n) h e (inl k) = absurd (subst (λ k. HasKind k (Value.int n)) k h)
  in_enum f (Value.float x) h e (inl k) = absurd (subst (λ k. HasKind k (Value.float x)) k h)
  in_enum f (Value.bool b) h e (inl k) = absurd (subst (λ k. HasKind k (Value.bool b)) k h)
  in_enum f (Value.time t) h e (inl k) = absurd (subst (λ k. HasKind k (Value.time t)) k h)

  coerce-show :
      (f : Field) (v : Value)
      → HasKind f.kind v
      → InEnum f v
      → Restores v
      → (f.kind ≡ Kind.string) ⊎ (f.enum ≡ [])
      → coerce std (show_value std v) f ≡ inl v
  unfolding coerce is_empty
  coerce-show f v h e r k = elim (in_enum f v h e k) [
    | inl none_is ↦ rw (none_is, coerce_kind-show f.kind v h r) refl
    | inr listed ↦ rw (listed, coerce_kind-show f.kind v h r, and_false (is_empty f.enum)) refl
  ]

  module _ (schema : Schema) where
    -- The schema gives the comparison its field, allows it, and its values are read from their texts.
    pub record Rereads (c : BoundComparison) : Type 0 where
      pub declared : Field
      pub is_declared : schema c.selector ≡ some declared
      pub field_is : with_column c.selector declared ≡ c.field
      pub allowed : contains (allowed_ops c.field) c.op ≡ true
      pub arity : (is_multi c.op || length c.values == 1) ≡ true
      pub reads : All (λ v. coerce std (show_value std v) c.field ≡ inl v) c.values

    values_reread :
        (f : Field) (vs : List Value)
        → (f.kind ≡ Kind.string) ⊎ (f.enum ≡ [])
        → All (λ v. HasKind f.kind v × InEnum f v) vs
        → All Restores vs
        → All (λ v. coerce std (show_value std v) f ≡ inl v) vs
    values_reread f [] k h r = tt
    values_reread f (v ∷ vs) k h r =
        (coerce-show f v h.0.0 h.0.1 r.0 k, values_reread f vs k h.1 r.1)

    arity-multi :
        (op : Operator) (vs : List Value)
        → (length vs ≡ 1) ⊎ ((vs ≢ []) × ((op ≡ op_in) ⊎ (op ≡ op_not_in)))
        → (is_multi op || length vs == 1) ≡ true
    arity-multi op vs (inl e) = ground (arith, e)
    arity-multi op vs (inr (ne, m)) = is_multi-arity op (length vs) m

    pub bound-Rereads :
        (c : BoundComparison)
        → ((sel : Text) (f : Field) → schema sel ≡ some f → (f.kind ≡ Kind.string) ⊎ (f.enum ≡ []))
        → IsBoundComparison schema c
        → All Restores c.values
        → Rereads c
    bound-Rereads c strings b r =
        let field_is =
          with_column-fields c.selector b.declared c.field b.column_ne_nil b.column_is b.kind_is
            b.ops_are b.enum_is in
        record {
          declared = b.declared;
          is_declared = b.is_declared;
          field_is = field_is;
          allowed = allowed_ops-contains c.field c.op (rw (b.ops_are, b.kind_is) b.op_allowed);
          arity = arity-multi c.op c.values b.arity;
          reads =
              values_reread c.field c.values
                (rw (b.kind_is, b.enum_is) (strings c.selector b.declared b.is_declared))
                (All-mono _ _ c.values
                  (λ v h. (rw b.kind_is h.0, InEnum-enum c.field b.declared v h.1 (sym b.enum_is)))
                  b.values_fit)
                r;
        }
