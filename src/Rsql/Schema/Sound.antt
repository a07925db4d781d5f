-- ===== src/Rsql/Schema/Sound.antt =====
-- What `Bind` returns is a filter over the schema's fields.
use servicekit_go.Base.{
  ◌+◌, true, false, ◌||◌, List, [], ◌∷◌, ◌++◌, Text, some, text_eq, contains, text_eq_iff, length,
  length-append, ◌==◌, ◌≡◌, ◌≢◌, refl, ◌⊎◌, inl, inr, arith, All, All-append, Bool-cases, All-mono,
  map, subst,
}
use servicekit_go.Base.Int.{ℤ}
use servicekit_go.Rsql.Ast.{Operator, op_in, op_not_in, operators}
use servicekit_go.Rsql.Bound.{Kind, Field, Schema, Value, ops_of}
use servicekit_go.Rsql.Coerce.{Coerced, is_empty, parse_int, tagged, coerce, coerce_kind}
use servicekit_go.Rsql.Coerce.Range.{parse_int-InRange}
use servicekit_go.Rsql.Result.{Ends, Ends-bind, Ends-mono}
use servicekit_go.Rsql.Std.{Std}
use servicekit_go.Rsql.Schema.Spec.{HasKind, InEnum, IsBoundComparison}
use servicekit_go.Rsql.Schema.{with_column, allowed_ops, is_multi, value_of, coerce_all}

abbrev pub FitsField : Field → Value → Type 0
FitsField f v = HasKind f.kind v × InEnum f v

is_empty-cases {ℓ} : {A : Type ℓ} (l : List A) → (l ≡ []) ⊎ (is_empty l ≡ false)
unfolding is_empty
is_empty-cases [] = inl refl
is_empty-cases (x ∷ l) = inr refl

-- The default column changes nothing but the column.
with_column_rest :
    (sel : Text) (f : Field)
    → ((with_column sel f).kind ≡ f.kind)
      × ((with_column sel f).ops ≡ f.ops)
      × ((with_column sel f).enum ≡ f.enum)
unfolding with_column
with_column_rest sel f = ground arith

pub InEnum-enum : (f g : Field) (v : Value) → InEnum g v → g.enum ≡ f.enum → InEnum f v
InEnum-enum f g (Value.string s) h e = rw e at h
InEnum-enum f g (Value.int n) h e = tt
InEnum-enum f g _ h e = tt

with_column-FitsField :
    (sel : Text) (f : Field) (v : Value) → FitsField (with_column sel f) v → FitsField f v
with_column-FitsField sel f v (k, e) =
    let (kind_is, _, enum_is) = with_column_rest sel f in
    (rw kind_is at k, InEnum-enum f (with_column sel f) v e enum_is)

with_column-ne-nil : (sel : Text) (f : Field) → sel ≢ [] → (with_column sel f).column ≢ []
unfolding with_column
with_column-ne-nil sel f ne e = ground (arith, text_eq_iff f.column [])

with_column-column :
    (sel : Text) (f : Field)
    → ((with_column sel f).column ≡ f.column)
      ⊎ ((f.column ≡ []) × ((with_column sel f).column ≡ sel))
unfolding with_column
with_column-column sel f = elim (Bool-cases (text_eq f.column [])) [
  | inl e ↦ inr ((text_eq_iff f.column []).0 e, ground arith)
  | inr e ↦ inl (ground arith)
]

allowed_ops-cases :
    (f : Field) (op : Operator)
    → contains (allowed_ops f) op ≡ true
    → (contains f.ops op ≡ true) ⊎ ((f.ops ≡ []) × (contains (ops_of f.kind) op ≡ true))
unfolding allowed_ops
allowed_ops-cases f op h = elim (is_empty-cases f.ops) [
  | inl e ↦ inr (e, unfold is_empty in ground arith)
  | inr e ↦ inl (ground arith)
]

is_multi-cases : (op : Operator) → is_multi op ≡ true → (op ≡ op_in) ⊎ (op ≡ op_not_in)
unfolding is_multi
is_multi-cases op h = elim (Bool-cases (text_eq op op_in)) [
  | inl e ↦ inl ((text_eq_iff op op_in).0 e)
  | inr e ↦ inr ((text_eq_iff op op_not_in).0 (ground arith))
]

arity-cases :
    (op : Operator) (args : List Text) (vs : List Value)
    → args ≢ []
    → length vs ≡ length args
    → (is_multi op || length args == 1) ≡ true
    → (length vs ≡ 1) ⊎ ((vs ≢ []) × ((op ≡ op_in) ⊎ (op ≡ op_not_in)))
arity-cases op [] vs ne len h = absurd (ne refl)
arity-cases op (a ∷ args) [] ne len h = absurd (omega arith)
arity-cases op (a ∷ args) (v ∷ vs) ne len h = elim (Bool-cases (is_multi op)) [
  | inl e ↦ inr (cc, is_multi-cases op e)
  | inr e ↦ inl (ground arith)
]

inl_inj {ℓ κ} : {A : Type ℓ} {B : Type κ} {a b : A} → ◌≡◌ {A = A ⊎ B} (inl a) (inl b) → a ≡ b
inl_inj e = cc

module _ (std : Std) where
  coerce_kind-HasKind :
      (k : Kind) (raw : Text) (v : Value) → coerce_kind std k raw ≡ inl v → HasKind k v
  unfolding coerce_kind
  coerce_kind-HasKind Kind.string raw v h = ground arith
  coerce_kind-HasKind Kind.int raw v h = go (parse_int raw) refl h
    where
      go : (c : Coerced ℤ) → parse_int raw ≡ c → tagged Value.int c ≡ inl v → HasKind Kind.int v
      go (inl n) e g = subst (HasKind Kind.int) (inl_inj g) (parse_int-InRange raw n e)
      go (inr e) f g = cc
  coerce_kind-HasKind Kind.float raw v h = ground arith
  coerce_kind-HasKind Kind.bool raw v h = ground arith
  coerce_kind-HasKind Kind.time raw v h = ground arith
  coerce_kind-HasKind Kind.other raw v h = cc

  coerce_kind-string :
      (k : Kind) (raw s : Text) → coerce_kind std k raw ≡ inl (Value.string s) → s ≡ raw
  unfolding coerce_kind
  coerce_kind-string Kind.string raw s h = ground arith
  coerce_kind-string Kind.int raw s h = ground arith
  coerce_kind-string Kind.float raw s h = ground arith
  coerce_kind-string Kind.bool raw s h = ground arith
  coerce_kind-string Kind.time raw s h = ground arith
  coerce_kind-string Kind.other raw s h = cc

  coerce-eq-inl :
      (raw : Text) (f : Field) (v : Value)
      → coerce std raw f ≡ inl v
      → (coerce_kind std f.kind raw ≡ inl v) × ((f.enum ≡ []) ⊎ (contains f.enum raw ≡ true))
  unfolding coerce
  coerce-eq-inl raw f v h = elim (is_empty-cases f.enum) [
    | inl e ↦ (ground (arith), inl e)
    | inr e ↦ ground arith
  ]

  InEnum-string :
      (f : Field) (raw : Text) (v : Value)
      → coerce_kind std f.kind raw ≡ inl v
      → (f.enum ≡ []) ⊎ (contains f.enum raw ≡ true)
      → InEnum f v
  InEnum-string f raw (Value.string s) h e = rw (coerce_kind-string f.kind raw s h) e
  InEnum-string f raw (Value.int n) h e = tt
  InEnum-string f raw _ h e = tt

  coerce-FitsField : (raw : Text) (f : Field) (v : Value) → coerce std raw f ≡ inl v → FitsField f v
  coerce-FitsField raw f v h =
      let (k, e) = coerce-eq-inl raw f v h in
      (coerce_kind-HasKind f.kind raw v k, InEnum-string f raw v k e)

  value_of-Ends :
      (sel raw : Text) (f : Field) → Ends (FitsField f) (value_of std sel (coerce std raw f))
  value_of-Ends sel raw f = go (coerce std raw f) refl
    where
      go : (c : Coerced Value) → coerce std raw f ≡ c → Ends (FitsField f) (value_of std sel c)
      go (inl v) h = coerce-FitsField raw f v h
      go (inr e) h = tt

  pub coerce_all-Ends :
      (sel : Text) (f : Field) (values : List Value) (args : List Text)
      → All (FitsField f) values
      → Ends
          (λ vs. All (FitsField f) vs × (length vs ≡ length values + length args))
          (coerce_all std sel f values args)
  unfolding coerce_all
  coerce_all-Ends sel f values [] g = (g, omega arith)
  coerce_all-Ends sel f values (raw ∷ args) g =
      Ends-bind _ _ (value_of std sel (coerce std raw f)) _ (value_of-Ends sel raw f) λ v h.
        Ends-mono _ _ (coerce_all std sel f (values ++ v ∷ []) args)
          (λ vs k. (k.0, omega (arith, k.1, length-append values (v ∷ []))))
          (coerce_all-Ends sel f (values ++ v ∷ []) args
            (All-append (FitsField f) values (v ∷ []) g (h, tt)))

  module _ (schema : Schema) where
    pub bound-IsBoundComparison :
        (sel : Text) (op : Operator) (args : List Text) (f : Field) (vs : List Value)
        → args ≢ []
        → contains (map (λ e. e.1) operators) op ≡ true
        → schema sel ≡ some f
        → contains (allowed_ops (with_column sel f)) op ≡ true
        → (is_multi op || length args == 1) ≡ true
        → All (FitsField (with_column sel f)) vs
        → length vs ≡ length args
        → IsBoundComparison schema
            (record { selector = sel; field = with_column sel f; op = op; values = vs })
    bound-IsBoundComparison sel op args f vs ne op_known is_declared allowed arity fit len =
        record {
          declared = f;
          is_declared = is_declared;
          column_ne_nil = with_column-ne-nil sel f;
          column_is = with_column-column sel f;
          kind_is = (with_column_rest sel f).0;
          ops_are = (with_column_rest sel f).1;
          enum_is = (with_column_rest sel f).2;
          op_allowed =
              (let (k, o, e) = with_column_rest sel f in
                rw (k, o) at (allowed_ops-cases (with_column sel f) op allowed));
          op_known = op_known;
          values_fit = All-mono _ _ vs (with_column-FitsField sel f) fit;
          arity = arity-cases op args vs ne len arity;
        }
