-- ===== src/Rsql/Schema/Refused.antt =====
-- The errors of a comparison: `comparison` and `coerce` of rsql/schema.go.
use servicekit_go.Base.{
  ℕ, false, ◌||◌, List, [], ◌∷◌, ◌++◌, Text, contains, if◌then◌else◌, text_eq, text_eq_iff, length,
  ◌==◌, ◌≡◌, ◌≢◌, ◌⊎◌, inl, inr, refl, sym, ap, arith, Bool-cases, ◌∙◌,
}
use servicekit_go.Rsql.Ast.{Operator, op_in, op_not_in}
use servicekit_go.Rsql.Bound.{Field, Schema, Value, ops_of}
use servicekit_go.Rsql.Coerce.{Coerced, coerce, is_empty}
use servicekit_go.Rsql.Reports.{Reports, Reports-bind, Reports-check, Reports-found, Reports-lifted}
use servicekit_go.Rsql.Result.{Error, ValueError, bad_value}
use servicekit_go.Rsql.Std.{Std}
use servicekit_go.Rsql.Schema.Blame.{Some, Forbids, Blames}
use servicekit_go.Rsql.Schema.Unfit.{Unfit}
use servicekit_go.Rsql.Schema.Unread.{Refuses, coerce-Unfit}
use servicekit_go.Rsql.Schema.{
  Binder, allowed_ops, is_multi, with_column, value_of, coerce_all, bind_comparison,
}

-- The default column changes neither the operators nor the values.
allowed_ops-with_column : (sel : Text) (f : Field) → allowed_ops (with_column sel f) ≡ allowed_ops f
unfolding allowed_ops with_column
allowed_ops-with_column sel f = elim (Bool-cases (text_eq f.column [])) [
  | inl e ↦ rw e refl
  | inr e ↦ rw e refl
]

Unfit-with_column :
    (std : Std) (sel raw : Text) (f : Field) (e : ValueError)
    → Unfit std (with_column sel f) raw e
    → Unfit std f raw e
unfolding with_column
Unfit-with_column std sel raw f e h = elim (Bool-cases (text_eq f.column [])) [
  | inl n ↦ rw n at h
  | inr n ↦ rw n at h
]

allowed_ops-Forbids :
    (f : Field) (op : Operator) → contains (allowed_ops f) op ≡ false → Forbids f op
unfolding allowed_ops is_empty
allowed_ops-Forbids f op h = go f.ops h
  where
    go :
        (ops : List Operator)
        → contains (if is_empty ops then ops_of f.kind else ops) op ≡ false
        → ((ops ≢ []) × (contains ops op ≡ false))
          ⊎ ((ops ≡ []) × (contains (ops_of f.kind) op ≡ false))
    go [] h = inr (refl, h)
    go (o ∷ ops) h = inl (cc, h)

is_multi-false :
    (op : Operator) (k : ℕ)
    → (is_multi op || k == 1) ≡ false
    → (k ≢ 1) × (op ≢ op_in) × (op ≢ op_not_in)
unfolding is_multi
is_multi-false op k h = (
  ground arith,
  λ e. ground (arith, text_eq_iff op op_in),
  λ e. ground (arith, text_eq_iff op op_not_in),
)

module _ (std : Std) where
  coerce_all-Reports :
      (E : Error → Type 0) (sel : Text) (f : Field) (values : List Value) (args : List Text)
      → ((e : ValueError) → Some (λ raw. Unfit std f raw e) args → E (bad_value sel e))
      → Reports E (λ vs. Unit {0}) (coerce_all std sel f values args)
  unfolding coerce_all
  coerce_all-Reports E sel f values [] k = tt
  coerce_all-Reports E sel f values (raw ∷ args) k =
      Reports-bind E (λ v. Unit {0}) _ (value_of std sel (coerce std raw f)) _
        (refused (coerce std raw f) (coerce-Unfit std f raw))
        λ v _. coerce_all-Reports E sel f (values ++ v ∷ []) args (λ e h. k e (inr h))
    where
      refused :
          (c : Coerced Value)
          → Refuses (Unfit std f raw) c
          → Reports E (λ v. Unit {0}) (value_of std sel c)
      refused (inl v) h = tt
      refused (inr e) h = k e (inl h)

  Some-with_column :
      (sel : Text) (f : Field) (e : ValueError) (args : List Text)
      → Some (λ raw. Unfit std (with_column sel f) raw e) args
      → Some (λ raw. Unfit std f raw e) args
  Some-with_column sel f e [] h = h
  Some-with_column sel f e (raw ∷ args) (inl h) = inl (Unfit-with_column std sel raw f e h)
  Some-with_column sel f e (raw ∷ args) (inr h) = inr (Some-with_column sel f e args h)

  module _ (schema : Schema) where
    -- `k` places the comparison in the whole filter.
    pub bind_comparison-Reports :
        (E : Error → Type 0) (sel : Text) (op : Operator) (args : List Text) (b : Binder)
        → ((e : Error) → Blames std schema sel op args e → E e)
        → Reports E (λ r. r.1 ≡ b) (bind_comparison std schema sel op args b)
    unfolding bind_comparison
    bind_comparison-Reports E sel op args b k =
        Reports-found E _ (schema sel) _ _ b (λ none_is. k _ (refl, none_is))
          λ f is_declared.
            Reports-check E _ (contains (allowed_ops (with_column sel f)) op) _ _ b
              (λ refused. k _ (
                refl,
                refl,
                f,
                is_declared,
                allowed_ops-Forbids f op
                    (ap (λ ops. contains ops op) (sym (allowed_ops-with_column sel f)) ∙ refused),
              ))
              λ _.
                Reports-check E _ (is_multi op || length args == 1) _ _ b
                  (λ many.
                    let (n, ne_in, ne_not_in) = is_multi-false op (length args) many in
                    k _ (refl, refl, refl, n, ne_in, ne_not_in))
                  λ _.
                    Reports-lifted E (λ vs. Unit {0}) _
                      (coerce_all std sel (with_column sel f) [] args) _ b
                      (coerce_all-Reports E sel (with_column sel f) [] args
                        (λ e h. k _ (refl, f, is_declared, Some-with_column sel f e args h)))
                      λ _ _. refl
