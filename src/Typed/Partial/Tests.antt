-- ===== src/Typed/Partial/Tests.antt =====
-- A class with one relation, and its partial model.
use mathlib.Core.Path.{subst}
use godoo_py.Base.{
  ℕ, zero, suc, nat_eq, pos, String, string_eq, ◌≡◌, ◌⊎◌, refl, inl, inr, true, false, none, some,
  List, [], ◌∷◌, ◌==◌, if◌then◌else◌, ok, arith, is_empty, eq→path, Bool-cases,
}
use godoo_py.Base.Dict.{Dict, lookup, insert}
use godoo_py.Value.{Value, int, list, nil, cons}
use godoo_py.Typed.{
  Annotation, a_class, of, list_origin, union, none_class, FieldInfo, Model, Annotations,
}
use godoo_py.Typed.Wire.{raw, Calendar}
use godoo_py.Typed.Instances.{Instance, sent_value, serialize_for_write, serialize_fields}
use godoo_py.Typed.Partial.{
  optional, FieldDef, with_default, created_info, partial_def, PartialCache, find_partial,
  field_defs, derive_partial_model,
}
use godoo_py.Typed.Partial.Fresh.{IsPartial, IsFilled, Creates, derive_partial_model-fresh}
use godoo_py.Typed.Partial.Unguarded.{partial-unguarded}

abbrev ids : Annotation
ids = of list_origin (Annotations.cons (a_class "int") Annotations.nil)

abbrev optional_ids : Annotation
optional_ids = of union (Annotations.cons ids (Annotations.cons none_class Annotations.nil))

abbrev relation : FieldInfo
relation = record { annotation = ids; odoo_readonly = false; odoo_x2many = true }

abbrev class_of : ℕ → Model
class_of zero = record { odoo_model = "res.partner"; model_fields = ("child_ids", relation) ∷ [] }
class_of (suc n) = record {
  odoo_model = "res.partner";
  model_fields = ("child_ids", created_info (with_default optional_ids)) ∷ [];
}

abbrev create_model : ℕ → Dict String FieldDef → ℕ
create_model cls defs = if is_empty defs then cls else 1

abbrev one : Dict String FieldDef
one = ("child_ids", with_default optional_ids) ∷ []

abbrev IsShort : Dict String FieldDef → Type 0
IsShort defs = (defs ≡ []) ⊎ (defs ≡ one)

inserted-IsShort :
    (before : Dict String FieldDef)
    → IsShort before
    → IsShort (insert "child_ids" (with_default optional_ids) before)
inserted-IsShort before (inl e) = inr (rw e refl)
inserted-IsShort before (inr e) = inr (rw e refl)

shape :
    (cls : ℕ) (fields : List String) (before defs : Dict String FieldDef)
    → IsShort before
    → field_defs (class_of cls) fields before ≡ ok defs
    → IsShort defs
unfolding field_defs optional partial_def
shape cls [] before defs h e = let same : before ≡ defs = cc in subst IsShort same h
shape zero (name ∷ fields) before defs h e = elim (Bool-cases (name == "child_ids")) [
  | inr other ↦ absurd (ground arith)
  | inl same ↦
      let short = inserted-IsShort before h in
      let there = eq→path name "child_ids" same in
      shape zero fields (insert "child_ids" (with_default optional_ids) before) defs short
        (subst (λ n. field_defs (class_of zero) (n ∷ fields) before ≡ ok defs) there e)
]
shape (suc cls) (name ∷ fields) before defs h e = elim (Bool-cases (name == "child_ids")) [
  | inr other ↦ absurd (ground arith)
  | inl same ↦
      let short = inserted-IsShort before h in
      let there = eq→path name "child_ids" same in
      shape (suc cls) fields (insert "child_ids" (with_default optional_ids) before) defs short
        (subst (λ n. field_defs (class_of (suc cls)) (n ∷ fields) before ≡ ok defs) there e)
]

other_field :
    (cls : ℕ) (name : String)
    → (name == "child_ids") ≡ false
    → lookup name (class_of cls).model_fields ≡ none
other_field zero name h = rw h refl
other_field (suc n) name h = rw h refl

creates : Creates class_of create_model
creates cls fields defs name h = elim (shape cls fields [] defs (inl refl) h) [
  | inl e ↦ rw e refl
  | inr e ↦ elim (Bool-cases (name == "child_ids")) [
    | inl same ↦ rw (e, same) refl
    | inr other ↦ let absent = other_field cls name other in rw (e, other, absent) refl
  ]
]

abbrev filled : PartialCache
filled = (0, "child_ids" ∷ [], 1) ∷ []

partial : IsPartial class_of 0 ("child_ids" ∷ []) 1
unfolding optional partial_def
partial name = elim (Bool-cases (name == "child_ids")) [
  | inl same ↦ rw same refl
  | inr other ↦ rw other refl
]

derive_partial_model-fresh_example :
    IsFilled class_of (derive_partial_model class_of create_model 0 ("child_ids" ∷ []) filled).1
    × ((derived fresh : ℕ) (name : String)
        → (derive_partial_model class_of create_model 0 ("child_ids" ∷ []) filled).0 ≡ ok derived
        → (derive_partial_model class_of create_model 0 ("child_ids" ∷ []) []).0 ≡ ok fresh
        → lookup name (class_of derived).model_fields ≡ lookup name (class_of fresh).model_fields)
derive_partial_model-fresh_example =
    derive_partial_model-fresh class_of create_model 0 ("child_ids" ∷ []) filled creates
      (partial, tt)

abbrev calendar : Calendar String String
calendar = record {
  parse_date = some;
  print_date = λ d. d;
  parse_datetime = some;
  print_datetime = λ t. t;
}

abbrev two_ids : Value
two_ids = list (cons (int (pos 4)) (cons (int (pos 9)) nil))

-- An instance that was read with the one field
abbrev contact : Instance String String
contact = record {
  model = class_of 1;
  state = (("child_ids", raw two_ids) ∷ [], "child_ids" ∷ []);
  user_set = some [];
}

contact-written : serialize_for_write calendar contact ≡ ok (("child_ids", two_ids) ∷ [])
unfolding serialize_for_write serialize_fields sent_value
contact-written = refl

derived_new : (derive_partial_model class_of create_model 0 ("child_ids" ∷ []) []).0 ≡ ok 1
unfolding derive_partial_model find_partial field_defs
derived_new = refl

partial-unguarded_example :
    let payload : Dict String Value = ("child_ids", two_ids) ∷ [] in
    lookup "child_ids" payload ≡ some (sent_value calendar (raw two_ids))
partial-unguarded_example =
    partial-unguarded calendar class_of create_model 0 1 ("child_ids" ∷ []) [] contact "child_ids"
      relation (raw two_ids) (("child_ids", two_ids) ∷ []) creates tt derived_new refl
      ((raw two_ids, refl), tt) refl refl refl refl refl contact-written
