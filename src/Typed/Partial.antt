-- ===== src/Typed/Partial.antt =====
-- `derive_partial_model` of _pydantic_transform.py. A class object is a number, `class_of` tells what it
-- says, and `create_model` of pydantic is a parameter. Entries of the cache are taken not to be collected.
pub mod Fresh
pub mod Unguarded
pub mod Reads
mod Tests
use godoo_py.Base.{
  ℕ, nat_eq, String, string_eq, Bool, true, false, ◌&&◌, Option, none, some, List, [], ◌∷◌, ◌==◌,
  all, elem, if◌then◌else◌, ok, err,
}
use godoo_py.Base.Dict.{Dict, lookup, insert}
use godoo_py.Faults.{value_error, Checked}
use godoo_py.Typed.{
  union, Annotation, a_class, of, Annotations, nil, cons, none_class, is_class, any_arg, Model,
  FieldInfo,
}

-- `args` with one more argument
abbrev pub append_arg : Annotations → Annotation → Annotations
append_arg nil a = cons a nil
append_arg (cons b rest) a = cons b (append_arg rest a)

-- `ann | None`, where a union takes its arguments in, and none twice
unfoldable pub optional : Annotation → Annotation
optional (of union args) =
    of union (if any_arg (is_class "None") args then args else append_arg args none_class)
optional a = if is_class "None" a then a else of union (cons a (cons none_class nil))

-- `frozenset(a) == frozenset(b)`
abbrev pub same_names : List String → List String → Bool
same_names a b = all (λ name. elem name b) a && all (λ name. elem name a) b

-- `_partial_model_cache`
abbrev pub PartialCache : Type 0
PartialCache = List (ℕ × List String × ℕ)

-- `clear_partial_model_cache`
abbrev pub clear_partial_model_cache : PartialCache → PartialCache
clear_partial_model_cache cache = []

unfoldable pub find_partial : ℕ → List String → PartialCache → Option ℕ
find_partial cls fields [] = none
find_partial cls fields ((key, names, derived) ∷ cache) =
    let rest = find_partial cls fields cache in
    if key == cls && same_names fields names then some derived else rest

-- What a definition of a field is for `create_model`: an annotation with the default `None` alone, or
-- with a field that carries the extras of `json_schema_extra`
pub data FieldDef : Type 0 where
  with_default : Annotation → FieldDef
  with_extras : FieldInfo → FieldDef

-- The field that `create_model` makes of a definition; without extras both flags are off.
abbrev pub created_info : FieldDef → FieldInfo
created_info (with_default annotation) = record {
  annotation = annotation;
  odoo_readonly = false;
  odoo_x2many = false;
}
created_info (with_extras info) = info

-- `(ann | None, None)`
unfoldable pub partial_def : FieldInfo → FieldDef
partial_def info = with_default (optional info.annotation)

-- `field_defs`
unfoldable pub field_defs :
    Model → List String → Dict String FieldDef → Checked (Dict String FieldDef)
field_defs model [] defs = ok defs
field_defs model (name ∷ names) defs = elim (lookup name model.model_fields) [
  | none ↦ err value_error
  | some info ↦ field_defs model names (insert name (partial_def info) defs)
]

module _ (class_of : ℕ → Model) (create_model : ℕ → Dict String FieldDef → ℕ) where
  -- `derive_partial_model`, with the cache that it leaves
  unfoldable pub derive_partial_model : ℕ → List String → PartialCache → Checked ℕ × PartialCache
  derive_partial_model cls fields cache = elim (find_partial cls fields cache) [
    | some cached ↦ (ok cached, cache)
    | none ↦ elim (field_defs (class_of cls) fields []) [
      | err e ↦ (err e, cache)
      | ok defs ↦
          let derived = create_model cls defs in (ok derived, (cls, fields, derived) ∷ cache)
    ]
  ]
