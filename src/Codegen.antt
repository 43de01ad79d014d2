-- ===== src/Codegen.antt =====
-- packages/godoo-introspection/src/godoo/introspection/type_mapper.py and codegen.py: the fields and
-- modules that are generated from a schema. What Python's `repr`, `str.capitalize` and
-- `str.isidentifier` say of a text, and its list of keywords, are an argument.
pub mod Modules
pub mod Lines
pub mod Bound
pub mod Imported
pub mod Emitted
pub mod Names
pub mod Importing
pub mod Typing
pub mod Reads
pub mod Typed
mod Tests
use Prim.Native.String.{◌++◌}
use godoo_py.Base.{
  String, string_eq, Bool, true, false, not, ◌&&◌, ◌||◌, Option, none, some, List, [], ◌∷◌, ◌==◌,
  elem, map, if◌then◌else◌, ok, err, is_empty, ◌>>=◌,
}
use godoo_py.Faults.{value_error, Checked}
use godoo_py.Introspection.{FieldSchema}
use godoo_py.Typed.{
  union, list_origin, ref_origin, other_origin, Annotation, a_class, constant, of, Annotations, nil,
  cons, none_class,
}

-- What Python says of texts
pub record Texts : Type 0 where
  pub repr : String → String
  pub capitalize : String → String
  pub is_identifier : String → Bool
  pub is_keyword : String → Bool

-- `model.split(".")` behind `model.replace(".", "_")`, as parts
unfoldable pub split_parts : String → List String
split_parts String.[] = "" ∷ []
split_parts (String.◌∷◌ c text) =
    let rest = split_parts text in
    if String.◌∷◌ c String.[] == "." || String.◌∷◌ c String.[] == "_"
    then "" ∷ rest
    else elim rest [ [] ↦ [] | part ∷ parts ↦ String.◌∷◌ c part ∷ parts ]

abbrev concat : List String → String
concat [] = ""
concat (s ∷ ss) = s ++ concat ss

-- `model.replace(".", "_")`: the file's name without its ending
unfoldable pub model_to_stem : String → String
model_to_stem String.[] = ""
model_to_stem (String.◌∷◌ c text) =
    (if String.◌∷◌ c String.[] == "." then "_" else String.◌∷◌ c String.[]) ++ model_to_stem text

-- `_model_to_filename`
abbrev pub model_to_filename : String → String
model_to_filename model = model_to_stem model ++ ".py"

-- `_model_to_classname`
unfoldable pub model_to_classname : Texts → String → Checked String
model_to_classname texts model =
    let result = concat (map texts.capitalize (split_parts model)) in
    if texts.is_identifier result then ok result else err value_error

-- A field line: the annotation, the default with its comment, the imports and the flags
pub record Emission : Type 0 where
  pub annotation : Annotation
  pub default : String
  pub comment : String
  pub imports : List String
  pub odoo_readonly : Bool
  pub odoo_x2many : Bool

-- `if extra`
abbrev pub has_extra : Emission → Bool
has_extra e = e.odoo_readonly || e.odoo_x2many

-- `Optional[…]`
abbrev pub optional : Annotation → Annotation
optional a = of union (cons a (cons none_class nil))

abbrev pub constants : List (String × String) → Annotations
constants [] = nil
constants ((value, label) ∷ rest) = cons (constant value) (constants rest)

abbrev pub optional_str_ttypes : List String
optional_str_ttypes =
    "char" ∷ "text" ∷ "html" ∷ "image" ∷ "binary" ∷ "serialized" ∷ "reference" ∷ []

abbrev pub optional_float_ttypes : List String
optional_float_ttypes = "float" ∷ "monetary" ∷ []

abbrev pub list_int_ttypes : List String
list_int_ttypes = "one2many" ∷ "many2many" ∷ []

abbrev pub dict_any_ttypes : List String
dict_any_ttypes = "json" ∷ "properties" ∷ []

-- `field.relation or ""`
abbrev pub relation_of : FieldSchema → String
relation_of field = elim field.relation [ none ↦ "" | some r ↦ r ]

-- `readonly`, or computed and not stored
abbrev pub is_readonly : FieldSchema → Bool
is_readonly field =
    field.readonly || (not field.store && elim field.compute [ none ↦ false | some c ↦ true ])

-- The results of `pydantic_field_str`, with the flags `extra`
unfoldable pub emit : FieldSchema → Annotation → String → String → List String → Emission
emit field annotation default comment imports = record {
  annotation = annotation;
  default = default;
  comment = comment;
  imports = imports;
  odoo_readonly = is_readonly field;
  odoo_x2many = elem field.ttype ("one2many" ∷ "many2many" ∷ []);
}

abbrev pub emit_optional : FieldSchema → Annotation → List String → Emission
emit_optional field annotation imports = emit field (optional annotation) "None" "" imports

abbrev pub relation_comment : String → String
relation_comment relation = if relation == "" then "" else "  # " ++ relation

-- The fields of the type `many2one`
unfoldable pub many2one_field : Texts → List String → FieldSchema → Checked Emission
many2one_field texts in_set field =
    let relation = relation_of field in
    if not (relation == "") && elem relation in_set
    then (do
      target ← model_to_classname texts relation
      ok (emit_optional field (of ref_origin (cons (a_class target) nil)) ("Ref" ∷ [])))
    else ok (
        emit field (optional (of ref_origin (cons (a_class "int") nil))) "None"
          (relation_comment relation) ("Ref" ∷ []))

-- The fields of the type `selection`
unfoldable pub selection_field : FieldSchema → Emission
selection_field field =
    if is_empty field.selection
    then emit_optional field (a_class "str") []
    else emit_optional field (of (other_origin "Literal") (constants field.selection))
        ("Literal" ∷ [])

abbrev pub any_dict : Annotation
any_dict = of (other_origin "dict") (cons (a_class "str") (cons (a_class "Any") nil))

-- A chain of `if` with early returns
abbrev pub first_case : {A : Type 0} → List (Bool × A) → A → A
first_case [] default = default
first_case ((b, a) ∷ cases) default = let rest = first_case cases default in if b then a else rest

-- The early returns of `pydantic_field_str`
abbrev pub field_cases : Texts → List String → FieldSchema → List (Bool × Checked Emission)
field_cases texts in_set field =
    (elem field.ttype optional_str_ttypes, ok (emit_optional field (a_class "str") []))
    ∷ (field.ttype == "integer", ok (emit_optional field (a_class "int") []))
    ∷ (elem field.ttype optional_float_ttypes, ok (emit_optional field (a_class "float") []))
    ∷ (field.ttype == "boolean", ok (emit field (a_class "bool") "False" "" []))
    ∷ (field.ttype == "date", ok (emit_optional field (a_class "date") ("date" ∷ [])))
    ∷ (field.ttype == "datetime", ok (emit_optional field (a_class "datetime") ("datetime" ∷ [])))
    ∷ (field.ttype == "many2one", many2one_field texts in_set field)
    ∷ (
      elem field.ttype list_int_ttypes,
      ok (emit field (of list_origin (cons (a_class "int") nil)) "[]" "" []),
    )
    ∷ (field.ttype == "selection", ok (selection_field field))
    ∷ (elem field.ttype dict_any_ttypes, ok (emit_optional field any_dict ("Any" ∷ [])))
    ∷ []

-- `pydantic_field_str`
unfoldable pub pydantic_field : Texts → List String → FieldSchema → Checked Emission
pydantic_field texts in_set field =
    first_case (field_cases texts in_set field)
      (ok (emit_optional field (a_class "Any") ("Any" ∷ [])))
