-- ===== src/Codegen/Lines.antt =====
-- `CodeGenerator.generate` of codegen.py: the lines of the module of a schema.
use Prim.Native.String.{◌++◌}
use godoo_py.Base.{
  String, string_eq, pair_eq, List, [], ◌∷◌, ◌==◌, elem, map, if◌then◌else◌, ok, is_empty, ◌>>=◌,
}
use godoo_py.Faults.{Checked}
use godoo_py.Introspection.{ModelSchema}
use godoo_py.Typed.{
  union, list_origin, ref_origin, other_origin, Annotation, a_class, constant, of, Annotations, nil,
  cons,
}
use godoo_py.Codegen.{Texts, Emission, has_extra, model_to_classname}
use godoo_py.Codegen.Modules.{Progress, no_progress, emit_fields}

module _ (texts : Texts) where
  unfoldable mutual
    -- The text of an annotation
    pub annotation_str : Annotation → String
    annotation_str (a_class c) = c
    annotation_str (constant v) = texts.repr v
    annotation_str (of union (cons a rest)) = "Optional[" ++ (annotation_str a ++ "]")
    annotation_str (of union nil) = "Optional[]"
    annotation_str (of list_origin args) = "list[" ++ (args_str args ++ "]")
    annotation_str (of ref_origin args) = "Ref[" ++ (args_str args ++ "]")
    annotation_str (of (other_origin o) args) = o ++ ("[" ++ (args_str args ++ "]"))

    pub args_str : Annotations → String
    args_str nil = ""
    args_str (cons a nil) = annotation_str a
    args_str (cons a (cons b rest)) = annotation_str a ++ (", " ++ args_str (cons b rest))

  -- The flags as `repr` prints the dict of those that are set
  abbrev extra_str : Emission → String
  extra_str e =
      if e.odoo_readonly
      then (if e.odoo_x2many
          then "{'odoo_readonly': True, 'odoo_x2many': True}"
          else "{'odoo_readonly': True}")
      else "{'odoo_x2many': True}"

  -- The default of the field line. A comment is left out of a call.
  unfoldable pub default_expr : Emission → String
  default_expr e =
      if has_extra e
      then (if e.default == "[]"
          then "Field(default_factory=list, json_schema_extra=" ++ (extra_str e ++ ")")
          else "Field(default=" ++ (e.default ++ (", json_schema_extra=" ++ (extra_str e ++ ")"))))
      else e.default ++ e.comment

  unfoldable pub field_line : String × Emission → String
  field_line (name, e) =
      "    " ++ (name ++ (": " ++ (annotation_str e.annotation ++ (" = " ++ default_expr e))))

abbrev pub sections : List (List String) → List String
sections [] = []
sections ([] ∷ rest) = sections rest
sections ((line ∷ lines) ∷ rest) = line ∷ sections (lines ∷ rest)

-- The imports of the standard library
abbrev pub stdlib_lines : List String → List String
stdlib_lines imports =
    if elem "datetime" imports
    then (if elem "date" imports
        then "from datetime import date, datetime" ∷ "" ∷ []
        else "from datetime import datetime" ∷ "" ∷ [])
    else (if elem "date" imports then "from datetime import date" ∷ "" ∷ [] else [])

abbrev pub typing_line : List String → String
typing_line imports =
    "from typing import ClassVar, Optional"
    ++ ((if elem "Literal" imports then ", Literal" else "")
        ++ (if elem "Any" imports then ", Any" else ""))

abbrev pub cross_lines : List (String × String) → List String
cross_lines [] = []
cross_lines ((stem, target) ∷ entries) =
    ("from ." ++ (stem ++ (" import " ++ target))) ∷ cross_lines entries

module _ (texts : Texts) where
  -- The sections of the file
  abbrev pub file_sections : String → String → Progress → List (List String)
  file_sections name class_name p =
      ("# AUTOGENERATED by godoo-introspection - do not edit manually."
        ∷ ("# Model: " ++ name)
        ∷ ""
        ∷ "from __future__ import annotations"
        ∷ ""
        ∷ [])
      ∷ stdlib_lines p.imports
      ∷ (typing_line p.imports
          ∷ ""
          ∷ "from godoo.client._pydantic_transform import OdooBaseModel"
          ∷ [])
      ∷ (if elem "Ref" p.imports then "from godoo.client.typed import Ref" ∷ [] else [])
      ∷ (if p.need_field_import then "from pydantic import Field" ∷ [] else [])
      ∷ (if is_empty p.cross_imports then [] else "" ∷ cross_lines p.cross_imports)
      ∷ (""
          ∷ ""
          ∷ ("class " ++ (class_name ++ "(OdooBaseModel):"))
          ∷ ("    __odoo_model__: ClassVar[str] = \"" ++ (name ++ "\""))
          ∷ ""
          ∷ "    id: int | None = None"
          ∷ [])
      ∷ (if is_empty p.emitted then "    pass" ∷ [] else map (field_line texts) p.emitted)
      ∷ ("" ∷ [])
      ∷ []

  -- The lines of the file
  unfoldable pub assembled : String → String → Progress → List String
  assembled name class_name p = sections (file_sections name class_name p)

  -- `generate`, before its lines are joined
  unfoldable pub generate : List String → ModelSchema → Checked (List String)
  generate in_set schema = do
    class_name ← model_to_classname texts schema.name
    p ← emit_fields texts in_set schema.fields no_progress
    ok (assembled schema.name class_name p)
