-- ===== src/Codegen/Modules.antt =====
-- The loop of `CodeGenerator.generate` of codegen.py over the fields of a schema.
use godoo_py.Base.{
  String, string_eq, pair_eq, Bool, false, not, ◌&&◌, ◌||◌, List, [], ◌∷◌, ◌++◌, ◌==◌, elem,
  if◌then◌else◌, ok, ◌>>=◌,
}
use godoo_py.Base.Dict.{Dict}
use godoo_py.Faults.{Checked}
use godoo_py.Introspection.{FieldSchema}
use godoo_py.Codegen.{
  Texts, Emission, has_extra, model_to_stem, model_to_classname, relation_of, pydantic_field,
}

-- `_PYDANTIC_RESERVED_NAMES`
abbrev pub pydantic_reserved_names : List String
pydantic_reserved_names =
    "model_config" ∷ "model_fields" ∷ "model_validate" ∷ "model_dump" ∷ "model_rebuild"
    ∷ "model_post_init" ∷ "model_json_schema" ∷ "schema" ∷ "copy" ∷ "dict" ∷ "json" ∷ []

-- What the loop over the fields has made. A flag `need_…` is a name in `imports`; the lines are made of
-- `emitted`.
pub record Progress : Type 0 where
  pub imports : List String
  pub need_field_import : Bool
  pub cross_imports : List (String × String)
  pub emitted : List (String × Emission)

abbrev pub no_progress : Progress
no_progress = record { imports = []; need_field_import = false; cross_imports = []; emitted = [] }

-- `if entry not in cross_imports: cross_imports.append(entry)`
abbrev pub add_entry : String × String → List (String × String) → List (String × String)
add_entry entry entries = if elem entry entries then entries else entries ++ (entry ∷ [])

-- Whether the field is a many2one to a model that is generated
abbrev pub is_in_set : List String → FieldSchema → Bool
is_in_set in_set field =
    field.ttype == "many2one" && (not (relation_of field == "") && elem (relation_of field) in_set)

module _ (texts : Texts) (in_set : List String) where
  -- The field `id`, and a name that is skipped with a warning
  unfoldable pub is_skipped : String → Bool
  is_skipped name =
      name == "id"
      || (not (texts.is_identifier name)
          || (texts.is_keyword name || elem name pydantic_reserved_names))

  -- The import of the model that the field refers to
  unfoldable pub cross_import :
      FieldSchema → List (String × String) → Checked (List (String × String))
  cross_import field entries =
      if is_in_set in_set field
      then (do
        target ← model_to_classname texts (relation_of field)
        ok (add_entry (model_to_stem (relation_of field), target) entries))
      else ok entries

  -- The body of the loop for a field that is not skipped
  unfoldable pub emit_field : String → FieldSchema → Progress → Checked Progress
  emit_field name field p = do
    emission ← pydantic_field texts in_set field
    entries ← cross_import field p.cross_imports
    ok (record {
      imports = p.imports ++ emission.imports;
      need_field_import = p.need_field_import || has_extra emission;
      cross_imports = entries;
      emitted = p.emitted ++ ((name, emission) ∷ []);
    })

  unfoldable pub emit_fields : Dict String FieldSchema → Progress → Checked Progress
  emit_fields [] p = ok p
  emit_fields ((name, field) ∷ fields) p = do
    p' ← (if is_skipped name then ok p else emit_field name field p)
    emit_fields fields p'
