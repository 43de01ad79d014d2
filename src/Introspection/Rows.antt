-- ===== src/Introspection/Rows.antt =====
-- The rows that `get_schemas` of introspector.py reads. The names in the column `model` are taken to be
-- texts, as Odoo has them; another value in it is an exception.
use godoo_py.Base.{
  ℤ, int_eq, pos, String, string_eq, false, none, some, List, [], ◌∷◌, ◌++◌, ◌==◌, if◌then◌else◌,
  ok, require, ◌>>=◌,
}
use godoo_py.Base.Dict.{Dict, lookup, insert}
use godoo_py.Value.{
  Value, int, bool, str, truthy, get, equals, item, as_dict, as_str, as_sequence, first_item,
  str_of,
}
use godoo_py.Faults.{attribute_error, other, Checked}
use godoo_py.Introspection.{Builtins, FieldSchema, ModelSchema}
use godoo_py.Introspection.Columns.{text_or_empty, field_schema}

abbrev pub Row : Type 0
Row = Dict String Value

-- `row.get(…)`: only a dict has the method.
abbrev pub row_of : Value → Checked Row
row_of v = require (as_dict v) attribute_error

-- `{r["model"]: r for r in model_records}`
unfoldable pub index_models : Dict String Value → List Value → Checked (Dict String Value)
index_models info [] = ok info
index_models info (r ∷ rows) = do
  model ← item "model" r
  name ← require (as_str model) other
  index_models (insert name r info) rows

-- `selection_field_ids`
unfoldable pub selection_ids : List Value → Checked (List Value)
selection_ids [] = ok []
selection_ids (r ∷ rows) = do
  row ← row_of r
  field_id ←
      (if equals (get "ttype" row) "selection"
        then (if truthy (get "selection_ids" row) then (do v ← item "id" r; ok (v ∷ [])) else ok [])
        else ok [])
  others ← selection_ids rows
  ok (field_id ++ others)

-- `row.get(key, default)`
abbrev pub get_or : String → Value → Row → Value
get_or key default row = elim (lookup key row) [ none ↦ default | some v ↦ v ]

-- `setdefault(key, []).append(value)`
unfoldable pub add_to : {V : Type 0} → String → V → Dict String (List V) → Dict String (List V)
add_to key v d = elim (lookup key d) [
  | none ↦ insert key (v ∷ []) d
  | some vs ↦ insert key (vs ++ (v ∷ [])) d
]

unfoldable pub add_selection :
    ℤ → String × String → Dict ℤ (List (String × String)) → Dict ℤ (List (String × String))
add_selection key v d = elim (lookup key d) [
  | none ↦ insert key (v ∷ []) d
  | some vs ↦ insert key (vs ++ (v ∷ [])) d
]

-- The loop over the rows of the fields: a row without a model is skipped.
unfoldable pub group_fields :
    Dict String (List Value) → List Value → Checked (Dict String (List Value))
group_fields groups [] = ok groups
group_fields groups (r ∷ rows) = do
  row ← row_of r
  groups' ←
      (if truthy (get "model" row)
        then (do name ← require (as_str (get "model" row)) other; ok (add_to name r groups))
        else ok groups)
  group_fields groups' rows

-- The fields of one model, if no row says its model
unfoldable pub grouped_fields :
    List String → List Value → Dict String (List Value) → Dict String (List Value)
grouped_fields (name ∷ []) rows [] = (name, rows) ∷ []
grouped_fields names rows groups = groups

module _ (builtins : Builtins) where
  -- `int(raw_fid[0])` or `int(raw_fid)`
  unfoldable pub field_id_of : Value → Checked ℤ
  field_id_of v = elim (as_sequence v) [
    | none ↦ builtins.to_int v
    | some vs ↦ do first ← first_item v; builtins.to_int first
  ]

  -- `selection_map`
  unfoldable pub map_selections :
      Dict ℤ (List (String × String)) → List Value → Checked (Dict ℤ (List (String × String)))
  map_selections found [] = ok found
  map_selections found (r ∷ rows) = do
    row ← row_of r
    fid ← field_id_of (get "field_id" row)
    let value = str_of builtins.printer (get_or "value" (str "") row)
    let label = str_of builtins.printer (get_or "name" (str "") row)
    map_selections (add_selection fid (value, label) found) rows

  -- The fields of one model
  unfoldable pub model_fields :
      Dict ℤ (List (String × String))
      → Dict String FieldSchema
      → List Value
      → Checked (Dict String FieldSchema)
  model_fields selections schemas [] = ok schemas
  model_fields selections schemas (r ∷ rows) = do
    row ← row_of r
    let field_name = text_or_empty builtins (get "name" row)
    schemas' ←
        (if field_name == "" then ok schemas else do
          field_id ← builtins.to_int (get_or "id" (int (pos 0)) row)
          schema ←
              field_schema builtins field_name
                (elim (lookup field_id selections) [ none ↦ [] | some vs ↦ vs ]) row
          ok (insert field_name schema schemas))
    model_fields selections schemas' rows

  -- The schema of one model
  unfoldable pub model_schema :
      Dict ℤ (List (String × String)) → String → Value → List Value → Checked ModelSchema
  model_schema selections name info rows = do
    row ← row_of info
    fields ← model_fields selections [] rows
    ok (record {
      name = name;
      display_name = text_or_empty builtins (get "name" row);
      transient = truthy (get_or "transient" (bool false) row);
      fields = fields;
    })
