-- ===== src/Properties/Binding/Rows.antt =====
-- Rows and payloads of a binding: the parts of `read`, `create` and `patch_each` that await nothing.
use godoo_py.Base.{
  distinct, ℤ, int_eq, String, string_eq, Bool, false, not, ◌||◌, Option, none, some, List, [], ◌∷◌,
  ◌++◌, ◌==◌, is_empty, if◌then◌else◌, map, ok, err,
}
use godoo_py.Base.Dict.{Dict, insert, lookup, merge, contains}
use godoo_py.Value.{Value, int, list, dict, get, as_int, as_dict, items, of_items, of_entries}
use godoo_py.Faults.{property_value, property_scope, key_error, other, Checked}
use godoo_py.Properties.Codec.Values.{Calendar}
use godoo_py.Properties.Codec.Records.{decode_values, encode_values}
use godoo_py.Properties.Scope.Checks.{Row, PropertyScope, parent_id_for}
use godoo_py.Properties.Binding.Declare.{PropertyBinding}
use godoo_py.Properties.Binding.Aliases.{project_aliases, patch_aliases}

-- The `PropertyRecord` of a bound read
pub record BoundRecord : Type 0 where
  pub id : ℤ
  pub record_fields : Row
  pub properties : Dict String Value
  pub aliases : Dict String Value

pub data BoundResult : Type 0 where
  one : BoundRecord → BoundResult
  many : List BoundRecord → BoundResult

unfoldable pub bound_result : Value → List BoundRecord → Checked BoundResult
bound_result (int n) [] = err other
bound_result (int n) (first ∷ rest) = ok (one first)
bound_result ids records = ok (many records)

unfoldable pub bound_fields : Option (List String) → PropertyScope → Option (List String)
bound_fields none scope = none
bound_fields (some fields) scope =
    some (distinct [] (fields ++ scope.parent_field ∷ scope.field ∷ []))

-- One row of `read`
unfoldable pub bound_record : Calendar → PropertyBinding → Row → Checked BoundRecord
bound_record calendar binding row = elim (parent_id_for binding.scope row) [
  | err e ↦ err e
  | ok parent_id ↦ elim (decode_values calendar binding.definitions (get binding.scope.field row)) [
    | err e ↦ err e
    | ok decoded ↦ elim (project_aliases binding.aliases decoded) [
      | err e ↦ err e
      | ok projected ↦ elim (as_int (get "id" row)) [
        | none ↦ err key_error
        | some rid ↦
            ok (record { id = rid; record_fields = row; properties = decoded; aliases = projected })
      ]
    ]
  ]
]

unfoldable pub bound_records : Calendar → PropertyBinding → List Row → Checked (List BoundRecord)
bound_records calendar binding [] = ok []
bound_records calendar binding (row ∷ rows) = elim (bound_record calendar binding row) [
  | err e ↦ err e
  | ok first ↦ elim (bound_records calendar binding rows) [
    | err e ↦ err e
    | ok rest ↦ ok (first ∷ rest)
  ]
]

-- `rows` of `create`: the value is a mapping, or a nonempty list of mappings.
unfoldable pub mappings : List Value → Checked (List Row)
mappings [] = ok []
mappings (value ∷ rest) = elim (as_dict value) [
  | none ↦ err property_value
  | some row ↦ elim (mappings rest) [ err e ↦ err e | ok rows ↦ ok (row ∷ rows) ]
]

unfoldable pub create_rows : Value → Checked (List Row)
create_rows (list vs) = elim (mappings (items vs)) [
  | err e ↦ err e
  | ok rows ↦ if is_empty rows then err property_value else ok rows
]
create_rows value = mappings (value ∷ [])

-- `payload.setdefault(key, value)`
abbrev pub set_default : String → Value → Row → Row
set_default key value row = if contains key row then row else insert key value row

-- The tests on one payload before the refresh
unfoldable pub with_parent : PropertyScope → Row → Checked Row
with_parent scope row =
    let payload = set_default scope.parent_field (int scope.parent_id) row in
    elim (as_int (get scope.parent_field payload)) [
      | none ↦ err property_scope
      | some parent ↦
          if parent == scope.parent_id
          then elim (lookup scope.field payload) [
            | none ↦ ok payload
            | some raw ↦ elim (as_dict raw) [
              | none ↦ err property_value
              | some changes ↦ ok payload
            ]
          ]
          else err property_scope
    ]

unfoldable pub with_parents : PropertyScope → List Row → Checked (List Row)
with_parents scope [] = ok []
with_parents scope (row ∷ rows) = elim (with_parent scope row) [
  | err e ↦ err e
  | ok payload ↦ elim (with_parents scope rows) [ err e ↦ err e | ok rest ↦ ok (payload ∷ rest) ]
]

module _ (calendar : Calendar) (binding : PropertyBinding) where
  -- `encode_values(patch_values(self._alias_changes(changes), definitions), definitions)`
  unfoldable pub encode_changes : Dict String Value → Checked (Dict String Value)
  encode_changes changes =
      elim (patch_aliases calendar binding.definitions binding.aliases [] changes) [
        | err e ↦ err e
        | ok validated ↦ encode_values calendar binding.definitions validated
      ]

  -- The properties of one payload, encoded where they are given
  unfoldable pub encode_row : Row → Checked Row
  encode_row row = elim (lookup binding.scope.field row) [
    | none ↦ ok row
    | some raw ↦ elim (as_dict raw) [
      | none ↦ err property_value
      | some changes ↦ elim (encode_changes changes) [
        | err e ↦ err e
        | ok encoded ↦ ok (insert binding.scope.field (dict (of_entries encoded)) row)
      ]
    ]
  ]

  unfoldable pub encode_rows : List Row → Checked (List Row)
  encode_rows [] = ok []
  encode_rows (row ∷ rows) = elim (encode_row row) [
    | err e ↦ err e
    | ok encoded ↦ elim (encode_rows rows) [ err e ↦ err e | ok rest ↦ ok (encoded ∷ rest) ]
  ]

  -- `normalized`
  unfoldable pub normalize : Dict ℤ (Dict String Value) → Checked (Dict ℤ (Dict String Value))
  normalize [] = ok []
  normalize ((rid, patch) ∷ patches) =
      elim (patch_aliases calendar binding.definitions binding.aliases [] patch) [
        | err e ↦ err e
        | ok validated ↦ elim (normalize patches) [
          | err e ↦ err e
          | ok rest ↦ ok ((rid, validated) ∷ rest)
        ]
      ]

  -- The new values of one row, encoded
  unfoldable pub bound_payload : Dict String Value → Row → Checked (Dict String Value)
  bound_payload changes row = elim (parent_id_for binding.scope row) [
    | err e ↦ err e
    | ok parent_id ↦
        elim (decode_values calendar binding.definitions (get binding.scope.field row)) [
          | err e ↦ err e
          | ok current ↦ encode_values calendar binding.definitions (merge current changes)
        ]
  ]

  -- `payloads`: every row is checked, and those with changes are kept.
  unfoldable pub bound_payloads :
      Dict ℤ (Dict String Value) → List Row → Checked (Dict ℤ (Dict String Value))
  bound_payloads normalized [] = ok []
  bound_payloads normalized (row ∷ rows) = elim (as_int (get "id" row)) [
    | none ↦ err key_error
    | some rid ↦ elim (lookup rid normalized) [
      | none ↦ err key_error
      | some changes ↦ elim (bound_payload changes row) [
        | err e ↦ err e
        | ok payload ↦ elim (bound_payloads normalized rows) [
          | err e ↦ err e
          | ok rest ↦ ok (if is_empty changes then rest else (rid, payload) ∷ rest)
        ]
      ]
    ]
  ]

abbrev pub patch_mappings : Dict ℤ Value → Checked (Dict ℤ (Dict String Value))
patch_mappings [] = ok []
patch_mappings ((rid, raw) ∷ changes) = elim (as_dict raw) [
  | none ↦ err property_value
  | some patch ↦ elim (patch_mappings changes) [
    | err e ↦ err e
    | ok rest ↦ ok ((rid, patch) ∷ rest)
  ]
]

abbrev pub has_changes : List (Dict String Value) → Bool
has_changes [] = false
has_changes (patch ∷ patches) = not (is_empty patch) || has_changes patches

-- `[payloads if batch else payloads[0]]`
unfoldable pub create_args : Value → List Row → Checked (List Value)
create_args (list vs) rows = ok (list (of_items (map (λ row. dict (of_entries row)) rows)) ∷ [])
create_args value [] = err other
create_args value (row ∷ rows) = ok (dict (of_entries row) ∷ [])
