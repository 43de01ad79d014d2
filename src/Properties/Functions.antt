-- ===== src/Properties/Functions.antt =====
-- services/properties/functions.py: reads, patches and the legacy updates, and `write_one` of
-- mutations.py as a call.
use godoo_py.Base.{
  ℤ, String, Option, none, some, List, [], ◌∷◌, ◌++◌, int_eq, string_eq, distinct, ok, err, require,
}
use godoo_py.Base.Dict.{Dict, lookup, insert, merge}
use godoo_py.Value.{Value, int, list, dict, of_items, of_entries, get, as_int}
use godoo_py.Faults.{key_error, other, Checked}
use godoo_py.Client.{Outside, Rpc, ◌>>=◌, ◌>>◌, pure, lift}
use godoo_py.Properties.Types.{PropertyDefinition}
use godoo_py.Properties.Codec.Values.{Calendar}
use godoo_py.Properties.Codec.Records.{decode_values, patch_values, encode_values}
use godoo_py.Properties.Codec.Legacy.{legacy_merge}
use godoo_py.Properties.Receipts.{Receipt, receipt_of, require_acknowledged}
use godoo_py.Properties.Scope.Checks.{Row, PropertyScope, record_ids, for_parent, parent_id_for}
use godoo_py.Properties.Scope.Calls.{
  check_identity, capture_scope, scope_call, discover, read_rows, load_definitions,
}

-- `PropertyRecord`; the definitions carry their scope.
pub record PropertyRecord : Type 0 where
  pub id : ℤ
  pub record_fields : Row
  pub properties : Dict String Value
  pub definitions : List PropertyDefinition
  pub scope : PropertyScope

-- What the keyword arguments say of the route
pub record Route : Type 0 where
  pub field : String
  pub context : Option (Dict String Value)
  pub parent_field : Option String
  pub definition_field : Option String

-- The result for an int, and for a list
pub data ReadResult : Type 0 where
  one : PropertyRecord → ReadResult
  many : List PropertyRecord → ReadResult

unfoldable pub requested_fields : Option (List String) → String → String → Option (List String)
requested_fields none field parent_field = none
requested_fields (some fields) field parent_field =
    some (distinct [] (fields ++ field ∷ parent_field ∷ []))

-- `result[0] if type(ids) is int else result`
unfoldable pub read_result : Value → List PropertyRecord → Checked ReadResult
read_result (int n) [] = err other
read_result (int n) (record_read ∷ rest) = ok (one record_read)
read_result ids records = ok (many records)

-- The payload of `patch`: all values of the record, with the changes over them.
unfoldable pub patched_payload :
    Calendar → PropertyRecord → Dict String Value → Checked (Dict String Value)
patched_payload calendar snapshot changes =
    elim (patch_values calendar snapshot.definitions changes) [
      | err e ↦ err e
      | ok validated ↦
          encode_values calendar snapshot.definitions (merge snapshot.properties validated)
    ]

-- One record of `read`, once the definitions of its parent are there
unfoldable pub property_record :
    Calendar → String → PropertyScope → List PropertyDefinition → Row → Checked PropertyRecord
property_record calendar field parent loaded row =
    elim (decode_values calendar loaded (get field row)) [
      | err e ↦ err e
      | ok values ↦ elim (as_int (get "id" row)) [
        | none ↦ err key_error
        | some rid ↦ ok (record {
          id = rid;
          record_fields = row;
          properties = values;
          definitions = loaded;
          scope = parent;
        })
      ]
    ]

-- `[[record_id], {field: payload}]`
abbrev pub write_args : String → ℤ → Dict String Value → List Value
write_args field rid payload =
    list (of_items (int rid ∷ []))
    ∷ dict (of_entries ((field, dict (of_entries payload)) ∷ []))
    ∷ []

-- `result[0]` of a read for one record
unfoldable pub only_record : ReadResult → Checked PropertyRecord
only_record (one r) = ok r
only_record (many rs) = err other

-- `rows[0][field]`
unfoldable pub first_value : String → List Row → Checked Value
first_value field [] = err other
first_value field (row ∷ rows) = require (lookup field row) key_error

abbrev pub Snapshots : Type 0
Snapshots = Dict ℤ (PropertyScope × List PropertyDefinition)

module _ (outside : Outside) (calendar : Calendar) where
  -- `definitions`
  unfoldable pub definitions : String → Route → ℤ → Rpc (PropertyScope × List PropertyDefinition)
  definitions model where_from parent_id = do
    lift (record_ids (int parent_id))
    scope ←
        discover outside model where_from.field where_from.context where_from.parent_field
          where_from.definition_field
    parent ← lift (for_parent scope parent_id)
    loaded ← load_definitions outside parent
    pure (parent, loaded)

  -- `snapshots[parent_id]`, which is loaded at its first use
  unfoldable pub snapshot_of :
      PropertyScope → ℤ → Snapshots → Rpc (Snapshots × PropertyScope × List PropertyDefinition)
  snapshot_of scope parent_id snapshots = elim (lookup parent_id snapshots) [
    | some snapshot ↦ pure (snapshots, snapshot.0, snapshot.1)
    | none ↦ do
      parent ← lift (for_parent scope parent_id)
      loaded ← load_definitions outside parent
      pure (insert parent_id (parent, loaded) snapshots, parent, loaded)
  ]

  -- The loop of `read` over the rows
  unfoldable pub read_each : PropertyScope → Snapshots → List Row → Rpc (List PropertyRecord)
  read_each scope snapshots [] = pure []
  read_each scope snapshots (row ∷ rows) = do
    parent_id ← lift (parent_id_for scope row)
    found ← snapshot_of scope parent_id snapshots
    first ← lift (property_record calendar scope.field found.1 found.2 row)
    rest ← read_each scope found.0 rows
    pure (first ∷ rest)

  -- `read`, for at least one record
  unfoldable pub read_some :
      String → List ℤ → Route → Option (List String) → Rpc (List PropertyRecord)
  read_some model [] where_from fields = pure []
  read_some model (rid ∷ ids) where_from fields = do
    scope ←
        discover outside model where_from.field where_from.context where_from.parent_field
          where_from.definition_field
    rows ←
        read_rows outside scope model (rid ∷ ids)
          (requested_fields fields where_from.field scope.parent_field)
    read_each scope [] rows

  -- `read`
  unfoldable pub read : String → Value → Route → Option (List String) → Rpc ReadResult
  read model ids where_from fields = do
    target_ids ← lift (record_ids ids)
    records ← read_some model target_ids where_from fields
    lift (read_result ids records)

  -- `write_one`: no exception leaves it.
  unfoldable pub write_one : PropertyScope → ℤ → Dict String Value → Rpc Receipt
  write_one scope rid payload s =
      let after =
        scope_call outside scope scope.model "write" (write_args scope.field rid payload) [] s in
      (ok (receipt_of rid after.0), after.1)

  -- `require_acknowledged` of the receipt that `dispatch` gives for one payload
  unfoldable pub write_acknowledged : PropertyScope → ℤ → Dict String Value → Rpc (Unit {0})
  write_acknowledged scope rid payload = do
    receipt ← write_one scope rid payload
    lift (require_acknowledged receipt)

  -- `patch`
  unfoldable pub patch : String → ℤ → Route → Dict String Value → Rpc (Unit {0})
  patch model rid where_from [] = do lift (record_ids (int rid)); pure tt
  patch model rid where_from (change ∷ changes) = do
    lift (record_ids (int rid))
    found ← read model (int rid) where_from (some [])
    snapshot ← lift (only_record found)
    check_identity snapshot.scope
    payload ← lift (patched_payload calendar snapshot (change ∷ changes))
    write_acknowledged snapshot.scope rid payload

  -- `update_safely`
  unfoldable pub update_safely : String → ℤ → String → Dict String Value → Rpc (Unit {0})
  update_safely model rid field updates = do
    scope ← capture_scope model field none
    ids ← lift (record_ids (int rid))
    rows ← read_rows outside scope model ids (some (field ∷ []))
    current ← lift (first_value field rows)
    payload ← lift (legacy_merge calendar current updates)
    write_acknowledged scope rid payload

-- The payloads of `update_safely_batch`, all of which are made before the first write.
unfoldable pub legacy_payloads :
    Calendar → String → Dict String Value → List Row → Checked (Dict ℤ (Dict String Value))
legacy_payloads calendar field updates [] = ok []
legacy_payloads calendar field updates (row ∷ rows) = elim (lookup field row) [
  | none ↦ err key_error
  | some current ↦ elim (legacy_merge calendar current updates) [
    | err e ↦ err e
    | ok payload ↦ elim (as_int (get "id" row)) [
      | none ↦ err key_error
      | some rid ↦ elim (legacy_payloads calendar field updates rows) [
        | err e ↦ err e
        | ok rest ↦ ok ((rid, payload) ∷ rest)
      ]
    ]
  ]
]

-- `update_safely_batch` for validated IDs, up to the dispatch of the payloads
unfoldable pub preflight_ids :
    Outside
    → Calendar
    → String
    → List ℤ
    → String
    → Dict String Value
    → Rpc (Dict ℤ (Dict String Value))
preflight_ids outside calendar model [] field updates = pure []
preflight_ids outside calendar model (rid ∷ rest) field updates = do
  scope ← capture_scope model field none
  rows ← read_rows outside scope model (rid ∷ rest) (some (field ∷ []))
  lift (legacy_payloads calendar field updates rows)

unfoldable pub preflight_batch :
    Outside
    → Calendar
    → String
    → Value
    → String
    → Dict String Value
    → Rpc (Dict ℤ (Dict String Value))
preflight_batch outside calendar model ids field updates = do
  target_ids ← lift (record_ids ids)
  preflight_ids outside calendar model target_ids field updates
