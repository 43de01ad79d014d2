-- ===== src/Properties/Scope/Checks.antt =====
-- services/properties/scope.py: record IDs, the state of a scope, and the tests on what was read.
use godoo_py.Base.{
  ℤ, is_zero, is_positive, String, Bool, false, not, ◌&&◌, ◌||◌, Option, none, some, List, [], ◌∷◌,
  ◌==◌, nat_eq, int_eq, string_eq, if◌then◌else◌, any, elem, is_unique, ok, err, require, check,
  is_empty, ◌>>=◌, ◌>>◌,
}
use godoo_py.Base.Dict.{Dict, lookup, contains, insert}
use godoo_py.Value.{Value, int, get, as_str, as_dict, as_int, as_list, as_sequence, equals}
use godoo_py.Faults.{
  missing, property_value, property_scope, key_error, attribute_error, other, Checked,
}
use godoo_py.Client.{Session}
use godoo_py.Properties.Types.{PropertyDefinition}
use godoo_py.Properties.Codec.Parse.{parse_definitions}

abbrev pub Row : Type 0
Row = Dict String Value

-- The positive integers of a list
abbrev positive_ids : List Value → Checked (List ℤ)
positive_ids [] = ok []
positive_ids (v ∷ vs) = elim (as_int v) [
  | none ↦ err property_value
  | some n ↦
      if is_positive n
      then elim (positive_ids vs) [ err e ↦ err e | ok ns ↦ ok (n ∷ ns) ]
      else err property_value
]

abbrev listed_ids : Value → Checked (List Value)
listed_ids (int n) = ok (int n ∷ [])
listed_ids v = require (as_list v) property_value

unfoldable pub record_ids : Value → Checked (List ℤ)
record_ids ids = do
  listed ← listed_ids ids
  result ← positive_ids listed
  check (is_unique result) property_value
  ok result

-- `PropertyScope`, whose client is the one that runs
pub record PropertyScope : Type 0 where
  pub model : String
  pub field : String
  pub parent_model : String
  pub parent_field : String
  pub definition_field : String
  pub parent_id : ℤ
  pub context : Dict String Value
  pub session : Session
  pub identity : ℤ × String × String

unfoldable pub is_current : PropertyScope → Option Session → Bool
is_current scope none = false
is_current scope (some current) =
    current.object == scope.session.object
    && (current.uid == scope.identity.0
        && (current.db == scope.identity.1 && current.session_id == scope.identity.2))

-- `PropertyScope.for_parent`
unfoldable pub for_parent : PropertyScope → ℤ → Checked PropertyScope
for_parent scope parent_id = do
  record_ids (int parent_id)
  ok (record scope { parent_id = parent_id })

-- A name that must be a nonempty string
unfoldable pub nonempty : Value → Checked String
nonempty v = elim (as_str v) [
  | none ↦ err property_value
  | some t ↦ if t == "" then err property_value else ok t
]

-- `name or info.get(key)`
unfoldable pub route_name : Option String → Value → Checked String
route_name none found = nonempty found
route_name (some name) found = if name == "" then nonempty found else ok name

-- `d.get(key, {})`, on which `.get` is called
unfoldable pub get_dict : String → Dict String Value → Checked (Dict String Value)
get_dict key d = elim (lookup key d) [ none ↦ ok [] | some v ↦ require (as_dict v) attribute_error ]

-- The route that the metadata of the model give: parent field, definition field, parent model.
unfoldable pub route :
    String → Option String → Option String → Value → Checked (String × String × String)
route property_field parent_field definition_field value = do
  metadata ← require (as_dict value) property_value
  info ← require (as_dict (get property_field metadata)) property_value
  check (equals (get "type" info) "properties") property_value
  parent ← route_name parent_field (get "definition_record" info)
  definition ← route_name definition_field (get "definition_record_field" info)
  relation ← get_dict parent metadata
  check (equals (get "type" relation) "many2one") property_value
  parent_model ← nonempty (get "relation" relation)
  ok (parent, definition, parent_model)

-- The test on the metadata of the parent model
unfoldable pub check_parent : String → Value → Checked (Unit {0})
check_parent definition_field value = do
  metadata ← require (as_dict value) property_value
  info ← get_dict definition_field metadata
  check (equals (get "type" info) "properties_definition") property_value

abbrev pub is_omitted : List String → Row → Bool
is_omitted fields row = any (λ name. not (contains name row)) fields

abbrev pub omits : Option (List String) → Row → Bool
omits none row = false
omits (some fields) row = is_omitted fields row

-- The ID of a row of the answer, if the row is one of those that were asked for.
unfoldable pub requested_row :
    List ℤ → Option (List String) → Dict ℤ Row → Value → Checked (ℤ × Row)
requested_row ids fields indexed value = do
  row ← require (as_dict value) property_value
  rid ← require (as_int (get "id" row)) property_value
  check (elem rid ids && not (contains rid indexed)) property_value
  check (not (omits fields row)) property_value
  ok (rid, row)

unfoldable pub index_rows :
    List ℤ → Option (List String) → Dict ℤ Row → List Value → Checked (Dict ℤ Row)
index_rows ids fields indexed [] = ok indexed
index_rows ids fields indexed (value ∷ rest) = do
  (rid, row) ← requested_row ids fields indexed value
  index_rows ids fields (insert rid row indexed) rest

-- `[indexed[rid] for rid in ids]`, once none of them is missing
unfoldable pub rows_of : Dict ℤ Row → List ℤ → Checked (List Row)
rows_of indexed [] = ok []
rows_of indexed (rid ∷ ids) = do
  row ← require (lookup rid indexed) missing
  rows ← rows_of indexed ids
  ok (row ∷ rows)

-- What `read_rows` makes of the answer
unfoldable pub checked_rows : List ℤ → Option (List String) → Value → Checked (List Row)
checked_rows ids fields answer = do
  listed ← require (as_list answer) property_value
  indexed ← index_rows ids fields [] listed
  rows_of indexed ids

-- A many2one that is read as a pair of ID and name
abbrev first_of_pair : Value → Value
first_of_pair v = elim (as_sequence v) [
  | none ↦ v
  | some vs ↦ elim vs [
    | [] ↦ v
    | a ∷ rest ↦ elim rest [ [] ↦ v | b ∷ more ↦ if is_empty more then a else v ]
  ]
]

unfoldable pub parent_id_for : PropertyScope → Row → Checked ℤ
parent_id_for scope row = do
  parent_id ← require (as_int (first_of_pair (get scope.parent_field row))) property_scope
  check (is_positive parent_id) property_scope
  check (is_zero scope.parent_id || parent_id == scope.parent_id) property_scope
  ok parent_id

-- `parse_definitions(rows[0][field])`
unfoldable pub definitions_of : String → List Row → Checked (List PropertyDefinition)
definitions_of field [] = err other
definitions_of field (row ∷ rest) = do
  raw ← require (lookup field row) key_error
  parse_definitions raw
