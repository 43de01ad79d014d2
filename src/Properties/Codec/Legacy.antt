-- ===== src/Properties/Codec/Legacy.antt =====
-- `legacy_values` of services/properties/codec.py, and `_legacy_merge` of functions.py.
use godoo_py.Base.{
  String, true, false, not, none, some, List, [], ◌∷◌, ◌==◌, string_eq, if◌then◌else◌, ok, err,
  check, require, ◌>>=◌, ◌>>◌,
}
use godoo_py.Base.Dict.{Dict, insert, lookup, contains, values}
use godoo_py.Value.{
  Value, null, bool, int, float, str, list, dict, nil, cons, get, equals, is_unset, is_finite,
  as_dict, as_str, as_list, of_entries, of_items,
}
use godoo_py.Faults.{property_value, key_error, other, Checked}
use godoo_py.Properties.Types.{PropertyDefinition}
use godoo_py.Properties.Codec.Values.{Calendar, value_for}
use godoo_py.Properties.Codec.Parse.{parse_definitions}

-- A value without type metadata: a scalar, and if it is a float, a finite one.
unfoldable pub untyped_value : Value → Checked Value
untyped_value null = ok (bool false)
untyped_value (bool b) = ok (bool b)
untyped_value (int n) = ok (int n)
untyped_value (str s) = ok (str s)
untyped_value (float x) = if is_finite x then ok (float x) else err property_value
untyped_value v = err property_value

-- `{**entry, "string": entry.get("string", name)}`
abbrev pub with_label : String → Dict String Value → Dict String Value
with_label name entry =
    insert "string" (elim (lookup "string" entry) [ none ↦ str name | some text ↦ text ]) entry

abbrev first : List PropertyDefinition → Checked PropertyDefinition
first [] = err other
first (definition ∷ rest) = ok definition

-- `name`, of an entry of the list
unfoldable pub legacy_name : Dict String Value → Checked String
legacy_name entry = do
  name ← require (as_str (get "name" entry)) property_value
  check (not (name == "")) property_value
  ok name

-- `{entry["name"]: entry for entry in current}`
unfoldable pub named_entries :
    Dict String (Dict String Value) → List Value → Checked (Dict String (Dict String Value))
named_entries entries [] = ok entries
named_entries entries (raw ∷ rest) = do
  entry ← require (as_dict raw) other
  name ← require (as_str (get "name" entry)) key_error
  named_entries (insert name entry entries) rest

-- `{**entries.get(name, {}), "name": name, "value": value}`
abbrev updated_entry : String → Value → Dict String (Dict String Value) → Dict String Value
updated_entry name value entries =
    insert "value" value
      (insert "name" (str name) (elim (lookup name entries) [ none ↦ [] | some e ↦ e ]))

unfoldable pub update_entries :
    Dict String (Dict String Value) → Dict String Value → Dict String (Dict String Value)
update_entries entries [] = entries
update_entries entries ((name, value) ∷ updates) =
    update_entries (insert name (updated_entry name value entries) entries) updates

abbrev as_values : List (Dict String Value) → List Value
as_values [] = []
as_values (entry ∷ rest) = dict (of_entries entry) ∷ as_values rest

module _ (calendar : Calendar) where
  unfoldable pub typed_value : String → Dict String Value → Value → Checked Value
  typed_value name entry value = do
    definitions ← parse_definitions (list (cons (dict (of_entries (with_label name entry))) nil))
    definition ← first definitions
    read ← value_for calendar definition value true
    value_for calendar definition read false

  unfoldable pub legacy_value : String → Dict String Value → Value → Checked Value
  legacy_value name entry value =
      if contains "type" entry then typed_value name entry value else untyped_value value

  -- One round of the loop
  unfoldable pub legacy_entry : Dict String Value → Value → Checked (Dict String Value)
  legacy_entry result raw = do
    entry ← require (as_dict raw) property_value
    name ← legacy_name entry
    check (not (contains name result)) property_value
    (if equals (get "type" entry) "separator" then ok result else do
      value ← require (lookup "value" entry) property_value
      written ← legacy_value name entry value
      ok (insert name written result))

  unfoldable pub legacy_entries : Dict String Value → List Value → Checked (Dict String Value)
  legacy_entries result [] = ok result
  legacy_entries result (raw ∷ rest) = do next ← legacy_entry result raw; legacy_entries next rest

  unfoldable pub legacy_values : Value → Checked (Dict String Value)
  legacy_values raw = do listed ← require (as_list raw) property_value; legacy_entries [] listed

  -- `_legacy_merge`
  unfoldable pub legacy_merge : Value → Dict String Value → Checked (Dict String Value)
  legacy_merge current updates = do
    let listed = (if is_unset current then list nil else current)
    legacy_values listed
    raws ← require (as_list listed) other
    entries ← named_entries [] raws
    legacy_values (list (of_items (as_values (values (update_entries entries updates)))))
