-- ===== src/Properties/Codec/Records.antt =====
-- `decode_values`, `encode_values` and `patch_values` of services/properties/codec.py.
use godoo_py.Base.{
  String, Bool, true, false, not, ◌&&◌, ◌||◌, Option, none, some, List, [], ◌∷◌, ◌==◌, string_eq,
  if◌then◌else◌, elem, all, ok, check, require, ◌>>=◌, ◌>>◌,
}
use godoo_py.Base.Dict.{Dict, insert, lookup, contains}
use godoo_py.Value.{
  Value, null, bool, str, or_null, get, equals, is_unset, as_dict, as_str, as_list,
}
use godoo_py.Faults.{property_value, property_lookup, Checked}
use godoo_py.Properties.Types.{PropertyDefinition, get_definition, is_found}
use godoo_py.Properties.Codec.Values.{Calendar, value_for}

abbrev pub is_separator : PropertyDefinition → Bool
is_separator d = d.type == "separator"

-- `(entry.get("comodel") or None) == definition.comodel`
abbrev matches_comodel : Value → Option String → Bool
matches_comodel null none = true
matches_comodel (str s) (some t) = s == t
matches_comodel _ _ = false

-- `entry.get("type") == definition.type`, and the same for the comodel
unfoldable pub same_metadata : PropertyDefinition → Dict String Value → Bool
same_metadata d entry =
    equals (get "type" entry) d.type && matches_comodel (or_null (get "comodel" entry)) d.comodel

module _ (calendar : Calendar) (definitions : List PropertyDefinition) where
  -- The rest of the loop's body for an entry whose definition is known.
  unfoldable pub decode_known :
      PropertyDefinition
      → String
      → Dict String Value
      → Dict String Value
      → Checked (Dict String Value)
  decode_known definition name entry result = if is_separator definition then ok result else do
    check (same_metadata definition entry) property_value
    value ← require (lookup "value" entry) property_value
    decoded ← value_for calendar definition value true
    ok (insert name decoded result)

  -- One entry: its name, to be added to `seen`, and the new result.
  unfoldable pub decode_entry :
      List String → Dict String Value → Value → Checked (String × Dict String Value)
  decode_entry seen result value = do
    entry ← require (as_dict value) property_value
    name ← require (as_str (get "name" entry)) property_value
    check (not (elem name seen) && is_found (get_definition definitions name)) property_value
    definition ← get_definition definitions name
    result' ← decode_known definition name entry result
    ok (name, result')

  unfoldable pub decode_entries :
      List String → Dict String Value → List Value → Checked (List String × Dict String Value)
  decode_entries seen result [] = ok (seen, result)
  decode_entries seen result (value ∷ rest) = do
    step ← decode_entry seen result value
    decode_entries (step.0 ∷ seen) step.1 rest

  unfoldable pub decode_values : Value → Checked (Dict String Value)
  decode_values raw = do
    listed ← (if is_unset raw then ok [] else require (as_list raw) property_value)
    done ← decode_entries [] [] listed
    check (all (λ d. elem d.id done.0 || is_separator d) definitions) property_value
    ok done.1

  unfoldable pub encode_values : Dict String Value → Checked (Dict String Value)
  encode_values [] = ok []
  encode_values ((name, value) ∷ rest) = do
    definition ← get_definition definitions name
    encoded ← value_for calendar definition value false
    others ← encode_values rest
    ok ((name, encoded) ∷ others)

  -- `value is False and definition.type != "boolean"`
  abbrev pub is_ambiguous : PropertyDefinition → Value → Bool
  is_ambiguous d (bool false) = not (d.type == "boolean")
  is_ambiguous d v = false

  unfoldable pub patch_value : PropertyDefinition → Value → Checked Value
  patch_value definition null = ok null
  patch_value definition value = value_for calendar definition value false

  unfoldable pub patch_change : Dict String Value → String → Value → Checked (Dict String Value)
  patch_change result name value = do
    check (is_found (get_definition definitions name)) property_lookup
    check (not (contains name result)) property_value
    definition ← get_definition definitions name
    check (not (is_ambiguous definition value)) property_value
    patched ← patch_value definition value
    ok (insert name patched result)

  unfoldable pub patch_from : Dict String Value → Dict String Value → Checked (Dict String Value)
  patch_from result [] = ok result
  patch_from result ((name, value) ∷ changes) = do
    result' ← patch_change result name value
    patch_from result' changes

  unfoldable pub patch_values : Dict String Value → Checked (Dict String Value)
  patch_values changes = patch_from [] changes
