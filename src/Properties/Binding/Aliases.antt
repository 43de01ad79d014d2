-- ===== src/Properties/Binding/Aliases.antt =====
-- Values under aliases: `_alias_changes`, and the projection of `PropertyBinding.read`.
use godoo_py.Base.{
  String, Bool, true, false, ◌&&◌, Option, none, some, List, [], ◌∷◌, ◌==◌, string_eq, all, ok, err,
  check, require, ◌>>=◌, ◌>>◌,
}
use godoo_py.Base.Dict.{Dict, lookup, insert}
use godoo_py.Value.{iterate, Value, null, str, list, as_list, of_items, is_hashable}
use godoo_py.Faults.{property_value, property_drift, key_error, type_error, Checked}
use godoo_py.Properties.Types.{
  PropertyOption, PropertyDefinition, get_option, get_definition, is_found,
}
use godoo_py.Properties.Codec.Values.{Calendar}
use godoo_py.Properties.Codec.Records.{patch_change}
use godoo_py.Properties.Binding.Declare.{Alias}

-- `entry.options[v]` of a name, and `reverse[v]` of an ID
unfoldable pub mapped : Dict String String → Value → Option Value
mapped names (str s) = elim (lookup s names) [ none ↦ none | some t ↦ some (str t) ]
mapped names v = none

unfoldable pub mapped_all : Dict String String → List Value → Option (List Value)
mapped_all names [] = some []
mapped_all names (v ∷ vs) = elim (mapped names v) [
  | none ↦ none
  | some w ↦ elim (mapped_all names vs) [ none ↦ none | some ws ↦ some (w ∷ ws) ]
]

abbrev pub is_tags : Alias → Bool
is_tags entry = entry.definition.type == "tags"

-- `{oid: name for name, oid in entry.options.items()}`
unfoldable pub reversed : Dict String String → Dict String String → Dict String String
reversed done [] = done
reversed done ((name, oid) ∷ options) = reversed (insert oid name done) options

-- `value if entry.definition.type == "tags" else [value]`, whose items are looked up in a dict
unfoldable pub raw_values : Bool → Value → Checked (List Value)
raw_values true value = iterate value
raw_values false value = ok (value ∷ [])

-- The list of the translated items, or the one item.
unfoldable pub as_read : Bool → List Value → Checked Value
as_read true values = ok (list (of_items values))
as_read false [] = err key_error
as_read false (value ∷ rest) = ok value

unfoldable pub project_options : Alias → Dict String String → Value → Checked Value
project_options entry options value = do
  raws ← raw_values (is_tags entry) value
  check (all is_hashable raws) type_error
  names ← require (mapped_all (reversed [] options) raws) property_value
  as_read (is_tags entry) names

-- The value of one alias in `read`
unfoldable pub project_value : Alias → Option (Dict String String) → Value → Checked Value
project_value entry none value = ok value
project_value entry (some options) null = ok null
project_value entry (some options) value = project_options entry options value

unfoldable pub project_aliases : Dict String Alias → Dict String Value → Checked (Dict String Value)
project_aliases [] values = ok []
project_aliases ((alias, entry) ∷ aliases) values = do
  value ← require (lookup entry.definition.id values) key_error
  shown ← project_value entry entry.options value
  others ← project_aliases aliases values
  ok ((alias, shown) ∷ others)

-- `raw_values` of `_alias_changes`, which must be a list
abbrev pub given_values : Bool → Value → Option (List Value)
given_values true value = as_list value
given_values false value = some (value ∷ [])

unfoldable pub translate_options : Alias → Dict String String → Value → Checked Value
translate_options entry options value = do
  raws ← require (given_values (is_tags entry) value) property_value
  ids ← require (mapped_all options raws) property_value
  as_read (is_tags entry) ids

unfoldable pub translate_value : Alias → Option (Dict String String) → Value → Checked Value
translate_value entry none value = ok value
translate_value entry (some options) null = ok null
translate_value entry (some options) value = translate_options entry options value

-- One pair that `_alias_changes` yields
unfoldable pub translate_change : Dict String Alias → String → Value → Checked (String × Value)
translate_change aliases key value = elim (lookup key aliases) [
  | none ↦ ok (key, value)
  | some entry ↦ elim (translate_value entry entry.options value) [
    | err e ↦ err e
    | ok translated ↦ ok (entry.definition.id, translated)
  ]
]

-- `patch_values` over the generator `_alias_changes`, which translates each change when it is taken
unfoldable pub patch_aliases :
    Calendar
    → List PropertyDefinition
    → Dict String Alias
    → Dict String Value
    → Dict String Value
    → Checked (Dict String Value)
patch_aliases calendar definitions aliases result [] = ok result
patch_aliases calendar definitions aliases result ((key, value) ∷ changes) = do
  change ← translate_change aliases key value
  result' ← patch_change calendar definitions result change.0 change.1
  patch_aliases calendar definitions aliases result' changes

-- The tests of `refresh` on one alias
unfoldable pub check_options : List PropertyOption → List String → Checked (Unit {0})
check_options options [] = ok tt
check_options options (oid ∷ oids) = do
  check (is_found (get_option options oid)) property_drift
  check_options options oids

abbrev pub same_comodel : Option String → Option String → Bool
same_comodel none none = true
same_comodel (some a) (some b) = a == b
same_comodel _ _ = false

abbrev pub option_targets : Option (Dict String String) → List String
option_targets none = []
option_targets (some []) = []
option_targets (some ((name, oid) ∷ rest)) = oid ∷ option_targets (some rest)

unfoldable pub check_alias : List PropertyDefinition → Alias → Checked (Unit {0})
check_alias candidate entry = do
  check (is_found (get_definition candidate entry.definition.id)) property_drift
  after ← get_definition candidate entry.definition.id
  check (entry.definition.type == after.type && same_comodel entry.definition.comodel after.comodel)
      property_drift
  check_options after.options (option_targets entry.options)

unfoldable pub check_aliases : List PropertyDefinition → Dict String Alias → Checked (Unit {0})
check_aliases candidate [] = ok tt
check_aliases candidate ((alias, entry) ∷ aliases) = do
  check_alias candidate entry
  check_aliases candidate aliases
