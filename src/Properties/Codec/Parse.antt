-- ===== src/Properties/Codec/Parse.antt =====
-- `parse_definitions` of services/properties/codec.py.
use godoo_py.Base.{
  ℤ, String, Bool, true, false, not, ◌||◌, Option, none, some, List, [], ◌∷◌, ◌==◌, string_eq,
  if◌then◌else◌, elem, ok, err, check, require, ◌>>=◌, ◌>>◌,
}
use godoo_py.Value.{
  Value, null, int, str, truthy, or_null, get, is_unset, as_dict, as_str, as_list, as_sequence,
  iterate,
}
use godoo_py.Faults.{property_value, Checked}
use godoo_py.Properties.Types.{PropertyOption, PropertyDefinition}

-- `oid, text = option[:2]; color = option[2] if kind == "tags" else None`, by the size that `kind` asks for
unfoldable pub option_parts : Bool → List Value → Checked (Value × Value × Value)
option_parts true (oid ∷ text ∷ color ∷ []) = ok (oid, text, color)
option_parts false (oid ∷ text ∷ []) = ok (oid, text, null)
option_parts _ _ = err property_value

abbrev pub color_of : Value → Checked (Option ℤ)
color_of null = ok none
color_of (int n) = ok (some n)
color_of _ = err property_value

unfoldable pub parse_option : Bool → List String → Value → Checked PropertyOption
unfolding option_parts
parse_option tagged option_ids option = do
  parts ← require (as_sequence option) property_value
  three ← option_parts tagged parts
  oid ← require (as_str three.0) property_value
  check (not (oid == "")) property_value
  check (not (elem oid option_ids)) property_value
  text ← require (as_str three.1) property_value
  color ← color_of three.2
  ok (record { id = oid; label = text; color = color })

-- The loop over the options, with the IDs that it has met.
unfoldable pub parse_options : Bool → List String → List Value → Checked (List PropertyOption)
parse_options tagged option_ids [] = ok []
parse_options tagged option_ids (option ∷ rest) = do
  parsed ← parse_option tagged option_ids option
  others ← parse_options tagged (parsed.id ∷ option_ids) rest
  ok (parsed ∷ others)

-- `kind in ("selection", "tags")`, `kind in ("many2one", "many2many")`
abbrev pub has_options : String → Bool
has_options kind = kind == "selection" || kind == "tags"

abbrev pub is_relational : String → Bool
is_relational kind = kind == "many2one" || kind == "many2many"

abbrev pub comodel_of : Value → Checked (Option String)
comodel_of null = ok none
comodel_of (str s) = ok (some s)
comodel_of _ = err property_value

abbrev pub is_some : {A : Type 0} → Option A → Bool
is_some none = false
is_some (some a) = true

-- `entry.get(kind) or []`
unfoldable pub raw_options : Value → Checked (List Value)
raw_options v = if truthy v then iterate v else ok []

unfoldable pub options_of : String → Value → Checked (List PropertyOption)
options_of kind raw =
    if has_options kind
    then (do given ← raw_options raw; parse_options (kind == "tags") [] given)
    else ok []

-- The ID of a definition: a nonempty text that has not been seen.
unfoldable pub parse_name : List String → Value → Checked String
parse_name seen value = do
  name ← require (as_str value) property_value
  check (not (name == "")) property_value
  check (not (elem name seen)) property_value
  ok name

unfoldable pub parse_comodel : String → Value → Checked (Option String)
parse_comodel kind value = do
  comodel ← comodel_of (or_null value)
  check (not (is_relational kind) || is_some comodel) property_value
  ok comodel

unfoldable pub parse_entry : List String → Value → Checked PropertyDefinition
parse_entry seen value = do
  entry ← require (as_dict value) property_value
  name ← parse_name seen (get "name" entry)
  label ← require (as_str (get "string" entry)) property_value
  kind ← require (as_str (get "type" entry)) property_value
  comodel ← parse_comodel kind (get "comodel" entry)
  options ← options_of kind (get kind entry)
  ok (record { id = name; label = label; type = kind; comodel = comodel; options = options })

-- The loop over the entries, with the IDs that it has met.
unfoldable pub parse_entries : List String → List Value → Checked (List PropertyDefinition)
parse_entries seen [] = ok []
parse_entries seen (entry ∷ rest) = do
  definition ← parse_entry seen entry
  others ← parse_entries (definition.id ∷ seen) rest
  ok (definition ∷ others)

unfoldable pub parse_definitions : Value → Checked (List PropertyDefinition)
parse_definitions raw =
    if is_unset raw
    then ok []
    else do listed ← require (as_list raw) property_value; parse_entries [] listed
