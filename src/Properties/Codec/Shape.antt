-- ===== src/Properties/Codec/Shape.antt =====
-- What a parsed list of definitions looks like, and how Odoo writes it: the reference for
-- `parse_definitions`.
use godoo_py.Base.{
  ℤ, String, Bool, true, false, not, ◌&&◌, ◌||◌, Option, none, some, List, [], ◌∷◌, map, ◌==◌,
  string_eq, if◌then◌else◌, elem, all, is_empty,
}
use godoo_py.Value.{Value, null, bool, int, str, list, dict, of_items, of_entries}
use godoo_py.Properties.Types.{PropertyOption, PropertyDefinition}
use godoo_py.Properties.Codec.Parse.{has_options, is_relational, is_some}

-- No text is among those before it, or among `seen`.
abbrev pub is_distinct : List String → List String → Bool
is_distinct seen [] = true
is_distinct seen (x ∷ xs) = not (elem x seen) && is_distinct (x ∷ seen) xs

-- An option has an ID, and a color only as a tag.
abbrev pub is_option_of : Bool → PropertyOption → Bool
is_option_of tagged o = not (o.id == "") && (tagged || not (is_some o.color))

abbrev pub option_ids : List PropertyOption → List String
option_ids [] = []
option_ids (o ∷ os) = o.id ∷ option_ids os

abbrev pub definition_ids : List PropertyDefinition → List String
definition_ids [] = []
definition_ids (d ∷ ds) = d.id ∷ definition_ids ds

abbrev pub is_model : Option String → Bool
is_model none = true
is_model (some s) = not (s == "")

abbrev pub are_options : String → List PropertyOption → Bool
are_options kind options =
    if has_options kind
    then is_distinct [] (option_ids options) && all (is_option_of (kind == "tags")) options
    else is_empty options

-- An ID, a comodel that is named, and there if the kind is relational; options with distinct
-- IDs, and only for selections and tags.
unfoldable pub is_definition : PropertyDefinition → Bool
is_definition d =
    not (d.id == "")
    && is_model d.comodel
    && (not (is_relational d.type) || is_some d.comodel)
    && are_options d.type d.options

unfoldable pub are_definitions : List PropertyDefinition → Bool
are_definitions ds = is_distinct [] (definition_ids ds) && all is_definition ds

abbrev pub format_color : Option ℤ → Value
format_color none = null
format_color (some n) = int n

abbrev pub format_comodel : Option String → Value
format_comodel none = bool false
format_comodel (some s) = str s

-- The list of an option in a definition that the server sends.
unfoldable pub format_option : Bool → PropertyOption → Value
format_option tagged o =
    list (of_items (str o.id ∷ str o.label ∷ (if tagged then format_color o.color ∷ [] else [])))

unfoldable pub format_options : String → List PropertyOption → Value
unfolding format_option
format_options kind options = list (of_items (map (format_option (kind == "tags")) options))

unfoldable pub format_definition : PropertyDefinition → Value
unfolding format_options
format_definition d = dict (
    of_entries (
      ("name", str d.id)
      ∷ ("string", str d.label)
      ∷ ("type", str d.type)
      ∷ ("comodel", format_comodel d.comodel)
      ∷ (if has_options d.type then (d.type, format_options d.type d.options) ∷ [] else [])))

unfoldable pub format_definitions : List PropertyDefinition → Value
unfolding format_definition
format_definitions ds = list (of_items (map format_definition ds))
