-- ===== src/Properties/Codec/ParseComplete.antt =====
-- Every well-formed list of definitions, as the server writes it, is parsed back unchanged.
use godoo_py.Base.{
  String, ◌≡◌, refl, Bool, true, false, not, ◌||◌, Option, none, some, List, [], ◌∷◌, map, ◌==◌,
  string_eq, elem, all, ok, arith, Bool-cases, inl, inr, ◌⊎◌, eq→path,
}
use godoo_py.Base.Dict.{Dict}
use godoo_py.Value.{iterate, Value, str, get, items-of_items}
use godoo_py.Properties.Types.{PropertyOption, PropertyDefinition}
use godoo_py.Properties.Codec.Parse.{
  parse_option, option_parts, parse_options, raw_options, options_of, parse_name, parse_comodel,
  parse_entry, parse_entries, parse_definitions, has_options, is_relational, is_some,
}
use godoo_py.Properties.Codec.Shape.{
  is_distinct, is_option_of, option_ids, definition_ids, is_model, are_options, is_definition,
  are_definitions, format_option, format_options, format_comodel, format_definition,
  format_definitions,
}

parse_option-format :
    (tagged : Bool) (seen : List String) (o : PropertyOption)
    → elem o.id seen ≡ false
    → is_option_of tagged o ≡ true
    → parse_option tagged seen (format_option tagged o) ≡ ok o
unfolding parse_option option_parts format_option
parse_option-format true seen o fresh h = ground arith
parse_option-format false seen o fresh h = ground arith

parse_options-format :
    (tagged : Bool) (seen : List String) (os : List PropertyOption)
    → is_distinct seen (option_ids os) ≡ true
    → all (is_option_of tagged) os ≡ true
    → parse_options tagged seen (map (format_option tagged) os) ≡ ok os
unfolding parse_options
parse_options-format tagged seen [] d h = refl
parse_options-format tagged seen (o ∷ os) d h =
    ground (arith, parse_option-format tagged seen o, parse_options-format tagged (o.id ∷ seen) os)

raw_options-format :
    (kind : String) (os : List PropertyOption)
    → raw_options (format_options kind os) ≡ ok (map (format_option (kind == "tags")) os)
unfolding raw_options iterate format_options
raw_options-format kind [] = refl
raw_options-format kind (o ∷ os) = cc (items-of_items (map (format_option (kind == "tags")) os))

options_of-format :
    (kind : String) (os : List PropertyOption)
    → has_options kind ≡ true
    → are_options kind os ≡ true
    → options_of kind (format_options kind os) ≡ ok os
unfolding options_of
options_of-format kind os e h =
    ground (arith, raw_options-format kind os, parse_options-format (kind == "tags") [] os)

options_of-none :
    (kind : String) (v : Value) (os : List PropertyOption)
    → has_options kind ≡ false
    → are_options kind os ≡ true
    → options_of kind v ≡ ok os
unfolding options_of
options_of-none kind v os e h = ground arith

parse_name-fresh_name :
    (seen : List String) (name : String)
    → elem name seen ≡ false
    → (name == "") ≡ false
    → parse_name seen (str name) ≡ ok name
unfolding parse_name
parse_name-fresh_name seen name fresh nonempty = ground arith

parse_comodel-format :
    (kind : String) (c : Option String)
    → is_model c ≡ true
    → (not (is_relational kind) || is_some c) ≡ true
    → parse_comodel kind (format_comodel c) ≡ ok c
unfolding parse_comodel
parse_comodel-format kind none m r = ground arith
parse_comodel-format kind (some s) m r = ground arith

has_options-eq : (kind : String) → has_options kind ≡ true → (kind ≡ "selection") ⊎ (kind ≡ "tags")
has_options-eq kind h = elim (Bool-cases (kind == "selection")) [
  | inl e ↦ inl (eq→path kind "selection" e)
  | inr e ↦ inr (eq→path kind "tags" (ground arith))
]

-- The key of the options is none of the other keys.
get-options :
    (kind : String) (a b c d v : Value)
    → has_options kind ≡ true
    → get kind (("name", a) ∷ ("string", b) ∷ ("type", c) ∷ ("comodel", d) ∷ (kind, v) ∷ []) ≡ v
get-options kind a b c d v h = elim (has_options-eq kind h) [ inl e ↦ rw e | inr e ↦ rw e ]

abbrev required_fields : PropertyDefinition → Dict String Value
required_fields d =
    ("name", str d.id)
    ∷ ("string", str d.label)
    ∷ ("type", str d.type)
    ∷ ("comodel", format_comodel d.comodel)
    ∷ []

parse_entry-format :
    (seen : List String) (d : PropertyDefinition)
    → elem d.id seen ≡ false
    → is_definition d ≡ true
    → parse_entry seen (format_definition d) ≡ ok d
unfolding parse_entry format_definition is_definition
parse_entry-format seen d fresh h = elim (Bool-cases (has_options d.type)) [
  | inl e ↦ ground (
    arith,
    parse_name-fresh_name seen d.id,
    parse_comodel-format d.type d.comodel,
    options_of-format d.type d.options e,
    get-options d.type (str d.id) (str d.label) (str d.type) (format_comodel d.comodel)
        (format_options d.type d.options) e,
  )
  | inr e ↦ ground (
    arith,
    parse_name-fresh_name seen d.id,
    parse_comodel-format d.type d.comodel,
    options_of-none d.type (get d.type (required_fields d)) d.options e,
  )
]

parse_entries-format :
    (seen : List String) (ds : List PropertyDefinition)
    → is_distinct seen (definition_ids ds) ≡ true
    → all is_definition ds ≡ true
    → parse_entries seen (map format_definition ds) ≡ ok ds
unfolding parse_entries
parse_entries-format seen [] d h = refl
parse_entries-format seen (x ∷ ds) d h =
    ground (arith, parse_entry-format seen x, parse_entries-format (x.id ∷ seen) ds)

-- A list of definitions with the shape that `are_definitions` describes, written the way that the
-- server writes it, is parsed back unchanged.
pub parse_definitions-format :
    (ds : List PropertyDefinition)
    → are_definitions ds ≡ true
    → parse_definitions (format_definitions ds) ≡ ok ds
unfolding parse_definitions format_definitions are_definitions
parse_definitions-format ds h =
    ground (arith, items-of_items (map format_definition ds), parse_entries-format [] ds)
