-- ===== src/Properties/Types.antt =====
-- services/properties/types.py: definitions, options and lookups by ID or label.
use godoo_py.Base.{
  ℤ, String, Bool, true, false, Option, List, [], ◌∷◌, ◌==◌, string_eq, if◌then◌else◌, select, ok,
  err,
}
use godoo_py.Faults.{property_lookup, key_error, Checked}

pub record PropertyOption : Type 0 where
  pub id : String
  pub label : String
  pub color : Option ℤ

pub record PropertyDefinition : Type 0 where
  pub id : String
  pub label : String
  pub type : String
  pub comodel : Option String
  pub options : List PropertyOption

-- `PropertyOptions.__getitem__`
unfoldable pub get_option : List PropertyOption → String → Checked PropertyOption
get_option [] key = err key_error
get_option (option ∷ rest) key = if option.id == key then ok option else get_option rest key

-- `PropertyDefinitions.__getitem__`
unfoldable pub get_definition : List PropertyDefinition → String → Checked PropertyDefinition
get_definition [] key = err key_error
get_definition (definition ∷ rest) key =
    if definition.id == key then ok definition else get_definition rest key

-- `key in collection`, which `Mapping` answers by `__getitem__`
abbrev pub is_found : {A : Type 0} → Checked A → Bool
is_found (ok _) = true
is_found (err _) = false

-- `_by_label`, over the label of an option or of a definition: exactly one entry must match.
unfoldable pub by_label : {A : Type 0} → (A → String) → List A → String → Checked A
by_label label_of collection label = elim (select (λ a. label_of a == label) collection) [
  | [] ↦ err property_lookup
  | match ∷ rest ↦ elim rest [ [] ↦ ok match | _ ∷ _ ↦ err property_lookup ]
]
