-- ===== src/Properties/Binding/Declare.antt =====
-- `_Alias`, `_select`, `_alias_name` and the constructor of `PropertyBinding`.
use godoo_py.Base.{
  String, Bool, true, false, not, ◌&&◌, ◌||◌, Option, none, some, List, [], ◌∷◌, ◌==◌, string_eq,
  elem, if◌then◌else◌, ok, err, check, require, ◌>>=◌, ◌>>◌,
}
use godoo_py.Base.Dict.{Dict, keys, lookup}
use godoo_py.Value.{Value, as_str, as_dict}
use godoo_py.Faults.{property_value, property_lookup, Checked}
use godoo_py.Client.{Rpc, ◌>>◌ as and_then, lift}
use godoo_py.Properties.Types.{
  PropertyOption, PropertyDefinition, get_option, get_definition, by_label, is_found,
}
use godoo_py.Properties.Codec.Parse.{has_options}
use godoo_py.Properties.Codec.Records.{is_separator}
use godoo_py.Properties.Scope.Checks.{PropertyScope}
use godoo_py.Properties.Scope.Calls.{check_identity}

-- `str.isidentifier` of Python: which texts its Unicode tables accept.
pub record Lexicon : Type 0 where
  pub is_identifier : String → Bool

-- `keyword.kwlist`
abbrev pub keywords : List String
keywords =
    "False" ∷ "None" ∷ "True" ∷ "and" ∷ "as" ∷ "assert" ∷ "async" ∷ "await" ∷ "break" ∷ "class"
    ∷ "continue" ∷ "def" ∷ "del" ∷ "elif" ∷ "else" ∷ "except" ∷ "finally" ∷ "for" ∷ "from"
    ∷ "global" ∷ "if" ∷ "import" ∷ "in" ∷ "is" ∷ "lambda" ∷ "nonlocal" ∷ "not" ∷ "or" ∷ "pass"
    ∷ "raise" ∷ "return" ∷ "try" ∷ "while" ∷ "with" ∷ "yield" ∷ []

-- The names in `dir(PropertyValues)` that do not begin with an underscore
abbrev pub view_names : List String
view_names = "get" ∷ "items" ∷ "keys" ∷ "values" ∷ []

-- `alias.startswith("_")`
abbrev pub is_private : String → Bool
is_private String.[] = false
is_private (String.◌∷◌ c s) = String.◌∷◌ c String.[] == "_"

-- `_Alias`
pub record Alias : Type 0 where
  pub definition : PropertyDefinition
  pub options : Option (Dict String String)

-- `PropertyBinding`, with the scope of its definitions
pub record PropertyBinding : Type 0 where
  pub scope : PropertyScope
  pub definitions : List PropertyDefinition
  pub aliases : Dict String Alias

-- `_alias_name`, with the test `alias in technical_ids`
unfoldable pub alias_name : Lexicon → String → Bool → Checked (Unit {0})
alias_name lexicon alias is_technical =
    check
      (lexicon.is_identifier alias
        && not (is_private alias)
        && not (elem alias keywords)
        && not (elem alias view_names)
        && not is_technical)
      property_value

-- The one entry that a selector may have
unfoldable pub selector_of : Dict String Value → Checked (String × String)
selector_of ((key, value) ∷ []) = do
  check (key == "id" || key == "label") property_value
  text ← require (as_str value) property_value
  check (not (text == "")) property_value
  ok (key, text)
selector_of _ = err property_value

-- `collection[value]`, whose KeyError is an unknown ID
abbrev pub known : {A : Type 0} → Checked A → Checked A
known (ok a) = ok a
known (err e) = err property_lookup

-- `_select`, over the lookups of definitions or of options
unfoldable pub select_from :
    {A : Type 0} → (String → Checked A) → (String → Checked A) → Dict String Value → Checked A
select_from by_id label_lookup selector = elim (selector_of selector) [
  | err e ↦ err e
  | ok (key, text) ↦ if key == "label" then label_lookup text else known (by_id text)
]

abbrev pub option_label : PropertyOption → String
option_label o = o.label

abbrev pub definition_label : PropertyDefinition → String
definition_label d = d.label

unfoldable pub select_option : List PropertyOption → Dict String Value → Checked PropertyOption
unfolding select_from
select_option options = select_from (get_option options) (by_label option_label options)

unfoldable pub select_definition :
    List PropertyDefinition → Dict String Value → Checked PropertyDefinition
unfolding select_from
select_definition definitions =
    select_from (get_definition definitions) (by_label definition_label definitions)

-- `{k: v for k, v in spec.items() if k != "options"}`
abbrev pub without_options : Dict String Value → Dict String Value
without_options [] = []
without_options ((k, v) ∷ spec) =
    if k == "options" then without_options spec else (k, v) ∷ without_options spec

-- `not set(spec) - {"id", "label", "options"}`
abbrev pub is_spec : List String → Bool
is_spec [] = true
is_spec (k ∷ ks) = elem k ("id" ∷ "label" ∷ "options" ∷ []) && is_spec ks

module _ (lexicon : Lexicon) where
  -- The loop over the option aliases, with the IDs that they target so far
  unfoldable pub bind_options :
      List PropertyOption → List String → Dict String Value → Checked (Dict String String)
  bind_options options option_ids [] = ok []
  bind_options options option_ids ((alias, raw) ∷ rest) = do
    alias_name lexicon alias (is_found (get_option options alias))
    selector ← require (as_dict raw) property_value
    option ← select_option options selector
    check (not (elem option.id option_ids)) property_value
    others ← bind_options options (option.id ∷ option_ids) rest
    ok ((alias, option.id) ∷ others)

  -- `option_map`
  unfoldable pub option_map :
      PropertyDefinition → Dict String Value → Checked (Option (Dict String String))
  option_map definition spec = elim (lookup "options" spec) [
    | none ↦ ok none
    | some raw ↦ do
      check (has_options definition.type) property_value
      entries ← require (as_dict raw) property_value
      mapped ← bind_options definition.options [] entries
      ok (some mapped)
  ]

  -- One alias: the definition that it selects, and its options.
  unfoldable pub bind_alias : List PropertyDefinition → List String → String → Value → Checked Alias
  bind_alias definitions property_ids alias raw = do
    alias_name lexicon alias (is_found (get_definition definitions alias))
    spec ← require (as_dict raw) property_value
    check (is_spec (keys spec)) property_value
    definition ← select_definition definitions (without_options spec)
    check (not (elem definition.id property_ids) && not (is_separator definition)) property_value
    mapped ← option_map definition spec
    ok (record { definition = definition; options = mapped })

  -- The loop over the declarations, with the property IDs that are taken
  unfoldable pub bind_aliases :
      List PropertyDefinition → List String → Dict String Value → Checked (Dict String Alias)
  bind_aliases definitions property_ids [] = ok []
  bind_aliases definitions property_ids ((alias, raw) ∷ rest) = do
    bound ← bind_alias definitions property_ids alias raw
    others ← bind_aliases definitions (bound.definition.id ∷ property_ids) rest
    ok ((alias, bound) ∷ others)

abbrev new_binding :
    PropertyScope → List PropertyDefinition → Checked (Dict String Alias) → Checked PropertyBinding
new_binding scope definitions (err e) = err e
new_binding scope definitions (ok aliases) =
    ok (record { scope = scope; definitions = definitions; aliases = aliases })

-- `PropertyBinding.__init__`
unfoldable pub bind :
    Lexicon → PropertyScope → List PropertyDefinition → Dict String Value → Rpc PropertyBinding
bind lexicon scope definitions aliases =
    and_then (check_identity scope)
      (lift (new_binding scope definitions (bind_aliases lexicon definitions [] aliases)))
