-- ===== src/Properties/BindingTests.antt =====
-- A binding of two properties, its refresh and its patches.
use godoo_py.Base.{
  pos, ℤ, String, string_eq, int_eq, nat_eq, ◌≡◌, refl, true, false, none, some, List, [], ◌∷◌, ok,
  All, select,
}
use godoo_py.Base.Dict.{Dict, keys}
use godoo_py.Value.{is_hashable, Value, bool, int, str, list, dict, nil, cons, end, field}
use godoo_py.Client.{Session, Override, Client, Outside}
use godoo_py.Properties.Types.{PropertyDefinition, get_definition, get_option, by_label}
use godoo_py.Properties.Codec.Values.{Calendar, value_for}
use godoo_py.Properties.Codec.Records.{
  decode_values, decode_entries, decode_entry, decode_known, same_metadata, encode_values,
}
use godoo_py.Properties.Codec.Shape.{is_distinct}
use godoo_py.Properties.Scope.Checks.{PropertyScope, parent_id_for}
use godoo_py.Properties.Binding.Declare.{
  Lexicon, Alias, PropertyBinding, bind_aliases, bind_alias, alias_name, selector_of,
  select_definition, select_option, option_map, bind_options,
}
use godoo_py.Properties.Binding.Aliases.{
  project_value, project_options, raw_values, as_read, mapped_all, mapped, reversed,
  translate_change,
}
use godoo_py.Properties.Binding.Rows.{bound_payloads, bound_payload}
use godoo_py.Safety.{infer_safety_level}
use godoo_py.Client.Call.{
  call_with_context, call, guard, call_guarded, call_in_scope, transport_call, is_same_session,
}
use godoo_py.Properties.Scope.Calls.{load_definitions, read_rows, scope_call, check_identity}
use godoo_py.Properties.Scope.Checks.{
  is_current, checked_rows, index_rows, requested_row, rows_of, definitions_of,
}
use godoo_py.Properties.Codec.Parse.{
  parse_definitions, parse_entries, parse_entry, parse_name, parse_comodel, options_of, raw_options,
}
use godoo_py.Properties.Binding.Calls.{refresh}
use godoo_py.Properties.Binding.Aliases.{check_aliases, check_alias, check_options}
use godoo_py.Properties.Binding.Drift.{IsKept, refresh-IsKept}
use godoo_py.Properties.Binding.Bound.{IsBound, bound_ids, bind_aliases-IsBound}
use godoo_py.Properties.Binding.RoundTrip.{translate_change-project_value}
use godoo_py.Properties.Binding.Sends.{IsPayload, is_changed, bound_payloads-changed}

abbrev calendar : Calendar
calendar = record { is_date = λ s. false; is_datetime = λ s. false }

abbrev lexicon : Lexicon
lexicon = record { is_identifier = λ s. true }

abbrev stage : PropertyDefinition
stage = record {
  id = "aa11";
  label = "Stage";
  type = "selection";
  comodel = none;
  options =
      record { id = "o1"; label = "New"; color = none }
      ∷ record { id = "o2"; label = "Done"; color = none }
      ∷ [];
}

abbrev points : PropertyDefinition
points = record { id = "bb22"; label = "Points"; type = "integer"; comodel = none; options = [] }

abbrev schema : List PropertyDefinition
schema = stage ∷ points ∷ []

abbrev by_text : String → String → Value
by_text key text = dict (field key (str text) end)

abbrev declared : Dict String Value
declared =
    (
      "state",
      dict (
          field "label" (str "Stage") (
            field "options"
              (dict
                (field "fresh" (by_text "id" "o1") (field "closed" (by_text "label" "Done") end)))
              end)),
    )
    ∷ ("points", by_text "id" "bb22")
    ∷ []

abbrev state : Alias
state = record { definition = stage; options = some (("fresh", "o1") ∷ ("closed", "o2") ∷ []) }

abbrev aliases : Dict String Alias
aliases = ("state", state) ∷ ("points", record { definition = points; options = none }) ∷ []

bind_declared : bind_aliases lexicon schema [] declared ≡ ok aliases
unfolding bind_aliases bind_alias alias_name selector_of select_definition select_option option_map
    bind_options get_definition get_option by_label
bind_declared = refl

bind_aliases-IsBound_example :
    All (IsBound schema) aliases
    × (is_distinct [] (bound_ids aliases) ≡ true)
    × (keys aliases ≡ "state" ∷ "points" ∷ [])
bind_aliases-IsBound_example =
    bind_aliases-IsBound lexicon schema [] declared aliases refl bind_declared

stage_read : project_value state state.options (str "o2") ≡ ok (str "closed")
unfolding project_value project_options raw_values as_read mapped_all mapped reversed is_hashable
stage_read = refl

translate_change-project_value_example :
    translate_change aliases "state" (str "closed") ≡ ok ("aa11", str "o2")
translate_change-project_value_example =
    translate_change-project_value aliases "state" state (("fresh", "o1") ∷ ("closed", "o2") ∷ [])
      (str "o2") (str "closed") (str "o2" ∷ []) refl refl refl (λ _. refl) stage_read

abbrev session : Session
session = record { object = 1; uid = pos 2; db = "prod"; session_id = "s-1" }

abbrev scope : PropertyScope
scope = record {
  model = "project.task";
  field = "task_properties";
  parent_model = "project.project";
  parent_field = "project_id";
  definition_field = "task_properties_definition";
  parent_id = pos 2;
  context = [];
  session = session;
  identity = (pos 2, "prod", "s-1");
}

abbrev binding : PropertyBinding
binding = record { scope = scope; definitions = schema; aliases = aliases }

abbrev entry : String → String → Value → Value
entry name type value =
    dict (field "name" (str name) (field "type" (str type) (field "value" value end)))

abbrev task : ℤ → Dict String Value
task n =
    ("id", int n)
    ∷ ("project_id", int (pos 2))
    ∷ (
      "task_properties",
      list (
          cons (entry "aa11" "selection" (str "o1"))
            (cons (entry "bb22" "integer" (int (pos 3))) nil)),
    )
    ∷ []

abbrev normalized : Dict ℤ (Dict String Value)
normalized = (pos 7, ("bb22", int (pos 5)) ∷ []) ∷ (pos 8, []) ∷ []

abbrev payloads : Dict ℤ (Dict String Value)
payloads = (pos 7, ("aa11", str "o1") ∷ ("bb22", int (pos 5)) ∷ []) ∷ []

payloads_made :
    bound_payloads calendar binding normalized (task (pos 7) ∷ task (pos 8) ∷ []) ≡ ok payloads
unfolding bound_payloads bound_payload parent_id_for decode_values decode_entries decode_entry
    decode_known same_metadata get_definition value_for encode_values
payloads_made = refl

bound_payloads-changed_example :
    (keys payloads ≡ select (is_changed normalized) (pos 7 ∷ pos 8 ∷ []))
    × All (IsPayload calendar binding normalized (task (pos 7) ∷ task (pos 8) ∷ [])) payloads
bound_payloads-changed_example =
    bound_payloads-changed calendar binding normalized none (pos 7 ∷ pos 8 ∷ [])
      (task (pos 7) ∷ task (pos 8) ∷ []) payloads ((refl, refl), ((refl, refl), tt)) payloads_made

abbrev server : Outside
server = record { reply = λ log request. ok (bool true); session_after = λ log s. s }

abbrev points_binding : PropertyBinding
points_binding = record {
  scope = scope;
  definitions = points ∷ [];
  aliases = ("points", record { definition = points; options = none }) ∷ [];
}

-- The server renamed the property.
abbrev renamed : PropertyDefinition
renamed = record points { label = "Story points" }

abbrev project_row : Value
project_row = dict (
    field "id" (int (pos 2)) (
      field "task_properties_definition"
        (list (
          cons
            (dict (
              field "name" (str "bb22")
                (field "string" (str "Story points") (field "type" (str "integer") end))))
            nil))
        end))

abbrev project_server : Outside
project_server = record {
  reply = λ log request. ok (list (cons project_row nil));
  session_after = λ log s. s;
}

abbrev client : Client
client = record {
  self = 4;
  session = some session;
  config_safety = none;
  safety_context = Override.explicit none;
  ambient = none;
  fixed = none;
  log = [];
}

abbrev fresh_binding : PropertyBinding
fresh_binding = record points_binding { definitions = renamed ∷ [] }

points_refreshed : (refresh project_server points_binding client).0 ≡ ok fresh_binding
unfolding refresh load_definitions read_rows scope_call check_identity is_current call_with_context
    call guard call_guarded call_in_scope transport_call is_same_session infer_safety_level
    checked_rows index_rows requested_row rows_of definitions_of parse_definitions parse_entries
    parse_entry parse_name parse_comodel options_of raw_options check_aliases check_alias
    check_options get_definition
points_refreshed = refl

refresh-IsKept_example :
    (fresh_binding.aliases ≡ points_binding.aliases)
    × (fresh_binding.scope ≡ scope)
    × All (IsKept (renamed ∷ [])) fresh_binding.aliases
refresh-IsKept_example =
    refresh-IsKept project_server points_binding fresh_binding client points_refreshed
