-- ===== src/Properties/PatchTests.antt =====
-- Reads and patches of a task over a small server.
use godoo_py.Base.{
  pos, String, string_eq, int_eq, nat_eq, ◌≡◌, ◌⊎◌, refl, true, false, none, some, [], ◌∷◌, ◌==◌,
  ok, if◌then◌else◌,
}
use godoo_py.Base.Dict.{Dict}
use godoo_py.Value.{iterate, Value, bool, int, str, list, dict, nil, cons, end, field}
use godoo_py.Client.{Session, Request, Override, Client, Outside}
use godoo_py.Properties.Codec.Values.{Calendar}
use godoo_py.Properties.Scope.Checks.{PropertyScope}
use godoo_py.Properties.Scope.Calls.{read_rows}
use godoo_py.Properties.Scope.Reads.{AreRows, read_rows-AreRows}
use godoo_py.Properties.Functions.{Route, patch, update_safely, read}
use godoo_py.Properties.Leads.{Refused, Written}
use godoo_py.Properties.Writes.{IsPatch, IsMerge, patch-Written, update_safely-Written}
use godoo_py.Properties.Functions.{
  property_record, requested_fields, read_result, patched_payload, snapshot_of, read_each,
  read_some, write_one, write_acknowledged, only_record, first_value, preflight_ids,
  legacy_payloads, definitions,
}
use godoo_py.Properties.Scope.Calls.{
  check_identity, capture_scope, scope_call, discover, load_definitions,
}
use godoo_py.Properties.Scope.Checks.{
  record_ids, is_current, for_parent, nonempty, route_name, get_dict, route as find_route,
  check_parent, requested_row, index_rows, rows_of, checked_rows, parent_id_for, definitions_of,
}
use godoo_py.Properties.Receipts.{receipt_of, require_acknowledged}
use godoo_py.Properties.Types.{get_definition}
use godoo_py.Properties.Codec.Values.{value_for}
use godoo_py.Properties.Codec.Records.{
  same_metadata, decode_known, decode_entry, decode_entries, decode_values, encode_values,
  patch_value, patch_change, patch_from, patch_values,
}
use godoo_py.Properties.Codec.Parse.{
  option_parts, parse_option, parse_options, raw_options, options_of, parse_name, parse_comodel,
  parse_entry, parse_entries, parse_definitions,
}
use godoo_py.Client.Call.{
  effective_safety, is_same_session, merged_kwargs, ask, guard, transport_call, call_in_scope,
  call_ambient, call_guarded, call, call_with_context, capture_context,
}
use godoo_py.Safety.{infer_safety_level}

abbrev calendar : Calendar
calendar = record { is_date = λ s. s == "2024-02-29"; is_datetime = λ s. false }

abbrev stage_definition : Value
stage_definition =
    dict
      (field "name" (str "aa11") (field "string" (str "Points") (field "type" (str "integer") end)))

abbrev stage_value : Value
stage_value =
    dict
      (field "name" (str "aa11") (field "type" (str "integer") (field "value" (int (pos 3)) end)))

abbrev task_row : Value
task_row = dict (
    field "id" (int (pos 7)) (
      field "project_id" (list (cons (int (pos 2)) (cons (str "P") nil)))
        (field "task_properties" (list (cons stage_value nil)) end)))

abbrev project_row : Value
project_row = dict (
    field "id" (int (pos 2))
      (field "task_properties_definition" (list (cons stage_definition nil)) end))

abbrev task_fields : Value
task_fields = dict (
    field "task_properties"
      (dict (
        field "type" (str "properties") (
          field "definition_record" (str "project_id")
            (field "definition_record_field" (str "task_properties_definition") end))))
      (field "project_id"
        (dict (field "type" (str "many2one") (field "relation" (str "project.project") end))) end))

abbrev project_fields : Value
project_fields =
    dict (
      field "task_properties_definition" (dict (field "type" (str "properties_definition") end))
        end)

-- A server with one task in one project
abbrev served : Request → Value
served r =
    if r.method == "fields_get"
    then (if r.model == "project.task" then task_fields else project_fields)
    else if r.method == "read"
    then list (cons (if r.model == "project.task" then task_row else project_row) nil)
    else bool true

abbrev server : Outside
server = record {
  reply = λ log request. ok (served request);
  session_after = λ log session. session;
}

abbrev session : Session
session = record { object = 1; uid = pos 2; db = "prod"; session_id = "s-1" }

abbrev client : Client
client = record {
  self = 4;
  session = some session;
  config_safety = none;
  safety_context = Override.explicit none;
  ambient = none;
  fixed = none;
  log = [];
}

abbrev route : Route
route = record {
  field = "task_properties";
  context = none;
  parent_field = none;
  definition_field = none;
}

abbrev scope : PropertyScope
scope = record {
  model = "project.task";
  field = "task_properties";
  parent_model = "project.project";
  parent_field = "project_id";
  definition_field = "task_properties_definition";
  parent_id = pos 0;
  context = [];
  session = session;
  identity = (pos 2, "prod", "s-1");
}

patch-Written_example :
    let after =
      patch server calendar "project.task" (pos 7) route (("aa11", int (pos 5)) ∷ []) client in
    Refused server calendar [] after.0 after.1.log
    ⊎ Written server calendar [] "project.task" "task_properties"
        (pos 7)
        (IsPatch server calendar client "project.task" (pos 7) route (("aa11", int (pos 5)) ∷ []))
        after.0
        after.1.log
patch-Written_example =
    patch-Written server calendar client "project.task" (pos 7) route "aa11" (int (pos 5)) []

patch_returns :
    (patch server calendar "project.task" (pos 7) route (("aa11", int (pos 5)) ∷ []) client).0
    ≡ ok tt
unfolding patch read read_rows property_record requested_fields read_result patched_payload
    snapshot_of read_each read_some write_one write_acknowledged only_record first_value
    preflight_ids legacy_payloads definitions check_identity capture_scope scope_call discover
    load_definitions record_ids is_current for_parent nonempty route_name get_dict find_route
    check_parent requested_row index_rows rows_of checked_rows parent_id_for definitions_of
    receipt_of require_acknowledged get_definition value_for same_metadata decode_known decode_entry
    decode_entries decode_values encode_values patch_value patch_change patch_from patch_values
    iterate option_parts parse_option parse_options raw_options options_of parse_name parse_comodel
    parse_entry parse_entries parse_definitions effective_safety is_same_session merged_kwargs ask
    guard transport_call call_in_scope call_ambient call_guarded call call_with_context
    capture_context infer_safety_level
patch_returns = refl

update_safely-Written_example :
    let after =
      update_safely server calendar "project.task"
        (pos 7)
        "task_properties"
        (("aa11", int (pos 5)) ∷ [])
        client in
    Refused server calendar [] after.0 after.1.log
    ⊎ Written server calendar [] "project.task" "task_properties"
        (pos 7)
        (IsMerge server calendar client "project.task"
          (pos 7)
          "task_properties"
          (("aa11", int (pos 5)) ∷ []))
        after.0
        after.1.log
update_safely-Written_example =
    update_safely-Written server calendar client "project.task" (pos 7) "task_properties"
      (("aa11", int (pos 5)) ∷ [])

abbrev read_task : Dict String Value
read_task =
    ("id", int (pos 7))
    ∷ ("project_id", list (cons (int (pos 2)) (cons (str "P") nil)))
    ∷ ("task_properties", list (cons stage_value nil))
    ∷ []

rows_read :
    (read_rows server scope "project.task" (pos 7 ∷ []) (some ("project_id" ∷ [])) client).0
    ≡ ok (read_task ∷ [])
unfolding read_rows scope_call check_identity is_current call_with_context call guard call_guarded
    call_in_scope transport_call is_same_session infer_safety_level checked_rows index_rows
    requested_row rows_of
rows_read = refl

read_rows-AreRows_example : AreRows (some ("project_id" ∷ [])) (pos 7 ∷ []) (read_task ∷ [])
read_rows-AreRows_example =
    read_rows-AreRows server scope "project.task" (pos 7 ∷ []) (some ("project_id" ∷ [])) client
      (read_task ∷ []) rows_read
