-- ===== src/Cdc/Tests.antt =====
-- Tracked values and the cache of field metadata on concrete data.
use godoo_py.Base.{pos, String, string_eq, ◌≡◌, refl, true, none, some, List, [], ◌∷◌, all, ok}
use godoo_py.Base.Dict.{Dict, contains}
use godoo_py.Value.{Printer, Value, int, str, list, nil, cons, dict, field, end, iterate}
use godoo_py.Safety.{infer_safety_level}
use godoo_py.Client.{undefined, Client, Outside}
use godoo_py.Client.Call.{call, guard, call_guarded, call_ambient, transport_call, merged_kwargs}
use godoo_py.Client.Crud.{search_read, page_kwargs, domain_value, with_option}
use godoo_py.Cdc.{resolve_values}
use godoo_py.Cdc.Columns.{links, tracking_row, resolve_values-stored}
use godoo_py.Cdc.Cache.{
  FieldMeta, char_meta, get_cached, set_cached, row_meta, split_names, note_rows, fill_missing,
  note_answer, noted_fields, ensure_missing, ensure_fields_cached,
}
use godoo_py.Cdc.Cached.{ensure_fields_cached-kept}

abbrev printer : Printer
printer = record { print = λ v. "?" }

resolve_values-stored_example :
    resolve_values printer
      (tracking_row links (pos 3, "Ada") (pos 4, "Grace") (("field", str "user_id") ∷ []))
      "many2one"
    ≡ (
      record { raw = int (pos 3); display = "Ada" },
      record { raw = int (pos 4); display = "Grace" },
    )
resolve_values-stored_example =
    resolve_values-stored printer links (pos 3, "Ada") (pos 4, "Grace")
      (("field", str "user_id") ∷ [])

-- A server that knows one of two fields
abbrev outside : Outside
outside = record {
  reply = λ log request.
      ok (list (cons (dict (field "name" (str "stage") (field "ttype" (str "many2one") end))) nil));
  session_after = λ log session. session;
}

abbrev client : Client
client = record {
  self = 4;
  session = some (record { object = 1; uid = pos 2; db = "prod"; session_id = "s-1" });
  config_safety = none;
  safety_context = undefined;
  ambient = none;
  fixed = none;
  log = [];
}

abbrev names : List String
names = "stage" ∷ "note" ∷ []

abbrev stage_meta : FieldMeta
stage_meta = record { name = "stage"; field_type = str "many2one"; relation = Value.null }

abbrev known : Dict String FieldMeta
known = ("stage", stage_meta) ∷ ("note", char_meta "note") ∷ []

ensured : (ensure_fields_cached outside "project.task" names [] client).0 ≡ ok known
unfolding ensure_fields_cached ensure_missing noted_fields note_answer note_rows fill_missing
    split_names get_cached set_cached row_meta iterate search_read page_kwargs domain_value
    with_option call guard call_guarded call_ambient transport_call merged_kwargs infer_safety_level
ensured = refl

ensure_fields_cached-kept_example :
    let after = ensure_fields_cached outside "project.task" names [] client in
    (all (λ fn. contains fn known) names ≡ true)
    × ((again : Dict String FieldMeta) × (ensure_fields_cached outside "project.task" names after.1
            client
          ≡ (ok again, after.1, client)))
ensure_fields_cached-kept_example =
    ensure_fields_cached-kept outside "project.task" names [] client known client ensured
