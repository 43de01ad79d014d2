-- ===== src/Modules/Tests.antt =====
-- A module that is locked once, and then installed.
use godoo_py.Base.{
  ℕ, pos, ◌≤◌, String, string_eq, ◌≡◌, ◌⊎◌, refl, true, none, some, List, [], ◌∷◌, ok, err,
  if◌then◌else◌, ◌==◌,
}
use godoo_py.Value.{Value, int, str, bool, list, nil, cons, dict, field, end, item, first_item}
use godoo_py.Faults.{rpc, Checked}
use godoo_py.Safety.{infer_safety_level}
use godoo_py.Client.{Event, sent, undefined, Client, Outside}
use godoo_py.Client.Guarded.{requests}
use godoo_py.Client.Call.{
  call, guard, call_guarded, call_ambient, transport_call, merged_kwargs, effective_safety,
}
use godoo_py.Client.Crud.{search_read, page_kwargs, domain_value, with_option}
use godoo_py.Modules.{Waiting, find_module, attempts, call_with_ir_cron_retry, install_module}
use godoo_py.Modules.Retries.{AreCron, attempt_at, IsFinal, call_with_ir_cron_retry-IsFinal}

abbrev found : Value
found = dict (field "id" (int (pos 12)) (field "state" (str "uninstalled") end))

-- The first press of a button raises.
abbrev pressed : List Event → Checked Value
pressed (sent r ∷ sent q ∷ log) = ok (bool true)
pressed log = err rpc

abbrev outside : Outside
outside = record {
  reply = λ log request.
      if request.method == "search_read" then ok (list (cons found nil)) else pressed log;
  session_after = λ log session. session;
}

abbrev waiting : Waiting
waiting = record { is_ir_cron_error = λ log fault. true; session_slept = λ log session. session }

abbrev client : Client
client = record {
  self = 4;
  session = some (record { object = 1; uid = pos 2; db = "prod"; session_id = "s-1" });
  config_safety = none;
  safety_context = undefined;
  ambient = none;
  fixed = none;
  log = [];
}

installed : (install_module outside waiting "sale" client).0 ≡ ok found
unfolding install_module find_module attempts item first_item search_read page_kwargs domain_value
    with_option call guard call_guarded call_ambient transport_call merged_kwargs infer_safety_level
    effective_safety
installed = refl

call_with_ir_cron_retry-IsFinal_example :
    let button : String = "button_immediate_install" in
    ((k : ℕ) × (k ≤ 2)
      × AreCron outside waiting (int (pos 12)) button k client
      × (call_with_ir_cron_retry outside waiting (int (pos 12)) button client
          ≡ attempt_at outside waiting (int (pos 12)) button k client)
      × (IsFinal outside waiting
            (int (pos 12))
            button
            (attempt_at outside waiting (int (pos 12)) button k client)
          ⊎ (k ≡ 2)))
    × (requests (call_with_ir_cron_retry outside waiting (int (pos 12)) button client).1.log ≤ 3)
call_with_ir_cron_retry-IsFinal_example =
    call_with_ir_cron_retry-IsFinal outside waiting (int (pos 12)) "button_immediate_install" client
