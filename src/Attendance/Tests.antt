-- ===== src/Attendance/Tests.antt =====
-- Attendance on a server with one employee who is in.
use godoo_py.Base.{pos, String, string_eq, ◌≡◌, refl, true, false, none, some, [], ok, err}
use godoo_py.Value.{Value, int, str, bool, list, nil, cons, dict, field, end, first_item}
use godoo_py.Faults.{validation}
use godoo_py.Safety.{infer_safety_level}
use godoo_py.Client.{undefined, Client, Outside}
use godoo_py.Client.Traces.{Adds, IsRead}
use godoo_py.Client.Call.{call, guard, call_guarded, call_ambient, transport_call, merged_kwargs}
use godoo_py.Client.Crud.{search_read, page_kwargs, domain_value, with_option}
use godoo_py.Attendance.{
  AttendanceStatus, status_of, status_from, resolve_employee_id, get_status, clock_in, clock_out,
}
use godoo_py.Attendance.Clock.{status_now, ends, clock_in-clock_out}

abbrev latest : Value
latest = dict (
    field "id" (int (pos 40))
      (field "check_in" (str "2026-01-05 08:00:00") (field "check_out" (bool false) end)))

abbrev outside : Outside
outside = record {
  reply = λ log request. ok (list (cons latest nil));
  session_after = λ log session. session;
}

abbrev client : Client
client = record {
  self = 4;
  session = some (record { object = 1; uid = pos 2; db = "prod"; session_id = "s-1" });
  config_safety = none;
  safety_context = undefined;
  ambient = none;
  fixed = none;
  log = [];
}

abbrev status : AttendanceStatus
status = record {
  employee_id = int (pos 9);
  is_clocked_in = true;
  last_attendance_id = int (pos 40);
  last_check_in = str "2026-01-05 08:00:00";
}

abbrev noon : String
noon = "2026-01-05 12:00:00"

found : (status_now outside (pos 9) client).0 ≡ ok status
unfolding get_status resolve_employee_id status_from status_of first_item search_read page_kwargs
    domain_value with_option call guard call_guarded call_ambient transport_call merged_kwargs
    infer_safety_level
found = refl

clock_in-clock_out_example :
    let after = status_now outside (pos 9) client in
    Adds IsRead (get_status outside (int (pos 9)))
    × (clock_in outside noon (int (pos 9)) client ≡ (err validation, after.1))
    × (clock_out outside noon (int (pos 9)) client
        ≡ ends outside (pos 9) client noon status after.1)
clock_in-clock_out_example = clock_in-clock_out outside (pos 9) client noon status found
