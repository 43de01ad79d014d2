-- ===== src/Attendance.antt =====
-- services/attendance/functions.py: the status of an employee, clocking in and clocking out. The text
-- of the present time is an argument.
pub mod Clock
mod Tests
use godoo_py.Base.{
  ℤ, pos, String, string_eq, Bool, true, false, not, Option, none, some, List, [], ◌∷◌,
  if◌then◌else◌, ok, err, require,
}
use godoo_py.Base.Dict.{Dict, lookup, insert}
use godoo_py.Value.{
  Value, null, int, bool, str, list, tuple, nil, cons, truthy, get, as_dict, dict, of_entries,
  first_item,
}
use godoo_py.Faults.{validation, attribute_error, key_error, Checked}
use godoo_py.Client.{Session, Client, Outside, Rpc, ◌>>=◌, ◌>>◌, pure, raise, lift, gets}
use godoo_py.Client.Call.{call}
use godoo_py.Client.Crud.{search, search_read, create, single, Paging, no_paging}

-- One term of a domain
abbrev pub term : String → Value → Value
term field v = tuple (cons (str field) (cons (str "=") (cons v nil)))

-- `AttendanceStatus`
pub record AttendanceStatus : Type 0 where
  pub employee_id : Value
  pub is_clocked_in : Bool
  pub last_attendance_id : Value
  pub last_check_in : Value

-- `AttendanceRecord`
pub record AttendanceRecord : Type 0 where
  pub id : Value
  pub employee_id : Value
  pub check_in : Value
  pub check_out : Value

-- The status by the latest attendance
unfoldable pub status_of : Value → Value → Checked AttendanceStatus
status_of eid rec = elim (as_dict rec) [
  | none ↦ err attribute_error
  | some row ↦ elim (lookup "id" row) [
    | none ↦ err key_error
    | some rid ↦ elim (lookup "check_in" row) [
      | none ↦ err key_error
      | some since ↦ ok (record {
        employee_id = eid;
        is_clocked_in = not (truthy (get "check_out" row));
        last_attendance_id = rid;
        last_check_in = since;
      })
    ]
  ]
]

-- `[ids]`, if `ids` is an integer
abbrev pub given_ids : Value → Value
given_ids (int n) = list (cons (int n) nil)
given_ids (bool b) = list (cons (bool b) nil)
given_ids v = v

module _ (outside : Outside) where
  -- The session of the client; `None` is the value `null`.
  unfoldable pub employee_of : Option Session → Rpc Value
  employee_of none = raise validation
  employee_of (some session) = do
    ids ←
        search outside "hr.employee" (some (term "user_id" (int session.uid) ∷ []))
          (("limit", int (pos 1)) ∷ [])
    if truthy ids then lift (first_item ids) else raise validation

  unfoldable pub resolve_employee_id : Value → Rpc Value
  resolve_employee_id null = do session ← gets (λ s. s.session); employee_of session
  resolve_employee_id employee_id = pure employee_id

  -- What the rows of the latest attendance say
  unfoldable pub status_from : Value → Value → Rpc AttendanceStatus
  status_from eid records =
      if truthy records
      then (do rec ← lift (first_item records); lift (status_of eid rec))
      else pure (record {
        employee_id = eid;
        is_clocked_in = false;
        last_attendance_id = null;
        last_check_in = null;
      })

  unfoldable pub get_status : Value → Rpc AttendanceStatus
  get_status employee_id = do
    eid ← resolve_employee_id employee_id
    records ←
        search_read outside "hr.attendance" (some (term "employee_id" eid ∷ []))
          (record no_paging {
            fields = some ("id" ∷ "employee_id" ∷ "check_in" ∷ "check_out" ∷ []);
            order = some "check_in desc";
            limit = some (pos 1);
          })
          []
    status_from eid records

  -- `clock_in` behind the status
  unfoldable pub enter_from : String → Value → AttendanceStatus → Rpc AttendanceRecord
  enter_from now eid status = if status.is_clocked_in then raise validation else do
    rec_id ←
        create outside "hr.attendance" (single (("employee_id", eid) ∷ ("check_in", str now) ∷ []))
          []
    pure (record { id = rec_id; employee_id = eid; check_in = str now; check_out = null })

  unfoldable pub clock_in : String → Value → Rpc AttendanceRecord
  clock_in now employee_id = do
    eid ← resolve_employee_id employee_id
    status ← get_status eid
    enter_from now eid status

  -- `clock_out` behind the status
  unfoldable pub leave_from : String → Value → AttendanceStatus → Rpc AttendanceRecord
  leave_from now eid status =
      if status.is_clocked_in
      then elim status.last_attendance_id [
        | null ↦ raise validation
        | rid ↦ do
          call outside "hr.attendance" "write"
              (given_ids rid ∷ dict (of_entries (("check_out", str now) ∷ [])) ∷ []) []
          pure (record {
            id = rid;
            employee_id = eid;
            check_in = if truthy status.last_check_in then status.last_check_in else str "";
            check_out = str now;
          })
      ]
      else raise validation

  unfoldable pub clock_out : String → Value → Rpc AttendanceRecord
  clock_out now employee_id = do
    eid ← resolve_employee_id employee_id
    status ← get_status eid
    leave_from now eid status
