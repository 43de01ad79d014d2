-- ===== src/Attendance/Clock.antt =====
-- What clocking in and clocking out do, by the status of the employee.
use godoo_py.Base.{
  ℤ, Option, String, ◌≡◌, ◌∙◌, refl, if◌then◌else◌, [], ◌∷◌, none, some, ok, err, inl, inr,
  Bool-cases,
}
use godoo_py.Value.{Value, int, str, dict, of_entries, null, truthy, first_item}
use godoo_py.Faults.{validation, Checked}
use godoo_py.Safety.{infer_safety_level}
use godoo_py.Client.{Session, Client, Outside, Rpc, ◌>>=◌, ◌>>◌, pure, raise}
use godoo_py.Client.Traces.{
  either-Adds, Adds, IsRead, Adds-pure, Adds-lift, Adds-raise, Adds-gets, Adds->>=,
}
use godoo_py.Client.Reads.{call-IsRead}
use godoo_py.Client.Call.{call}
use godoo_py.Client.Crud.{search, search_read, create, single}
use godoo_py.Attendance.{
  AttendanceStatus, AttendanceRecord, given_ids, status_of, employee_of, resolve_employee_id,
  status_from, get_status, enter_from, clock_in, leave_from, clock_out,
}

module _ {A B : Type 0} where
  after_ok :
      (r : Checked A × Client) (f : A → Rpc B) (a : A) → r.0 ≡ ok a → ◌>>=◌ (λ _. r) f r.1 ≡ f a r.1
  after_ok (ok b, s) f a h = let same : b ≡ a = cc in rw same refl
  after_ok (err e, s) f a h = absurd cc

module _ (outside : Outside) where
  employee_of-IsRead : (session : Option Session) → Adds IsRead (employee_of outside session)
  unfolding employee_of search infer_safety_level
  employee_of-IsRead none = Adds-raise Value IsRead validation
  employee_of-IsRead (some session) =
      Adds->>= IsRead _ _ (call-IsRead outside "hr.employee" "search" _ refl _) (λ ids.
        either-Adds IsRead (truthy ids) _ _ (Adds-lift IsRead (first_item ids))
          (Adds-raise Value IsRead validation))

  resolve-IsRead : (v : Value) → Adds IsRead (resolve_employee_id outside v)
  unfolding resolve_employee_id
  resolve-IsRead null = Adds->>= IsRead _ _ (Adds-gets IsRead (λ s. s.session)) employee_of-IsRead
  resolve-IsRead v = Adds-pure IsRead v

  status_from-IsRead : (eid records : Value) → Adds IsRead (status_from outside eid records)
  unfolding status_from
  status_from-IsRead eid records =
      either-Adds IsRead (truthy records) _ _
        (Adds->>= IsRead _ _ (Adds-lift IsRead (first_item records))
          (λ rec. Adds-lift IsRead (status_of eid rec)))
        (Adds-pure IsRead _)

  get_status-IsRead : (v : Value) → Adds IsRead (get_status outside v)
  unfolding get_status search_read infer_safety_level
  get_status-IsRead v = Adds->>= IsRead _ _ (resolve-IsRead v) (λ eid.
      Adds->>= IsRead _ _ (call-IsRead outside "hr.attendance" "search_read" _ refl _)
        (λ records. status_from-IsRead eid records))

  module _ (n : ℤ) (s : Client) where
    -- The status of the employee, from this state
    abbrev pub status_now : Checked AttendanceStatus × Client
    status_now = get_status outside (int n) s

    -- The record of a new shift, which starts now
    abbrev pub starts : String → Rpc AttendanceRecord
    starts now = do
      rec_id ←
          create outside "hr.attendance"
            (single (("employee_id", int n) ∷ ("check_in", str now) ∷ [])) []
      pure (record { id = rec_id; employee_id = int n; check_in = str now; check_out = null })

    -- The end of the shift, if the status knows its record
    abbrev pub ends : String → AttendanceStatus → Rpc AttendanceRecord
    ends now status = elim status.last_attendance_id [
      | null ↦ raise validation
      | rid ↦ do
        call outside "hr.attendance" "write"
            (given_ids rid ∷ dict (of_entries (("check_out", str now) ∷ [])) ∷ []) []
        pure (record {
          id = rid;
          employee_id = int n;
          check_in = if truthy status.last_check_in then status.last_check_in else str "";
          check_out = str now;
        })
    ]

    pub clock_in-clock_out :
        (now : String) (status : AttendanceStatus)
        → status_now.0 ≡ ok status
        → Adds IsRead (get_status outside (int n))
          × (clock_in outside now (int n) s ≡ (
              if status.is_clocked_in
              then (err validation, status_now.1)
              else starts now status_now.1))
          × (clock_out outside now (int n) s ≡ (
              if status.is_clocked_in
              then ends now status status_now.1
              else (err validation, status_now.1)))
    unfolding clock_in clock_out resolve_employee_id enter_from leave_from
    clock_in-clock_out now status h =
        let enters = after_ok status_now (enter_from outside now (int n)) status h in
        let leaves = after_ok status_now (leave_from outside now (int n)) status h in
        elim (Bool-cases status.is_clocked_in) [
          | inl inside ↦ (
            get_status-IsRead (int n),
            enters ∙ rw (inside, enter_from) refl,
            leaves ∙ rw (inside, leave_from) refl,
          )
          | inr gone ↦ (
            get_status-IsRead (int n),
            enters ∙ rw (gone, enter_from) refl,
            leaves ∙ rw (gone, leave_from) refl,
          )
        ]
