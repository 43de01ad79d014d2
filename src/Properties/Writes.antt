-- ===== src/Properties/Writes.antt =====
-- `patch` and `update_safely` of services/properties/functions.py: what is written, and when they
-- return.
use godoo_py.Properties.Leads.{
  Written, Refused, Leads, after_step, quiet, Leads->>, Leads-lift, write_acknowledged-Leads,
}
use godoo_py.Base.{
  ℤ, int_eq, string_eq, String, ◌≡◌, ◌⊎◌, inl, inr, none, some, List, [], ◌∷◌, ok, arith,
  Result-cases,
}
use godoo_py.Base.Dict.{Dict, merge}
use godoo_py.Value.{Value, int}
use godoo_py.Faults.{Checked}
use godoo_py.Client.{Outside, Client, ◌>>=◌, ◌>>◌, lift}
use godoo_py.Client.Traces.{NoWrite, Added-refl}
use godoo_py.Properties.Codec.Values.{Calendar}
use godoo_py.Properties.Codec.Legacy.{legacy_merge}
use godoo_py.Properties.Scope.Checks.{PropertyScope, Row, record_ids}
use godoo_py.Properties.Scope.Calls.{read_rows, capture_scope, check_identity}
use godoo_py.Properties.Scope.Preflight.{
  check_identity-IsRead, capture_scope-IsRead, read_rows-IsRead,
}
use godoo_py.Properties.Patches.{read-IsRead}
use godoo_py.Properties.Targets.{capture_scope-IsOf, read-IsOf}
use godoo_py.Properties.Functions.{
  PropertyRecord, Route, patched_payload, write_acknowledged, patch, update_safely, read,
  only_record, first_value, ReadResult,
}
use godoo_py.Properties.Codec.Records.{patch_values, encode_values}

module _ (outside : Outside) (calendar : Calendar) (s : Client) where
  module _ (model : String) (rid : ℤ) (where_from : Route) where
    -- What `read` gives for the one record, from this state
    abbrev found_now : Checked ReadResult × Client
    found_now = read outside calendar model (int rid) where_from (some []) s

    -- The payload encodes the validated changes, over the values that were read of the record.
    abbrev pub IsPatch : Dict String Value → Dict String Value → Type 0
    IsPatch changes payload =
        (found : ReadResult) × (snapshot : PropertyRecord) × (validated : Dict String Value)
        × (found_now.0 ≡ ok found)
        × (only_record found ≡ ok snapshot)
        × (patch_values calendar snapshot.definitions changes ≡ ok validated)
        × (encode_values calendar snapshot.definitions (merge snapshot.properties validated)
            ≡ ok payload)

    patched_payload-parts :
        (snapshot : PropertyRecord) (changes payload : Dict String Value)
        → patched_payload calendar snapshot changes ≡ ok payload
        → (validated : Dict String Value) × (patch_values calendar snapshot.definitions changes
            ≡ ok validated)
          × (encode_values calendar snapshot.definitions (merge snapshot.properties validated)
              ≡ ok payload)
    unfolding patched_payload
    patched_payload-parts snapshot changes payload h =
        elim (Result-cases (patch_values calendar snapshot.definitions changes)) [
          | inl (validated, e) ↦ (validated, e, ground arith)
          | inr (x, e) ↦ absurd (ground arith)
        ]

    IsPatch-Leads :
        (name : String) (value : Value) (changes : Dict String Value)
        → let all_changes = (name, value) ∷ changes in
          (found : ReadResult)
          → found_now.0 ≡ ok found
          → Leads outside calendar s.log model where_from.field rid (IsPatch all_changes) (
              lift (only_record found) >>= λ snapshot.
              check_identity snapshot.scope
              >> (lift (patched_payload calendar snapshot all_changes) >>= λ payload.
                  write_acknowledged outside calendar snapshot.scope rid payload))
    IsPatch-Leads name value changes found e =
        let valid : Dict String Value → Type 0 = IsPatch ((name, value) ∷ changes) in
        let of =
          (read-IsOf outside calendar model (int rid) where_from (some [])).yields s found e in
        Leads-lift outside calendar s.log model where_from.field rid valid _ _ λ snapshot only.
          Leads->> outside calendar s.log model where_from.field rid valid _ _
            (check_identity-IsRead snapshot.scope)
            (Leads-lift outside calendar s.log model where_from.field rid valid _ _ λ payload made.
              let (validated, v, w) =
                patched_payload-parts snapshot ((name, value) ∷ changes) payload made in
              write_acknowledged-Leads outside calendar s.log model where_from.field rid valid
                snapshot.scope payload (of snapshot only)
                (found, snapshot, validated, e, only, v, w))

    -- Whatever the server answers and other tasks do: a patch with changes either raises, with nothing
    -- but questions and READ requests sent, or it sends behind those one request, a `write` to
    -- the field of the route of this record of this model, whose payload encodes the validated changes
    -- over the values that it read of the record; and then it returns exactly if the server answered `True`.
    pub patch-Written :
        (name : String) (value : Value) (changes : Dict String Value)
        → let all_changes = (name, value) ∷ changes in
          let after = patch outside calendar model rid where_from all_changes s in
          Refused outside calendar s.log after.0 after.1.log
          ⊎ Written outside calendar s.log model where_from.field rid
              (IsPatch all_changes)
              after.0
              after.1.log
    unfolding patch
    patch-Written name value changes =
        let valid : Dict String Value → Type 0 = IsPatch ((name, value) ∷ changes) in
        let start = Added-refl NoWrite s.log in
        let reads = (read-IsRead outside calendar model (int rid) where_from (some [])).added s in
        let quiet_now =
          quiet outside calendar s.log model where_from.field rid valid s found_now.1.log start
            reads in
        after_step outside calendar s.log model where_from.field rid valid (record_ids (int rid), s)
          _ start
          (λ ids ids_are.
            after_step outside calendar s.log model where_from.field rid valid found_now _ quiet_now
              (λ found e. (IsPatch-Leads name value changes found e).leads found_now.1 quiet_now))

  module _ (model : String) (rid : ℤ) (field : String) where
    abbrev captured : Checked PropertyScope × Client
    captured = capture_scope model field none s

    abbrev rows_now : PropertyScope → List ℤ → Checked (List Row) × Client
    rows_now scope ids = read_rows outside scope model ids (some (field ∷ [])) captured.1

    -- The payload is the merge of the updates with the value that was read of the record.
    abbrev pub IsMerge : Dict String Value → Dict String Value → Type 0
    IsMerge updates payload =
        (scope : PropertyScope) × (ids : List ℤ) × (rows : List Row) × (current : Value)
        × (captured.0 ≡ ok scope)
        × (record_ids (int rid) ≡ ok ids)
        × ((rows_now scope ids).0 ≡ ok rows)
        × (first_value field rows ≡ ok current)
        × (legacy_merge calendar current updates ≡ ok payload)

    -- `update_safely` either raises, with nothing but questions and READ requests sent, or it sends
    -- behind those one request, a `write` to this field of this record of this model, whose payload is
    -- the legacy merge of the updates with the value that it read; and then it returns exactly if the server answered `True`.
    pub update_safely-Written :
        (updates : Dict String Value)
        → let after = update_safely outside calendar model rid field updates s in
          Refused outside calendar s.log after.0 after.1.log
          ⊎ Written outside calendar s.log model field rid (IsMerge updates) after.0 after.1.log
    unfolding update_safely
    update_safely-Written updates =
        let valid : Dict String Value → Type 0 = IsMerge updates in
        let start = Added-refl NoWrite s.log in
        let captures =
          quiet outside calendar s.log model field rid valid s captured.1.log start
            ((capture_scope-IsRead model field none).added s) in
        after_step outside calendar s.log model field rid valid captured _ captures
          (λ scope scope_is.
            after_step outside calendar s.log model field rid valid
              (record_ids (int rid), captured.1) _ captures
              (λ ids ids_are.
                let reads =
                  quiet outside calendar s.log model field rid valid captured.1
                    (rows_now scope ids).1.log captures
                    ((read_rows-IsRead outside scope model ids (some (field ∷ []))).added
                      captured.1) in
                after_step outside calendar s.log model field rid valid (rows_now scope ids) _ reads
                  (λ rows rows_are.
                    let written =
                      Leads-lift outside calendar s.log model field rid valid
                        (first_value field rows) _
                        (λ current current_is.
                          Leads-lift outside calendar s.log model field rid valid
                            (legacy_merge calendar current updates) _
                            (λ payload made.
                              write_acknowledged-Leads outside calendar s.log model field rid valid
                                scope payload (capture_scope-IsOf model field none s scope scope_is)
                                (
                                  scope, ids, rows, current, scope_is, ids_are, rows_are,
                                  current_is, made,
                                ))) in
                    written.leads (rows_now scope ids).1 reads)))
