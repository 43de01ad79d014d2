-- ===== src/Properties/Scope/Calls.antt =====
-- services/properties/scope.py: discovery, and reads under a captured scope.
use godoo_py.Base.{ℤ, pos, String, Option, none, some, List, [], ◌∷◌, map, ok, err, if◌then◌else◌}
use godoo_py.Base.Dict.{Dict}
use godoo_py.Value.{Value, int, str, list, of_items}
use godoo_py.Faults.{auth, property_scope}
use godoo_py.Client.{Outside, Rpc, ◌>>=◌, ◌>>◌, pure, lift}
use godoo_py.Client.Call.{call_with_context, capture_context}
use godoo_py.Properties.Types.{PropertyDefinition}
use godoo_py.Properties.Scope.Checks.{
  Row, PropertyScope, is_current, route, check_parent, checked_rows, definitions_of,
}

-- `PropertyScope.check_identity`
unfoldable pub check_identity : PropertyScope → Rpc (Unit {0})
check_identity scope s = if is_current scope s.session then (ok tt, s) else (err property_scope, s)

unfoldable pub capture_scope : String → String → Option (Dict String Value) → Rpc PropertyScope
capture_scope model field context s = elim s.session [
  | none ↦ (err auth, s)
  | some session ↦ (
    ok (record {
      model = model;
      field = field;
      parent_model = "";
      parent_field = "";
      definition_field = "";
      parent_id = pos 0;
      context = capture_context context s;
      session = session;
      identity = (session.uid, session.db, session.session_id);
    }),
    s,
  )
]

abbrev pub read_kwargs : Option (List String) → Dict String Value
read_kwargs none = []
read_kwargs (some fields) = ("fields", list (of_items (map str fields))) ∷ []

module _ (outside : Outside) where
  -- `PropertyScope.call`
  unfoldable pub scope_call :
      PropertyScope → String → String → List Value → Dict String Value → Rpc Value
  scope_call scope model method args kwargs =
      check_identity scope
      >> call_with_context outside model method args kwargs scope.context scope.session
          scope.identity

  unfoldable pub discover :
      String
      → String
      → Option (Dict String Value)
      → Option String
      → Option String
      → Rpc PropertyScope
  discover model property_field context parent_field definition_field = do
    scope ← capture_scope model property_field context
    metadata ← scope_call scope model "fields_get" [] []
    (parent, definition, parent_model) ←
        lift (route property_field parent_field definition_field metadata)
    parent_metadata ←
        scope_call scope parent_model "fields_get" []
          (("attributes", list (of_items (str "type" ∷ []))) ∷ [])
    lift (check_parent definition parent_metadata)
    pure (record scope {
      parent_model = parent_model;
      parent_field = parent;
      definition_field = definition;
    })

  -- `read_rows`; nothing is sent for no records.
  unfoldable pub read_rows : PropertyScope → String → List ℤ → Option (List String) → Rpc (List Row)
  read_rows scope model [] fields = pure []
  read_rows scope model (rid ∷ ids) fields = do
    answer ←
        scope_call scope model "read" (list (of_items (map int (rid ∷ ids))) ∷ [])
          (read_kwargs fields)
    lift (checked_rows (rid ∷ ids) fields answer)

  unfoldable pub load_definitions : PropertyScope → Rpc (List PropertyDefinition)
  load_definitions scope = do
    rows ←
        read_rows scope scope.parent_model (scope.parent_id ∷ [])
          (some (scope.definition_field ∷ []))
    lift (definitions_of scope.definition_field rows)
