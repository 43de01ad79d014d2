-- ===== src/Properties/Scope/Preflight.antt =====
-- What is sent before any write: discovery and the reads of services/properties.
use godoo_py.Base.{
  ℤ, int_eq, String, ◌≡◌, refl, inl, inr, Option, List, [], ◌∷◌, Option-cases, Bool-cases,
}
use godoo_py.Base.Dict.{Dict}
use godoo_py.Value.{Value}
use godoo_py.Safety.{read, infer_safety_level}
use godoo_py.Client.{Outside}
use godoo_py.Client.Traces.{Adds, IsRead, Added-refl, Adds-pure, Adds-lift, Adds->>=, Adds->>}
use godoo_py.Client.Reads.{call_with_context-IsRead}
use godoo_py.Properties.Scope.Checks.{PropertyScope, is_current}
use godoo_py.Properties.Scope.Calls.{
  check_identity, capture_scope, scope_call, discover, read_rows, load_definitions,
}

pub check_identity-IsRead : (scope : PropertyScope) → Adds IsRead (check_identity scope)
unfolding check_identity
check_identity-IsRead scope = record {
  added = λ s. elim (Bool-cases (is_current scope s.session)) [
    | inl same ↦ rw same (Added-refl IsRead s.log)
    | inr other ↦ rw other (Added-refl IsRead s.log)
  ];
}

pub capture_scope-IsRead :
    (model field : String) (context : Option (Dict String Value))
    → Adds IsRead (capture_scope model field context)
unfolding capture_scope
capture_scope-IsRead model field context = record {
  added = λ s. elim (Option-cases s.session) [
    | inl gone ↦ rw (gone, capture_scope) (Added-refl IsRead s.log)
    | inr (session, held) ↦ rw (held, capture_scope) (Added-refl IsRead s.log)
  ];
}

module _ (outside : Outside) where
  scope_call-IsRead :
      (scope : PropertyScope) (model method : String) (args : List Value)
      (kwargs : Dict String Value)
      → infer_safety_level method ≡ read
      → Adds IsRead (scope_call outside scope model method args kwargs)
  unfolding scope_call
  scope_call-IsRead scope model method args kwargs h =
      Adds->> IsRead _ _ (check_identity-IsRead scope) (
        call_with_context-IsRead outside model method args h kwargs scope.context scope.session
          scope.identity)

  pub discover-IsRead :
      (model field : String) (context : Option (Dict String Value))
      (parent_field definition_field : Option String)
      → Adds IsRead (discover outside model field context parent_field definition_field)
  unfolding discover infer_safety_level
  discover-IsRead model field context parent_field definition_field =
      Adds->>= IsRead _ _ (capture_scope-IsRead model field context) λ scope.
        Adds->>= IsRead _ _ (scope_call-IsRead scope model "fields_get" [] [] refl) λ metadata.
          Adds->>= IsRead _ _ (Adds-lift IsRead _) λ found.
            Adds->>= IsRead _ _ (scope_call-IsRead scope found.2 "fields_get" [] _ refl)
              λ parent. Adds->> IsRead _ _ (Adds-lift IsRead _) (Adds-pure IsRead _)

  pub read_rows-IsRead :
      (scope : PropertyScope) (model : String) (ids : List ℤ) (fields : Option (List String))
      → Adds IsRead (read_rows outside scope model ids fields)
  unfolding read_rows infer_safety_level
  read_rows-IsRead scope model [] fields = Adds-pure IsRead _
  read_rows-IsRead scope model (rid ∷ ids) fields =
      Adds->>= IsRead _ _ (scope_call-IsRead scope model "read" _ _ refl)
        λ answer. Adds-lift IsRead _

  pub load_definitions-IsRead :
      (scope : PropertyScope) → Adds IsRead (load_definitions outside scope)
  unfolding load_definitions
  load_definitions-IsRead scope =
      Adds->>= IsRead _ _ (read_rows-IsRead scope scope.parent_model _ _) λ rows. Adds-lift IsRead _
