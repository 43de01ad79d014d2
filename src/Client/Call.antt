-- ===== src/Client/Call.antt =====
-- `_guard`, `call`, `_call_with_context` and the context scopes of client.py, over the guard of
-- `JsonRpcTransport.call`.
use Prim.Native.String.{◌++◌}
use godoo_py.Base.{
  ℤ, String, Bool, false, not, ◌&&◌, ◌||◌, Option, none, some, List, [], ◌∷◌, ◌==◌, nat_eq, int_eq,
  string_eq, if◌then◌else◌, is_empty, ok, err,
}
use godoo_py.Base.Dict.{Dict, insert, lookup, contains, merge}
use godoo_py.Value.{Value, dict, as_dict, of_entries}
use godoo_py.Faults.{auth, safety, type_error, Checked}
use godoo_py.Safety.{read, OperationInfo, infer_safety_level, resolve_safety_context}
use godoo_py.Client.State.{
  Session, Request, asked, sent, SafetyContext, undefined, explicit, FixedScope, Client, Outside,
  Rpc, ◌>>=◌, ◌>>◌, pure, raise, lift, gets,
}

-- `_effective_safety`. No module-level default is read: both calls say `undefined=False`.
unfoldable pub effective_safety : Client → Option SafetyContext
unfolding resolve_safety_context
effective_safety s = elim s.safety_context [
  | undefined ↦ resolve_safety_context none s.config_safety false
  | explicit c ↦ resolve_safety_context none c false
]

abbrev pub or_empty : Option (Dict String Value) → Dict String Value
or_empty none = []
or_empty (some d) = d

-- The `OperationInfo` that `call` builds
abbrev pub operation : String → String → OperationInfo
operation model method = record {
  name = method;
  level = infer_safety_level method;
  model = model;
  description = model ++ ("." ++ method);
  target = none;
  details = none;
}

-- `session is scope.session and (uid, db, session_id) == scope.identity`
unfoldable pub is_same_session : Option Session → FixedScope → Bool
is_same_session none f = false
is_same_session (some s) f =
    s.object == f.session.object
    && (s.uid == f.identity.0 && (s.db == f.identity.1 && s.session_id == f.identity.2))

abbrev pub is_for : Client → FixedScope → Bool
is_for s f = f.client == s.self

-- `kwargs.get("context", {})`, which `**` wants to be a mapping
abbrev pub explicit_context : Dict String Value → Checked (Dict String Value)
explicit_context kwargs = elim (lookup "context" kwargs) [
  | none ↦ ok []
  | some v ↦ elim (as_dict v) [ none ↦ err type_error | some d ↦ ok d ]
]

-- `{**kwargs, "context": context}`
abbrev pub with_context_key : Dict String Value → Dict String Value → Dict String Value
with_context_key kwargs context = insert "context" (dict (of_entries context)) kwargs

-- The merge of the ambient context with the explicit one, which wins.
unfoldable pub merged_kwargs : Dict String Value → Dict String Value → Checked (Dict String Value)
merged_kwargs ambient kwargs =
    if not (is_empty ambient) || contains "context" kwargs
    then elim (explicit_context kwargs) [
      | err e ↦ err e
      | ok explicit_part ↦
          let merged = merge ambient explicit_part in
          ok (if is_empty merged then kwargs else with_context_key kwargs merged)
    ]
    else ok kwargs

module _ (outside : Outside) where
  -- `await ctx.confirm(op)`
  unfoldable pub ask : SafetyContext → OperationInfo → Rpc Bool
  ask ctx op s = (
    ctx.confirm s.log op,
    record s {
      log = asked op ∷ s.log;
      session = outside.session_after (asked op ∷ s.log) s.session;
    },
  )

  -- `OdooClient._guard`
  unfoldable pub guard : OperationInfo → Rpc (Unit {0})
  guard op = elim op.level [
    | read ↦ pure tt
    | _ ↦ λ s. elim (effective_safety s) [
      | none ↦ (ok tt, s)
      | some ctx ↦ (ask ctx op >>= λ allowed. if allowed then pure tt else raise safety) s
    ]
  ]

  -- `JsonRpcTransport.call`, down to the request
  unfoldable pub transport_call : String → String → List Value → Dict String Value → Rpc Value
  transport_call model method args kwargs s = elim s.session [
    | none ↦ (err auth, s)
    | some session ↦
        let request : Request = record {
          uid = session.uid;
          db = session.db;
          model = model;
          method = method;
          args = args;
          kwargs = kwargs;
        } in
        (
          outside.reply s.log request,
          record s {
            log = sent request ∷ s.log;
            session = outside.session_after (sent request ∷ s.log) s.session;
          },
        )
  ]

  -- The part of `call` behind the guard, inside or outside a fixed scope of this client.
  unfoldable pub call_in_scope :
      FixedScope → String → String → List Value → Dict String Value → Rpc Value
  call_in_scope f model method args kwargs s =
      if is_same_session s.session f
      then transport_call model method args (with_context_key kwargs f.context) s
      else (err auth, s)

  unfoldable pub call_ambient : String → String → List Value → Dict String Value → Rpc Value
  call_ambient model method args kwargs = do
    ambient ← gets (λ s. or_empty s.ambient)
    merged ← lift (merged_kwargs ambient kwargs)
    transport_call model method args merged

  unfoldable pub call_guarded : String → String → List Value → Dict String Value → Rpc Value
  call_guarded model method args kwargs s = elim s.fixed [
    | none ↦ call_ambient model method args kwargs s
    | some f ↦
        if is_for s f
        then call_in_scope f model method args kwargs s
        else call_ambient model method args kwargs s
  ]

  -- `OdooClient.call`
  unfoldable pub call : String → String → List Value → Dict String Value → Rpc Value
  call model method args kwargs s = elim s.session [
    | none ↦ (err auth, s)
    | some _ ↦ (guard (operation model method) >> call_guarded model method args kwargs) s
  ]

  -- `OdooClient._call_with_context`: the scope is reset on every path.
  unfoldable pub call_with_context :
      String
      → String
      → List Value
      → Dict String Value
      → Dict String Value
      → Session
      → ℤ × String × String
      → Rpc Value
  call_with_context model method args kwargs context session identity s =
      let scope : FixedScope = record {
        client = s.self;
        session = session;
        identity = identity;
        context = context;
      } in
      let (r, s') = call model method args kwargs (record s { fixed = some scope }) in
      (r, record s' { fixed = s.fixed })

-- `_capture_context`
unfoldable pub capture_context : Option (Dict String Value) → Client → Dict String Value
capture_context context s = merge (or_empty s.ambient) (or_empty context)

-- `_OdooContextScope`: the layer, and the token that resets the variable.
pub record ContextScope : Type 0 where
  pub layer : Dict String Value
  pub token : Option (Option (Dict String Value))

-- `__enter__`
unfoldable pub enter : ContextScope → Client → ContextScope × Client
enter scope s = (
  record scope { token = some s.ambient },
  record s { ambient = some (merge (or_empty s.ambient) scope.layer) },
)

-- `__exit__`
unfoldable pub exit : ContextScope → Client → ContextScope × Client
exit scope s = elim scope.token [
  | none ↦ (scope, s)
  | some before ↦ (record scope { token = none }, record s { ambient = before })
]
