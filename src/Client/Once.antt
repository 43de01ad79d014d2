-- ===== src/Client/Once.antt =====
-- A call sends its request once, or raises before it is sent; what it returns is the server's answer.
use godoo_py.Base.{
  ℤ, String, ◌≡◌, ◌⊎◌, refl, inl, inr, List, ◌∷◌, ok, err, arith, Option-cases, Bool-cases,
  Result-cases,
}
use godoo_py.Base.Dict.{Dict}
use godoo_py.Value.{Value}
use godoo_py.Faults.{Fault, Checked}
use godoo_py.Safety.{SafetyLevel, OperationInfo}
use godoo_py.Client.State.{Event, asked, Request, sent, Session, FixedScope, Client, Outside, ◌>>◌}
use godoo_py.Client.Call.{
  operation, effective_safety, ask, guard, transport_call, call_in_scope, call_ambient,
  call_guarded, call, call_with_context, is_same_session, is_for, merged_kwargs, or_empty,
}
use godoo_py.Client.Traces.{Added, IsQuestion, Added-refl, Added-cons}

guard_log :
    (outside : Outside) (op : OperationInfo) (s : Client) (level : SafetyLevel)
    → op.level ≡ level
    → ((guard outside op s).1.log ≡ s.log) ⊎ ((guard outside op s).1.log ≡ asked op ∷ s.log)
unfolding guard ask
guard_log outside op s SafetyLevel.read e = inl (ground arith)
guard_log outside op s level e = elim (Option-cases (effective_safety s)) [
  | inl free ↦ inl (ground arith)
  | inr (ctx, h) ↦ inr (ground arith)
]

guard-IsQuestion :
    (outside : Outside) (op : OperationInfo) (s : Client)
    → Added IsQuestion s.log (guard outside op s).1.log
guard-IsQuestion outside op s = elim (guard_log outside op s op.level refl) [
  | inl e ↦ rw e (Added-refl IsQuestion s.log)
  | inr e ↦ rw e (Added-cons IsQuestion (asked op) s.log tt)
]

module _ (outside : Outside) (model method : String) (args : List Value) where
  -- What is logged when the call ends with `r`
  abbrev pub SendsOnce : List Event → Checked Value → List Event → Type 0
  SendsOnce before r now =
      ((e : Fault) × (r ≡ err e) × Added IsQuestion before now)
      ⊎ ((request : Request) × (l : List Event) × (now ≡ sent request ∷ l)
          × Added IsQuestion before l
          × (request.model ≡ model)
          × (request.method ≡ method)
          × (request.args ≡ args)
          × (r ≡ outside.reply l request))

  transport_call-SendsOnce :
      (before : List Event) (kwargs : Dict String Value) (s : Client)
      → Added IsQuestion before s.log
      → let after = transport_call outside model method args kwargs s in
        SendsOnce before after.0 after.1.log
  unfolding transport_call
  transport_call-SendsOnce before kwargs s q = elim (Option-cases s.session) [
    | inl gone ↦ rw (gone, transport_call) (inl (_, refl, q))
    | inr (session, held) ↦
        rw (held, transport_call) (inr (_, s.log, refl, q, refl, refl, refl, refl))
  ]

  call_in_scope-SendsOnce :
      (before : List Event) (f : FixedScope) (kwargs : Dict String Value) (s : Client)
      → Added IsQuestion before s.log
      → let after = call_in_scope outside f model method args kwargs s in
        SendsOnce before after.0 after.1.log
  unfolding call_in_scope
  call_in_scope-SendsOnce before f kwargs s q = elim (Bool-cases (is_same_session s.session f)) [
    | inl same ↦ rw same (transport_call-SendsOnce before _ s q)
    | inr other ↦ rw other (inl (_, refl, q))
  ]

  call_ambient-SendsOnce :
      (before : List Event) (kwargs : Dict String Value) (s : Client)
      → Added IsQuestion before s.log
      → let after = call_ambient outside model method args kwargs s in
        SendsOnce before after.0 after.1.log
  unfolding call_ambient
  call_ambient-SendsOnce before kwargs s q =
      elim (Result-cases (merged_kwargs (or_empty s.ambient) kwargs)) [
        | inl (merged, e) ↦ rw e (transport_call-SendsOnce before merged s q)
        | inr (fault, e) ↦ rw e (inl (fault, refl, q))
      ]

  call_guarded-SendsOnce :
      (before : List Event) (kwargs : Dict String Value) (s : Client)
      → Added IsQuestion before s.log
      → let after = call_guarded outside model method args kwargs s in
        SendsOnce before after.0 after.1.log
  unfolding call_guarded
  call_guarded-SendsOnce before kwargs s q = elim (Option-cases s.fixed) [
    | inl free ↦ rw (free, call_guarded) (call_ambient-SendsOnce before kwargs s q)
    | inr (f, fixed) ↦ elim (Bool-cases (is_for s f)) [
      | inl own ↦ rw (fixed, call_guarded) (rw own (call_in_scope-SendsOnce before f kwargs s q))
      | inr other ↦ rw (fixed, call_guarded) (rw other (call_ambient-SendsOnce before kwargs s q))
    ]
  ]

  behind_guard :
      (before : List Event) (kwargs : Dict String Value) (g : Checked (Unit {0}) × Client)
      → Added IsQuestion before g.1.log
      → let after = ◌>>◌ (λ _. g) (call_guarded outside model method args kwargs) g.1 in
        SendsOnce before after.0 after.1.log
  behind_guard before kwargs (ok _, s) q = call_guarded-SendsOnce before kwargs s q
  behind_guard before kwargs (err e, s) q = inl (e, refl, q)

  pub call-SendsOnce :
      (kwargs : Dict String Value) (s : Client)
      → let after = call outside model method args kwargs s in SendsOnce s.log after.0 after.1.log
  unfolding call
  call-SendsOnce kwargs s = elim (Option-cases s.session) [
    | inl gone ↦ rw (gone, call) (inl (_, refl, Added-refl IsQuestion s.log))
    | inr (session, held) ↦
        let op = operation model method in
        rw (held, call)
          (behind_guard s.log kwargs (guard outside op s) (guard-IsQuestion outside op s))
  ]

  pub call_with_context-SendsOnce :
      (kwargs context : Dict String Value) (session : Session) (identity : ℤ × String × String)
      (s : Client)
      → let after = call_with_context outside model method args kwargs context session identity s in
        SendsOnce s.log after.0 after.1.log
  unfolding call_with_context
  call_with_context-SendsOnce kwargs context session identity s = call-SendsOnce kwargs _
