-- ===== src/Client/Replies.antt =====
-- What a call of a READ method returns: the answer of the server to a request for it.
use godoo_py.Base.{
  String, string_eq, ◌≡◌, ◌∙◌, sym, refl, ap, inl, inr, Bool, true, false, ◌==◌, ◌||◌, not, ok, err,
  List, is_empty, if◌then◌else◌, arith, Option-cases, Bool-cases, Result-cases,
}
use godoo_py.Base.Dict.{Dict, lookup, contains, merge, lookup-insert}
use godoo_py.Value.{Value, dict, of_entries}
use godoo_py.Faults.{Checked}
use godoo_py.Safety.{read, infer_safety_level}
use godoo_py.Client.State.{Event, Request, FixedScope, Client, Outside}
use godoo_py.Client.Call.{
  guard, transport_call, call_in_scope, call_ambient, call_guarded, call, is_same_session, is_for,
  merged_kwargs, or_empty, with_context_key, explicit_context,
}

-- The value of the key does not depend on the contexts.
merged-keeps :
    (key : String) (ambient kwargs merged : Dict String Value) (b : Bool)
    (p : Checked (Dict String Value))
    → (key == "context") ≡ false
    → (if b
        then elim p [
          | err e ↦ err e
          | ok explicit_part ↦
              let all = merge ambient explicit_part in
              ok (if is_empty all then kwargs else with_context_key kwargs all)
        ]
        else ok kwargs)
      ≡ ok merged
    → lookup key merged ≡ lookup key kwargs
merged-keeps key ambient kwargs merged false p other h = ground arith
merged-keeps key ambient kwargs merged true (err e) other h = absurd cc
merged-keeps key ambient kwargs merged true (ok explicit_part) other h =
    let all = merge ambient explicit_part in
    let kept = lookup-insert key "context" (dict (of_entries all)) kwargs in
    elim (Bool-cases (is_empty all)) [
      | inl e ↦ ground arith
      | inr e ↦
          let same : with_context_key kwargs all ≡ merged = ground arith in
          ap (lookup key) (sym same) ∙ kept ∙ rw other refl
    ]

merged_kwargs-keeps :
    (key : String) (ambient kwargs merged : Dict String Value)
    → (key == "context") ≡ false
    → merged_kwargs ambient kwargs ≡ ok merged
    → lookup key merged ≡ lookup key kwargs
unfolding merged_kwargs
merged_kwargs-keeps key ambient kwargs merged other h =
    merged-keeps key ambient kwargs merged (not (is_empty ambient) || contains "context" kwargs)
      (explicit_context kwargs) other h

module _ (outside : Outside) (model method : String) (args : List Value) (key : String)
    (other : (key == "context") ≡ false) where
  -- The value is what the server answered to such a request.
  abbrev pub IsReply : Dict String Value → Value → Type 0
  IsReply kwargs v =
      (log : List Event) × (r : Request) × (r.model ≡ model)
      × (r.method ≡ method)
      × (r.args ≡ args)
      × (lookup key r.kwargs ≡ lookup key kwargs)
      × (outside.reply log r ≡ ok v)

  transport_call-IsReply :
      (kwargs merged : Dict String Value) (s : Client) (v : Value)
      → lookup key merged ≡ lookup key kwargs
      → (transport_call outside model method args merged s).0 ≡ ok v
      → IsReply kwargs v
  unfolding transport_call
  transport_call-IsReply kwargs merged s v k h = elim (Option-cases s.session) [
    | inl gone ↦ absurd (ground arith)
    | inr (session, held) ↦
        let request : Request = record {
          uid = session.uid;
          db = session.db;
          model = model;
          method = method;
          args = args;
          kwargs = merged;
        } in
        (s.log, request, refl, refl, refl, k, ground arith)
  ]

  call_ambient-IsReply :
      (kwargs : Dict String Value) (s : Client) (v : Value)
      → (call_ambient outside model method args kwargs s).0 ≡ ok v
      → IsReply kwargs v
  unfolding call_ambient
  call_ambient-IsReply kwargs s v h =
      elim (Result-cases (merged_kwargs (or_empty s.ambient) kwargs)) [
        | inr (fault, e) ↦ absurd (ground arith)
        | inl (merged, e) ↦
            transport_call-IsReply kwargs merged s v
              (merged_kwargs-keeps key (or_empty s.ambient) kwargs merged other e) (ground arith)
      ]

  call_in_scope-IsReply :
      (f : FixedScope) (kwargs : Dict String Value) (s : Client) (v : Value)
      → (call_in_scope outside f model method args kwargs s).0 ≡ ok v
      → IsReply kwargs v
  unfolding call_in_scope
  call_in_scope-IsReply f kwargs s v h = elim (Bool-cases (is_same_session s.session f)) [
    | inr moved ↦ absurd (ground arith)
    | inl same ↦
        transport_call-IsReply kwargs (with_context_key kwargs f.context) s v
          (lookup-insert key "context" (dict (of_entries f.context)) kwargs ∙ rw other refl)
          (ground arith)
  ]

  call_guarded-IsReply :
      (kwargs : Dict String Value) (s : Client) (v : Value)
      → (call_guarded outside model method args kwargs s).0 ≡ ok v
      → IsReply kwargs v
  unfolding call_guarded
  call_guarded-IsReply kwargs s v h = elim (Option-cases s.fixed) [
    | inl free ↦ call_ambient-IsReply kwargs s v (ground arith)
    | inr (f, fixed) ↦ elim (Bool-cases (is_for s f)) [
      | inl own ↦ call_in_scope-IsReply f kwargs s v (ground arith)
      | inr foreign ↦ call_ambient-IsReply kwargs s v (ground arith)
    ]
  ]

  -- A value that a call of a READ method returns is an answer of the server, to a request of that
  -- model and method, with those arguments, and with that keyword argument, which is not the context.
  pub call-IsReply :
      (is_read : infer_safety_level method ≡ read) (kwargs : Dict String Value) (s : Client)
      (v : Value)
      → (call outside model method args kwargs s).0 ≡ ok v
      → IsReply kwargs v
  unfolding call guard
  call-IsReply is_read kwargs s v h = elim (Option-cases s.session) [
    | inl gone ↦ absurd (ground arith)
    | inr (session, held) ↦ call_guarded-IsReply kwargs s v (ground arith)
  ]
