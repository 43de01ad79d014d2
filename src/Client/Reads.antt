-- ===== src/Client/Reads.antt =====
-- Calls of READ methods, scoped or not: they ask nothing and send requests of their method only.
use godoo_py.Base.{ℤ, String, ◌≡◌, refl, inl, inr, List, Option-cases, Bool-cases, Result-cases}
use godoo_py.Base.Dict.{Dict}
use godoo_py.Value.{Value}
use godoo_py.Safety.{read, infer_safety_level}
use godoo_py.Client.State.{Event, Request, sent, Session, FixedScope, Client, Outside}
use godoo_py.Client.Call.{
  guard, transport_call, call_in_scope, call_ambient, call_guarded, call, call_with_context,
  is_same_session, is_for, merged_kwargs, or_empty,
}
use godoo_py.Client.Traces.{Added, Adds, IsRead, Added-refl, Added-cons}

module _ (outside : Outside) (model method : String) (args : List Value) where
  module _ (P : Event → Type 0) (sends : (r : Request) → r.method ≡ method → P (sent r)) where
    transport_call-Adds :
        (kwargs : Dict String Value) (s : Client)
        → Added P s.log (transport_call outside model method args kwargs s).1.log
    unfolding transport_call
    transport_call-Adds kwargs s = elim (Option-cases s.session) [
      | inl gone ↦ rw (gone, transport_call) (Added-refl P s.log)
      | inr (session, held) ↦ rw (held, transport_call) (Added-cons P _ s.log (sends _ refl))
    ]

    call_in_scope-Adds :
        (f : FixedScope) (kwargs : Dict String Value) (s : Client)
        → Added P s.log (call_in_scope outside f model method args kwargs s).1.log
    unfolding call_in_scope
    call_in_scope-Adds f kwargs s = elim (Bool-cases (is_same_session s.session f)) [
      | inl same ↦ rw same (transport_call-Adds _ s)
      | inr other ↦ rw other (Added-refl P s.log)
    ]

    call_ambient-Adds :
        (kwargs : Dict String Value) (s : Client)
        → Added P s.log (call_ambient outside model method args kwargs s).1.log
    unfolding call_ambient
    call_ambient-Adds kwargs s = elim (Result-cases (merged_kwargs (or_empty s.ambient) kwargs)) [
      | inl (merged, e) ↦ rw e (transport_call-Adds merged s)
      | inr (fault, e) ↦ rw e (Added-refl P s.log)
    ]

    -- Behind the guard, only this method is sent, and once at most.
    pub call_guarded-Adds :
        (kwargs : Dict String Value) (s : Client)
        → Added P s.log (call_guarded outside model method args kwargs s).1.log
    unfolding call_guarded
    call_guarded-Adds kwargs s = elim (Option-cases s.fixed) [
      | inl free ↦ rw (free, call_guarded) (call_ambient-Adds kwargs s)
      | inr (f, fixed) ↦ elim (Bool-cases (is_for s f)) [
        | inl own ↦ rw (fixed, call_guarded) (rw own (call_in_scope-Adds f kwargs s))
        | inr other ↦ rw (fixed, call_guarded) (rw other (call_ambient-Adds kwargs s))
      ]
    ]

  module _ (is_read : infer_safety_level method ≡ read) where
    sends-IsRead : (r : Request) → r.method ≡ method → IsRead (sent r)
    sends-IsRead r e = rw e is_read

    call_reads :
        (kwargs : Dict String Value) (s : Client)
        → Added IsRead s.log (call outside model method args kwargs s).1.log
    unfolding call guard
    call_reads kwargs s = elim (Option-cases s.session) [
      | inl gone ↦ rw (gone, call) (Added-refl IsRead s.log)
      | inr (session, held) ↦
          rw (held, call) (rw is_read (call_guarded-Adds IsRead sends-IsRead kwargs s))
    ]

    pub call-IsRead :
        (kwargs : Dict String Value) → Adds IsRead (call outside model method args kwargs)
    call-IsRead kwargs = record { added = call_reads kwargs }

    pub call_with_context-IsRead :
        (kwargs context : Dict String Value) (session : Session) (identity : ℤ × String × String)
        → Adds IsRead (call_with_context outside model method args kwargs context session identity)
    unfolding call_with_context
    call_with_context-IsRead kwargs context session identity = record {
      added = λ s. call_reads kwargs _;
    }
