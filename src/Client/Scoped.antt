-- ===== src/Client/Scoped.antt =====
-- Calls under a captured context and a pinned session, and the ambient context of a block.
use godoo_py.Base.{
  ℤ, String, ◌≡◌, ◌⊎◌, refl, true, some, List, ◌∷◌, ok, err, arith, Bool-cases, Option-cases, inl,
  inr, string_eq, nat_eq, int_eq, eq_refl, ◌∙◌, eq→path,
}
use godoo_py.Base.Dict.{Dict, lookup, lookup-insert_self}
use godoo_py.Value.{Value, dict, of_entries}
use godoo_py.Faults.{Checked}
use godoo_py.Client.Guarded.{requests}
use godoo_py.Safety.{OperationInfo}
use godoo_py.Client.State.{Event, sent, Request, Session, FixedScope, Client, Outside, ◌>>◌}
use godoo_py.Client.Call.{
  operation, ask, guard, transport_call, call_in_scope, call_guarded, call, call_with_context,
  is_same_session, is_for, with_context_key,
}

-- A request of the pinned user, with exactly the captured context.
abbrev pub IsPinned : ℤ × String × String → Dict String Value → Request → Type 0
IsPinned identity context r =
    (r.uid ≡ identity.0)
    × (r.db ≡ identity.1)
    × (lookup "context" r.kwargs ≡ some (dict (of_entries context)))

module _ (outside : Outside) where
  guard_keeps :
      (op : OperationInfo) (s : Client)
      → ((guard outside op s).1.fixed ≡ s.fixed)
        × ((guard outside op s).1.self ≡ s.self)
        × ((guard outside op s).1.ambient ≡ s.ambient)
        × (requests (guard outside op s).1.log ≡ requests s.log)
  unfolding guard ask
  guard_keeps op s = ground arith

  module _ (model method : String) (args : List Value) (kwargs : Dict String Value) where
    -- The one request that a scoped call may send
    abbrev scoped_request : FixedScope → Session → Request
    scoped_request f session = record {
      uid = session.uid;
      db = session.db;
      model = model;
      method = method;
      args = args;
      kwargs = with_context_key kwargs f.context;
    }

    scoped_request-IsPinned :
        (f : FixedScope) (session : Session)
        → is_same_session (some session) f ≡ true
        → IsPinned f.identity f.context (scoped_request f session)
    unfolding is_same_session
    scoped_request-IsPinned f session h = (
      eq→path session.uid f.identity.0 (ground arith),
      eq→path session.db f.identity.1 (ground arith),
      lookup-insert_self "context" (dict (of_entries f.context)) kwargs,
    )

    call_in_scope_log :
        (f : FixedScope) (s : Client)
        → ((call_in_scope outside f model method args kwargs s).1.log ≡ s.log)
          ⊎ ((session : Session) × ((call_in_scope outside f model method args kwargs s).1.log
                ≡ sent (scoped_request f session) ∷ s.log)
              × (is_same_session (some session) f ≡ true))
    unfolding call_in_scope transport_call
    call_in_scope_log f s = elim (Option-cases s.session) [
      | inl gone ↦ inl (ground arith)
      | inr (session, held) ↦ elim (Bool-cases (is_same_session s.session f)) [
        | inl same ↦ inr (session, ground arith, ground arith)
        | inr other ↦ inl (ground arith)
      ]
    ]

    -- One request at most, and that one pinned.
    abbrev SendsPinned : FixedScope → List Event → List Event → Type 0
    SendsPinned f before now =
        (requests now ≡ requests before)
        ⊎ ((r : Request) × (l : List Event) × (now ≡ sent r ∷ l)
            × (requests l ≡ requests before)
            × IsPinned f.identity f.context r)

    call_in_scope-SendsPinned :
        (f : FixedScope) (before : List Event) (s : Client)
        → requests s.log ≡ requests before
        → SendsPinned f before (call_in_scope outside f model method args kwargs s).1.log
    call_in_scope-SendsPinned f before s same = elim (call_in_scope_log f s) [
      | inl quiet ↦ inl (rw quiet same)
      | inr (session, e, pinned) ↦
          inr (scoped_request f session, s.log, e, same, scoped_request-IsPinned f session pinned)
    ]

    call_guarded-fixed :
        (f : FixedScope) (s : Client)
        → s.fixed ≡ some f
        → is_for s f ≡ true
        → call_guarded outside model method args kwargs s
          ≡ call_in_scope outside f model method args kwargs s
    unfolding call_guarded
    call_guarded-fixed f s e own = ground arith

    -- Behind the guard, whichever way it ended.
    after_guard :
        (f : FixedScope) (before : List Event) (g : Checked (Unit {0}) × Client)
        → requests g.1.log ≡ requests before
        → g.1.fixed ≡ some f
        → is_for g.1 f ≡ true
        → SendsPinned f before
            (◌>>◌ (λ _. g) (call_guarded outside model method args kwargs) g.1).1.log
    after_guard f before (ok _, s) same e own =
        rw (call_guarded-fixed f s e own) (call_in_scope-SendsPinned f before s same)
    after_guard f before (err _, s) same e own = inl same

    call-SendsPinned :
        (f : FixedScope) (s : Client)
        → s.fixed ≡ some f
        → is_for s f ≡ true
        → SendsPinned f s.log (call outside model method args kwargs s).1.log
    unfolding call
    call-SendsPinned f s e own = elim (Option-cases s.session) [
      | inl gone ↦ inl (ground arith)
      | inr (session, held) ↦
          let op = operation model method in
          let (fixed, self, _, same) = guard_keeps op s in
          rw (held, call) (after_guard f s.log (guard outside op s) same (fixed ∙ e) (rw self own))
    ]

    -- A scoped call sends at most one request: as the pinned user, to the pinned database, and with
    -- exactly the captured context, whatever the ambient context and the explicit `kwargs` say.
    pub call_with_context-IsPinned :
        (context : Dict String Value) (session : Session) (identity : ℤ × String × String)
        (s : Client)
        → let now =
            (call_with_context outside model method args kwargs context session identity s).1.log in
          (requests now ≡ requests s.log)
          ⊎ ((r : Request) × (l : List Event) × (now ≡ sent r ∷ l)
              × (requests l ≡ requests s.log)
              × IsPinned identity context r)
    unfolding call_with_context
    call_with_context-IsPinned context session identity s =
        call-SendsPinned
          (record { client = s.self; session = session; identity = identity; context = context })
          (record s {
            fixed = some (record {
              client = s.self;
              session = session;
              identity = identity;
              context = context;
            });
          })
          refl (eq_refl s.self)

    -- Whichever way a scoped call ends, the scope of the caller is in force again.
    pub call_with_context-restores :
        (context : Dict String Value) (session : Session) (identity : ℤ × String × String)
        (s : Client)
        → (call_with_context outside model method args kwargs context session identity s).1.fixed
          ≡ s.fixed
    unfolding call_with_context
    call_with_context-restores context session identity s = refl
