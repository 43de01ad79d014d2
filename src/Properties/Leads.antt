-- ===== src/Properties/Leads.antt =====
-- Methods of services/properties/functions.py that write one record: reads first, one request for the
-- write, and the test of its answer.
use godoo_py.Base.{
  ℤ, int_eq, String, ◌≡◌, ◌⊎◌, ◌↔◌, ◌∙◌, ap, refl, inl, inr, true, List, [], ◌∷◌, ok, err, arith,
  Bool-cases,
}
use godoo_py.Base.Dict.{Dict}
use godoo_py.Value.{Value, bool}
use godoo_py.Faults.{Fault, Checked, write_unknown, is_network, is_odoo}
use godoo_py.Client.{Outside, Client, Rpc, Event, Request, sent, ◌>>=◌, ◌>>◌, lift}
use godoo_py.Client.Traces.{
  Added, Adds, IsRead, NoWrite, IsQuestion, IsRead→NoWrite, IsQuestion→NoWrite, Added-map,
  Added-trans,
}
use godoo_py.Client.Once.{SendsOnce, call_with_context-SendsOnce}
use godoo_py.Properties.Codec.Values.{Calendar}
use godoo_py.Properties.Receipts.{receipt_of, require_acknowledged, receipt_of_outcomes}
use godoo_py.Properties.Scope.Checks.{PropertyScope, is_current}
use godoo_py.Properties.Scope.Calls.{scope_call, check_identity}
use godoo_py.Properties.Targets.{IsOf}
use godoo_py.Properties.Functions.{write_args, write_one, write_acknowledged}

scope_call-SendsOnce :
    (outside : Outside) (scope : PropertyScope) (model method : String) (args : List Value)
    (kwargs : Dict String Value) (s : Client)
    → let after = scope_call outside scope model method args kwargs s in
      SendsOnce outside model method args s.log after.0 after.1.log
unfolding scope_call check_identity
scope_call-SendsOnce outside scope model method args kwargs s =
    elim (Bool-cases (is_current scope s.session)) [
      | inl same ↦ rw same (
          call_with_context-SendsOnce outside model method args kwargs scope.context scope.session
            scope.identity s)
      | inr other ↦ rw other (inl (_, refl, ([], refl, tt)))
    ]

-- A call that raised gives no receipt that is let through.
raised-refused :
    (rid : ℤ) (e : Fault) → (x : Fault) × (require_acknowledged (receipt_of rid (err e)) ≡ err x)
unfolding require_acknowledged receipt_of
raised-refused rid e = elim (Bool-cases (is_network e)) [
  | inl net ↦ (write_unknown rid, ground arith)
  | inr other ↦ elim (Bool-cases (is_odoo e)) [
    | inl odoo ↦ (e, ground arith)
    | inr any ↦ (write_unknown rid, ground arith)
  ]
]

module _ (outside : Outside) (calendar : Calendar) (before : List Event) where
  -- One write, to this field of this record of this model, of a payload that is `Valid`, behind reads
  -- and questions alone; the method returns exactly if the server answered `True`.
  abbrev pub Written :
      String → String → ℤ → (Dict String Value → Type 0) → Checked (Unit {0}) → List Event → Type 0
  Written model field rid Valid result now =
      (payload : Dict String Value) × (r : Request) × (l : List Event) × (now ≡ sent r ∷ l)
      × Added NoWrite before l
      × Valid payload
      × (r.model ≡ model)
      × (r.method ≡ "write")
      × (r.args ≡ write_args field rid payload)
      × ((result ≡ ok tt) ↔ (outside.reply l r ≡ ok (bool true)))

  -- Nothing is written, and the method raises.
  abbrev pub Refused : Checked (Unit {0}) → List Event → Type 0
  Refused result now = (e : Fault) × (result ≡ err e) × Added NoWrite before now

  -- From a log with no write yet, the method refuses or writes once.
  pub record Leads (model field : String) (rid : ℤ) (Valid : Dict String Value → Type 0)
      (m : Rpc (Unit {0})) : Type 0 where
    pub leads :
        (s : Client)
        → Added NoWrite before s.log
        → Refused (m s).0 (m s).1.log ⊎ Written model field rid Valid (m s).0 (m s).1.log

  module _ (model field : String) (rid : ℤ) (Valid : Dict String Value → Type 0) where
    pub after_step :
        {A : Type 0} (r : Checked A × Client) (f : A → Rpc (Unit {0}))
        → Added NoWrite before r.1.log
        → ((a : A)
            → r.0 ≡ ok a
            → Refused (f a r.1).0 (f a r.1).1.log
              ⊎ Written model field rid Valid (f a r.1).0 (f a r.1).1.log)
        → let after = ◌>>=◌ (λ _. r) f r.1 in
          Refused after.0 after.1.log ⊎ Written model field rid Valid after.0 after.1.log
    after_step (ok a, s) f h k = k a refl
    after_step (err e, s) f h k = inl (e, refl, h)

    after_reads :
        {A : Type 0} (r : Checked A × Client) (f : A → Rpc (Unit {0}))
        → Added NoWrite before r.1.log
        → ((a : A) → r.0 ≡ ok a → Leads model field rid Valid (f a))
        → let after = ◌>>=◌ (λ _. r) f r.1 in
          Refused after.0 after.1.log ⊎ Written model field rid Valid after.0 after.1.log
    after_reads r f h k = after_step r f h (λ a e. (k a e).leads r.1 h)

    pub quiet :
        (s : Client) (now : List Event)
        → Added NoWrite before s.log
        → Added IsRead s.log now
        → Added NoWrite before now
    quiet s now h k =
        Added-trans NoWrite before s.log now h (Added-map IsRead NoWrite IsRead→NoWrite s.log now k)

    pub Leads->>= :
        {A : Type 0} (m : Rpc A) (f : A → Rpc (Unit {0}))
        → Adds IsRead m
        → ((a : A) → Leads model field rid Valid (f a))
        → Leads model field rid Valid (m >>= f)
    Leads->>= m f reads k = record {
      leads = λ s h. after_reads (m s) f (quiet s _ h (reads.added s)) (λ a e. k a);
    }

    pub Leads->> :
        {A : Type 0} (m : Rpc A) (n : Rpc (Unit {0}))
        → Adds IsRead m
        → Leads model field rid Valid n
        → Leads model field rid Valid (m >> n)
    Leads->> m n reads k = Leads->>= m (λ _. n) reads (λ _. k)

    -- A check, whose result is known behind it
    pub Leads-lift :
        {A : Type 0} (r : Checked A) (f : A → Rpc (Unit {0}))
        → ((a : A) → r ≡ ok a → Leads model field rid Valid (f a))
        → Leads model field rid Valid (lift r >>= f)
    Leads-lift r f k = record { leads = λ s h. after_reads (r, s) f h k }

    module _ (scope : PropertyScope) (payload : Dict String Value) (of : IsOf model field scope)
        (valid : Valid payload) where
      receipt_end :
          (r : Checked Value × Client) (s : Client)
          → Added NoWrite before s.log
          → SendsOnce outside scope.model "write"
              (write_args scope.field rid payload)
              s.log
              r.0
              r.1.log
          → let result = require_acknowledged (receipt_of rid r.0) in
            Refused result r.1.log ⊎ Written model field rid Valid result r.1.log
      receipt_end r s h (inl (e, failed, asked)) =
          let (x, refused) = raised-refused rid e in
          inl (
            x,
            rw failed refused,
            Added-trans NoWrite before s.log r.1.log h
                (Added-map IsQuestion NoWrite IsQuestion→NoWrite s.log r.1.log asked),
          )
      receipt_end r s h (inr (request, l, now, asked, to, method, given, answered)) = inr (
        payload,
        request,
        l,
        now,
        Added-trans NoWrite before s.log l h
            (Added-map IsQuestion NoWrite IsQuestion→NoWrite s.log l asked),
        valid,
        to ∙ of.0,
        method,
        given ∙ ap (λ name. write_args name rid payload) of.1,
        rw (← answered) ((receipt_of_outcomes rid r.0).0),
      )

      pub write_acknowledged-Leads :
          Leads model field rid Valid (write_acknowledged outside calendar scope rid payload)
      unfolding write_acknowledged write_one
      write_acknowledged-Leads = record {
        leads = λ s h.
            receipt_end
              (scope_call outside scope scope.model "write" (write_args scope.field rid payload) []
                s)
              s h
              (scope_call-SendsOnce outside scope scope.model "write"
                (write_args scope.field rid payload) [] s);
      }
