-- ===== src/Client/Guarded.antt =====
-- What the safety guard and the authentication check of `call` let through.
use godoo_py.Base.{
  ℕ, suc, String, ◌≡◌, ◌≢◌, ◌⊎◌, refl, Bool, true, false, none, some, List, [], ◌∷◌, ok, err, arith,
  inl, inr,
}
use godoo_py.Base.Dict.{Dict}
use godoo_py.Value.{Value}
use godoo_py.Faults.{Fault, Checked, auth}
use godoo_py.Safety.{read, infer_safety_level}
use godoo_py.Client.State.{Event, asked, sent, SafetyContext, Client, Outside}
use godoo_py.Client.Call.{
  effective_safety, operation, ask, guard, transport_call, call_in_scope, call_ambient,
  call_guarded, call,
}

-- How many requests went out, and how often `confirm` was awaited.
abbrev pub requests : List Event → ℕ
requests [] = 0
requests (sent _ ∷ l) = suc (requests l)
requests (asked _ ∷ l) = requests l

abbrev pub questions : List Event → ℕ
questions [] = 0
questions (asked _ ∷ l) = suc (questions l)
questions (sent _ ∷ l) = questions l

answer-cases : (r : Checked Bool) → (r ≡ ok true) ⊎ ((r ≡ ok false) ⊎ ((e : Fault) × (r ≡ err e)))
answer-cases (ok true) = inl refl
answer-cases (ok false) = inr (inl refl)
answer-cases (err e) = inr (inr (e, refl))

module _ (outside : Outside) (model method : String) (args : List Value)
    (kwargs : Dict String Value) where
  call_guarded-questions :
      (s : Client)
      → questions (call_guarded outside model method args kwargs s).1.log ≡ questions s.log
  unfolding call_guarded call_in_scope call_ambient transport_call
  call_guarded-questions s = ground arith

  -- A method of the READ level is sent without asking.
  read_asks_nothing :
      (s : Client)
      → infer_safety_level method ≡ read
      → questions (call outside model method args kwargs s).1.log ≡ questions s.log
  unfolding call guard
  read_asks_nothing s h = ground (arith, call_guarded-questions s)

  -- Where a safety context applies, a call that is no read reaches the server only if `confirm`
  -- allowed exactly this operation.
  pub sent_was_confirmed :
      (s : Client) (ctx : SafetyContext)
      → infer_safety_level method ≢ read
      → effective_safety s ≡ some ctx
      → requests (call outside model method args kwargs s).1.log ≢ requests s.log
      → ctx.confirm s.log (operation model method) ≡ ok true
  unfolding call guard ask
  sent_was_confirmed s ctx h e out =
      elim (answer-cases (ctx.confirm s.log (operation model method))) [
        | inl allowed ↦ allowed
        | inr (inl denied) ↦ absurd (out (ground arith))
        | inr (inr (fault, raised)) ↦ absurd (out (ground arith))
      ]

  -- Without a session nothing is sent, nobody is asked and nothing changes.
  pub unauthenticated :
      (s : Client) → s.session ≡ none → call outside model method args kwargs s ≡ (err auth, s)
  unfolding call
  unauthenticated s h = ground arith
