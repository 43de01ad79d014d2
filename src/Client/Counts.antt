-- ===== src/Client/Counts.antt =====
-- How many requests a call, and a method composed of steps, send at most.
use godoo_py.Base.{
  ℕ, suc, ◌+◌, ◌≤◌, String, ◌≡◌, refl, List, [], ◌∷◌, ◌++◌, All, arith, inl, inr, ok, err,
}
use godoo_py.Base.Dict.{Dict}
use godoo_py.Value.{Value}
use godoo_py.Faults.{Checked}
use godoo_py.Client.State.{Event, asked, sent, Outside, Client, Rpc, ◌>>=◌}
use godoo_py.Client.Call.{call}
use godoo_py.Client.Guarded.{requests}
use godoo_py.Client.Once.{call-SendsOnce}
use godoo_py.Client.Traces.{Added, IsQuestion}

questions_only :
    (new before : List Event) → All IsQuestion new → requests (new ++ before) ≡ requests before
questions_only [] before h = refl
questions_only (asked op ∷ new) before h = questions_only new before h.1
questions_only (sent r ∷ new) before h = absurd h.0

pub question-requests :
    (before now : List Event) → Added IsQuestion before now → requests now ≡ requests before
question-requests before now (new, e, h) = rw e (questions_only new before h)

pub call-requests :
    (outside : Outside) (model method : String) (args : List Value) (kwargs : Dict String Value)
    (s : Client)
    → requests (call outside model method args kwargs s).1.log ≤ suc (requests s.log)
call-requests outside model method args kwargs s =
    elim (call-SendsOnce outside model method args kwargs s) [
      | inl (e, raised, q) ↦ ground (arith, question-requests s.log _ q)
      | inr (request, l, now, q, _, _, _, _) ↦ rw now (ground (arith, question-requests s.log l q))
    ]

module _ {A B : Type 0} where
  -- A step that sends nothing more, or as much as the bound says
  pub bound-requests :
      (r : Checked A × Client) (f : A → Rpc B) (n m : ℕ)
      → requests r.1.log ≤ n
      → ((a : A) (s : Client) → requests (f a s).1.log ≤ requests s.log + m)
      → requests (◌>>=◌ (λ _. r) f r.1).1.log ≤ n + m
  bound-requests (ok a, s) f n m h k = ground (arith, k a s)
  bound-requests (err e, s) f n m h k = ground arith
