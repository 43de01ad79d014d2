-- ===== src/Client/State.antt =====
-- What a client and the task that runs it hold, and what the outside answers.
use godoo_py.Base.{ℕ, ℤ, String, Bool, Option, List, ok, err}
use godoo_py.Base.Dict.{Dict}
use godoo_py.Value.{Value}
use godoo_py.Faults.{Fault, Checked}
use godoo_py.Safety.{OperationInfo}

-- `OdooSessionInfo`. `object` stands for Python's identity of the session object.
pub record Session : Type 0 where
  pub object : ℕ
  pub uid : ℤ
  pub db : String
  pub session_id : String

-- One `execute_kw` on the wire, with the user and the database that it is sent for.
pub record Request : Type 0 where
  pub uid : ℤ
  pub db : String
  pub model : String
  pub method : String
  pub args : List Value
  pub kwargs : Dict String Value

-- What the client awaited: an answer to `confirm`, or to a request.
pub data Event : Type 0 where
  asked : OperationInfo → Event
  sent : Request → Event

-- `SafetyContext`: the answer of `confirm` may depend on all that came before.
pub record SafetyContext : Type 0 where
  pub confirm : List Event → OperationInfo → Checked Bool

-- `_safety_context`: `_UNDEFINED`, or what was set
pub data Override : Type 0 where
  undefined : Override
  explicit : Option SafetyContext → Override

-- The tuple of `_fixed_rpc_scope`: the client, its session object and identity, and the context.
pub record FixedScope : Type 0 where
  pub client : ℕ
  pub session : Session
  pub identity : ℤ × String × String
  pub context : Dict String Value

-- One client, with the context variables of the running task. The log has the latest event first.
pub record Client : Type 0 where
  pub self : ℕ
  pub session : Option Session
  pub config_safety : Option SafetyContext
  pub safety_context : Override
  pub ambient : Option (Dict String Value)
  pub fixed : Option FixedScope
  pub log : List Event

-- The outside, over the log: what the server answers to a request, and the transport's session once
-- an event has been answered, which other tasks may have changed meanwhile.
pub record Outside : Type 0 where
  pub reply : List Event → Request → Checked Value
  pub session_after : List Event → Option Session → Option Session

-- A method of the client: it returns or raises, and what it wrote stays written.
abbrev pub Rpc : Type 0 → Type 0
Rpc A = Client → Checked A × Client

module _ {A B : Type 0} where
  abbrev continue : Checked A → (A → Rpc B) → Rpc B
  continue (ok a) f s = f a s
  continue (err e) f s = (err e, s)

  infixl 5 ◌>>=◌ ◌>>◌
  abbrev pub ◌>>=◌ : Rpc A → (A → Rpc B) → Rpc B
  ◌>>=◌ m f s = let (r, s') = m s in continue r f s'

  abbrev pub ◌>>◌ : Rpc A → Rpc B → Rpc B
  m >> k = m >>= λ _. k

module _ {A : Type 0} where
  abbrev pub pure : A → Rpc A
  pure a s = (ok a, s)

  abbrev pub raise : Fault → Rpc A
  raise e s = (err e, s)

  abbrev pub lift : Checked A → Rpc A
  lift r s = (r, s)

  abbrev pub gets : (Client → A) → Rpc A
  gets f s = (ok (f s), s)
