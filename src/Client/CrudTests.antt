-- ===== src/Client/CrudTests.antt =====
-- The CRUD helpers and references on a concrete server.
use godoo_py.Base.{
  ℕ, zero, suc, ◌≤◌, ◌≢◌, ℤ, pos, String, string_eq, nat_eq, int_eq, pair_eq, ◌≡◌, refl, true,
  Option, none, some, List, [], ◌∷◌, ok, err,
}
use godoo_py.Base.Dict.{Dict}
use godoo_py.Value.{
  iterate, Value, bool, str, list, dict, end, field, of_items, items, as_dict, as_int, get,
}
use godoo_py.Faults.{validation, Checked}
use godoo_py.Safety.{infer_safety_level}
use godoo_py.Client.State.{Session, SafetyContext, explicit, Client, Outside}
use godoo_py.Client.Call.{
  call, effective_safety, guard, ask, call_guarded, call_ambient, transport_call, merged_kwargs,
}
use godoo_py.Client.Guarded.{requests}
use godoo_py.Client.Traces.{Adds, IsRead}
use godoo_py.Client.Crud.{one, write}
use godoo_py.Client.Crud.Safe.{writing, run_change}
use godoo_py.Client.Refs.{
  Ref, add_ref, group_refs, validate_each, store, stitch, read_typed, fetch_groups, read_refs,
}
use godoo_py.Client.Refs.Resolved.{AreResolved, read_refs-AreResolved}
use godoo_py.Client.Refs.Batches.{read_refs-batched}

-- A row with its ID, for each ID that is asked for
abbrev rows_for : List Value → List Value
rows_for [] = []
rows_for (v ∷ vs) = dict (field "id" v end) ∷ rows_for vs

abbrev answer : List Value → Checked Value
answer (list ids ∷ rest) = ok (list (of_items (rows_for (items ids))))
answer args = ok (bool true)

abbrev outside : Outside
outside = record {
  reply = λ log request. answer request.args;
  session_after = λ log session. session;
}

abbrev session : Session
session = record { object = 1; uid = pos 2; db = "prod"; session_id = "s-1" }

abbrev allowing : SafetyContext
allowing = record { confirm = λ log op. ok true }

abbrev client : Client
client = record {
  self = 4;
  session = some session;
  config_safety = none;
  safety_context = explicit (some allowing);
  ambient = none;
  fixed = none;
  log = [];
}

abbrev values : Dict String Value
values = ("name", str "Ada") ∷ []

write_sent :
    requests (run_change outside "res.partner" (writing (one (pos 3)) values) [] client).1.log
    ≢ requests client.log
unfolding write call guard ask call_guarded call_ambient transport_call merged_kwargs
    infer_safety_level effective_safety
write_sent = λ e. cc

-- Two classes with a model, told apart by numbers; an instance is its class and its ID.
abbrev model_name : ℕ → Option String
model_name zero = some "res.partner"
model_name (suc zero) = some "res.users"
model_name _ = none

abbrev validate : ℕ → Value → Checked (ℕ × ℤ)
validate c v = elim (as_dict v) [
  | none ↦ err validation
  | some row ↦ elim (as_int (get "id" row)) [ none ↦ err validation | some i ↦ ok (c, i) ]
]

abbrev ref_to : ℕ → ℤ → Ref ℕ
ref_to c i = record { id = i; name = none; target = c }

abbrev refs : List (Ref ℕ)
refs = ref_to 0 (pos 5) ∷ ref_to 1 (pos 3) ∷ ref_to 0 (pos 5) ∷ ref_to 0 (pos 7) ∷ []

abbrev resolved : List (ℕ × ℤ)
resolved = (0, pos 5) ∷ (1, pos 3) ∷ (0, pos 5) ∷ (0, pos 7) ∷ []

refs_return : (read_refs model_name validate (λ x. x.1) outside refs client).0 ≡ ok resolved
unfolding read_refs fetch_groups read_typed validate_each store stitch group_refs add_ref iterate
    call guard call_guarded call_ambient transport_call merged_kwargs infer_safety_level
refs_return = refl

read_refs-AreResolved_example : AreResolved model_name validate (λ x. x.1) outside refs resolved
read_refs-AreResolved_example =
    read_refs-AreResolved model_name validate (λ x. x.1) outside refs client resolved refs_return

read_refs-batched_example :
    Adds IsRead (read_refs model_name validate (λ x. x.1) outside refs)
    × (requests (read_refs model_name validate (λ x. x.1) outside refs client).1.log ≤ 2)
read_refs-batched_example =
    read_refs-batched model_name validate (λ x. x.1) outside (0 ∷ 1 ∷ []) refs client refl
