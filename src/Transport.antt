-- ===== src/Transport.antt =====
-- rpc/transport.py of godoo-client: one JSON-RPC exchange, its faults, and the session.
pub mod Faulted
pub mod Sessions
mod Tests
use Prim.Native.String.{◌++◌}
use text.Mathlib.Text.{starts_with}
use godoo_py.Base.{
  ℤ, pos, String, string_eq, Bool, true, false, ◌||◌, Option, none, some, List, [], ◌∷◌, ◌==◌,
  if◌then◌else◌, ok, err, check, require, ◌>>=◌, ◌>>◌,
}
use godoo_py.Base.Dict.{Dict, lookup}
use godoo_py.Value.{
  Value, null, int, str, list, dict, nil, cons, end, truthy, get, as_dict, as_int, of_items,
  first_item, of_entries,
}
use godoo_py.Faults.{
  Fault, rpc, auth, network, timeout, validation, access, missing, attribute_error, type_error,
  key_error, value_error, Checked,
}

-- `str.lower` of Python, which goes by its Unicode tables
pub record Letters : Type 0 where
  pub lower : String → String

-- What `httpx` makes of one POST: an exception of one of the classes that are caught, a body that is
-- no JSON, or the JSON value of the body.
pub data Exchange : Type 0 where
  status_error timed_out request_error not_json : Exchange
  answered : Value → Exchange

-- `needle in hay`
unfoldable pub is_within : String → String → Bool
is_within needle String.[] = needle == ""
is_within needle (String.◌∷◌ c hay) = starts_with (String.◌∷◌ c hay) needle || is_within needle hay

-- `exception_type in (…)`
unfoldable pub fault_of_type : String → Option Fault
fault_of_type t =
    if t == "access_denied"
    then some auth
    else if t == "access_error"
    then some access
    else if t == "validation_error" || t == "user_error"
    then some validation
    else if t == "missing_error"
    then some missing
    else none

-- The fallback to `data.name`
unfoldable pub fault_of_name : String → Fault
fault_of_name n =
    if is_within "accessdenied" n
    then auth
    else if is_within "accesserror" n
    then access
    else if is_within "validationerror" n || is_within "usererror" n
    then validation
    else if is_within "missingerror" n
    then missing
    else rpc

-- `value or ""`, on which a method of `str` is called
unfoldable pub text_of : Value → Checked String
text_of (str s) = ok s
text_of v = if truthy v then err attribute_error else ok ""

-- `error_dict.get("data") or {}`, on which `.get` is called
unfoldable pub data_of : Dict String Value → Checked (Dict String Value)
data_of error =
    if truthy (get "data" error)
    then require (as_dict (get "data" error)) attribute_error
    else ok []

-- `_strip_paths`, which takes a text alone; what it makes of it is shown to people only.
abbrev pub strip_paths : Value → Checked (Unit {0})
strip_paths (str s) = ok tt
strip_paths v = if truthy v then err type_error else ok tt

-- `_extract_human_message`, as far as it raises
unfoldable pub extract_human_message : Dict String Value → Checked (Unit {0})
extract_human_message details =
    if truthy (get "message" details)
    then strip_paths (get "message" details)
    else if truthy (get "arguments" details)
    then (do message ← first_item (get "arguments" details); strip_paths message)
    else ok tt

-- The context of `_extract_model_name`, `_extract_field_name` and `_extract_constraint_name`, on which
-- `.get` is called
unfoldable pub extract_context : Dict String Value → Checked (Unit {0})
extract_context details =
    if truthy (get "context" details)
    then (do require (as_dict (get "context" details)) attribute_error; ok tt)
    else ok tt

-- `OdooRpcError.__init__`, as far as it raises
unfoldable pub init_error : Dict String Value → Checked (Unit {0})
init_error details = do extract_human_message details; extract_context details

-- The class that `_categorize_error` chooses
unfoldable pub error_class : Letters → Dict String Value → Checked Fault
error_class letters data_dict = do
  type_text ← text_of (get "exception_type" data_dict)
  elim (fault_of_type (letters.lower type_text)) [
    | some fault ↦ ok fault
    | none ↦ do name ← text_of (get "name" data_dict); ok (fault_of_name (letters.lower name))
  ]

-- `_categorize_error`: the class of the exception that is made, or what was raised instead
unfoldable pub categorize_error : Letters → Dict String Value → Checked Fault
categorize_error letters error = do
  data_dict ← data_of error
  fault ← error_class letters data_dict
  init_error data_dict
  ok fault

-- `raise self._categorize_error(data["error"])`
unfoldable pub raise_error : Letters → Value → Checked Value
raise_error letters error = elim (as_dict error) [
  | none ↦ err attribute_error
  | some e ↦ elim (categorize_error letters e) [ ok fault ↦ err fault | err raised ↦ err raised ]
]

-- `call_rpc`, from the outcome of the exchange
unfoldable pub call_rpc : Letters → Exchange → Checked Value
call_rpc letters status_error = err network
call_rpc letters timed_out = err timeout
call_rpc letters request_error = err network
call_rpc letters not_json = err value_error
call_rpc letters (answered body) = elim (as_dict body) [
  | none ↦ err type_error
  | some d ↦ elim (lookup "error" d) [
    | some error ↦ raise_error letters error
    | none ↦ require (lookup "result" d) key_error
  ]
]

-- `OdooSessionInfo`
pub record SessionInfo : Type 0 where
  pub uid : Value
  pub session_id : String
  pub db : String

-- The state of `JsonRpcTransport`
pub record JsonRpcTransport : Type 0 where
  pub db : String
  pub session : Option SessionInfo
  pub password : Option String

-- `__init__`
unfoldable pub new_transport : String → JsonRpcTransport
new_transport db = record { db = db; session = none; password = none }

unfoldable pub is_authenticated : JsonRpcTransport → Bool
is_authenticated t = elim t.session [ none ↦ false | some s ↦ true ]

-- `args` of `common.authenticate`
abbrev pub login_args : JsonRpcTransport → String → String → List Value
login_args t username password = str t.db ∷ str username ∷ str password ∷ dict end ∷ []

-- `authenticate`: the server is `post`, and `fresh` the new UUID.
unfoldable pub authenticate :
    Letters
    → (List Value → Exchange)
    → String
    → String
    → String
    → JsonRpcTransport
    → Checked SessionInfo × JsonRpcTransport
authenticate letters post fresh username password t =
    elim (call_rpc letters (post (login_args t username password))) [
      | err e ↦ (err e, t)
      | ok uid ↦
          let info : SessionInfo = record { uid = uid; session_id = fresh; db = t.db } in
          if truthy uid
          then (ok info, record t { session = some info; password = some password })
          else (err auth, t)
    ]

-- `self._password` on the wire
abbrev pub password_value : Option String → Value
password_value none = null
password_value (some p) = str p

-- `args` of `object.execute_kw`
abbrev pub execute_args :
    JsonRpcTransport → SessionInfo → String → String → List Value → Dict String Value → List Value
execute_args t s model method args kwargs =
    str t.db
    ∷ s.uid
    ∷ password_value t.password
    ∷ str model
    ∷ str method
    ∷ list (of_items args)
    ∷ dict (of_entries kwargs)
    ∷ []

-- `call`: the arguments that were posted, if any, and the result
unfoldable pub execute_kw :
    Letters
    → (List Value → Exchange)
    → String
    → String
    → List Value
    → Dict String Value
    → JsonRpcTransport
    → Option (List Value) × Checked Value
execute_kw letters post model method args kwargs t = elim t.session [
  | none ↦ (none, err auth)
  | some s ↦
      let sent = execute_args t s model method args kwargs in
      (some sent, call_rpc letters (post sent))
]

unfoldable pub logout : JsonRpcTransport → JsonRpcTransport
logout t = record t { session = none; password = none }
