-- ===== src/Transport/Tests.antt =====
-- The transport on concrete exchanges.
use godoo_py.Base.{pos, ◌≡◌, refl, some, List, [], ◌∷◌, err, false, if◌then◌else◌}
use godoo_py.Value.{Value, int, str, list, dict, field, end, nil, bool, equals}
use godoo_py.Faults.{access, network, missing}
use godoo_py.Transport.{
  Letters, Exchange, answered, status_error, is_within, fault_of_type, fault_of_name, text_of,
  data_of, error_class, extract_human_message, extract_context, init_error, categorize_error,
  raise_error, call_rpc, JsonRpcTransport, new_transport, authenticate, execute_kw,
}
use godoo_py.Transport.Faulted.{IsOutcome, call_rpc-IsOutcome}
use godoo_py.Transport.Sessions.{Reached, created, attempted, Reached-execute_kw}

abbrev same_letters : Letters
same_letters = record { lower = λ s. s }

abbrev error_body : Value → Value
error_body payload = dict (field "error" (dict (field "data" payload end)) end)

-- The type decides, where it is known, before the name.
abbrev denied : Value
denied = error_body (
    dict (
      field "exception_type" (str "access_error")
        (field "name" (str "odoo.exceptions.missingerror") end)))

abbrev named : Value
named = error_body (dict (field "name" (str "odoo.exceptions.missingerror") end))

named_missing : call_rpc same_letters (answered named) ≡ err missing
unfolding call_rpc raise_error categorize_error error_class init_error extract_human_message
    extract_context data_of text_of fault_of_type fault_of_name is_within
named_missing = refl

call_rpc-IsOutcome_example : IsOutcome (answered denied) (err access)
unfolding call_rpc raise_error categorize_error error_class init_error extract_human_message
    extract_context data_of text_of fault_of_type
call_rpc-IsOutcome_example = call_rpc-IsOutcome same_letters (answered denied)

-- A server that takes one password, with user 7
abbrev server : List Value → Exchange
server (str db ∷ str username ∷ password ∷ rest) =
    answered
      (dict (field "result" (if equals password "secret" then int (pos 7) else bool false) end))
server _ = status_error

-- A login that the server takes, and one with a wrong password
abbrev logged_in : JsonRpcTransport
logged_in =
    (authenticate same_letters server "u2" "admin" "guess"
      (authenticate same_letters server "u1" "admin" "secret" (new_transport "odoo")).1).1

logged_in-Reached : Reached same_letters "odoo" logged_in (some (int (pos 7), "secret"))
unfolding call_rpc authenticate new_transport
logged_in-Reached =
    attempted server "u2" "admin" "guess" (attempted server "u1" "admin" "secret" created)

Reached-execute_kw_example : execute_kw same_letters server "res.partner" "read" [] [] logged_in ≡ (
  some (
      str "odoo"
      ∷ int (pos 7)
      ∷ str "secret"
      ∷ str "res.partner"
      ∷ str "read"
      ∷ list nil
      ∷ dict end
      ∷ []),
  err network,
)
unfolding call_rpc
Reached-execute_kw_example = Reached-execute_kw server "res.partner" "read" [] [] logged_in-Reached
