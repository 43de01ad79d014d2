-- ===== src/Client/Tests.antt =====
-- Calls of a client at concrete states, and a paged read.
use Prim.Native.Nat.{ℕ}
use godoo_py.Base.{
  pos, string_eq, nat_eq, int_eq, ◌≡◌, ◌≢◌, ◌⊎◌, refl, ap, true, false, none, some, List, [], ◌∷◌,
  ok, err, arith, map, take,
}
use godoo_py.Value.{Value, int, bool, str, tuple, cons, nil}
use godoo_py.Faults.{Checked, auth}
use godoo_py.Safety.{SafetyLevel, infer_safety_level}
use godoo_py.Client.{Session, Request, Event, sent, SafetyContext, explicit, Client, Outside}
use godoo_py.Client.Call.{
  call, operation, call_with_context, ContextScope, merged_kwargs, effective_safety, guard, ask,
  call_guarded, call_ambient, transport_call,
}
use godoo_py.Client.Guarded.{requests, sent_was_confirmed, unauthenticated}
use godoo_py.Client.Scoped.{IsPinned, call_with_context-IsPinned}
use godoo_py.Client.Pages.{Query, Row, iter_search_read, requested_id, shown}
use godoo_py.Client.Pages.Table.{Table, rows, above}
use godoo_py.Client.Pages.Run.{Serves, iter_search_read-table}

abbrev outside : Outside
outside = record { reply = λ log request. ok (bool true); session_after = λ log session. session }

abbrev session : Session
session = record { object = 1; uid = pos 2; db = "prod"; session_id = "s-1" }

abbrev allowing : SafetyContext
allowing = record { confirm = λ log op. ok true }

abbrev client : Client
client = record {
  self = 4;
  session = some session;
  config_safety = none;
  safety_context = explicit (some allowing);
  ambient = some (("lang", str "de_DE") ∷ []);
  fixed = none;
  log = [];
}

abbrev logged_out : Client
logged_out = record client { session = none }

unlink_level : infer_safety_level "unlink" ≢ SafetyLevel.read
unfolding infer_safety_level
unlink_level = λ e. cc

unlink_sent :
    requests (call outside "res.partner" "unlink" [] [] client).1.log ≢ requests client.log
unfolding call guard ask call_guarded call_ambient transport_call merged_kwargs infer_safety_level
    effective_safety
unlink_sent = λ e. absurd (omega arith)

sent_was_confirmed_example : allowing.confirm [] (operation "res.partner" "unlink") ≡ ok true
unfolding effective_safety
sent_was_confirmed_example =
    sent_was_confirmed outside "res.partner" "unlink" [] [] client allowing unlink_level refl
      unlink_sent

unauthenticated_example :
    call outside "res.partner" "unlink" [] [] logged_out ≡ (err auth, logged_out)
unauthenticated_example = unauthenticated outside "res.partner" "unlink" [] [] logged_out refl

call_with_context-IsPinned_example :
    let now =
      (call_with_context outside "res.partner" "write" [] [] [] session
        (pos 2, "prod", "s-1")
        client).1.log in
    (requests now ≡ 0)
    ⊎ ((r : Request) × (l : List Event) × (now ≡ sent r ∷ l)
        × (requests l ≡ 0)
        × IsPinned (pos 2, "prod", "s-1") [] r)
call_with_context-IsPinned_example =
    call_with_context-IsPinned outside "res.partner" "write" [] [] [] session (pos 2, "prod", "s-1")
      client

abbrev outer : ContextScope
outer = record { layer = ("lang", str "fr_FR") ∷ ("tz", str "UTC") ∷ []; token = none }

abbrev inner : ContextScope
inner = record { layer = ("lang", str "en_US") ∷ []; token = none }

abbrev row : ℕ → Row
row n = ("id", int (pos n)) ∷ ("name", str "x") ∷ []

abbrev table : Table
table = (3, row 3) ∷ (5, row 5) ∷ (8, row 8) ∷ []

-- The ID in the last term of a domain
abbrev cursor_in : List Value → ℕ
cursor_in [] = 0
cursor_in (tuple (cons field (cons operator (cons (int (pos n)) nil))) ∷ []) = n
cursor_in (term ∷ terms) = cursor_in terms

-- A server that answers by the table
abbrev server : Query → Checked (List Row)
server q = ok (rows (take q.limit (above (cursor_in q.domain) table)))

server-Serves : Serves server none (some ("name" ∷ [])) table
server-Serves q c h order fields size =
    ap (λ d. ok (rows (take q.limit (above (cursor_in d) table)))) h

iter_search_read-table_example :
    iter_search_read server none (some ("name" ∷ [])) 2 (some 3) 4
    ≡ ok (map (shown false) (rows table))
unfolding requested_id
iter_search_read-table_example =
    iter_search_read-table server none (some ("name" ∷ [])) 2 (some 3) table (omega arith)
      (omega arith) (omega arith, refl, (omega arith, refl, (omega arith, refl, tt))) server-Serves
