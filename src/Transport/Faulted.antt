-- ===== src/Transport/Faulted.antt =====
-- What an exchange with the server ends in.
use mathlib.Core.Path.{subst}
use godoo_py.Base.{
  String, ◌≡◌, refl, Bool, true, false, not, ◌&&◌, if◌then◌else◌, [], none, some, ok, err, arith,
  Bool-cases, Option-cases, ◌>>=◌, ◌>>◌, ◌∙◌, ap, Result-cases, ◌⊎◌, inl, inr, string_eq,
}
use godoo_py.Base.Dict.{Dict, lookup}
use godoo_py.Value.{Value, str, list, tuple, nil, cons, truthy, as_dict, get, first_item}
use godoo_py.Faults.{Fault, network, timeout, type_error, key_error, is_network, is_odoo, Checked}
use godoo_py.Transport.{
  Letters, Exchange, status_error, timed_out, request_error, not_json, answered, fault_of_type,
  fault_of_name, text_of, data_of, error_class, strip_paths, extract_human_message, extract_context,
  init_error, categorize_error, raise_error, call_rpc,
}

-- An exception for what the server says, and one that is none of Odoo's
abbrev pub IsRefusal : Fault → Type 0
IsRefusal fault = (is_odoo fault ≡ true) × (is_network fault ≡ false)

-- A text, or a value that stands for none
abbrev pub is_textual : Value → Bool
is_textual (str s) = true
is_textual v = not (truthy v)

-- No arguments, or a first one that is textual
abbrev pub has_argument : Value → Bool
has_argument v =
    if truthy v then elim (first_item v) [ err e ↦ false | ok x ↦ is_textual x ] else true

-- A dict, or a value that stands for none
abbrev pub is_mapping : Value → Bool
is_mapping v = if truthy v then elim (as_dict v) [ none ↦ false | some d ↦ true ] else true

-- The message, or else the first argument, is a text or missing; and the context is a dict or missing.
abbrev pub is_made : Dict String Value → Bool
is_made details =
    (if truthy (get "message" details)
      then is_textual (get "message" details)
      else has_argument (get "arguments" details))
    && is_mapping (get "context" details)

-- The two names and what the exception is made of are well-formed.
abbrev pub are_readable : Dict String Value → Bool
are_readable details =
    is_textual (get "exception_type" details)
    && (is_textual (get "name" details) && is_made details)

-- The details of an error, if there are any, are a dict of which all that is read is well-formed.
abbrev pub has_details : Dict String Value → Bool
has_details error =
    if truthy (get "data" error)
    then elim (as_dict (get "data" error)) [ none ↦ false | some details ↦ are_readable details ]
    else true

-- An error as JSON-RPC has it
abbrev pub is_readable : Value → Bool
is_readable error = elim (as_dict error) [ none ↦ false | some e ↦ has_details e ]

-- The ends of an exchange: the result of an answer without an error; an error of Odoo's for an answer
-- with one; an exception of the network without an answer; and another one for an answer that is no
-- dict, has neither an error nor a result, or has an error that cannot be read.
pub data IsOutcome : Exchange → Checked Value → Type 0 where
  returned :
      {body v : Value} {d : Dict String Value}
      → as_dict body ≡ some d
      → lookup "error" d ≡ none
      → lookup "result" d ≡ some v
      → IsOutcome (answered body) (ok v)
  refused :
      {body error : Value} {d : Dict String Value} {fault : Fault}
      → as_dict body ≡ some d
      → lookup "error" d ≡ some error
      → IsRefusal fault
      → IsOutcome (answered body) (err fault)
  late : IsOutcome timed_out (err timeout)
  failed : IsOutcome status_error (err network)
  unsent : IsOutcome request_error (err network)
  unread : {fault : Fault} → is_odoo fault ≡ false → IsOutcome not_json (err fault)
  unshaped : {body : Value} → as_dict body ≡ none → IsOutcome (answered body) (err type_error)
  silent :
      {body : Value} {d : Dict String Value}
      → as_dict body ≡ some d
      → lookup "error" d ≡ none
      → lookup "result" d ≡ none
      → IsOutcome (answered body) (err key_error)
  garbled :
      {body error : Value} {d : Dict String Value} {fault : Fault}
      → as_dict body ≡ some d
      → lookup "error" d ≡ some error
      → is_readable error ≡ false
      → is_odoo fault ≡ false
      → IsOutcome (answered body) (err fault)

fault_of_type-IsRefusal : (t : String) (f : Fault) → fault_of_type t ≡ some f → IsRefusal f
unfolding fault_of_type
fault_of_type-IsRefusal t f e = ground arith

fault_of_name-IsRefusal : (n : String) → IsRefusal (fault_of_name n)
unfolding fault_of_name
fault_of_name-IsRefusal n = ground arith

text_of-plain :
    (v : Value) (f : Fault) → text_of v ≡ err f → (is_odoo f ≡ false) × (is_textual v ≡ false)
unfolding text_of
text_of-plain (str s) f e = absurd cc
text_of-plain v f e = (ground arith, ground arith)

data_of-plain :
    (d : Dict String Value) (f : Fault)
    → data_of d ≡ err f
    → (is_odoo f ≡ false) × (has_details d ≡ false)
unfolding data_of
data_of-plain d f e = (ground arith, ground arith)

data_of-has_details : (d p : Dict String Value) → data_of d ≡ ok p → has_details d ≡ are_readable p
unfolding data_of
data_of-has_details d p e = elim (Bool-cases (truthy (get "data" d))) [
  | inr gone ↦ let same : [] ≡ p = ground arith in rw (← same) (rw gone refl)
  | inl there ↦ elim (Option-cases (as_dict (get "data" d))) [
    | inl plain ↦ absurd (ground arith)
    | inr (q, is_dict) ↦ let same : q ≡ p = ground arith in rw (← same) (rw there (rw is_dict refl))
  ]
]

-- What is said of the class that `categorize_error` finds, or of what it raises itself on an error
-- that cannot be read
abbrev pub IsClass : Bool → Checked Fault → Type 0
IsClass readable (ok fault) = IsRefusal fault
IsClass readable (err raised) = (is_odoo raised ≡ false) × (readable ≡ false)

by_name-IsClass :
    (letters : Letters) (readable : Bool) (r : Checked String)
    → ((f : Fault) → r ≡ err f → (is_odoo f ≡ false) × (readable ≡ false))
    → IsClass readable (r >>= λ name. ok (fault_of_name (letters.lower name)))
by_name-IsClass letters readable (ok name) h = fault_of_name-IsRefusal (letters.lower name)
by_name-IsClass letters readable (err e) h = h e refl

error_class-IsClass :
    (letters : Letters) (details : Dict String Value)
    → IsClass (are_readable details) (error_class letters details)
unfolding error_class
error_class-IsClass letters details = elim (Result-cases (text_of (get "exception_type" details))) [
  | inr (e, raised) ↦
      let (plain, odd) = text_of-plain (get "exception_type" details) e raised in
      rw raised (plain, rw odd refl)
  | inl (t, read) ↦ elim (Option-cases (fault_of_type (letters.lower t))) [
    | inr (f, known) ↦
        rw read (rw (known, IsClass) (fault_of_type-IsRefusal (letters.lower t) f known))
    | inl unknown ↦ rw read (
        rw (unknown, IsClass)
          (by_name-IsClass letters (are_readable details) (text_of (get "name" details))
            (λ f raised.
              let (plain, odd) = text_of-plain (get "name" details) f raised in
              (plain, ground (arith, odd)))))
  ]
]

strip_paths-plain :
    (v : Value) (f : Fault) → strip_paths v ≡ err f → (is_odoo f ≡ false) × (is_textual v ≡ false)
strip_paths-plain (str s) f h = absurd cc
strip_paths-plain v f h = (ground arith, ground arith)

first_item-plain : (v : Value) (f : Fault) → first_item v ≡ err f → is_odoo f ≡ false
unfolding first_item
first_item-plain (str String.[]) f h = ground arith
first_item-plain (str (String.◌∷◌ c s)) f h = absurd cc
first_item-plain (list nil) f h = ground arith
first_item-plain (list (cons v vs)) f h = absurd cc
first_item-plain (tuple nil) f h = ground arith
first_item-plain (tuple (cons v vs)) f h = absurd cc
first_item-plain v f h = ground arith

extract_human_message-plain :
    (details : Dict String Value) (f : Fault)
    → extract_human_message details ≡ err f
    → (is_odoo f ≡ false) × (is_made details ≡ false)
unfolding extract_human_message
extract_human_message-plain details f h = elim (Bool-cases (truthy (get "message" details))) [
  | inl said ↦
      let (plain, odd) = strip_paths-plain (get "message" details) f (ground (arith, h, said)) in
      (plain, rw said (rw odd refl))
  | inr unsaid ↦ elim (Bool-cases (truthy (get "arguments" details))) [
    | inr gone ↦ absurd (ground (arith, h, unsaid, gone))
    | inl given ↦ elim (Result-cases (first_item (get "arguments" details))) [
      | inr (e, missed) ↦
          let same : e ≡ f = ground (arith, h, unsaid, given, missed) in
          (
            first_item-plain (get "arguments" details) f (missed ∙ ap err same),
            rw (unsaid, given, missed) refl,
          )
      | inl (x, taken) ↦
          let (plain, odd) = strip_paths-plain x f (ground (arith, h, unsaid, given, taken)) in
          (plain, rw (unsaid, given, taken, odd) refl)
    ]
  ]
]

extract_context-plain :
    (details : Dict String Value) (f : Fault)
    → extract_context details ≡ err f
    → (is_odoo f ≡ false) × (is_mapping (get "context" details) ≡ false)
unfolding extract_context
extract_context-plain details f h = (ground arith, ground arith)

-- What the constructor raises itself
init_error-plain :
    (details : Dict String Value) (f : Fault)
    → init_error details ≡ err f
    → (is_odoo f ≡ false) × (is_made details ≡ false)
unfolding init_error
init_error-plain details f h = elim (Result-cases (extract_human_message details)) [
  | inr (e, raised) ↦
      let same : e ≡ f = ground (arith, h, raised) in
      extract_human_message-plain details f (raised ∙ ap err same)
  | inl (u, quiet) ↦
      let (plain, odd) = extract_context-plain details f (ground (arith, h, quiet)) in
      (plain, ground (arith, odd))
]

initialised :
    (readable : Bool) (r : Checked Fault) (made : Checked (Unit {0}))
    → IsClass readable r
    → ((f : Fault) → made ≡ err f → (is_odoo f ≡ false) × (readable ≡ false))
    → IsClass readable (r >>= λ fault. made >> ok fault)
initialised readable (ok fault) (ok u) h k = h
initialised readable (ok fault) (err f) h k = k f refl
initialised readable (err e) made h k = h

categorize_error-IsClass :
    (letters : Letters) (error : Dict String Value)
    → IsClass (has_details error) (categorize_error letters error)
unfolding categorize_error
categorize_error-IsClass letters error = elim (Result-cases (data_of error)) [
  | inr (e, raised) ↦ rw raised (data_of-plain error e raised)
  | inl (details, found) ↦
      let same = data_of-has_details error details found in
      rw (found, same)
        (initialised (are_readable details) (error_class letters details) (init_error details)
          (error_class-IsClass letters details)
          (λ f raised.
            let (plain, odd) = init_error-plain details f raised in (plain, ground (arith, odd))))
]

raise_error-raises :
    (letters : Letters) (error : Value)
    → (f : Fault) × (raise_error letters error ≡ err f)
      × (IsRefusal f ⊎ ((is_odoo f ≡ false) × (is_readable error ≡ false)))
unfolding raise_error
raise_error-raises letters error = elim (Option-cases (as_dict error)) [
  | inl no_dict ↦ rw (no_dict, raise_error) (_, refl, inr (refl, rw (is_readable, no_dict) refl))
  | inr (d, is_dict) ↦
      rw (is_dict, raise_error)
        (elim (Result-cases (categorize_error letters d)) [
          | inl (f, e) ↦
              rw (e, raise_error)
                (
                  f,
                  refl,
                  inl (subst (IsClass (has_details d)) e (categorize_error-IsClass letters d)),
                )
          | inr (f, e) ↦
              let (plain, odd) =
                subst (IsClass (has_details d)) e (categorize_error-IsClass letters d) in
              rw (e, raise_error) (f, refl, inr (plain, rw (is_readable, is_dict) odd))
        ])
]

answered-IsOutcome :
    (letters : Letters) (body : Value)
    → IsOutcome (answered body) (call_rpc letters (answered body))
unfolding call_rpc
answered-IsOutcome letters body = elim (Option-cases (as_dict body)) [
  | inl no_dict ↦ rw (no_dict, call_rpc) (unshaped no_dict)
  | inr (d, is_dict) ↦ elim (Option-cases (lookup "error" d)) [
    | inr (error, said) ↦
        let (f, e, class) = raise_error-raises letters error in
        rw (is_dict, call_rpc)
          (rw (said, e)
            (elim class [
              | inl odoo ↦ refused is_dict said odoo
              | inr (plain, odd) ↦ garbled is_dict said odd plain
            ]))
    | inl unsaid ↦ elim (Option-cases (lookup "result" d)) [
      | inl gone ↦ rw (is_dict, call_rpc) (rw (unsaid, gone) (silent is_dict unsaid gone))
      | inr (v, found) ↦ rw (is_dict, call_rpc) (rw (unsaid, found) (returned is_dict unsaid found))
    ]
  ]
]

-- An exchange ends with the result exactly of an answer that is a dict with one and without an error;
-- with an exception of Odoo's that is none of the network for an answer whose error can be read, and
-- else only for an answer with an error; with one of the network exactly where no answer came; and
-- with another one for an answer that is no dict, has neither an error nor a result, is no JSON, or
-- has an error that cannot be read.
pub call_rpc-IsOutcome : (letters : Letters) (e : Exchange) → IsOutcome e (call_rpc letters e)
unfolding call_rpc
call_rpc-IsOutcome letters status_error = failed
call_rpc-IsOutcome letters timed_out = late
call_rpc-IsOutcome letters request_error = unsent
call_rpc-IsOutcome letters not_json = unread refl
call_rpc-IsOutcome letters (answered body) = answered-IsOutcome letters body
