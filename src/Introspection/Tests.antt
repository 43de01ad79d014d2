-- ===== src/Introspection/Tests.antt =====
-- An introspector over a server that has two models, with a field of each.
use godoo_py.Base.{
  pos, String, string_eq, ◌≡◌, ◌∙◌, refl, Bool, true, false, elem, Option, none, some, List, [],
  ◌∷◌, map, select, ok, err, if◌then◌else◌, ◌==◌, All, eq→path, inl, inr, Bool-cases, sym, ap,
}
use mathlib.Core.Path.{subst}
use godoo_py.Base.Dict.{Dict, lookup}
use godoo_py.Value.{
  Value, int, str, list, tuple, nil, cons, dict, entries, of_entries, of_items, items, iterate, get,
  items-of_items, item,
}
use godoo_py.Faults.{other, Checked}
use godoo_py.Client.{Request, undefined, Client, Outside}
use godoo_py.Client.Crud.{search_read, page_kwargs, with_option, domain_value}
use godoo_py.Client.Call.{call, guard, call_guarded, call_ambient, merged_kwargs, transport_call}
use godoo_py.Safety.{infer_safety_level}
use godoo_py.Introspection.{Builtins, FieldSchema, ModelSchema}
use godoo_py.Introspection.Fetch.{
  SchemaCache, get_schemas, get_schema, fetched_schema, missing_schemas, split_cached, built, fetch,
  fetch_fields, assemble, build_schemas, fetch_selections,
}
use godoo_py.Introspection.Rows.{
  index_models, selection_ids, group_fields, add_to, grouped_fields, model_schema, model_fields,
}
use godoo_py.Introspection.Columns.{
  field_schema, parse_digits, coerce_int_or_none, copy_of, str_to_tuple,
}
use godoo_py.Introspection.Cached.{get_schema-stays}
use godoo_py.Introspection.Partial.{get_schemas-forgets}
use godoo_py.Introspection.Projected.{HasOnly, Projects, get_schemas-bare}

-- The columns of a row that are asked for
abbrev project : List String → Dict String Value → Dict String Value
project columns [] = []
project columns ((k, v) ∷ row) =
    let rest = project columns row in if elem k columns then (k, v) ∷ rest else rest

abbrev names_of : List Value → List String
names_of [] = []
names_of (str s ∷ vs) = s ∷ names_of vs
names_of (v ∷ vs) = names_of vs

abbrev columns_of : Option Value → List String
columns_of (some (list vs)) = names_of (items vs)
columns_of v = []

abbrev answer : List String → List (Dict String Value) → List Value
answer columns [] = []
answer columns (row ∷ rows) = dict (of_entries (project columns row)) ∷ answer columns rows

abbrev table : String → List (Dict String Value)
table model =
    if model == "ir.model"
    then (("id", int (pos 1)) ∷ ("model", str "res.partner") ∷ ("name", str "Contact") ∷ [])
      ∷ (("id", int (pos 2)) ∷ ("model", str "res.users") ∷ ("name", str "User") ∷ [])
      ∷ []
    else (("id", int (pos 7))
        ∷ ("model", str "res.partner")
        ∷ ("name", str "email")
        ∷ ("ttype", str "char")
        ∷ [])
      ∷ (("id", int (pos 8))
          ∷ ("model", str "res.users")
          ∷ ("name", str "login")
          ∷ ("ttype", str "char")
          ∷ [])
      ∷ []

-- The models that the domain asks for
abbrev asked_models : List Value → List String
asked_models (list (cons (tuple (cons column (cons operator (cons (list vs) nil)))) nil) ∷ []) =
    names_of (items vs)
asked_models args = []

abbrev is_asked : List String → Dict String Value → Bool
is_asked models row = elim (get "model" row) [ str model ↦ elem model models | _ ↦ false ]

abbrev chosen : Request → List (Dict String Value)
chosen r = select (is_asked (asked_models r.args)) (table r.model)

abbrev outside : Outside
outside = record {
  reply = λ log r.
      ok (list (of_items (answer ("id" ∷ columns_of (lookup "fields" r.kwargs)) (chosen r))));
  session_after = λ log session. session;
}

abbrev builtins : Builtins
builtins = record {
  to_int = λ v. elim v [ int n ↦ ok n | _ ↦ err other ];
  printer = record { print = λ v. "" };
  strip = λ text. text;
}

abbrev client : Client
client = record {
  self = 4;
  session = some (record { object = 1; uid = pos 2; db = "prod"; session_id = "s-1" });
  config_safety = none;
  safety_context = undefined;
  ambient = none;
  fixed = none;
  log = [];
}

lookup-project :
    (columns : List String) (row : Dict String Value) (key : String)
    → elem key columns ≡ false
    → lookup key (project columns row) ≡ none
lookup-project columns [] key h = refl
lookup-project columns ((k, v) ∷ row) key h = elim (Bool-cases (elem k columns)) [
  | inr gone ↦ rw gone (lookup-project columns row key h)
  | inl kept ↦ elim (Bool-cases (key == k)) [
    | inr differs ↦ rw (kept, differs) (lookup-project columns row key h)
    | inl same ↦
        let here : elem k columns ≡ false =
          subst (λ k. elem k columns ≡ false) (eq→path key k same) h in
        absurd cc
  ]
]

entries-of_entries : (d : Dict String Value) → entries (of_entries d) ≡ d
entries-of_entries [] = refl
entries-of_entries ((k, v) ∷ d) = cc (entries-of_entries d)

names_of-texts : (columns : List String) → names_of (map str columns) ≡ columns
names_of-texts [] = refl
names_of-texts (c ∷ columns) = cc (names_of-texts columns)

answer-HasOnly :
    (columns : List String) (rows : List (Dict String Value))
    → All (HasOnly columns) (answer columns rows)
answer-HasOnly columns [] = tt
answer-HasOnly columns (row ∷ rows) = (
  λ d key e h.
      let same : project columns row ≡ d = sym (entries-of_entries (project columns row)) ∙ cc in
      subst (λ d. lookup key d ≡ none) same (lookup-project columns row key h),
  answer-HasOnly columns rows,
)

abbrev answered : List Value → Checked Value
answered vs = ok (list (of_items vs))

iterate-answer :
    (vs rows : List Value) (v : Value) → answered vs ≡ ok v → iterate v ≡ ok rows → vs ≡ rows
unfolding iterate
iterate-answer vs rows v h k =
    let same : list (of_items vs) ≡ v = cc in
    let all : ok (items (of_items vs)) ≡ ok rows = ap iterate same ∙ k in
    let listed : items (of_items vs) ≡ rows = cc in sym (items-of_items vs) ∙ listed

outside-Projects : Projects outside
outside-Projects log r columns v rows m asked replied iterated =
    let columns' = columns_of (lookup "fields" r.kwargs) in
    let found : columns' ≡ columns =
      ap columns_of asked
      ∙ ap names_of (items-of_items (map str columns))
      ∙ names_of-texts columns in
    subst (All (HasOnly ("id" ∷ columns)))
      (iterate-answer (answer ("id" ∷ columns) (chosen r)) rows v
        (ap (λ c. answered (answer ("id" ∷ c) (chosen r))) (sym found) ∙ replied) iterated)
      (answer-HasOnly ("id" ∷ columns) (chosen r))

abbrev model_of : String → String → ModelSchema
model_of name display_name = record {
  name = name;
  display_name = display_name;
  transient = false;
  fields = [];
}

abbrev found : SchemaCache
found =
    ("res.partner", model_of "res.partner" "Contact")
    ∷ ("res.users", model_of "res.users" "User")
    ∷ []

abbrev two_names : List String
two_names = "res.partner" ∷ "res.users" ∷ []

get_schemas-returns : (get_schemas builtins outside false two_names [] client).0 ≡ ok found
unfolding get_schemas missing_schemas split_cached built fetch fetch_fields assemble build_schemas
    fetch_selections search_read call guard infer_safety_level call_guarded call_ambient
    merged_kwargs page_kwargs with_option transport_call iterate index_models item domain_value
    selection_ids group_fields add_to grouped_fields model_schema model_fields field_schema
    parse_digits coerce_int_or_none copy_of str_to_tuple
get_schemas-returns = refl

get_schemas-bare_example : (model_of "res.users" "User").fields ≡ []
get_schemas-bare_example =
    get_schemas-bare builtins outside false "res.partner" "res.users" [] client found "res.users"
      (model_of "res.users" "User") outside-Projects get_schemas-returns refl

abbrev login : FieldSchema
login = record {
  name = "login";
  ttype = "char";
  field_description = "";
  relation = none;
  relation_field = none;
  required = false;
  readonly = false;
  store = true;
  index = false;
  copy = true;
  translate = false;
  help = "";
  compute = none;
  depends = [];
  modules = [];
  on_delete = none;
  size = none;
  digits = none;
  selection = [];
}

abbrev users : ModelSchema
users = record {
  name = "res.users";
  display_name = "User";
  transient = false;
  fields = ("login", login) ∷ [];
}

get_schema-returns : (get_schema builtins outside false "res.users" [] client).0 ≡ ok users
unfolding get_schema fetched_schema get_schemas missing_schemas split_cached built fetch
    fetch_fields assemble build_schemas fetch_selections search_read call guard infer_safety_level
    call_guarded call_ambient merged_kwargs page_kwargs with_option transport_call iterate
    index_models item domain_value selection_ids group_fields add_to grouped_fields model_schema
    model_fields field_schema parse_digits coerce_int_or_none copy_of str_to_tuple
get_schema-returns = refl

get_schema-stays_example :
    get_schema builtins outside false "res.users"
      (get_schema builtins outside false "res.users" [] client).1
      client
    ≡ (ok users, (get_schema builtins outside false "res.users" [] client).1, client)
get_schema-stays_example =
    get_schema-stays builtins "res.users" outside false [] client client users get_schema-returns

-- A cache that has the first of the two models
abbrev warm : SchemaCache
warm = ("res.partner", model_of "res.partner" "Contact") ∷ []

abbrev rest : SchemaCache
rest = ("res.users", users) ∷ []

get_schemas-rest : (get_schemas builtins outside false two_names warm client).0 ≡ ok rest
unfolding get_schemas missing_schemas split_cached built fetch fetch_fields assemble build_schemas
    fetch_selections search_read call guard infer_safety_level call_guarded call_ambient
    merged_kwargs page_kwargs with_option transport_call iterate index_models item domain_value
    selection_ids group_fields add_to grouped_fields model_schema model_fields field_schema
    parse_digits coerce_int_or_none copy_of str_to_tuple
get_schemas-rest = refl

get_schemas-forgets_example : lookup "res.partner" rest ≡ none
get_schemas-forgets_example =
    get_schemas-forgets builtins outside "res.partner" "res.users" two_names warm client
      (model_of "res.partner" "Contact") rest refl refl refl get_schemas-rest
