-- ===== src/Client/Crud.antt =====
-- The CRUD helpers of client.py on model names: each is one `call`. Keyword arguments arrive as a dict
-- of the method's own.
pub mod Safe
pub mod Ref
use godoo_py.Base.{
  ℤ, String, string_eq, Bool, true, false, Option, none, some, List, [], ◌∷◌, map, ◌==◌, is_empty,
  if◌then◌else◌, err, ok, require,
}
use godoo_py.Base.Dict.{Dict, insert, lookup}
use godoo_py.Value.{
  Value, null, int, str, list, dict, tuple, nil, cons, items, of_items, of_entries, entries, truthy,
  as_dict,
}
use godoo_py.Faults.{Fault, validation, missing, type_error, key_error, Checked}
use godoo_py.Client.State.{Client, Outside, Rpc, ◌>>=◌, pure, raise, lift}
use godoo_py.Client.Call.{call}

-- `int | list[int] | None`
pub data Ids : Type 0 where
  absent : Ids
  one : ℤ → Ids
  many : List ℤ → Ids

abbrev pub texts : List String → Value
texts names = list (of_items (map str names))

abbrev pub numbers : List ℤ → Value
numbers ids = list (of_items (map int ids))

-- `[ids] if isinstance(ids, int) else (ids or [])`
unfoldable pub id_list : Ids → List ℤ
id_list absent = []
id_list (one rid) = rid ∷ []
id_list (many ids) = ids

-- `if isinstance(ids, int): ids = [ids]`
unfoldable pub sent_ids : Ids → Value
sent_ids absent = null
sent_ids (one rid) = numbers (rid ∷ [])
sent_ids (many ids) = numbers ids

-- `domain or []`
unfoldable pub domain_value : Option (List Value) → Value
domain_value none = list nil
domain_value (some terms) = list (of_items terms)

-- `if value is not None: kwargs[key] = value`
unfoldable pub with_option : String → Option Value → Dict String Value → Dict String Value
with_option key none kwargs = kwargs
with_option key (some v) kwargs = insert key v kwargs

-- The keyword arguments of `search_read`
pub record Paging : Type 0 where
  pub fields : Option (List String)
  pub limit : Option ℤ
  pub offset : Option ℤ
  pub order : Option String

abbrev pub no_paging : Paging
no_paging = record { fields = none; limit = none; offset = none; order = none }

abbrev map_option : {A B : Type 0} → (A → B) → Option A → Option B
map_option f none = none
map_option f (some a) = some (f a)

unfoldable pub page_kwargs : Paging → Dict String Value → Dict String Value
page_kwargs p kwargs = with_option "order" (map_option str p.order) (
    with_option "offset" (map_option int p.offset) (
      with_option "limit" (map_option int p.limit)
        (with_option "fields" (map_option texts p.fields) kwargs)))

-- The argument `values` of `create`
pub data CreateValues : Type 0 where
  single : Dict String Value → CreateValues
  batch : List (Dict String Value) → CreateValues

abbrev pub record_value : Dict String Value → Value
record_value d = dict (of_entries d)

-- `records[0]["res_id"]`, of what the server sent
unfoldable pub first_res_id : Value → Checked Value
first_res_id (list (cons (dict row) rows)) = require (lookup "res_id" (entries row)) key_error
first_res_id (dict row) = err key_error
first_res_id v = err type_error

-- `xml_id.split(".", 1)`, if that has two parts
unfoldable pub split_dot : String → Option (String × String)
split_dot String.[] = none
split_dot (String.◌∷◌ c rest) =
    let others = split_dot rest in
    if String.◌∷◌ c String.[] == "."
    then some ("", rest)
    else elim others [ none ↦ none | some (left, right) ↦ some (String.◌∷◌ c left, right) ]

-- One term of a domain
abbrev pub equals_term : String → String → Value
equals_term field text = tuple (cons (str field) (cons (str "=") (cons (str text) nil)))

module _ (outside : Outside) where
  unfoldable pub search : String → Option (List Value) → Dict String Value → Rpc Value
  search model domain kwargs = call outside model "search" (domain_value domain ∷ []) kwargs

  -- `read` on a model's name
  unfoldable pub read : String → Ids → Option (List String) → Dict String Value → Rpc Value
  read model ids fields kwargs =
      call outside model "read" (numbers (id_list ids) ∷ [])
        (with_option "fields" (map_option texts fields) kwargs)

  -- `search_read` on a model's name
  unfoldable pub search_read : String → Option (List Value) → Paging → Dict String Value → Rpc Value
  search_read model domain paging kwargs =
      call outside model "search_read" (domain_value domain ∷ []) (page_kwargs paging kwargs)

  unfoldable pub search_count : String → Option (List Value) → Dict String Value → Rpc Value
  search_count model domain kwargs =
      call outside model "search_count" (domain_value domain ∷ []) kwargs

  unfoldable pub fields_get : String → Option (List String) → Rpc Value
  fields_get model attributes =
      call outside model "fields_get" [] (with_option "attributes" (map_option texts attributes) [])

  unfoldable pub ref : String → Rpc Value
  ref xml_id = elim (split_dot xml_id) [
    | none ↦ raise validation
    | some (module_name, name) ↦ do
      records ←
          search_read "ir.model.data"
            (some (equals_term "module" module_name ∷ equals_term "name" name ∷ []))
            (record no_paging { fields = some ("res_id" ∷ []) }) []
      if truthy records then lift (first_res_id records) else raise missing
  ]

  unfoldable pub execute_kw : String → String → List Value → Option (Dict String Value) → Rpc Value
  execute_kw model method args none = call outside model method args []
  execute_kw model method args (some kwargs) = call outside model method args kwargs

  -- `create` on a model's name: an empty list is refused here.
  unfoldable pub create : String → CreateValues → Dict String Value → Rpc Value
  create model (single values) kwargs =
      call outside model "create" (record_value values ∷ []) kwargs
  create model (batch []) kwargs = raise validation
  create model (batch rows) kwargs =
      call outside model "create" (list (of_items (map record_value rows)) ∷ []) kwargs

  unfoldable pub write : String → Ids → Dict String Value → Dict String Value → Rpc Value
  write model ids values kwargs =
      call outside model "write" (sent_ids ids ∷ record_value values ∷ []) kwargs

  unfoldable pub unlink : String → Ids → Dict String Value → Rpc Value
  unlink model ids kwargs = call outside model "unlink" (sent_ids ids ∷ []) kwargs
