-- ===== src/Introspection/Fetch.antt =====
-- `IntrospectionCache`, `get_schemas` and `get_schema` of introspector.py. The cache of the instance is
-- passed on explicitly; other tasks are taken not to change it during an await.
use godoo_py.Base.{
  ℤ, String, string_eq, Bool, true, false, any, none, some, List, [], ◌∷◌, ◌==◌, if◌then◌else◌, ok,
  err,
}
use godoo_py.Base.Dict.{Dict, lookup, insert}
use godoo_py.Value.{Value, str, list, tuple, nil, cons, of_items, iterate}
use godoo_py.Faults.{missing, validation, Checked}
use godoo_py.Client.{Client, Outside, Rpc, ◌>>=◌, pure, lift}
use godoo_py.Client.Crud.{no_paging, search_read, texts}
use godoo_py.Introspection.{Builtins, ModelSchema}
use godoo_py.Introspection.Rows.{
  index_models, selection_ids, group_fields, grouped_fields, map_selections, model_schema,
}

-- `_IR_FIELDS`
abbrev pub ir_fields : List String
ir_fields =
    "name" ∷ "ttype" ∷ "field_description" ∷ "relation" ∷ "relation_field" ∷ "required" ∷ "readonly"
    ∷ "store" ∷ "index" ∷ "copied" ∷ "translate" ∷ "help" ∷ "compute" ∷ "depends" ∷ "modules"
    ∷ "on_delete" ∷ "size" ∷ "selection_ids" ∷ []

-- `_IR_MODEL_FIELDS`
abbrev pub ir_model_fields : List String
ir_model_fields = "name" ∷ "model" ∷ "transient" ∷ []

-- `_cache` of `IntrospectionCache`
abbrev pub SchemaCache : Type 0
SchemaCache = Dict String ModelSchema

-- `invalidate`
unfoldable pub invalidate : String → SchemaCache → SchemaCache
invalidate name [] = []
invalidate name ((key, schema) ∷ cache) =
    let rest = invalidate name cache in if name == key then cache else (key, schema) ∷ rest

-- The cached schemas, and the names that are not cached
unfoldable pub split_cached : SchemaCache → SchemaCache → List String → SchemaCache × List String
split_cached cache found [] = (found, [])
split_cached cache found (n ∷ names) = elim (lookup n cache) [
  | none ↦ let rest = split_cached cache found names in (rest.0, n ∷ rest.1)
  | some hit ↦ split_cached cache (insert n hit found) names
]

-- What the requests bring: the models, the rows of the fields by model, and the selection values
pub record Fetched : Type 0 where
  pub model_info : Dict String Value
  pub fields_by_model : Dict String (List Value)
  pub selection_map : Dict ℤ (List (String × String))

-- A method with a cache: what it returns or raises, and the cache and the client that it leaves
abbrev pub Schemas : Type 0 → Type 0
Schemas A = SchemaCache → Client → Checked A × SchemaCache × Client

-- One term of a domain, over a list
abbrev pub in_term : String → Value → Value
in_term field values = tuple (cons (str field) (cons (str "in") (cons values nil)))

-- `get_schema` behind the cache
unfoldable pub fetched_schema :
    String → Checked SchemaCache × SchemaCache × Client → Checked ModelSchema × SchemaCache × Client
fetched_schema name (err e, cache, s) = (err e, cache, s)
fetched_schema name (ok schemas, cache, s) = elim (lookup name schemas) [
  | none ↦ (err missing, cache, s)
  | some schema ↦ (ok schema, cache, s)
]

module _ (builtins : Builtins) where
  -- The last loop: the schemas of the names, each put into the cache
  unfoldable pub build_schemas :
      Fetched → List String → SchemaCache → SchemaCache → Checked SchemaCache × SchemaCache
  build_schemas fetched [] cache result = (ok result, cache)
  build_schemas fetched (name ∷ names) cache result = elim (lookup name fetched.model_info) [
    | none ↦ build_schemas fetched names cache result
    | some info ↦
        elim (model_schema builtins fetched.selection_map name info
          (elim (lookup name fetched.fields_by_model) [ none ↦ [] | some rows ↦ rows ])) [
            | err e ↦ (err e, cache)
            | ok schema ↦
                build_schemas fetched names (insert name schema cache) (insert name schema result)
          ]
  ]

  -- `get_schemas` behind the cache
  unfoldable pub built :
      List String
      → SchemaCache
      → Checked Fetched × Client
      → Checked SchemaCache × SchemaCache × Client
  built names cache (err e, s) = (err e, cache, s)
  built names cache (ok fetched, s) =
      let (result, cache') = build_schemas fetched names cache [] in (result, cache', s)

module _ (builtins : Builtins) (outside : Outside) where
  -- The third request, if there is a selection field
  unfoldable pub fetch_selections : List Value → Rpc (Dict ℤ (List (String × String)))
  fetch_selections [] = pure []
  fetch_selections (v ∷ vs) = do
    records ←
        search_read outside "ir.model.fields.selection"
          (some (in_term "field_id" (list (of_items (v ∷ vs))) ∷ []))
          (record no_paging {
            fields = some ("field_id" ∷ "value" ∷ "name" ∷ "sequence" ∷ []);
            order = some "sequence";
          })
          []
    rows ← lift (iterate records)
    lift (map_selections builtins [] rows)

  -- What is made of the rows of the fields
  unfoldable pub assemble : List String → Dict String Value → List Value → Rpc Fetched
  assemble names info field_rows = do
    ids ← lift (selection_ids field_rows)
    selections ← fetch_selections ids
    groups ← lift (group_fields [] field_rows)
    pure (record {
      model_info = info;
      fields_by_model = grouped_fields names field_rows groups;
      selection_map = selections;
    })

  -- The second request
  unfoldable pub fetch_fields : List String → Dict String Value → Rpc Fetched
  fetch_fields names info = do
    field_records ←
        search_read outside "ir.model.fields" (some (in_term "model" (texts names) ∷ []))
          (record no_paging { fields = some ir_fields }) []
    field_rows ← lift (iterate field_records)
    assemble names info field_rows

  -- The requests
  unfoldable pub fetch : List String → Rpc Fetched
  fetch names = do
    model_records ←
        search_read outside "ir.model" (some (in_term "model" (texts names) ∷ []))
          (record no_paging { fields = some ir_model_fields }) []
    model_rows ← lift (iterate model_records)
    info ← lift (index_models [] model_rows)
    fetch_fields names info

  abbrev pub fetch_schemas : List String → Schemas SchemaCache
  fetch_schemas names cache s = built builtins names cache (fetch names s)

  -- `get_schemas` behind its checks: `bypass_cache`, or else what is not cached
  unfoldable pub missing_schemas : SchemaCache → List String → Schemas SchemaCache
  missing_schemas found [] cache s = (ok found, cache, s)
  missing_schemas found (n ∷ names) cache s = fetch_schemas (n ∷ names) cache s

  unfoldable pub get_schemas : Bool → List String → Schemas SchemaCache
  get_schemas bypass_cache [] cache s = (err validation, cache, s)
  get_schemas bypass_cache (n ∷ names) cache s =
      if any (λ name. name == "") (n ∷ names)
      then (err validation, cache, s)
      else if bypass_cache
      then fetch_schemas (n ∷ names) cache s
      else let (found, missing_names) = split_cached cache [] (n ∷ names) in
        missing_schemas found missing_names cache s

  unfoldable pub get_schema : Bool → String → Schemas ModelSchema
  get_schema true name cache s = fetched_schema name (get_schemas true (name ∷ []) cache s)
  get_schema false name cache s = elim (lookup name cache) [
    | some schema ↦ (ok schema, cache, s)
    | none ↦ fetched_schema name (get_schemas false (name ∷ []) cache s)
  ]
