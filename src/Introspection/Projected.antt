-- ===== src/Introspection/Projected.antt =====
-- `_IR_FIELDS` of introspector.py, over a server that answers `search_read` with the columns that were
-- asked for, and the ID.
use godoo_py.Base.{
  ℤ, String, string_eq, ◌≡◌, ◌∙◌, sym, ap, refl, Bool, false, any, elem, none, some, List, [], ◌∷◌,
  ◌==◌, arith, ok, err, inl, inr, Bool-cases, Option-cases, Result-cases, All,
}
use godoo_py.Base.Dict.{Dict, lookup, insert, lookup-insert}
use godoo_py.Value.{Value, as_dict, iterate}
use godoo_py.Faults.{Checked}
use godoo_py.Client.{Event, Request, Client, Outside, Rpc, lift}
use godoo_py.Client.Traces.{>>=-result}
use godoo_py.Client.Replies.{call-IsReply}
use godoo_py.Client.Crud.{no_paging, search_read, texts, page_kwargs, with_option}
use godoo_py.Safety.{infer_safety_level}
use godoo_py.Introspection.{Builtins, ModelSchema}
use godoo_py.Introspection.Rows.{
  index_models, selection_ids, group_fields, grouped_fields, model_fields, model_schema,
}
use godoo_py.Introspection.Fetch.{
  ir_fields, ir_model_fields, in_term, SchemaCache, Fetched, fetch, fetch_fields, assemble,
  fetch_selections, build_schemas, built, split_cached, missing_schemas, get_schemas,
}

-- A dict has no other columns than these.
abbrev pub HasOnly : List String → Value → Type 0
HasOnly columns v =
    (row : Dict String Value) (key : String)
    → as_dict v ≡ some row
    → elem key columns ≡ false
    → lookup key row ≡ none

-- The server answers `search_read` with the columns that are asked for, and the ID.
abbrev pub Projects : Outside → Type 0
Projects outside =
    (log : List Event) (r : Request) (columns : List String) (v : Value) (rows : List Value)
    → r.method ≡ "search_read"
    → lookup "fields" r.kwargs ≡ some (texts columns)
    → outside.reply log r ≡ ok v
    → iterate v ≡ ok rows
    → All (HasOnly ("id" ∷ columns)) rows

-- Without the column `model` no row is grouped.
group_fields-bare :
    (rows : List Value) (groups : Dict String (List Value))
    → All (HasOnly ("id" ∷ ir_fields)) rows
    → group_fields [] rows ≡ ok groups
    → groups ≡ []
unfolding group_fields
group_fields-bare [] groups h e = ground arith
group_fields-bare (r ∷ rows) groups h e = elim (Option-cases (as_dict r)) [
  | inl other ↦ absurd (ground arith)
  | inr (row, is_row) ↦
      let gone = h.0 row "model" is_row refl in group_fields-bare rows groups h.1 (ground arith)
]

search_read-HasOnly :
    (outside : Outside) (model : String) (domain : List Value) (columns : List String) (s : Client)
    (v : Value) (rows : List Value)
    → Projects outside
    → (search_read outside model (some domain) (record no_paging { fields = some columns }) [] s).0
      ≡ ok v
    → iterate v ≡ ok rows
    → All (HasOnly ("id" ∷ columns)) rows
unfolding search_read page_kwargs infer_safety_level with_option
search_read-HasOnly outside model domain columns s v rows projects e i =
    let (log, r, m, method, args, asked, answer) =
      call-IsReply outside model "search_read" _ "fields" refl refl _ s v e in
    projects log r columns v rows method asked answer i

module _ (builtins : Builtins) where
  -- Two names or more take no rows that are not grouped.
  grouped_fields-bare :
      (n m : String) (names : List String) (rows : List Value) (groups : Dict String (List Value))
      → groups ≡ []
      → grouped_fields (n ∷ m ∷ names) rows groups ≡ []
  unfolding grouped_fields
  grouped_fields-bare n m names rows [] e = refl
  grouped_fields-bare n m names rows (g ∷ groups) e = e

  module _ (outside : Outside) (n m : String) (names : List String) where
    assemble-bare :
        (info : Dict String Value) (rows : List Value) (s : Client) (fetched : Fetched)
        → All (HasOnly ("id" ∷ ir_fields)) rows
        → (assemble builtins outside (n ∷ m ∷ names) info rows s).0 ≡ ok fetched
        → fetched.fields_by_model ≡ []
    unfolding assemble
    assemble-bare info rows s fetched h e =
        let (ids, s1, e1, then1) = >>=-result (lift (selection_ids rows)) _ s fetched e in
        let (selections, s2, e2, then2) =
          >>=-result (fetch_selections builtins outside ids) _ s1 fetched then1 in
        let (groups, s3, e3, then3) = >>=-result (lift (group_fields [] rows)) _ s2 fetched then2 in
        let bare = grouped_fields-bare n m names rows groups (group_fields-bare rows groups h e3) in
        let made : Fetched = record {
          model_info = info;
          fields_by_model = grouped_fields (n ∷ m ∷ names) rows groups;
          selection_map = selections;
        } in
        let same : made ≡ fetched = cc in ap (λ f. f.fields_by_model) (sym same) ∙ bare

    fetch_fields-bare :
        (info : Dict String Value) (s : Client) (fetched : Fetched)
        → Projects outside
        → (fetch_fields builtins outside (n ∷ m ∷ names) info s).0 ≡ ok fetched
        → fetched.fields_by_model ≡ []
    unfolding fetch_fields
    fetch_fields-bare info s fetched projects e =
        let asked : Rpc Value =
          search_read outside "ir.model.fields"
            (some (in_term "model" (texts (n ∷ m ∷ names)) ∷ []))
            (record no_paging { fields = some ir_fields }) [] in
        let (v, s1, e1, then1) = >>=-result asked _ s fetched e in
        let (rows, s2, e2, then2) = >>=-result (lift (iterate v)) _ s1 fetched then1 in
        assemble-bare info rows s2 fetched
          (search_read-HasOnly outside "ir.model.fields" _ ir_fields s v rows projects e1 e2) then2

    fetch-bare :
        (s : Client) (fetched : Fetched)
        → Projects outside
        → (fetch builtins outside (n ∷ m ∷ names) s).0 ≡ ok fetched
        → fetched.fields_by_model ≡ []
    unfolding fetch
    fetch-bare s fetched projects e =
        let asked : Rpc Value =
          search_read outside "ir.model" (some (in_term "model" (texts (n ∷ m ∷ names)) ∷ []))
            (record no_paging { fields = some ir_model_fields }) [] in
        let (v, s1, e1, then1) = >>=-result asked _ s fetched e in
        let (rows, s2, e2, then2) = >>=-result (lift (iterate v)) _ s1 fetched then1 in
        let (info, s3, e3, then3) = >>=-result (lift (index_models [] rows)) _ s2 fetched then2 in
        fetch_fields-bare info s3 fetched projects then3

  model_schema-bare :
      (selections : Dict ℤ (List (String × String))) (name : String) (info : Value)
      (schema : ModelSchema)
      → model_schema builtins selections name info [] ≡ ok schema
      → schema.fields ≡ []
  unfolding model_schema model_fields
  model_schema-bare selections name info schema h = elim (Option-cases (as_dict info)) [
    | inl other ↦ absurd (ground arith)
    | inr (row, is_row) ↦ ground arith
  ]

  module _ (name : String) where
    -- The schema of the name, if there is one, has no fields.
    abbrev IsBare : SchemaCache → Type 0
    IsBare schemas = (schema : ModelSchema) → lookup name schemas ≡ some schema → schema.fields ≡ []

    insert-IsBare :
        (key : String) (schema : ModelSchema) (schemas : SchemaCache)
        → schema.fields ≡ []
        → IsBare schemas
        → IsBare (insert key schema schemas)
    insert-IsBare key schema schemas bare h found e =
        let at = lookup-insert name key schema schemas in
        elim (Bool-cases (name == key)) [
          | inl same ↦ let here : schema ≡ found = ground arith in rw (← here) bare
          | inr other ↦ h found (ground arith)
        ]

    build_schemas-IsBare :
        (fetched : Fetched) (names : List String) (cache start result : SchemaCache)
        → fetched.fields_by_model ≡ []
        → IsBare start
        → (build_schemas builtins fetched names cache start).0 ≡ ok result
        → IsBare result
    unfolding build_schemas
    build_schemas-IsBare fetched [] cache start result bare h e =
        let same : start ≡ result = cc in rw (← same) h
    build_schemas-IsBare fetched (n ∷ names) cache start result bare h e =
        elim (Option-cases (lookup n fetched.model_info)) [
          | inl gone ↦ build_schemas-IsBare fetched names cache start result bare h (ground arith)
          | inr (info, there) ↦
              elim (Result-cases (model_schema builtins fetched.selection_map n info [])) [
                | inr (f, failed) ↦ absurd (ground arith)
                | inl (schema, made) ↦
                    let opened : build_schemas builtins fetched (n ∷ names) cache start
                        ≡ build_schemas builtins fetched names (insert n schema cache)
                            (insert n schema start) =
                      rw (there, bare, made, build_schemas) refl in
                    build_schemas-IsBare fetched names (insert n schema cache)
                      (insert n schema start) result bare
                      (insert-IsBare n schema start
                        (model_schema-bare fetched.selection_map n info schema made) h)
                      (sym (ap (λ p. p.0) opened) ∙ e)
              ]
        ]

    built-IsBare :
        (names : List String) (cache result : SchemaCache) (p : Checked Fetched × Client)
        → ((fetched : Fetched) → p.0 ≡ ok fetched → fetched.fields_by_model ≡ [])
        → (built builtins names cache p).0 ≡ ok result
        → IsBare result
    unfolding built
    built-IsBare names cache result (err e, s) h k = absurd cc
    built-IsBare names cache result (ok fetched, s) h k =
        build_schemas-IsBare fetched names cache [] result (h fetched refl) (λ schema e. absurd cc)
          k

split_cached-fresh : (names : List String) → split_cached [] [] names ≡ ([], names)
unfolding split_cached
split_cached-fresh [] = refl
split_cached-fresh (n ∷ names) = let rest = split_cached-fresh names in rw rest refl

-- With nothing cached, all that is asked for is fetched, `bypass_cache` or not.
get_schemas-fresh :
    (builtins : Builtins) (outside : Outside) (bypass_cache : Bool) (n : String)
    (names : List String) (s : Client) (result : SchemaCache)
    → (get_schemas builtins outside bypass_cache (n ∷ names) [] s).0 ≡ ok result
    → (built builtins (n ∷ names) [] (fetch builtins outside (n ∷ names) s)).0 ≡ ok result
unfolding get_schemas missing_schemas
get_schemas-fresh builtins outside bypass_cache n names s result h =
    elim (Bool-cases (any (λ name. name == "") (n ∷ names))) [
      | inl bad ↦ absurd (ground arith)
      | inr good ↦ elim (Bool-cases bypass_cache) [
        | inl fresh ↦ ground arith
        | inr cached ↦
            let all = split_cached-fresh (n ∷ names) in
            let opened : get_schemas builtins outside bypass_cache (n ∷ names) [] s
                ≡ built builtins (n ∷ names) [] (fetch builtins outside (n ∷ names) s) =
              rw (good, cached, all) refl in
            sym (ap (λ p. p.0) opened) ∙ h
      ]
    ]

-- If the server answers `search_read` with the columns that are asked for and the ID, then what
-- `get_schemas` of a new introspector returns for two names or more has no field in any schema.
pub get_schemas-bare :
    (builtins : Builtins) (outside : Outside) (bypass_cache : Bool) (n m : String)
    (names : List String) (s : Client) (result : SchemaCache) (name : String) (schema : ModelSchema)
    → Projects outside
    → (get_schemas builtins outside bypass_cache (n ∷ m ∷ names) [] s).0 ≡ ok result
    → lookup name result ≡ some schema
    → schema.fields ≡ []
get_schemas-bare builtins outside bypass_cache n m names s result name schema projects h there =
    built-IsBare builtins name (n ∷ m ∷ names) [] result (fetch builtins outside (n ∷ m ∷ names) s)
      (λ fetched. fetch-bare builtins outside n m names s fetched projects)
      (get_schemas-fresh builtins outside bypass_cache n (m ∷ names) s result h) schema there
