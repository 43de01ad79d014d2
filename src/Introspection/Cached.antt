-- ===== src/Introspection/Cached.antt =====
-- What `get_schemas` and `get_schema` of introspector.py leave in the cache.
use mathlib.Core.Path.{subst}
use godoo_py.Base.{
  String, string_eq, ◌≡◌, ◌∙◌, sym, ap, refl, Bool, true, false, any, none, some, List, [], ◌∷◌,
  ◌==◌, arith, ok, err, inl, inr, Bool-cases, Option-cases, Result-cases, eq→path,
}
use godoo_py.Base.Dict.{lookup, insert, lookup-insert}
use godoo_py.Value.{Value}
use godoo_py.Faults.{Checked}
use godoo_py.Client.{Client, Outside}
use godoo_py.Introspection.{Builtins, ModelSchema}
use godoo_py.Introspection.Rows.{model_schema}
use godoo_py.Introspection.Fetch.{
  SchemaCache, Fetched, split_cached, fetch, build_schemas, built, missing_schemas, get_schemas,
  fetched_schema, get_schema,
}

module _ (builtins : Builtins) (name : String) where
  -- What the result has of the name, the cache has too.
  abbrev IsKept : SchemaCache → SchemaCache → Type 0
  IsKept result cache =
      (schema : ModelSchema) → lookup name result ≡ some schema → lookup name cache ≡ some schema

  insert-IsKept :
      (key : String) (schema : ModelSchema) (result cache : SchemaCache)
      → IsKept result cache
      → IsKept (insert key schema result) (insert key schema cache)
  insert-IsKept key schema result cache h found e =
      ground
        (arith, lookup-insert name key schema result, lookup-insert name key schema cache, h found)

  build_schemas-IsKept :
      (fetched : Fetched) (names : List String) (cache start result : SchemaCache)
      → IsKept start cache
      → (build_schemas builtins fetched names cache start).0 ≡ ok result
      → IsKept result (build_schemas builtins fetched names cache start).1
  unfolding build_schemas
  build_schemas-IsKept fetched [] cache start result h e =
      let same : start ≡ result = cc in rw (← same) h
  build_schemas-IsKept fetched (n ∷ names) cache start result h e =
      elim (Option-cases (lookup n fetched.model_info)) [
        | inl gone ↦
            let opened : build_schemas builtins fetched (n ∷ names) cache start
                ≡ build_schemas builtins fetched names cache start =
              rw (gone, build_schemas) refl in
            subst (λ p. IsKept result p.1) (sym opened)
              (build_schemas-IsKept fetched names cache start result h
                (sym (ap (λ p. p.0) opened) ∙ e))
        | inr (info, there) ↦
            let rows : List Value = elim (lookup n fetched.fields_by_model) [
              | none ↦ []
              | some rows ↦ rows
            ] in
            elim (Result-cases (model_schema builtins fetched.selection_map n info rows)) [
              | inr (f, failed) ↦ absurd (ground arith)
              | inl (schema, made) ↦
                  let opened : build_schemas builtins fetched (n ∷ names) cache start
                      ≡ build_schemas builtins fetched names (insert n schema cache)
                          (insert n schema start) =
                    rw (there, made, build_schemas) refl in
                  subst (λ p. IsKept result p.1) (sym opened)
                    (build_schemas-IsKept fetched names (insert n schema cache)
                      (insert n schema start) result (insert-IsKept n schema start cache h)
                      (sym (ap (λ p. p.0) opened) ∙ e))
            ]
      ]

  -- What was built is also in the cache.
  built-IsKept :
      (names : List String) (cache : SchemaCache) (p : Checked Fetched × Client)
      (result : SchemaCache)
      → (built builtins names cache p).0 ≡ ok result
      → IsKept result (built builtins names cache p).1
  unfolding built
  built-IsKept names cache (err e, s) result h = absurd cc
  built-IsKept names cache (ok fetched, s) result h =
      build_schemas-IsKept fetched names cache [] result (λ schema e. absurd cc) h

  -- A cached schema may join what was found.
  hit-IsKept :
      (n : String) (hit : ModelSchema) (found cache : SchemaCache)
      → lookup n cache ≡ some hit
      → IsKept found cache
      → IsKept (insert n hit found) cache
  hit-IsKept n hit found cache there h schema e = elim (Bool-cases (name == n)) [
    | inl same ↦
        let here : lookup name (insert n hit found) ≡ some hit =
          lookup-insert name n hit found ∙ rw same refl in
        subst (λ k. lookup k cache ≡ some schema) (sym (eq→path name n same)) cc
    | inr other ↦ h schema (sym (lookup-insert name n hit found ∙ rw other refl) ∙ e)
  ]

  split_cached-IsKept :
      (cache found : SchemaCache) (names : List String)
      → IsKept found cache
      → IsKept (split_cached cache found names).0 cache
  unfolding split_cached
  split_cached-IsKept cache found [] h = h
  split_cached-IsKept cache found (n ∷ names) h = elim (Option-cases (lookup n cache)) [
    | inl gone ↦ rw (gone, split_cached) (split_cached-IsKept cache found names h)
    | inr (hit, there) ↦
        rw (there, split_cached)
          (split_cached-IsKept cache (insert n hit found) names
            (hit-IsKept n hit found cache there h))
  ]

  module _ (outside : Outside) where
    missing_schemas-IsKept :
        (found : SchemaCache) (names : List String) (cache : SchemaCache) (s : Client)
        (result : SchemaCache)
        → IsKept found cache
        → (missing_schemas builtins outside found names cache s).0 ≡ ok result
        → IsKept result (missing_schemas builtins outside found names cache s).1
    unfolding missing_schemas
    missing_schemas-IsKept found [] cache s result k h =
        let same : found ≡ result = cc in rw (← same) k
    missing_schemas-IsKept found (n ∷ names) cache s result k h =
        built-IsKept (n ∷ names) cache (fetch builtins outside (n ∷ names) s) result h

    -- A schema that `get_schemas` returns is the one that the cache has afterwards.
    pub get_schemas-IsKept :
        (bypass_cache : Bool) (names : List String) (cache : SchemaCache) (s : Client)
        (result : SchemaCache)
        → (get_schemas builtins outside bypass_cache names cache s).0 ≡ ok result
        → IsKept result (get_schemas builtins outside bypass_cache names cache s).1
    unfolding get_schemas
    get_schemas-IsKept bypass_cache [] cache s result h = absurd cc
    get_schemas-IsKept bypass_cache (n ∷ names) cache s result h =
        elim (Bool-cases (any (λ name. name == "") (n ∷ names))) [
          | inl bad ↦ absurd (ground arith)
          | inr good ↦ elim (Bool-cases bypass_cache) [
            | inl fresh ↦
                rw (good, fresh)
                  (built-IsKept (n ∷ names) cache (fetch builtins outside (n ∷ names) s) result
                    (ground arith))
            | inr cached ↦
                rw (good, cached)
                  (missing_schemas-IsKept (split_cached cache [] (n ∷ names)).0
                    (split_cached cache [] (n ∷ names)).1 cache s result
                    (split_cached-IsKept cache [] (n ∷ names) (λ schema e. absurd cc))
                    (ground arith))
          ]
        ]

    fetched_schema-cached :
        (p : Checked SchemaCache × SchemaCache × Client) (schema : ModelSchema)
        → ((result : SchemaCache) → p.0 ≡ ok result → IsKept result p.1)
        → (fetched_schema name p).0 ≡ ok schema
        → lookup name (fetched_schema name p).1 ≡ some schema
    unfolding fetched_schema
    fetched_schema-cached (err e, cache, s) schema k h = absurd cc
    fetched_schema-cached (ok schemas, cache, s) schema k h =
        elim (Option-cases (lookup name schemas)) [
          | inl gone ↦ absurd (ground arith)
          | inr (found, there) ↦ rw (there, fetched_schema) (k schemas refl schema (ground arith))
        ]

    get_schema-cached :
        (bypass_cache : Bool) (cache : SchemaCache) (s : Client) (schema : ModelSchema)
        → (get_schema builtins outside bypass_cache name cache s).0 ≡ ok schema
        → lookup name (get_schema builtins outside bypass_cache name cache s).1 ≡ some schema
    unfolding get_schema
    get_schema-cached true cache s schema h =
        fetched_schema-cached (get_schemas builtins outside true (name ∷ []) cache s) schema
          (get_schemas-IsKept true (name ∷ []) cache s) h
    get_schema-cached false cache s schema h = elim (Option-cases (lookup name cache)) [
      | inr (found, there) ↦ rw (there, get_schema) (there ∙ ground arith)
      | inl gone ↦
          rw (gone, get_schema)
            (fetched_schema-cached (get_schemas builtins outside false (name ∷ []) cache s) schema
              (get_schemas-IsKept false (name ∷ []) cache s) (ground arith))
    ]

    get_schema-hit :
        (cache : SchemaCache) (later : Client) (schema : ModelSchema)
        → lookup name cache ≡ some schema
        → get_schema builtins outside false name cache later ≡ (ok schema, cache, later)
    unfolding get_schema
    get_schema-hit cache later schema there = rw (there, get_schema) refl

    -- After `get_schema` returned a schema, `get_schema` of that name with the cache returns the same
    -- schema, over any client, and neither asks nor sends anything.
    pub get_schema-stays :
        (bypass_cache : Bool) (cache : SchemaCache) (s later : Client) (schema : ModelSchema)
        → (get_schema builtins outside bypass_cache name cache s).0 ≡ ok schema
        → get_schema builtins outside false name
            (get_schema builtins outside bypass_cache name cache s).1
            later
          ≡ (ok schema, (get_schema builtins outside bypass_cache name cache s).1, later)
    get_schema-stays bypass_cache cache s later schema h =
        get_schema-hit (get_schema builtins outside bypass_cache name cache s).1 later schema
          (get_schema-cached bypass_cache cache s schema h)
