-- ===== src/Introspection/Partial.antt =====
-- `get_schemas` of introspector.py for names of which the cache has some.
use godoo_py.Base.{
  String, string_eq, ◌≡◌, ◌∙◌, sym, ap, refl, true, false, any, elem, none, some, List, [], ◌∷◌,
  ◌==◌, arith, ok, err, inl, inr, Bool-cases, Option-cases, Result-cases, eq→path,
}
use mathlib.Core.Path.{subst}
use godoo_py.Base.Dict.{lookup, insert, lookup-insert}
use godoo_py.Value.{Value}
use godoo_py.Faults.{Checked}
use godoo_py.Client.{Client, Outside}
use godoo_py.Introspection.{Builtins, ModelSchema}
use godoo_py.Introspection.Rows.{model_schema}
use godoo_py.Introspection.Fetch.{
  SchemaCache, Fetched, split_cached, fetch, build_schemas, built, missing_schemas, get_schemas,
}

module _ (builtins : Builtins) (name : String) where
  build_schemas-forgets :
      (fetched : Fetched) (names : List String) (cache start result : SchemaCache)
      → elem name names ≡ false
      → lookup name start ≡ none
      → (build_schemas builtins fetched names cache start).0 ≡ ok result
      → lookup name result ≡ none
  unfolding build_schemas
  build_schemas-forgets fetched [] cache start result h k e = ground arith
  build_schemas-forgets fetched (n ∷ names) cache start result h k e =
      elim (Option-cases (lookup n fetched.model_info)) [
        | inl gone ↦
            build_schemas-forgets fetched names cache start result (ground arith) k (ground arith)
        | inr (info, there) ↦
            let rows : List Value = elim (lookup n fetched.fields_by_model) [
              | none ↦ []
              | some rows ↦ rows
            ] in
            elim (Result-cases (model_schema builtins fetched.selection_map n info rows)) [
              | inr (f, failed) ↦ absurd (ground arith)
              | inl (schema, made) ↦
                  let opened : build_schemas builtins fetched (n ∷ names) cache start
                      ≡ build_schemas builtins fetched names (insert n schema cache)
                          (insert n schema start) =
                    rw (there, made, build_schemas) refl in
                  build_schemas-forgets fetched names (insert n schema cache)
                    (insert n schema start) result (ground arith)
                    (ground (arith, lookup-insert name n schema start))
                    (sym (ap (λ p. p.0) opened) ∙ e)
            ]
      ]

  -- A cached name is not asked for.
  split_cached-hit :
      (cache found : SchemaCache) (names : List String) (schema : ModelSchema)
      → lookup name cache ≡ some schema
      → elem name (split_cached cache found names).1 ≡ false
  unfolding split_cached
  split_cached-hit cache found [] schema h = refl
  split_cached-hit cache found (n ∷ names) schema h = elim (Option-cases (lookup n cache)) [
    | inr (hit, there) ↦
        rw (there, split_cached) (split_cached-hit cache (insert n hit found) names schema h)
    | inl gone ↦ elim (Bool-cases (name == n)) [
      | inl same ↦
          let here : lookup name cache ≡ none =
            subst (λ k. lookup k cache ≡ none) (sym (eq→path name n same)) gone in
          absurd cc
      | inr other ↦ rw (gone, split_cached, other) (split_cached-hit cache found names schema h)
    ]
  ]

  -- A name that is not cached is asked for.
  split_cached-miss :
      (cache found : SchemaCache) (names : List String)
      → lookup name cache ≡ none
      → elem name names ≡ true
      → elem name (split_cached cache found names).1 ≡ true
  unfolding split_cached
  split_cached-miss cache found [] h k = absurd cc
  split_cached-miss cache found (n ∷ names) h k = elim (Option-cases (lookup n cache)) [
    | inl gone ↦ elim (Bool-cases (name == n)) [
      | inl same ↦ rw (gone, split_cached, same) refl
      | inr other ↦
          rw (gone, split_cached, other) (split_cached-miss cache found names h (ground arith))
    ]
    | inr (hit, there) ↦ elim (Bool-cases (name == n)) [
      | inl same ↦
          let here : lookup n cache ≡ none =
            subst (λ k. lookup k cache ≡ none) (eq→path name n same) h in
          absurd cc
      | inr other ↦
          rw (there, split_cached)
            (split_cached-miss cache (insert n hit found) names h (ground arith))
    ]
  ]

  built-forgets :
      (names : List String) (cache : SchemaCache) (p : Checked Fetched × Client)
      (result : SchemaCache)
      → elem name names ≡ false
      → (built builtins names cache p).0 ≡ ok result
      → lookup name result ≡ none
  unfolding built
  built-forgets names cache (err e, s) result k h = absurd cc
  built-forgets names cache (ok fetched, s) result k h =
      build_schemas-forgets fetched names cache [] result k refl h

  missing_schemas-forgets :
      (outside : Outside) (other : String) (found : SchemaCache) (names : List String)
      (cache : SchemaCache) (s : Client) (result : SchemaCache)
      → elem other names ≡ true
      → elem name names ≡ false
      → (missing_schemas builtins outside found names cache s).0 ≡ ok result
      → lookup name result ≡ none
  unfolding missing_schemas
  missing_schemas-forgets outside other found [] cache s result h k e = absurd cc
  missing_schemas-forgets outside other found (n ∷ names) cache s result h k e =
      built-forgets (n ∷ names) cache (fetch builtins outside (n ∷ names) s) result k e

-- If `get_schemas` may use the cache, and the cache has one name but not another one of the names that
-- are asked for, then the dict that it returns does not have the name that is cached.
pub get_schemas-forgets :
    (builtins : Builtins) (outside : Outside) (name other : String) (names : List String)
    (cache : SchemaCache) (s : Client) (schema : ModelSchema) (result : SchemaCache)
    → lookup name cache ≡ some schema
    → lookup other cache ≡ none
    → elem other names ≡ true
    → (get_schemas builtins outside false names cache s).0 ≡ ok result
    → lookup name result ≡ none
unfolding get_schemas
get_schemas-forgets builtins outside name other [] cache s schema result h k m e = absurd cc
get_schemas-forgets builtins outside name other (n ∷ names) cache s schema result h k m e =
    elim (Bool-cases (any (λ name. name == "") (n ∷ names))) [
      | inl bad ↦ absurd (ground arith)
      | inr good ↦
          missing_schemas-forgets builtins name outside other (split_cached cache [] (n ∷ names)).0
            (split_cached cache [] (n ∷ names)).1 cache s result
            (split_cached-miss builtins other cache [] (n ∷ names) k m)
            (split_cached-hit builtins name cache [] (n ∷ names) schema h) (ground arith)
    ]
