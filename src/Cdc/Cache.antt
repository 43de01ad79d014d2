-- ===== src/Cdc/Cache.antt =====
-- services/cdc/field_cache.py: the metadata of fields, kept in a dict of the module. The dict is passed
-- on explicitly; other tasks are taken not to change it during an await. The names in the rows of
-- `ir.model.fields` are taken to be texts, as Odoo has them; another name is an exception.
use Prim.Native.String.{◌++◌}
use godoo_py.Base.{
  pos, String, string_eq, Option, none, some, List, [], ◌∷◌, elem, if◌then◌else◌, ok, err,
}
use godoo_py.Base.Dict.{Dict, lookup, insert}
use godoo_py.Value.{
  first_item, Value, null, str, tuple, nil, cons, truthy, or_null, get, as_dict, as_str, iterate,
}
use godoo_py.Faults.{type_error, key_error, other, Checked}
use godoo_py.Client.{Client, Outside}
use godoo_py.Client.Crud.{no_paging, search_read, equals_term, texts}
use godoo_py.Cdc.{get_or}

-- `FieldMeta`; nothing here sets its `selection`.
pub record FieldMeta : Type 0 where
  pub name : String
  pub field_type : Value
  pub relation : Value

-- `_cache`
abbrev pub FieldCache : Type 0
FieldCache = Dict String FieldMeta

abbrev pub cache_key : String → String → String
cache_key model field_name = model ++ ("." ++ field_name)

unfoldable pub get_cached : String → String → FieldCache → Option FieldMeta
get_cached model field_name cache = lookup (cache_key model field_name) cache

unfoldable pub set_cached : String → String → FieldMeta → FieldCache → FieldCache
set_cached model field_name meta cache = insert (cache_key model field_name) meta cache

-- `FieldMeta(name=…, field_type="char")`
abbrev pub char_meta : String → FieldMeta
char_meta field_name = record { name = field_name; field_type = str "char"; relation = null }

-- `FieldMeta` of a row
unfoldable pub row_meta : Value → Checked FieldMeta
row_meta v = elim (as_dict v) [
  | none ↦ err type_error
  | some row ↦ elim (lookup "name" row) [
    | none ↦ err key_error
    | some named ↦ elim (as_str named) [
      | none ↦ err other
      | some field_name ↦ ok (record {
        name = field_name;
        field_type = get_or "ttype" (str "char") row;
        relation = or_null (get "relation" row);
      })
    ]
  ]
]

-- What a method returns or raises, with the cache and the client that it leaves
abbrev pub Cached : Type 0 → Type 0
Cached A = Checked A × FieldCache × Client

-- The first loop of `ensure_fields_cached`: the cached metadata by names, and the missing names
unfoldable pub split_names :
    String → FieldCache → Dict String FieldMeta → List String → Dict String FieldMeta × List String
split_names model cache result [] = (result, [])
split_names model cache result (fn ∷ names) = elim (get_cached model fn cache) [
  | none ↦ let rest = split_names model cache result names in (rest.0, fn ∷ rest.1)
  | some meta ↦ split_names model cache (insert fn meta result) names
]

-- The loop over the rows: the names that were found, with what is stored up to an exception
unfoldable pub note_rows :
    String
    → List Value
    → FieldCache
    → Dict String FieldMeta
    → List String
    → Checked (Dict String FieldMeta × List String) × FieldCache
note_rows model [] cache result found = (ok (result, found), cache)
note_rows model (v ∷ vs) cache result found = elim (row_meta v) [
  | err e ↦ (err e, cache)
  | ok meta ↦
      note_rows model vs (set_cached model meta.name meta cache) (insert meta.name meta result)
        (meta.name ∷ found)
]

-- The defaults of the missing names that were not found
unfoldable pub fill_missing :
    String
    → List String
    → List String
    → FieldCache
    → Dict String FieldMeta
    → Dict String FieldMeta × FieldCache
fill_missing model found [] cache result = (result, cache)
fill_missing model found (fn ∷ missing) cache result =
    if elem fn found
    then fill_missing model found missing cache result
    else fill_missing model found missing (set_cached model fn (char_meta fn) cache)
        (insert fn (char_meta fn) result)

-- What follows the answer
unfoldable pub note_answer :
    String
    → List String
    → Value
    → FieldCache
    → Dict String FieldMeta
    → Checked (Dict String FieldMeta) × FieldCache
note_answer model missing records cache result = elim (iterate records) [
  | err e ↦ (err e, cache)
  | ok rows ↦
      let (noted, stored) = note_rows model rows cache result [] in
      elim noted [
        | err e ↦ (err e, stored)
        | ok (known, found) ↦
            let filled = fill_missing model found missing stored known in (ok filled.0, filled.1)
      ]
]

-- The same, with what the server answered
unfoldable pub noted_fields :
    String
    → List String
    → Dict String FieldMeta
    → FieldCache
    → Checked Value × Client
    → Cached (Dict String FieldMeta)
noted_fields model missing known cache (err e, s) = (err e, cache, s)
noted_fields model missing known cache (ok records, s) =
    let (result, stored) = note_answer model missing records cache known in (result, stored, s)

module _ (outside : Outside) where
  unfoldable pub fetch_field_meta : String → String → FieldCache → Client → Cached FieldMeta
  fetch_field_meta model field_name cache s = elim (get_cached model field_name cache) [
    | some meta ↦ (ok meta, cache, s)
    | none ↦
        let (answer, s') =
          search_read outside "ir.model.fields"
            (some (equals_term "model" model ∷ equals_term "name" field_name ∷ []))
            (record no_paging {
              fields = some ("name" ∷ "ttype" ∷ "relation" ∷ "selection_ids" ∷ []);
              limit = some (pos 1);
            })
            [] s in
        elim answer [
          | err e ↦ (err e, cache, s')
          | ok records ↦
              if truthy records
              then elim (first_item records) [
                | err e ↦ (err e, cache, s')
                | ok row ↦ elim (row_meta row) [
                  | err e ↦ (err e, cache, s')
                  | ok meta ↦ (ok meta, set_cached model field_name meta cache, s')
                ]
              ]
              else (
                ok (char_meta field_name),
                set_cached model field_name (char_meta field_name) cache,
                s',
              )
        ]
  ]

  -- `ensure_fields_cached` behind its first loop
  unfoldable pub ensure_missing :
      String
      → List String
      → Dict String FieldMeta
      → FieldCache
      → Client
      → Cached (Dict String FieldMeta)
  ensure_missing model [] known cache s = (ok known, cache, s)
  ensure_missing model (fn ∷ rest) known cache s = noted_fields model (fn ∷ rest) known cache (
      search_read outside "ir.model.fields"
        (some (
          equals_term "model" model
          ∷ tuple (cons (str "name") (cons (str "in") (cons (texts (fn ∷ rest)) nil)))
          ∷ []))
        (record no_paging { fields = some ("name" ∷ "ttype" ∷ "relation" ∷ []) }) [] s)

  unfoldable pub ensure_fields_cached :
      String → List String → FieldCache → Client → Cached (Dict String FieldMeta)
  ensure_fields_cached model field_names cache s =
      let (known, missing) = split_names model cache [] field_names in
      ensure_missing model missing known cache s
