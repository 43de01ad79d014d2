-- ===== src/Typed/Partial/Fresh.antt =====
-- The cache of `derive_partial_model` is not seen: what is cached is as good as new.
use mathlib.Core.Path.{subst}
use godoo_py.Base.{
  ℕ, nat_eq, String, string_eq, ◌≡◌, ◌∙◌, sym, ap, refl, true, ◌&&◌, Option, none, some, List, [],
  ◌∷◌, ◌==◌, all, elem, if◌then◌else◌, ok, arith, inl, inr, Bool-cases, Option-cases, Result-cases,
  All, eq→path,
}
use godoo_py.Base.Dict.{Dict, lookup, insert, lookup-insert}
use godoo_py.Typed.{FieldInfo, Model}
use godoo_py.Typed.Partial.{
  FieldDef, created_info, partial_def, same_names, PartialCache, find_partial, field_defs,
  derive_partial_model,
}

-- The definition of a field of a partial model
abbrev partial_def_of : Option FieldInfo → Option FieldDef
partial_def_of none = none
partial_def_of (some info) = some (partial_def info)

-- The field that is made of a field of the class
abbrev pub partial_info : Option FieldInfo → Option FieldInfo
partial_info none = none
partial_info (some info) = some (created_info (partial_def info))

field_defs-lookup :
    (model : Model) (names : List String) (before defs : Dict String FieldDef) (k : String)
    → field_defs model names before ≡ ok defs
    → lookup k defs
      ≡ (if elem k names then partial_def_of (lookup k model.model_fields) else lookup k before)
unfolding field_defs
field_defs-lookup model [] before defs k h = let same : before ≡ defs = cc in rw same refl
field_defs-lookup model (n ∷ names) before defs k h =
    elim (Option-cases (lookup n model.model_fields)) [
      | inl gone ↦ absurd (ground arith)
      | inr (info, there) ↦
          let opened : field_defs model (n ∷ names) before
              ≡ field_defs model names (insert n (partial_def info) before) =
            rw (there, field_defs) refl in
          let later =
            field_defs-lookup model names (insert n (partial_def info) before) defs k
              (sym opened ∙ h) in
          let inserted = lookup-insert k n (partial_def info) before in
          elim (Bool-cases (k == n)) [
            | inr other ↦ later ∙ rw (inserted, other) refl
            | inl same ↦
                let there' : partial_def_of (lookup k model.model_fields)
                    ≡ some (partial_def info) =
                  ap (λ k. partial_def_of (lookup k model.model_fields)) (eq→path k n same)
                  ∙ ap partial_def_of there in
                elim (Bool-cases (elem k names)) [
                  | inl again ↦ later ∙ rw (again, same) refl
                  | inr once ↦ later ∙ rw (once, inserted, same) (sym there')
                ]
          ]
    ]

elem-all :
    (k : String) (a b : List String)
    → all (λ name. elem name b) a ≡ true
    → elem k a ≡ true
    → elem k b ≡ true
elem-all k [] b h e = absurd cc
elem-all k (n ∷ a) b h e = elim (Bool-cases (k == n)) [
  | inr other ↦ elem-all k a b (ground arith) (ground arith)
  | inl same ↦ subst (λ k. elem k b ≡ true) (sym (eq→path k n same)) (ground arith)
]

same_names-elem : (k : String) (a b : List String) → same_names a b ≡ true → elem k a ≡ elem k b
same_names-elem k a b h =
    let forth = elem-all k a b (ground arith) in
    let back = elem-all k b a (ground arith) in
    elim (Bool-cases (elem k a)) [
      | inl e ↦ e ∙ sym (forth e)
      | inr e ↦ elim (Bool-cases (elem k b)) [
        | inl f ↦ absurd (let g = back f in cc)
        | inr f ↦ e ∙ sym f
      ]
    ]

module _ (class_of : ℕ → Model) where
  -- A partial model of the class for the names: those fields are made of the new definitions, the others
  -- are as in the class.
  abbrev pub IsPartial : ℕ → List String → ℕ → Type 0
  IsPartial cls fields derived =
      (name : String)
      → lookup name (class_of derived).model_fields ≡ (
          if elem name fields
          then partial_info (lookup name (class_of cls).model_fields)
          else lookup name (class_of cls).model_fields)

  -- Every entry of the cache is a partial model for its key.
  abbrev pub IsFilled : PartialCache → Type 0
  IsFilled cache = All (λ entry. IsPartial entry.0 entry.1 entry.2) cache

  find_partial-IsPartial :
      (cls : ℕ) (fields : List String) (cache : PartialCache) (derived : ℕ)
      → IsFilled cache
      → find_partial cls fields cache ≡ some derived
      → IsPartial cls fields derived
  unfolding find_partial
  find_partial-IsPartial cls fields [] derived h e = absurd cc
  find_partial-IsPartial cls fields ((key, names, made) ∷ cache) derived (filled, h) e =
      elim (Bool-cases (key == cls && same_names fields names)) [
        | inr other ↦ find_partial-IsPartial cls fields cache derived h (ground arith)
        | inl hit ↦
            let same_class : (key == cls) ≡ true = ground arith in
            let same : same_names fields names ≡ true = ground arith in
            let here : made ≡ derived = ground arith in
            λ name.
              ap (λ m. lookup name (class_of m).model_fields) (sym here)
              ∙ filled name
              ∙ rw (eq→path key cls same_class, same_names-elem name fields names same) refl
      ]

  module _ (create_model : ℕ → Dict String FieldDef → ℕ) where
    -- pydantic's promise: a model made from a class and definitions of some of its fields has the fields
    -- of these definitions, and the other fields of the class.
    abbrev pub Creates : Type 0
    Creates =
        (cls : ℕ) (fields : List String) (defs : Dict String FieldDef) (name : String)
        → field_defs (class_of cls) fields [] ≡ ok defs
        → lookup name (class_of (create_model cls defs)).model_fields ≡ elim (lookup name defs) [
          | none ↦ lookup name (class_of cls).model_fields
          | some def ↦ some (created_info def)
        ]

    created-IsPartial :
        (cls : ℕ) (fields : List String) (defs : Dict String FieldDef)
        → Creates
        → field_defs (class_of cls) fields [] ≡ ok defs
        → IsPartial cls fields (create_model cls defs)
    created-IsPartial cls fields defs creates h name =
        let found = field_defs-lookup (class_of cls) fields [] defs name h in
        let base = lookup name (class_of cls).model_fields in
        creates cls fields defs name h ∙ elim (Bool-cases (elem name fields)) [
          | inr other ↦ rw (found, other) refl
          | inl asked ↦ elim (Option-cases base) [
            | inl gone ↦ rw (found, asked, gone) gone
            | inr (info, there) ↦ rw (found, asked, there) refl
          ]
        ]

    -- If the cache holds partial models for its keys, then so it does after `derive_partial_model`, and
    -- a model that this returns, cached or new, is a partial model of the class for the names.
    pub derive_partial_model-IsPartial :
        (cls : ℕ) (fields : List String) (cache : PartialCache)
        → Creates
        → IsFilled cache
        → IsFilled (derive_partial_model class_of create_model cls fields cache).1
          × ((derived : ℕ)
              → (derive_partial_model class_of create_model cls fields cache).0 ≡ ok derived
              → IsPartial cls fields derived)
    unfolding derive_partial_model
    derive_partial_model-IsPartial cls fields cache creates filled =
        elim (Option-cases (find_partial cls fields cache)) [
          | inr (cached, hit) ↦
              rw (hit, derive_partial_model)
                (
                  filled,
                  λ derived e.
                      find_partial-IsPartial cls fields cache derived filled (hit ∙ ground arith),
                )
          | inl miss ↦ elim (Result-cases (field_defs (class_of cls) fields [])) [
            | inr (fault, undeclared) ↦
                rw (miss, undeclared, derive_partial_model) (filled, λ derived e. absurd cc)
            | inl (defs, made) ↦
                let fresh = created-IsPartial cls fields defs creates made in
                rw (miss, made, derive_partial_model)
                  (
                    (fresh, filled),
                    λ derived e.
                        let same : create_model cls defs ≡ derived = cc in
                        subst (IsPartial cls fields) same fresh,
                  )
          ]
        ]

    -- If the cache holds partial models for its keys, then so it does after `derive_partial_model`, and
    -- a model that this returns has the same fields as the one that it returns over an empty cache.
    pub derive_partial_model-fresh :
        (cls : ℕ) (fields : List String) (cache : PartialCache)
        → Creates
        → IsFilled cache
        → IsFilled (derive_partial_model class_of create_model cls fields cache).1
          × ((derived fresh : ℕ) (name : String)
              → (derive_partial_model class_of create_model cls fields cache).0 ≡ ok derived
              → (derive_partial_model class_of create_model cls fields []).0 ≡ ok fresh
              → lookup name (class_of derived).model_fields
                ≡ lookup name (class_of fresh).model_fields)
    derive_partial_model-fresh cls fields cache creates filled =
        let (kept, partial) = derive_partial_model-IsPartial cls fields cache creates filled in
        let (_, fresh_partial) = derive_partial_model-IsPartial cls fields [] creates tt in
        (kept, λ derived fresh name e f. partial derived e name ∙ sym (fresh_partial fresh f name))
