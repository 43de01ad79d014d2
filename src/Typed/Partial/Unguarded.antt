-- ===== src/Typed/Partial/Unguarded.antt =====
-- A partial model keeps no flag of its fields, so `_serialize_for_write` sends what it would refuse or
-- leave out.
use godoo_py.Base.{
  ℕ, String, string_eq, ◌≡◌, ◌∙◌, sym, ap, refl, true, false, any, elem, some, List, ◌==◌, ok, inl,
  inr, Bool-cases,
}
use godoo_py.Base.Dict.{Dict, lookup}
use godoo_py.Value.{Value}
use godoo_py.Typed.{FieldInfo, Model}
use godoo_py.Typed.Wire.{Cell, Calendar}
use godoo_py.Typed.Instances.{Instance, sent_value, serialize_for_write}
use godoo_py.Typed.Instances.Payload.{
  is_sent, is_refused, user_fields, HasAttributes, written-held, serialize_for_write-IsWritten,
}
use godoo_py.Typed.Partial.Fresh.{IsPartial, IsFilled, Creates, derive_partial_model-IsPartial}
use godoo_py.Typed.Partial.{FieldDef, created_info, partial_def, PartialCache, derive_partial_model}

-- A field that was asked for has no flag.
partial-is_sent :
    (class_of : ℕ → Model) (cls derived : ℕ) (fields : List String) (name : String)
    (info : FieldInfo)
    → IsPartial class_of cls fields derived
    → elem name fields ≡ true
    → lookup name (class_of cls).model_fields ≡ some info
    → (name == "id") ≡ false
    → is_sent (class_of derived) name ≡ true
unfolding partial_def
partial-is_sent class_of cls derived fields name info partial asked declared other =
    let there = partial name in
    let plain : lookup name (class_of derived).model_fields
        ≡ some (created_info (partial_def info)) =
      there ∙ rw (asked, declared) refl in
    rw (other, plain) refl

module _ {Date DateTime : Type 0} (calendar : Calendar Date DateTime) where
  -- The payload of an instance of a model that `derive_partial_model` returned for the names, cached or
  -- new, has every field that is set and was asked for, other than the ID: also one that is readonly,
  -- or a relation to many records, in the class. pydantic keeps its promise, the cache holds partial
  -- models for its keys, and every field that is set is taken to be an attribute.
  pub partial-unguarded :
      (class_of : ℕ → Model) (create_model : ℕ → Dict String FieldDef → ℕ) (cls derived : ℕ)
      (fields : List String) (cache : PartialCache) (instance : Instance Date DateTime)
      (name : String) (info : FieldInfo) (cell : Cell Date DateTime) (payload : Dict String Value)
      → Creates class_of create_model
      → IsFilled class_of cache
      → (derive_partial_model class_of create_model cls fields cache).0 ≡ ok derived
      → instance.model ≡ class_of derived
      → HasAttributes instance.state.0 instance.state.1
      → elem name fields ≡ true
      → elem name instance.state.1 ≡ true
      → lookup name (class_of cls).model_fields ≡ some info
      → lookup name instance.state.0 ≡ some cell
      → (name == "id") ≡ false
      → serialize_for_write calendar instance ≡ ok payload
      → lookup name payload ≡ some (sent_value calendar cell)
  partial-unguarded class_of create_model cls derived fields cache instance name info cell payload
        creates filled derives of_model has asked here declared held other returned =
      let (_, all_partial) =
        derive_partial_model-IsPartial class_of create_model cls fields cache creates filled in
      let sent : is_sent instance.model name ≡ true =
        ap (λ m. is_sent m name) of_model
        ∙ partial-is_sent class_of cls derived fields name info (all_partial derived derives) asked
            declared other in
      let (refuses, writes) = serialize_for_write-IsWritten calendar instance has in
      elim (Bool-cases (any (is_refused instance.model (user_fields instance)) instance.state.1)) [
        | inl refused ↦ absurd (let raised = refuses refused in cc)
        | inr free ↦
            let (written_payload, e, w) = writes free in
            let same : written_payload ≡ payload = cc in
            ap (lookup name) (sym same)
            ∙ w name
            ∙ rw (here, sent) (written-held calendar instance name cell held)
      ]
