-- ===== src/Typed/Instances/Edited.antt =====
-- Instances that `read` built, then changed by assignments, then written.
use mathlib.Core.Path.{subst}
use godoo_py.Base.{
  String, string_eq, ◌≡◌, ◌∙◌, sym, ap, refl, false, any, List, [], ◌∷◌, arith, ok, inl, inr,
  Option-cases, Result-cases,
}
use godoo_py.Base.Dict.{Dict}
use godoo_py.Value.{Value}
use godoo_py.Typed.{Model}
use godoo_py.Typed.Wire.{Cell, Calendar, odoo_wire_transforms}
use godoo_py.Typed.Instances.{
  Instance, State, Pydantic, Context, read_validation_context, is_read, model_post_init,
  set_attribute, model_validate, validate_typed, serialize_for_write,
}
use godoo_py.Typed.Instances.Payload.{
  user_fields, HasAttributes, IsWritten, serialize_for_write-IsWritten,
}
use godoo_py.Typed.Instances.Tracked.{
  is_many, assign_all, refused-NoMany, set_attribute-model, NoMany, set_attribute-NoMany,
}

module _ {Date DateTime : Type 0} (pydantic : Pydantic Date DateTime) where
  assign_all-NoMany :
      (assignments : List (String × Cell Date DateTime)) (i : Instance Date DateTime)
      → any (λ a. is_many i.model a.0) assignments ≡ false
      → NoMany pydantic i
      → NoMany pydantic (assign_all pydantic assignments i)
  assign_all-NoMany [] i h k = k
  assign_all-NoMany ((name, cell) ∷ rest) i h k =
      let i' = (set_attribute pydantic name cell i).1 in
      let model = set_attribute-model pydantic name cell i in
      assign_all-NoMany rest i'
        (subst (λ m. any (λ a. is_many m a.0) rest ≡ false) (sym model) (ground arith))
        (set_attribute-NoMany pydantic name cell i (ground arith) k)

  module _ (calendar : Calendar Date DateTime) where
    pub model_validate-built :
        (context : Context) (model : Model) (d : Dict String (Cell Date DateTime))
        (i : Instance Date DateTime)
        → model_validate pydantic calendar context model d ≡ ok i
        → (state : State Date DateTime) × (model_post_init context model state ≡ i)
    unfolding model_validate
    model_validate-built context model d i h =
        elim (Option-cases (pydantic.construct model (odoo_wire_transforms calendar model d))) [
          | inl gone ↦ absurd (ground arith)
          | inr (state, there) ↦
              let opened : model_validate pydantic calendar context model d
                  ≡ ok (model_post_init context model state) =
                rw (there, model_validate) refl in
              let same : ok (model_post_init context model state) ≡ ok i = sym opened ∙ h in
              (state, cc)
        ]

    validate_typed-built :
        (model : Model) (d : Dict String (Cell Date DateTime)) (i : Instance Date DateTime)
        → validate_typed pydantic calendar model d ≡ ok i
        → (state : State Date DateTime) × (model_post_init read_validation_context model state ≡ i)
    unfolding validate_typed
    validate_typed-built model d i h =
        elim (Result-cases (model_validate pydantic calendar read_validation_context model d)) [
          | inr (e, failed) ↦ absurd (ground arith)
          | inl (j, made) ↦
              model_validate-built read_validation_context model d i (made ∙ ground arith)
        ]

    -- An instance that `_validate_typed` built is written without an exception, after any assignments
    -- to fields that are not relations to many records, if every field that is set is an attribute.
    -- The payload has the fields that are sent and set, with the values that they have in the end.
    pub read_then_write-returns :
        (model : Model) (d : Dict String (Cell Date DateTime)) (i : Instance Date DateTime)
        (assignments : List (String × Cell Date DateTime))
        → validate_typed pydantic calendar model d ≡ ok i
        → any (λ a. is_many model a.0) assignments ≡ false
        → HasAttributes
            (assign_all pydantic assignments i).state.0
            (assign_all pydantic assignments i).state.1
        → (payload : Dict String Value) × (serialize_for_write calendar
              (assign_all pydantic assignments i)
            ≡ ok payload)
          × IsWritten calendar
              (assign_all pydantic assignments i)
              (assign_all pydantic assignments i).state.1
              []
              payload
    unfolding model_post_init is_read
    read_then_write-returns model d i assignments h k has =
        let (state, built) = validate_typed-built model d i h in
        let unwritten : user_fields i ≡ [] = ap user_fields (sym built) in
        let of_model : model ≡ i.model = ap (λ i. i.model) built in
        let end = assign_all pydantic assignments i in
        let none_many =
          assign_all-NoMany assignments i
            (subst (λ m. any (λ a. is_many m a.0) assignments ≡ false) of_model k)
            (ap (any (is_many i.model)) unwritten) in
        (serialize_for_write-IsWritten calendar end has).1
          (refused-NoMany end.model (user_fields end) end.state.1 none_many)
