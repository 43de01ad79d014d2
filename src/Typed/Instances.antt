-- ===== src/Typed/Instances.antt =====
-- Instances of `OdooBaseModel`: `model_post_init`, `__setattr__` and `_serialize_for_write` of
-- _pydantic_transform.py, and what client.py makes of them. What pydantic does to build an instance and
-- to set an attribute is a parameter.
pub mod Payload
pub mod Tracked
pub mod RoundTrip
pub mod Edited
pub mod Refused
mod Tests
use godoo_py.Base.{
  ℤ, String, string_eq, Bool, true, false, not, ◌&&◌, ◌||◌, Option, none, some, List, [], ◌∷◌, ◌==◌,
  elem, if◌then◌else◌, ok, err,
}
use godoo_py.Base.Dict.{Dict, lookup, insert, contains}
use godoo_py.Value.{Value, null, bool, int, str, list, nil, cons}
use godoo_py.Faults.{validation, value_error, attribute_error, type_error, Checked}
use godoo_py.Client.{Client, Outside, Rpc, ◌>>=◌, ◌>>◌, lift}
use godoo_py.Client.Call.{call}
use godoo_py.Client.Crud.{record_value}
use godoo_py.Typed.{FieldInfo, Model}
use godoo_py.Typed.Wire.{Cell, raw, a_ref, a_date, a_datetime, Calendar, odoo_wire_transforms}

module _ (Date DateTime : Type 0) where
  -- The attributes of an instance, and `model_fields_set`
  abbrev pub State : Type 0
  State = Dict String (Cell Date DateTime) × List String

  -- pydantic, where `none` stands for a `ValueError`, of which its `ValidationError` is a case:
  -- validation behind the transforms, and `BaseModel.__setattr__`
  pub record Pydantic : Type 0 where
    pub construct : Model → Dict String (Cell Date DateTime) → Option State
    pub assign : Model → State → String → Cell Date DateTime → Option State

  -- An instance. `_user_set_fields` may be missing.
  pub record Instance : Type 0 where
    pub model : Model
    pub state : State
    pub user_set : Option (List String)

-- The validation context
abbrev pub Context : Type 0
Context = Option (Dict String Value)

-- `READ_VALIDATION_CONTEXT`
abbrev pub read_validation_context : Context
read_validation_context = some (("godoo_read", bool true) ∷ [])

-- `is_read` of `model_post_init`
unfoldable pub is_read : Context → Bool
is_read none = false
is_read (some context) = elim (lookup "godoo_read" context) [
  | none ↦ false
  | some v ↦ elim v [ bool b ↦ b | _ ↦ false ]
]

-- `set.add`
abbrev pub add : String → List String → List String
add name names = if elem name names then names else name ∷ names

module _ {Date DateTime : Type 0} where
  -- `model_post_init`
  unfoldable pub model_post_init : Context → Model → State Date DateTime → Instance Date DateTime
  model_post_init context model state = record {
    model = model;
    state = state;
    user_set = some (if is_read context then [] else state.1);
  }

  -- The first half of `__setattr__`
  unfoldable pub tracked : String → Instance Date DateTime → Instance Date DateTime
  tracked name instance = elim instance.user_set [
    | none ↦ instance
    | some names ↦
        if contains name instance.model.model_fields
        then record instance { user_set = some (add name names) }
        else instance
  ]

  module _ (pydantic : Pydantic Date DateTime) where
    -- `__setattr__`: the exception, if any, and the instance that is left
    unfoldable pub set_attribute :
        String
        → Cell Date DateTime
        → Instance Date DateTime
        → Checked (Unit {0}) × Instance Date DateTime
    set_attribute name cell instance =
        let seen = tracked name instance in
        elim (pydantic.assign seen.model seen.state name cell) [
          | none ↦ (err value_error, seen)
          | some state ↦ (ok tt, record seen { state = state })
        ]

    module _ (calendar : Calendar Date DateTime) where
      -- `model_validate(data, context=…)`; a constructor call has no context.
      unfoldable pub model_validate :
          Context → Model → Dict String (Cell Date DateTime) → Checked (Instance Date DateTime)
      model_validate context model d =
          elim (pydantic.construct model (odoo_wire_transforms calendar model d)) [
            | none ↦ err value_error
            | some state ↦ ok (model_post_init context model state)
          ]

      -- `_validate_typed` of client.py
      unfoldable pub validate_typed :
          Model → Dict String (Cell Date DateTime) → Checked (Instance Date DateTime)
      validate_typed model d = elim (model_validate read_validation_context model d) [
        | err value_error ↦ err validation
        | r ↦ r
      ]

  module _ (calendar : Calendar Date DateTime) where
    -- The end of the loop of `_serialize_for_write`: the value that is sent
    unfoldable pub sent_value : Cell Date DateTime → Value
    sent_value (a_ref r) = int r.id
    sent_value (raw null) = bool false
    sent_value (raw v) = v
    sent_value (a_datetime t) = str (calendar.print_datetime t)
    sent_value (a_date d) = str (calendar.print_date d)

    -- The loop of `_serialize_for_write` over `model_fields_set`
    unfoldable pub serialize_fields :
        Instance Date DateTime
        → List String
        → List String
        → Dict String Value
        → Checked (Dict String Value)
    serialize_fields instance user_set [] payload = ok payload
    serialize_fields instance user_set (name ∷ names) payload =
        let rest = serialize_fields instance user_set names payload in
        if name == "id" then rest else elim (lookup name instance.model.model_fields) [
          | none ↦ rest
          | some info ↦
              if info.odoo_readonly
              then rest
              else if info.odoo_x2many
              then (if elem name user_set then err validation else rest)
              else elim (lookup name instance.state.0) [
                | none ↦ err attribute_error
                | some cell ↦
                    serialize_fields instance user_set names (insert name (sent_value cell) payload)
              ]
        ]

    -- `_serialize_for_write`
    unfoldable pub serialize_for_write : Instance Date DateTime → Checked (Dict String Value)
    serialize_for_write instance =
        let user_set : List String = elim instance.user_set [ none ↦ [] | some names ↦ names ] in
        serialize_fields instance user_set instance.state.1 []

    module _ (outside : Outside) where
      -- `create` of client.py on an instance
      unfoldable pub create_typed : Instance Date DateTime → Dict String Value → Rpc Value
      create_typed instance kwargs = do
        payload ← lift (serialize_for_write instance)
        call outside instance.model.odoo_model "create" (record_value payload ∷ []) kwargs

      -- `model.id`
      abbrev pub id_of : Instance Date DateTime → Checked (Cell Date DateTime)
      id_of instance = elim (lookup "id" instance.state.0) [
        | none ↦ err attribute_error
        | some cell ↦ ok cell
      ]

      -- `model.id is None`
      abbrev pub saved : Cell Date DateTime → Checked (Unit {0})
      saved (raw null) = err validation
      saved cell = ok tt

      -- The ID in the arguments of `write`: JSON has no other values than those.
      abbrev pub sent_id : Cell Date DateTime → Checked Value
      sent_id (raw v) = ok v
      sent_id cell = err type_error

      -- `write` of client.py on an instance
      unfoldable pub write_typed : Instance Date DateTime → Dict String Value → Rpc Value
      write_typed instance kwargs = do
        cell ← lift (id_of instance)
        lift (saved cell)
        payload ← lift (serialize_for_write instance)
        id ← lift (sent_id cell)
        call outside instance.model.odoo_model "write"
            (list (cons id nil) ∷ record_value payload ∷ []) kwargs
