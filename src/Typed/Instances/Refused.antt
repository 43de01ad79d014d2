-- ===== src/Typed/Instances/Refused.antt =====
-- A relation to many records that the user assigned is refused when the instance is written.
use mathlib.Core.Path.{subst}
use godoo_py.Base.{
  String, string_eq, ◌≡◌, ◌∙◌, sym, ap, refl, true, ◌||◌, elem, some, List, [], ◌∷◌, ◌==◌, arith,
  if◌then◌else◌, ok, err, inl, inr, Bool-cases, Option-cases,
}
use godoo_py.Base.Dict.{Dict, lookup, contains, contains-lookup}
use godoo_py.Base.Eq.{eq_refl}
use godoo_py.Typed.Instances.Edited.{model_validate-built}
use godoo_py.Faults.{validation}
use godoo_py.Typed.{Model}
use godoo_py.Typed.Wire.{Cell, Calendar}
use godoo_py.Typed.Instances.{
  Instance, State, Pydantic, Context, is_read, model_post_init, tracked, set_attribute,
  model_validate, serialize_for_write,
}
use godoo_py.Typed.Instances.Payload.{
  is_refused, user_fields, HasAttributes, serialize_for_write-IsWritten,
}
use godoo_py.Typed.Instances.Tracked.{
  is_many, assign_all, elem-add, elem-any, set_attribute-model, set_attribute-user, tracked-user,
}

module _ {Date DateTime : Type 0} (pydantic : Pydantic Date DateTime) where
  -- pydantic's promise: an assignment adds the name to `model_fields_set`, and nothing else.
  abbrev pub Sets : Type 0
  Sets =
      (model : Model) (before after : State Date DateTime) (name : String)
      (cell : Cell Date DateTime)
      → pydantic.assign model before name cell ≡ some after
      → (k : String) → elem k after.1 ≡ (k == name || elem k before.1)

  -- The user wrote this relation to many records, and it is set.
  abbrev Wrote : String → Instance Date DateTime → Type 0
  Wrote name i =
      (is_many i.model name ≡ true)
      × (elem name (user_fields i) ≡ true)
      × (elem name i.state.1 ≡ true)

  tracked-state : (name : String) (i : Instance Date DateTime) → (tracked name i).state ≡ i.state
  unfolding tracked
  tracked-state name i = elim (Option-cases i.user_set) [
    | inl gone ↦ rw (gone, tracked) refl
    | inr (names, there) ↦ elim (Bool-cases (contains name i.model.model_fields)) [
      | inl declared ↦ rw (there, declared, tracked) refl
      | inr other ↦ rw (there, other, tracked) refl
    ]
  ]

  set_attribute-user_kept :
      (k name : String) (cell : Cell Date DateTime) (i : Instance Date DateTime)
      → elem k (user_fields i) ≡ true
      → elem k (user_fields (set_attribute pydantic name cell i).1) ≡ true
  set_attribute-user_kept k name cell i h =
      let user = set_attribute-user pydantic name cell i in
      elim (tracked-user pydantic name i) [
        | inl same ↦ rw (user, same) h
        | inr more ↦ rw (user, more) (elem-add k name (user_fields i) ∙ ground arith)
      ]

  set_attribute-set_kept :
      (k name : String) (cell : Cell Date DateTime) (i : Instance Date DateTime)
      → Sets
      → elem k i.state.1 ≡ true
      → elem k (set_attribute pydantic name cell i).1.state.1 ≡ true
  unfolding set_attribute
  set_attribute-set_kept k name cell i sets h =
      let same = tracked-state name i in
      let kept : elem k (tracked name i).state.1 ≡ true = rw same h in
      elim (Option-cases
        (pydantic.assign (tracked name i).model (tracked name i).state name cell)) [
          | inl gone ↦ rw (gone, set_attribute) kept
          | inr (state, there) ↦
              rw (there, set_attribute)
                (sets (tracked name i).model (tracked name i).state state name cell there k
                  ∙ ground arith)
        ]

  set_attribute-Wrote :
      (k name : String) (cell : Cell Date DateTime) (i : Instance Date DateTime)
      → Sets
      → Wrote k i
      → Wrote k (set_attribute pydantic name cell i).1
  set_attribute-Wrote k name cell i sets (many, user, here) = (
    ap (λ m. is_many m k) (set_attribute-model pydantic name cell i) ∙ many,
    set_attribute-user_kept k name cell i user,
    set_attribute-set_kept k name cell i sets here,
  )

  assign_all-Wrote :
      (k : String) (assignments : List (String × Cell Date DateTime)) (i : Instance Date DateTime)
      → Sets
      → Wrote k i
      → Wrote k (assign_all pydantic assignments i)
  assign_all-Wrote k [] i sets h = h
  assign_all-Wrote k ((name, cell) ∷ rest) i sets h =
      assign_all-Wrote k rest (set_attribute pydantic name cell i).1 sets
        (set_attribute-Wrote k name cell i sets h)

  -- A declared name is noted down.
  many-contains :
      (model : Model) (name : String)
      → is_many model name ≡ true
      → contains name model.model_fields ≡ true
  many-contains model name h = elim (Option-cases (lookup name model.model_fields)) [
    | inl gone ↦ absurd (ground arith)
    | inr (info, there) ↦ contains-lookup name info model.model_fields there
  ]

  tracked-writes :
      (name : String) (i : Instance Date DateTime) (names : List String)
      → is_many i.model name ≡ true
      → i.user_set ≡ some names
      → elem name (user_fields (tracked name i)) ≡ true
  unfolding tracked
  tracked-writes name i names many user =
      let declared = many-contains i.model name many in
      rw (user, declared, tracked) (elem-add name name names ∙ rw (eq_refl name) refl)

  -- An assignment that returns writes the field, if the instance keeps track of the user's fields.
  set_attribute-writes :
      (name : String) (cell : Cell Date DateTime) (i : Instance Date DateTime) (names : List String)
      → Sets
      → is_many i.model name ≡ true
      → i.user_set ≡ some names
      → (set_attribute pydantic name cell i).0 ≡ ok tt
      → Wrote name (set_attribute pydantic name cell i).1
  unfolding set_attribute
  set_attribute-writes name cell i names sets many user returned =
      let model = set_attribute-model pydantic name cell i in
      let fields = set_attribute-user pydantic name cell i in
      elim (Option-cases
        (pydantic.assign (tracked name i).model (tracked name i).state name cell)) [
          | inl gone ↦ absurd (ground arith)
          | inr (state, there) ↦ (
            ap (λ m. is_many m name) model ∙ many,
            ap (elem name) fields ∙ tracked-writes name i names many user,
            rw (there, set_attribute)
                (sets (tracked name i).model (tracked name i).state state name cell there name
                  ∙ rw (eq_refl name) refl),
          )
        ]

  -- If an instance was built in any context, and an assignment to a relation to many records, declared
  -- and not readonly, returned, then the instance is not written: after any further assignments
  -- `_serialize_for_write` raises a validation error. An assignment is taken to add its name to
  -- `model_fields_set` and nothing else, and every field that is set to be an attribute.
  pub assigned-refused :
      (calendar : Calendar Date DateTime) (context : Context) (model : Model)
      (d : Dict String (Cell Date DateTime)) (i : Instance Date DateTime) (name : String)
      (cell : Cell Date DateTime) (later : List (String × Cell Date DateTime))
      → Sets
      → model_validate pydantic calendar context model d ≡ ok i
      → is_many model name ≡ true
      → (set_attribute pydantic name cell i).0 ≡ ok tt
      → HasAttributes
          (assign_all pydantic later (set_attribute pydantic name cell i).1).state.0
          (assign_all pydantic later (set_attribute pydantic name cell i).1).state.1
      → serialize_for_write calendar
          (assign_all pydantic later (set_attribute pydantic name cell i).1)
        ≡ err validation
  unfolding model_post_init
  assigned-refused calendar context model d i name cell later sets built many returned has =
      let (state, made) = model_validate-built pydantic calendar context model d i built in
      let of_model : model ≡ i.model = ap (λ i. i.model) made in
      let end = assign_all pydantic later (set_attribute pydantic name cell i).1 in
      let (many', user, here) =
        assign_all-Wrote name later (set_attribute pydantic name cell i).1 sets (
          set_attribute-writes name cell i (if is_read context then [] else state.1) sets
            (subst (λ m. is_many m name ≡ true) of_model many) (sym (ap (λ i. i.user_set) made))
            returned) in
      (serialize_for_write-IsWritten calendar end has).0 (
        elem-any (is_refused end.model (user_fields end)) name end.state.1 (rw (many', user) refl)
          here)
