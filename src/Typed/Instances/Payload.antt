-- ===== src/Typed/Instances/Payload.antt =====
-- What `_serialize_for_write` writes, field by field.
use mathlib.Core.Path.{subst}
use godoo_py.Base.{
  String, string_eq, ◌≡◌, ◌∙◌, sym, refl, Bool, true, false, not, ◌&&◌, any, elem, Option, none,
  some, List, [], ◌∷◌, ◌==◌, arith, if◌then◌else◌, ok, err, inl, inr, Bool-cases, Option-cases, All,
  eq→path,
}
use godoo_py.Base.Dict.{Dict, lookup, insert, lookup-insert}
use godoo_py.Value.{Value}
use godoo_py.Faults.{validation}
use godoo_py.Typed.{FieldInfo, Model}
use godoo_py.Typed.Wire.{Cell, Calendar}
use godoo_py.Typed.Instances.{Instance, sent_value, serialize_fields, serialize_for_write}

-- A declared field other than the ID, that is not readonly
abbrev pub is_writable : (FieldInfo → Bool) → Model → String → Bool
is_writable p model name = not (name == "id") && elim (lookup name model.model_fields) [
  | none ↦ false
  | some info ↦ not info.odoo_readonly && p info
]

-- A scalar field that may be written
abbrev pub is_sent : Model → String → Bool
is_sent = is_writable (λ info. not info.odoo_x2many)

-- A relation to many records, which the user wrote
abbrev pub is_refused : Model → List String → String → Bool
is_refused model user_set name =
    is_writable (λ info. info.odoo_x2many) model name && elem name user_set

module _ {Date DateTime : Type 0} where
  -- `_user_set_fields`, empty if it is missing
  abbrev pub user_fields : Instance Date DateTime → List String
  user_fields instance = elim instance.user_set [ none ↦ [] | some names ↦ names ]

  -- pydantic's promise: what is set is an attribute.
  abbrev pub HasAttributes : Dict String (Cell Date DateTime) → List String → Type 0
  HasAttributes attributes names =
      All (λ name. (cell : Cell Date DateTime) × (lookup name attributes ≡ some cell)) names

module _ {Date DateTime : Type 0} (calendar : Calendar Date DateTime)
    (instance : Instance Date DateTime) where
  -- The value that a field is written with
  abbrev pub written : String → Option Value
  written name = elim (lookup name instance.state.0) [
    | none ↦ none
    | some cell ↦ some (sent_value calendar cell)
  ]

  serialize_fields-step :
      (user_set names : List String) (name : String) (cell : Cell Date DateTime)
      (payload : Dict String Value)
      → lookup name instance.state.0 ≡ some cell
      → serialize_fields calendar instance user_set (name ∷ names) payload ≡ (
          if is_sent instance.model name
          then serialize_fields calendar instance user_set names
              (insert name (sent_value calendar cell) payload)
          else if is_refused instance.model user_set name
          then err validation
          else serialize_fields calendar instance user_set names payload)
  unfolding serialize_fields
  serialize_fields-step user_set names name cell payload held =
      elim (Option-cases (lookup name instance.model.model_fields)) [
        | inl gone ↦ elim (Bool-cases (name == "id")) [
          | inl same ↦ rw (gone, same, serialize_fields) refl
          | inr other ↦ rw (gone, other, serialize_fields) refl
        ]
        | inr (info, there) ↦ elim (Bool-cases (name == "id")) [
          | inl same ↦ rw (there, same, serialize_fields) refl
          | inr other ↦ elim (Bool-cases info.odoo_readonly) [
            | inl fixed ↦ rw (there, other, fixed, serialize_fields) refl
            | inr free ↦ elim (Bool-cases info.odoo_x2many) [
              | inl many ↦ rw (there, other, free, many, serialize_fields) refl
              | inr one ↦ rw (there, other, free, one, held, serialize_fields) refl
            ]
          ]
        ]
      ]

  sent-refused :
      (user_set : List String) (name : String)
      → is_sent instance.model name ≡ true
      → is_refused instance.model user_set name ≡ false
  sent-refused user_set name h = elim (Option-cases (lookup name instance.model.model_fields)) [
    | inl gone ↦ ground arith
    | inr (info, there) ↦ ground arith
  ]

  -- The payload has the written fields among the names, over what it had.
  abbrev pub IsWritten : List String → Dict String Value → Dict String Value → Type 0
  IsWritten names before payload =
      (name : String)
      → lookup name payload ≡ (
          if elem name names && is_sent instance.model name
          then written name
          else lookup name before)

  pub written-held :
      (name : String) (cell : Cell Date DateTime)
      → lookup name instance.state.0 ≡ some cell
      → written name ≡ some (sent_value calendar cell)
  written-held name cell h = rw (h, written) refl

  IsWritten-sent :
      (name : String) (cell : Cell Date DateTime) (names : List String)
      (before payload : Dict String Value)
      → lookup name instance.state.0 ≡ some cell
      → is_sent instance.model name ≡ true
      → IsWritten names (insert name (sent_value calendar cell) before) payload
      → IsWritten (name ∷ names) before payload
  IsWritten-sent name cell names before payload held sent h k =
      let inserted = lookup-insert k name (sent_value calendar cell) before in
      elim (Bool-cases (k == name)) [
        | inr other ↦ h k ∙ rw (inserted, other) refl
        | inl same ↦
            let sent' =
              subst (λ k. is_sent instance.model k ≡ true) (sym (eq→path k name same)) sent in
            let held' =
              subst (λ k. lookup k instance.state.0 ≡ some cell) (sym (eq→path k name same)) held in
            elim (Bool-cases (elem k names)) [
              | inl again ↦ h k ∙ rw (again, sent', same) refl
              | inr once ↦ h k ∙ rw (once, sent', inserted, same) (sym (written-held k cell held'))
            ]
      ]

  IsWritten-skipped :
      (name : String) (names : List String) (before payload : Dict String Value)
      → is_sent instance.model name ≡ false
      → IsWritten names before payload
      → IsWritten (name ∷ names) before payload
  IsWritten-skipped name names before payload skipped h k = elim (Bool-cases (k == name)) [
    | inr other ↦ h k ∙ rw other refl
    | inl same ↦
        let skipped' =
          subst (λ k. is_sent instance.model k ≡ false) (sym (eq→path k name same)) skipped in
        elim (Bool-cases (elem k names)) [
          | inl again ↦ h k ∙ rw (again, skipped', same) refl
          | inr once ↦ h k ∙ rw (once, skipped', same) refl
        ]
  ]

  serialize_fields-payload :
      (user_set names : List String) (before : Dict String Value)
      → HasAttributes instance.state.0 names
      → any (is_refused instance.model user_set) names ≡ false
      → (payload : Dict String Value) × (serialize_fields calendar instance user_set names before
          ≡ ok payload)
        × IsWritten names before payload
  unfolding serialize_fields
  serialize_fields-payload user_set [] before h k = (before, refl, λ name. refl)
  serialize_fields-payload user_set (n ∷ names) before ((cell, held), h) k =
      let step = serialize_fields-step user_set names n cell before held in
      let kept : is_refused instance.model user_set n ≡ false = ground arith in
      let others : any (is_refused instance.model user_set) names ≡ false = ground arith in
      elim (Bool-cases (is_sent instance.model n)) [
        | inl sent ↦
            let v = sent_value calendar cell in
            let (payload, e, w) =
              serialize_fields-payload user_set names (insert n v before) h others in
            (
              payload,
              step ∙ rw (sent, e) refl,
              IsWritten-sent n cell names before payload held sent w,
            )
        | inr skipped ↦
            let (payload, e, w) = serialize_fields-payload user_set names before h others in
            (
              payload,
              step ∙ rw (skipped, kept, e) refl,
              IsWritten-skipped n names before payload skipped w,
            )
      ]

  serialize_fields-refuses :
      (user_set names : List String) (before : Dict String Value)
      → HasAttributes instance.state.0 names
      → any (is_refused instance.model user_set) names ≡ true
      → serialize_fields calendar instance user_set names before ≡ err validation
  unfolding serialize_fields
  serialize_fields-refuses user_set [] before h k = absurd cc
  serialize_fields-refuses user_set (n ∷ names) before ((cell, held), h) k =
      let step = serialize_fields-step user_set names n cell before held in
      elim (Bool-cases (is_sent instance.model n)) [
        | inl sent ↦
            let kept = sent-refused user_set n sent in
            let later =
              serialize_fields-refuses user_set names (insert n (sent_value calendar cell) before) h
                (ground arith) in
            step ∙ rw (sent, later) refl
        | inr skipped ↦ elim (Bool-cases (is_refused instance.model user_set n)) [
          | inl here ↦ step ∙ rw (skipped, here) refl
          | inr kept ↦
              let later = serialize_fields-refuses user_set names before h (ground arith) in
              step ∙ rw (skipped, kept, later) refl
        ]
      ]

  -- If every field that is set is an attribute: `_serialize_for_write` raises a validation error if the
  -- user wrote a relation to many records that is set and not readonly. Otherwise it returns a payload
  -- that has the value to send of each field that is set, declared, no such relation, not readonly and
  -- not the ID, and nothing else.
  pub serialize_for_write-IsWritten :
      HasAttributes instance.state.0 instance.state.1
      → (any (is_refused instance.model (user_fields instance)) instance.state.1 ≡ true
          → serialize_for_write calendar instance ≡ err validation)
        × (any (is_refused instance.model (user_fields instance)) instance.state.1 ≡ false
            → (payload : Dict String Value) × (serialize_for_write calendar instance ≡ ok payload)
              × IsWritten instance.state.1 [] payload)
  unfolding serialize_for_write
  serialize_for_write-IsWritten h = (
    serialize_fields-refuses (user_fields instance) instance.state.1 [] h,
    serialize_fields-payload (user_fields instance) instance.state.1 [] h,
  )
