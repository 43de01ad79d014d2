-- ===== src/Typed/Instances/Tracked.antt =====
-- What `_user_set_fields` remembers, through any number of assignments.
use mathlib.Core.Path.{subst}
use godoo_py.Base.{
  String, string_eq, ◌≡◌, ◌⊎◌, sym, ap, refl, Bool, true, false, ◌||◌, any, elem, none, List, [],
  ◌∷◌, ◌==◌, arith, inl, inr, Bool-cases, Option-cases, eq→path,
}
use godoo_py.Base.Dict.{contains}
use godoo_py.Typed.{Model}
use godoo_py.Typed.Wire.{Cell}
use godoo_py.Typed.Instances.{Instance, Pydantic, add, tracked, set_attribute}
use godoo_py.Typed.Instances.Payload.{is_writable, is_refused, user_fields}

-- A relation to many records that is not readonly
abbrev pub is_many : Model → String → Bool
is_many = is_writable (λ info. info.odoo_x2many)

pub elem-add :
    (k name : String) (names : List String) → elem k (add name names) ≡ (k == name || elem k names)
elem-add k name names = elim (Bool-cases (elem name names)) [
  | inr new ↦ rw (new, add) refl
  | inl there ↦ elim (Bool-cases (k == name)) [
    | inr other ↦ rw (there, other, add) refl
    | inl same ↦
        let here = subst (λ k. elem k names ≡ true) (sym (eq→path k name same)) there in
        rw (there, same, add) here
  ]
]

module _ {Date DateTime : Type 0} (pydantic : Pydantic Date DateTime) where
  -- The assignments of a list, one after the other, each of which may raise
  abbrev pub assign_all :
      List (String × Cell Date DateTime) → Instance Date DateTime → Instance Date DateTime
  assign_all [] instance = instance
  assign_all ((name, cell) ∷ rest) instance =
      assign_all rest (set_attribute pydantic name cell instance).1

  pub tracked-model :
      (name : String) (i : Instance Date DateTime) → (tracked name i).model ≡ i.model
  unfolding tracked
  tracked-model name i = elim (Option-cases i.user_set) [
    | inl gone ↦ rw (gone, tracked) refl
    | inr (names, there) ↦ elim (Bool-cases (contains name i.model.model_fields)) [
      | inl declared ↦ rw (there, declared, tracked) refl
      | inr other ↦ rw (there, other, tracked) refl
    ]
  ]

  pub set_attribute-model :
      (name : String) (cell : Cell Date DateTime) (i : Instance Date DateTime)
      → (set_attribute pydantic name cell i).1.model ≡ i.model
  unfolding set_attribute
  set_attribute-model name cell i =
      elim (Option-cases
        (pydantic.assign (tracked name i).model (tracked name i).state name cell)) [
          | inl gone ↦ rw (gone, set_attribute) (tracked-model name i)
          | inr (state, there) ↦ rw (there, set_attribute) (tracked-model name i)
        ]

  pub set_attribute-user :
      (name : String) (cell : Cell Date DateTime) (i : Instance Date DateTime)
      → user_fields (set_attribute pydantic name cell i).1 ≡ user_fields (tracked name i)
  unfolding set_attribute
  set_attribute-user name cell i =
      elim (Option-cases
        (pydantic.assign (tracked name i).model (tracked name i).state name cell)) [
          | inl gone ↦ rw (gone, set_attribute) refl
          | inr (state, there) ↦ rw (there, set_attribute) refl
        ]

  tracked-none :
      (name : String) (i : Instance Date DateTime) → i.user_set ≡ none → tracked name i ≡ i
  unfolding tracked
  tracked-none name i gone = simp (gone, tracked)

  tracked-undeclared :
      (name : String) (i : Instance Date DateTime)
      → contains name i.model.model_fields ≡ false
      → tracked name i ≡ i
  unfolding tracked
  tracked-undeclared name i other = elim (Option-cases i.user_set) [
    | inl gone ↦ tracked-none name i gone
    | inr (names, there) ↦ simp (there, other, tracked)
  ]

  pub tracked-user :
      (name : String) (i : Instance Date DateTime)
      → (user_fields (tracked name i) ≡ user_fields i)
        ⊎ (user_fields (tracked name i) ≡ add name (user_fields i))
  unfolding tracked
  tracked-user name i = elim (Option-cases i.user_set) [
    | inl gone ↦ inl (ap user_fields (tracked-none name i gone))
    | inr (names, there) ↦ elim (Bool-cases (contains name i.model.model_fields)) [
      | inl declared ↦ inr (rw (there, declared, tracked) refl)
      | inr other ↦ inl (ap user_fields (tracked-undeclared name i other))
    ]
  ]

-- None of the names is a relation to many records.
any-add :
    (p : String → Bool) (name : String) (names : List String)
    → p name ≡ false
    → any p names ≡ false
    → any p (add name names) ≡ false
any-add p name names h k = elim (Bool-cases (elem name names)) [
  | inl there ↦ rw (there, add) k
  | inr new ↦ rw (new, add, h) k
]

pub any-elem :
    (p : String → Bool) (name : String) (names : List String)
    → any p names ≡ false
    → elem name names ≡ true
    → p name ≡ false
any-elem p name [] h k = absurd cc
any-elem p name (n ∷ names) h k = elim (Bool-cases (name == n)) [
  | inr other ↦ any-elem p name names (ground arith) (ground arith)
  | inl same ↦ subst (λ k. p k ≡ false) (sym (eq→path name n same)) (ground arith)
]

pub elem-any :
    (p : String → Bool) (name : String) (names : List String)
    → p name ≡ true
    → elem name names ≡ true
    → any p names ≡ true
elem-any p name [] h k = absurd cc
elem-any p name (n ∷ names) h k = elim (Bool-cases (name == n)) [
  | inr other ↦ let later = elem-any p name names h (ground arith) in ground arith
  | inl same ↦ let here = subst (λ k. p k ≡ true) (eq→path name n same) h in ground arith
]

pub refused-NoMany :
    (model : Model) (user_set names : List String)
    → any (is_many model) user_set ≡ false
    → any (is_refused model user_set) names ≡ false
refused-NoMany model user_set [] h = refl
refused-NoMany model user_set (n ∷ names) h =
    let later = refused-NoMany model user_set names h in
    elim (Bool-cases (elem n user_set)) [
      | inl there ↦ let one = any-elem (is_many model) n user_set h there in rw (one, later) refl
      | inr other ↦ elim (Bool-cases (is_many model n)) [
        | inl many ↦ rw (many, other) later
        | inr one ↦ rw one later
      ]
    ]

module _ {Date DateTime : Type 0} (pydantic : Pydantic Date DateTime) where
  -- The user wrote no relation to many records.
  abbrev pub NoMany : Instance Date DateTime → Type 0
  NoMany i = any (is_many i.model) (user_fields i) ≡ false

  pub set_attribute-NoMany :
      (name : String) (cell : Cell Date DateTime) (i : Instance Date DateTime)
      → is_many i.model name ≡ false
      → NoMany i
      → NoMany (set_attribute pydantic name cell i).1
  set_attribute-NoMany name cell i one h =
      let user = set_attribute-user pydantic name cell i in
      let model = set_attribute-model pydantic name cell i in
      elim (tracked-user pydantic name i) [
        | inl same ↦ rw (model, user, same) h
        | inr more ↦ rw (model, user, more) (any-add (is_many i.model) name (user_fields i) one h)
      ]
