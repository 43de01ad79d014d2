-- ===== src/Codegen/Imported.antt =====
-- `generate` imports the names that its field lines use.
use godoo_py.Base.{
  String, string_eq, pair_eq, ◌≡◌, ◌∙◌, sym, ap, refl, Bool, true, false, not, ◌&&◌, List, [], ◌∷◌,
  ◌==◌, elem, any, if◌then◌else◌, ok, err, is_empty, arith, inl, inr, Bool-cases, Result-cases, All,
}
use godoo_py.Base.Eq.{eq_refl}
use godoo_py.Faults.{Fault, Checked}
use godoo_py.Introspection.{FieldSchema}
use godoo_py.Typed.{union, list_origin, other_origin, a_class, of, nil, cons}
use godoo_py.Codegen.{
  Texts, Emission, emit, many2one_field, selection_field, pydantic_field, constants, relation_of,
  model_to_classname, model_to_stem, emit_optional, any_dict, first_case, field_cases,
}
use godoo_py.Codegen.Modules.{Progress, is_in_set, cross_import, add_entry}
use godoo_py.Codegen.Bound.{
  always_bound, tokens, is_bound, uses_bound, args_bound, wider-uses, add_entry-here,
  add_entry-kept,
}

constants-bound :
    (imports : List String) (entries : List (String × String)) (values : List (String × String))
    → args_bound imports entries (constants values) ≡ true
unfolding uses_bound
constants-bound imports entries [] = refl
constants-bound imports entries ((value, label) ∷ rest) = constants-bound imports entries rest

-- A field line, if there is one, uses names that are bound by its imports and the entries.
pub record IsBound (entries : List (String × String)) (r : Checked Emission) : Type 0 where
  pub bound : (e : Emission) → r ≡ ok e → uses_bound e.imports entries e.annotation ≡ true

module _ (entries : List (String × String)) where
  either-IsBound :
      (b : Bool) (r r' : Checked Emission)
      → (b ≡ true → IsBound entries r)
      → (b ≡ false → IsBound entries r')
      → IsBound entries (if b then r else r')
  either-IsBound true r r' h k = h refl
  either-IsBound false r r' h k = k refl

  first_case-IsBound :
      (cases : List (Bool × Checked Emission)) (default : Checked Emission)
      → All (λ c. c.0 ≡ true → IsBound entries c.1) cases
      → IsBound entries default
      → IsBound entries (first_case cases default)
  first_case-IsBound [] default h k = k
  first_case-IsBound ((b, r) ∷ cases) default (here, h) k =
      either-IsBound b r (first_case cases default) here (λ e. first_case-IsBound cases default h k)

  ok-IsBound :
      (e : Emission) → uses_bound e.imports entries e.annotation ≡ true → IsBound entries (ok e)
  ok-IsBound e h = record {
    bound = λ e' same.
        let here : e ≡ e' = cc in
        ap (λ e. uses_bound e.imports entries e.annotation) (sym here) ∙ h;
  }

  err-IsBound : (fault : Fault) → IsBound entries (err fault)
  err-IsBound fault = record { bound = λ e made. absurd cc }

  literal-bound :
      (values : List (String × String))
      → uses_bound ("Literal" ∷ []) entries (
          of union
            (cons (of (other_origin "Literal") (constants values)) (cons (a_class "None") nil)))
        ≡ true
  unfolding uses_bound
  literal-bound values = let all = constants-bound ("Literal" ∷ []) entries values in rw all refl

  selection_field-IsBound : (field : FieldSchema) → IsBound entries (ok (selection_field field))
  unfolding selection_field emit uses_bound
  selection_field-IsBound field = elim (Bool-cases (is_empty field.selection)) [
    | inl dynamic ↦ rw (dynamic, selection_field) (ok-IsBound _ refl)
    | inr static ↦ rw (static, selection_field) (ok-IsBound _ (literal-bound field.selection))
  ]

entry-bound :
    (imports : List String) (entries : List (String × String)) (name : String)
    → any (λ entry. entry.1 == name) entries ≡ true
    → is_bound imports entries name ≡ true
entry-bound imports entries name h = ground arith

module _ (texts : Texts) (in_set : List String) where
  -- A many2one to a generated model uses its class, which the entries then have.
  many2one_field-IsBound :
      (field : FieldSchema) (entries entries' : List (String × String))
      → (field.ttype == "many2one") ≡ true
      → cross_import texts in_set field entries ≡ ok entries'
      → IsBound entries' (many2one_field texts in_set field)
  unfolding many2one_field cross_import emit uses_bound
  many2one_field-IsBound field entries entries' is_relation crossed =
      either-IsBound entries' (not (relation_of field == "") && elem (relation_of field) in_set) _ _
        (λ inside. elim (Result-cases (model_to_classname texts (relation_of field))) [
          | inr (fault, failed) ↦ rw failed (err-IsBound entries' fault)
          | inl (target, named) ↦
              let entry : String × String = (model_to_stem (relation_of field), target) in
              let opened : cross_import texts in_set field entries ≡ ok (add_entry entry entries) =
                rw (is_relation, inside, named, cross_import) refl in
              let same : ok (add_entry entry entries) ≡ ok entries' = sym opened ∙ crossed in
              let added : add_entry entry entries ≡ entries' = cc in
              let here = entry-bound ("Ref" ∷ []) entries' target (
                ap (any (λ entry. entry.1 == target)) (sym added)
                ∙ add_entry-here (λ entry. entry.1 == target) entry entries (eq_refl target)) in
              rw named (ok-IsBound entries' _ (rw here refl))
        ])
        (λ outside. ok-IsBound entries' _ refl)

  pub pydantic_field-IsBound :
      (field : FieldSchema) (entries entries' : List (String × String))
      → cross_import texts in_set field entries ≡ ok entries'
      → IsBound entries' (pydantic_field texts in_set field)
  unfolding pydantic_field emit uses_bound
  pydantic_field-IsBound field entries entries' crossed =
      first_case-IsBound entries' (field_cases texts in_set field)
        (ok (emit_optional field (a_class "Any") ("Any" ∷ [])))
        (
          λ h. ok-IsBound entries' (emit_optional field (a_class "str") []) refl,
          (
            λ h. ok-IsBound entries' (emit_optional field (a_class "int") []) refl,
            (
              λ h. ok-IsBound entries' (emit_optional field (a_class "float") []) refl,
              (
                λ h. ok-IsBound entries' (emit field (a_class "bool") "False" "" []) refl,
                (
                  λ h.
                      ok-IsBound entries' (emit_optional field (a_class "date") ("date" ∷ [])) refl,
                  (
                    λ h.
                        ok-IsBound entries'
                          (emit_optional field (a_class "datetime") ("datetime" ∷ [])) refl,
                    (
                      λ h. many2one_field-IsBound field entries entries' h crossed,
                      (
                        λ h.
                            ok-IsBound entries'
                              (emit field (of list_origin (cons (a_class "int") nil)) "[]" "" [])
                              refl,
                        (
                          λ h. selection_field-IsBound entries' field,
                          (
                            λ h.
                                ok-IsBound entries' (emit_optional field any_dict ("Any" ∷ []))
                                  refl,
                            (tt),
                          ),
                        ),
                      ),
                    ),
                  ),
                ),
              ),
            ),
          ),
        )
        (ok-IsBound entries' (emit_optional field (a_class "Any") ("Any" ∷ [])) refl)

  -- The names that were bound stay bound when a field is emitted.
  pub cross_import-kept :
      (p : String × String → Bool) (field : FieldSchema) (entries entries' : List (String × String))
      → cross_import texts in_set field entries ≡ ok entries'
      → any p entries ≡ true
      → any p entries' ≡ true
  unfolding cross_import
  cross_import-kept p field entries entries' crossed h =
      elim (Bool-cases (is_in_set in_set field)) [
        | inr outside ↦ let same : entries ≡ entries' = ground arith in ap (any p) (sym same) ∙ h
        | inl inside ↦ elim (Result-cases (model_to_classname texts (relation_of field))) [
          | inr (fault, failed) ↦ absurd (ground arith)
          | inl (target, named) ↦
              let entry : String × String = (model_to_stem (relation_of field), target) in
              let opened : cross_import texts in_set field entries ≡ ok (add_entry entry entries) =
                rw (inside, named, cross_import) refl in
              let same : ok (add_entry entry entries) ≡ ok entries' = sym opened ∙ crossed in
              let added : add_entry entry entries ≡ entries' = cc in
              ap (any p) (sym added) ∙ add_entry-kept p entry entries h
        ]
      ]

-- The names that the emitted field lines use are bound.
abbrev pub AllBound : Progress → Type 0
AllBound p = All (λ f. uses_bound p.imports p.cross_imports f.1.annotation ≡ true) p.emitted

pub is_bound-wider :
    (imports more : List String) (entries entries' : List (String × String)) (name : String)
    → (elem name imports ≡ true → elem name more ≡ true)
    → (any (λ entry. entry.1 == name) entries ≡ true
        → any (λ entry. entry.1 == name) entries' ≡ true)
    → is_bound imports entries name ≡ true
    → is_bound more entries' name ≡ true
is_bound-wider imports more entries entries' name h k b =
    elim (Bool-cases (elem name always_bound)) [
      | inl always ↦ ground arith
      | inr other ↦ elim (Bool-cases (elem name imports)) [
        | inl here ↦ elim (Bool-cases (elem name tokens)) [
          | inl token ↦ let there = h here in ground arith
          | inr unknown ↦ let there = k (ground arith) in ground arith
        ]
        | inr gone ↦ let there = k (ground arith) in ground arith
      ]
    ]

pub All-wider :
    (imports more : List String) (entries entries' : List (String × String))
    (emitted : List (String × Emission))
    → ((name : String) → is_bound imports entries name ≡ true → is_bound more entries' name ≡ true)
    → All (λ f. uses_bound imports entries f.1.annotation ≡ true) emitted
    → All (λ f. uses_bound more entries' f.1.annotation ≡ true) emitted
All-wider imports more entries entries' [] wider h = tt
All-wider imports more entries entries' (f ∷ emitted) wider h = (
  wider-uses imports more entries entries' wider f.1.annotation h.0,
  All-wider imports more entries entries' emitted wider h.1,
)
