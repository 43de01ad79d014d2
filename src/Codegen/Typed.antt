-- ===== src/Codegen/Typed.antt =====
-- A generated field reads what Odoo sends for it as a value of its annotation.
use godoo_py.Base.{
  int_eq, String, string_eq, ◌≡◌, ◌∙◌, sym, ap, refl, Bool, true, false, not, ◌&&◌, List, [], ◌∷◌,
  ◌==◌, elem, if◌then◌else◌, ok, err, is_empty, inl, inr, Bool-cases, eq→path, Result-cases,
}
use godoo_py.Value.{Value, null, bool, int, float, str, list, tuple, dict}
use godoo_py.Faults.{Fault, Checked}
use godoo_py.Introspection.{FieldSchema}
use godoo_py.Typed.{a_class}
use godoo_py.Typed.Wire.{Calendar, wire_value}
use godoo_py.Codegen.{
  Texts, Emission, emit, emit_optional, many2one_field, selection_field, pydantic_field, first_case,
  field_cases, relation_of, model_to_classname, any_dict,
}
use godoo_py.Codegen.Typing.{
  or_false, is_str, is_pair, is_choice, is_entries, inhabits, conforms, conform_cases,
}
use godoo_py.Codegen.Reads.{
  str-Reads, int-Reads, number-Reads, bool-Reads, date-Reads, datetime-Reads, pair-Reads,
  list-Reads, choice-Reads, dict-Reads, entries-misread, any-Reads,
}

-- Every choice is a text.
choice-str :
    (values : List (String × String)) (v : Value)
    → or_false (is_choice values) v ≡ true
    → or_false is_str v ≡ true
choice-str values null h = absurd cc
choice-str values (bool true) h = absurd cc
choice-str values (bool false) h = refl
choice-str values (int n) h = absurd cc
choice-str values (float x) h = absurd cc
choice-str values (str text) h = refl
choice-str values (list vs) h = absurd cc
choice-str values (tuple vs) h = absurd cc
choice-str values (dict fs) h = absurd cc

module _ {Date DateTime : Type 0} (calendar : Calendar Date DateTime) where
  module _ (v : Value) where
    -- If the value conforms, then what it is read as is a value of the emitted annotation.
    pub record Fits (r : Checked Emission) (conforming : Bool) : Type 0 where
      pub fits :
          (e : Emission)
          → r ≡ ok e
          → conforming ≡ true
          → inhabits e.annotation (wire_value calendar e.annotation v) ≡ true

    either-Fits :
        (b : Bool) (r r' : Checked Emission) (c c' : Bool)
        → Fits r c
        → Fits r' c'
        → Fits (if b then r else r') (if b then c else c')
    either-Fits true r r' c c' h k = h
    either-Fits false r r' c c' h k = k

    -- The two chains make the same tests.
    abbrev Aligned : List (Bool × Checked Emission) → List (Bool × Bool) → Type 0
    Aligned [] [] = Unit
    Aligned (c ∷ cs) (d ∷ ds) = (c.0 ≡ d.0) × Fits c.1 d.1 × Aligned cs ds
    Aligned _ _ = ⊥

    first_case-Fits :
        (cs : List (Bool × Checked Emission)) (ds : List (Bool × Bool)) (r : Checked Emission)
        (d : Bool)
        → Aligned cs ds
        → Fits r d
        → Fits (first_case cs r) (first_case ds d)
    first_case-Fits [] [] r d h k = k
    first_case-Fits [] (x ∷ ds) r d h k = absurd h
    first_case-Fits (x ∷ cs) [] r d h k = absurd h
    first_case-Fits ((b, x) ∷ cs) ((b', y) ∷ ds) r d (same, here, h) k =
        rw (← same) (
          either-Fits b x (first_case cs r) y (first_case ds d) here
            (first_case-Fits cs ds r d h k))

    ok-Fits :
        (e : Emission) (conforming : Bool)
        → (conforming ≡ true → inhabits e.annotation (wire_value calendar e.annotation v) ≡ true)
        → Fits (ok e) conforming
    ok-Fits e conforming h = record {
      fits = λ e' same c.
          let here : e ≡ e' = cc in
          ap (λ e. inhabits e.annotation (wire_value calendar e.annotation v)) (sym here) ∙ h c;
    }

    err-Fits : (fault : Fault) (conforming : Bool) → Fits (err fault) conforming
    err-Fits fault conforming = record { fits = λ e made. absurd cc }

    many2one_field-Fits :
        (texts : Texts) (in_set : List String) (field : FieldSchema)
        → Fits (many2one_field texts in_set field) (or_false is_pair v)
    unfolding many2one_field emit
    many2one_field-Fits texts in_set field =
        elim (Bool-cases (not (relation_of field == "") && elem (relation_of field) in_set)) [
          | inr outside ↦ rw (outside, many2one_field) (ok-Fits _ _ (pair-Reads calendar "int" v))
          | inl inside ↦ elim (Result-cases (model_to_classname texts (relation_of field))) [
            | inr (fault, failed) ↦
                rw (inside, failed, many2one_field) (err-Fits fault (or_false is_pair v))
            | inl (target, named) ↦
                rw (inside, named, many2one_field) (ok-Fits _ _ (pair-Reads calendar target v))
          ]
        ]

    selection_field-Fits :
        (field : FieldSchema)
        → Fits (ok (selection_field field)) (or_false (is_choice field.selection) v)
    unfolding selection_field emit
    selection_field-Fits field = chosen field.selection refl
      where
        chosen :
            (values : List (String × String))
            → field.selection ≡ values
            → Fits (ok (selection_field field)) (or_false (is_choice field.selection) v)
        chosen [] e =
            let dynamic = ap is_empty e in
            rw (dynamic, selection_field)
              (ok-Fits _ _ (λ h. str-Reads calendar v (choice-str field.selection v h)))
        chosen (value ∷ values) e =
            rw (e, selection_field) (ok-Fits _ _ (choice-Reads calendar value values v))

    field_cases-Aligned :
        (texts : Texts) (in_set : List String) (field : FieldSchema)
        → (field.ttype == "properties") ≡ false
        → Aligned (field_cases texts in_set field) (conform_cases calendar field v)
    unfolding emit
    field_cases-Aligned texts in_set field other = (
      refl,
      ok-Fits _ _ (str-Reads calendar v),
      (
        refl,
        ok-Fits _ _ (int-Reads calendar v),
        (
          refl,
          ok-Fits _ _ (number-Reads calendar v),
          (
            refl,
            ok-Fits _ _ (bool-Reads calendar v),
            (
              refl,
              ok-Fits _ _ (date-Reads calendar v),
              (
                refl,
                ok-Fits _ _ (datetime-Reads calendar v),
                (
                  refl,
                  many2one_field-Fits texts in_set field,
                  (
                    refl,
                    ok-Fits _ _ (list-Reads calendar v),
                    (
                      refl,
                      selection_field-Fits field,
                      (refl, rw other (ok-Fits _ _ (dict-Reads calendar v)), tt),
                    ),
                  ),
                ),
              ),
            ),
          ),
        ),
      ),
    )

  typed_otherwise :
      (texts : Texts) (in_set : List String) (field : FieldSchema) (v : Value) (e : Emission)
      → (field.ttype == "properties") ≡ false
      → pydantic_field texts in_set field ≡ ok e
      → conforms calendar field v ≡ true
      → inhabits e.annotation (wire_value calendar e.annotation v) ≡ true
  unfolding pydantic_field emit
  typed_otherwise texts in_set field v e other made c =
      (first_case-Fits v (field_cases texts in_set field) (conform_cases calendar field v)
          (ok (emit_optional field (a_class "Any") ("Any" ∷ []))) true
          (field_cases-Aligned v texts in_set field other)
          (ok-Fits v (emit_optional field (a_class "Any") ("Any" ∷ [])) true
            (any-Reads calendar v))).fits
        e made c

  -- A field of the type `properties` is annotated as a dict.
  properties-emitted :
      (texts : Texts) (in_set : List String) (field : FieldSchema)
      → field.ttype ≡ "properties"
      → pydantic_field texts in_set field ≡ ok (emit_optional field any_dict ("Any" ∷ []))
  unfolding pydantic_field
  properties-emitted texts in_set field is_properties = rw is_properties refl

  properties-typed :
      (texts : Texts) (in_set : List String) (field : FieldSchema) (v : Value) (e : Emission)
      → field.ttype ≡ "properties"
      → pydantic_field texts in_set field ≡ ok e
      → conforms calendar field v ≡ true
      → inhabits e.annotation (wire_value calendar e.annotation v) ≡ not (is_entries v)
  unfolding emit
  properties-typed texts in_set field v e is_properties made c =
      let dict_line : Emission = emit_optional field any_dict ("Any" ∷ []) in
      let both : ok dict_line ≡ ok e =
        sym (properties-emitted texts in_set field is_properties) ∙ made in
      let same : dict_line ≡ e = cc in
      let sent : conforms calendar field v ≡ or_false is_entries v = rw is_properties refl in
      ap (λ e. inhabits e.annotation (wire_value calendar e.annotation v)) (sym same)
      ∙ entries-misread calendar v (sym sent ∙ c)

  -- If `pydantic_field_str` returns an annotation for a field, and a value is one that Odoo sends for a
  -- field of that type, which for a `json` field is an object or `False`, then what the wire transforms
  -- make of the value is a value of the annotation, unless it is the list of a `properties` field,
  -- which is none.
  pub pydantic_field-typed :
      (texts : Texts) (in_set : List String) (field : FieldSchema) (v : Value) (e : Emission)
      → pydantic_field texts in_set field ≡ ok e
      → conforms calendar field v ≡ true
      → inhabits e.annotation (wire_value calendar e.annotation v)
        ≡ not (field.ttype == "properties" && is_entries v)
  pydantic_field-typed texts in_set field v e made c =
      elim (Bool-cases (field.ttype == "properties")) [
        | inr other ↦ rw other (typed_otherwise texts in_set field v e other made c)
        | inl same ↦
            let is_properties = eq→path field.ttype "properties" same in
            rw same (properties-typed texts in_set field v e is_properties made c)
      ]
