-- ===== src/Codegen/Reads.antt =====
-- Each kind of field reads what Odoo sends for it as a value of its annotation.
use godoo_py.Base.{
  ℤ, int_eq, String, string_eq, ◌≡◌, ap, refl, Bool, true, false, not, ◌||◌, Option, none, some,
  List, [], ◌∷◌, ◌==◌, any, arith, inl, inr, Bool-cases, Option-cases,
}
use godoo_py.Value.{Value, null, bool, int, float, str, list, tuple, dict}
use godoo_py.Typed.{
  list_origin, ref_origin, other_origin, Annotation, a_class, of, Annotations, annotation_is,
  annotation_mentions_ref, is_list_annotated, ref_target_class,
}
use godoo_py.Typed.Wire.{
  Cell, raw, a_ref, a_date, a_datetime, Calendar, wire_value, text_cell, iso_date, iso_datetime,
  as_pair,
}
use godoo_py.Codegen.{constants, optional, any_dict}
use godoo_py.Codegen.Typing.{
  is_int, or_false, is_str, is_number, is_bool, is_list, is_dict, is_entries, is_pair, is_choice,
  is_date, is_datetime, inhabits, inhabits_any,
}

module _ {Date DateTime : Type 0} (calendar : Calendar Date DateTime) where
  -- What the value is read as is a value of the annotation.
  abbrev pub Reads : Annotation → Value → Type 0
  Reads a v = inhabits a (wire_value calendar a v) ≡ true

  pub str-Reads : (v : Value) → or_false is_str v ≡ true → Reads (optional (a_class "str")) v
  unfolding inhabits wire_value text_cell annotation_is is_list_annotated annotation_mentions_ref
  str-Reads null h = absurd cc
  str-Reads (bool true) h = absurd cc
  str-Reads (bool false) h = refl
  str-Reads (int n) h = absurd cc
  str-Reads (float x) h = absurd cc
  str-Reads (str text) h = refl
  str-Reads (list vs) h = absurd cc
  str-Reads (tuple vs) h = absurd cc
  str-Reads (dict fs) h = absurd cc

  pub int-Reads : (v : Value) → or_false is_int v ≡ true → Reads (optional (a_class "int")) v
  unfolding inhabits wire_value text_cell annotation_is is_list_annotated annotation_mentions_ref
  int-Reads null h = absurd cc
  int-Reads (bool true) h = absurd cc
  int-Reads (bool false) h = refl
  int-Reads (int n) h = refl
  int-Reads (float x) h = absurd cc
  int-Reads (str text) h = absurd cc
  int-Reads (list vs) h = absurd cc
  int-Reads (tuple vs) h = absurd cc
  int-Reads (dict fs) h = absurd cc

  pub number-Reads :
      (v : Value) → or_false is_number v ≡ true → Reads (optional (a_class "float")) v
  unfolding inhabits wire_value text_cell annotation_is is_list_annotated annotation_mentions_ref
  number-Reads null h = absurd cc
  number-Reads (bool true) h = absurd cc
  number-Reads (bool false) h = refl
  number-Reads (int n) h = refl
  number-Reads (float x) h = refl
  number-Reads (str text) h = absurd cc
  number-Reads (list vs) h = absurd cc
  number-Reads (tuple vs) h = absurd cc
  number-Reads (dict fs) h = absurd cc

  pub bool-Reads : (v : Value) → is_bool v ≡ true → Reads (a_class "bool") v
  unfolding inhabits wire_value text_cell annotation_is is_list_annotated annotation_mentions_ref
  bool-Reads null h = absurd cc
  bool-Reads (bool true) h = refl
  bool-Reads (bool false) h = refl
  bool-Reads (int n) h = absurd cc
  bool-Reads (float x) h = absurd cc
  bool-Reads (str text) h = absurd cc
  bool-Reads (list vs) h = absurd cc
  bool-Reads (tuple vs) h = absurd cc
  bool-Reads (dict fs) h = absurd cc

  pub list-Reads :
      (v : Value)
      → or_false is_list v ≡ true
      → Reads (of list_origin (Annotations.cons (a_class "int") Annotations.nil)) v
  unfolding inhabits wire_value text_cell annotation_is is_list_annotated annotation_mentions_ref
  list-Reads null h = absurd cc
  list-Reads (bool true) h = absurd cc
  list-Reads (bool false) h = refl
  list-Reads (int n) h = absurd cc
  list-Reads (float x) h = absurd cc
  list-Reads (str text) h = absurd cc
  list-Reads (list vs) h = h
  list-Reads (tuple vs) h = absurd cc
  list-Reads (dict fs) h = absurd cc

  pub dict-Reads : (v : Value) → or_false is_dict v ≡ true → Reads (optional any_dict) v
  unfolding inhabits wire_value text_cell annotation_is is_list_annotated annotation_mentions_ref
  dict-Reads null h = absurd cc
  dict-Reads (bool true) h = absurd cc
  dict-Reads (bool false) h = refl
  dict-Reads (int n) h = absurd cc
  dict-Reads (float x) h = absurd cc
  dict-Reads (str text) h = absurd cc
  dict-Reads (list vs) h = absurd cc
  dict-Reads (tuple vs) h = absurd cc
  dict-Reads (dict fs) h = refl

  -- The list of a `properties` field is no value of the annotation for a dict.
  pub entries-misread :
      (v : Value)
      → or_false is_entries v ≡ true
      → inhabits (optional any_dict) (wire_value calendar (optional any_dict) v)
        ≡ not (is_entries v)
  unfolding inhabits wire_value text_cell annotation_is is_list_annotated annotation_mentions_ref
  entries-misread null h = absurd cc
  entries-misread (bool true) h = absurd cc
  entries-misread (bool false) h = refl
  entries-misread (int n) h = absurd cc
  entries-misread (float x) h = absurd cc
  entries-misread (str text) h = absurd cc
  entries-misread (list vs) h = refl
  entries-misread (tuple vs) h = absurd cc
  entries-misread (dict fs) h = absurd cc

  pub any-Reads : (v : Value) → true ≡ true → Reads (optional (a_class "Any")) v
  unfolding inhabits wire_value text_cell annotation_is is_list_annotated annotation_mentions_ref
  any-Reads null h = refl
  any-Reads (bool true) h = refl
  any-Reads (bool false) h = refl
  any-Reads (int n) h = refl
  any-Reads (float x) h = refl
  any-Reads (str text) h = refl
  any-Reads (list vs) h = refl
  any-Reads (tuple vs) h = refl
  any-Reads (dict fs) h = refl

  -- The cells that the last rules make of what was parsed
  abbrev date_cell : String → Option Date → Cell Date DateTime
  date_cell text o = elim o [ some d ↦ a_date d | none ↦ raw (str text) ]

  abbrev datetime_cell : String → Option DateTime → Cell Date DateTime
  datetime_cell text o = elim o [ some t ↦ a_datetime t | none ↦ raw (str text) ]

  abbrev pair_cell : Option String → Value → Option (ℤ × Option String) → Cell Date DateTime
  pair_cell target v o = elim o [
    | none ↦ raw v
    | some (n, name) ↦ a_ref (record { id = n; name = name; target = target })
  ]

  pub date-Reads :
      (v : Value) → or_false (is_date calendar) v ≡ true → Reads (optional (a_class "date")) v
  unfolding inhabits wire_value text_cell annotation_is is_list_annotated annotation_mentions_ref
  date-Reads null h = absurd cc
  date-Reads (bool true) h = absurd cc
  date-Reads (bool false) h = refl
  date-Reads (int n) h = absurd cc
  date-Reads (float x) h = absurd cc
  date-Reads (str text) h = elim (Option-cases (iso_date calendar text)) [
    | inl bad ↦ absurd (ground arith)
    | inr (d, good) ↦ ap (λ o. inhabits (optional (a_class "date")) (date_cell text o)) good
  ]
  date-Reads (list vs) h = absurd cc
  date-Reads (tuple vs) h = absurd cc
  date-Reads (dict fs) h = absurd cc

  pub datetime-Reads :
      (v : Value)
      → or_false (is_datetime calendar) v ≡ true
      → Reads (optional (a_class "datetime")) v
  unfolding inhabits wire_value text_cell annotation_is is_list_annotated annotation_mentions_ref
  datetime-Reads null h = absurd cc
  datetime-Reads (bool true) h = absurd cc
  datetime-Reads (bool false) h = refl
  datetime-Reads (int n) h = absurd cc
  datetime-Reads (float x) h = absurd cc
  datetime-Reads (str text) h = elim (Option-cases (iso_datetime calendar text)) [
    | inl bad ↦ absurd (ground arith)
    | inr (t, good) ↦ ap (λ o. inhabits (optional (a_class "datetime")) (datetime_cell text o)) good
  ]
  datetime-Reads (list vs) h = absurd cc
  datetime-Reads (tuple vs) h = absurd cc
  datetime-Reads (dict fs) h = absurd cc

  pub pair-Reads :
      (target : String) (v : Value)
      → or_false is_pair v ≡ true
      → Reads (optional (of ref_origin (Annotations.cons (a_class target) Annotations.nil))) v
  unfolding inhabits wire_value text_cell annotation_is is_list_annotated annotation_mentions_ref
      ref_target_class as_pair
  pair-Reads target null h = absurd cc
  pair-Reads target (bool true) h = absurd cc
  pair-Reads target (bool false) h = refl
  pair-Reads target (int n) h = absurd cc
  pair-Reads target (float x) h = absurd cc
  pair-Reads target (str text) h = absurd cc
  pair-Reads target (list vs) h = elim (Option-cases (as_pair (list vs))) [
    | inl bad ↦ absurd (ground arith)
    | inr (pair, good) ↦
        ap
          (λ o.
            inhabits (optional (of ref_origin (Annotations.cons (a_class target) Annotations.nil)))
              (pair_cell (some target) (list vs) o))
          good
  ]
  pair-Reads target (tuple vs) h = absurd cc
  pair-Reads target (dict fs) h = absurd cc

  or_true : (b : Bool) → (b || true) ≡ true
  or_true true = refl
  or_true false = refl

  constants-inhabits :
      (values : List (String × String)) (text : String)
      → any (λ v. text == v.0) values ≡ true
      → inhabits_any (constants values) (let cell : Cell Date DateTime = raw (str text) in cell)
        ≡ true
  unfolding inhabits
  constants-inhabits [] text h = absurd cc
  constants-inhabits ((value, label) ∷ rest) text h = elim (Bool-cases (text == value)) [
    | inl here ↦ rw here refl
    | inr other ↦ rw other (constants-inhabits rest text (ground arith))
  ]

  pub choice-Reads :
      (value : String × String) (values : List (String × String)) (v : Value)
      → or_false (is_choice (value ∷ values)) v ≡ true
      → Reads (optional (of (other_origin "Literal") (constants (value ∷ values)))) v
  unfolding inhabits wire_value text_cell annotation_is is_list_annotated annotation_mentions_ref
  choice-Reads value values null h = absurd cc
  choice-Reads value values (bool true) h = absurd cc
  choice-Reads value values (bool false) h = or_true _
  choice-Reads value values (int n) h = absurd cc
  choice-Reads value values (float x) h = absurd cc
  choice-Reads value values (str text) h =
      let one : inhabits_any (constants (value ∷ values))
            (let cell : Cell Date DateTime = raw (str text) in cell)
          ≡ true =
        constants-inhabits (value ∷ values) text h in
      ap (λ b. b || false) one
  choice-Reads value values (list vs) h = absurd cc
  choice-Reads value values (tuple vs) h = absurd cc
  choice-Reads value values (dict fs) h = absurd cc
