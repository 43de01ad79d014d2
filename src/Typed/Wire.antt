-- ===== src/Typed/Wire.antt =====
-- `_odoo_wire_transforms` of `OdooBaseModel`. The dates of Python, and what `fromisoformat` and
-- `isoformat` make of texts and dates, are parameters.
use godoo_py.Base.{
  ℕ, suc, nat_eq, ℤ, pos, String, string_eq, Bool, true, false, not, ◌&&◌, ◌||◌, Option, none, some,
  [], ◌∷◌, ◌==◌, if◌then◌else◌,
}
use godoo_py.Base.Dict.{Dict, lookup}
use godoo_py.Value.{Value, null, bool, int, str, list, nil, cons}
use godoo_py.Client.Refs.{Ref}
use godoo_py.Typed.{
  Annotation, Model, annotation_is, annotation_mentions_ref, ref_target_class, is_list_annotated,
}

-- The value of a field: a JSON-like value, or what a transform made
pub data Cell (Date DateTime : Type 0) : Type 0 where
  raw : Value → Cell Date DateTime
  a_ref : Ref (Option String) → Cell Date DateTime
  a_date : Date → Cell Date DateTime
  a_datetime : DateTime → Cell Date DateTime

-- `fromisoformat`, where `none` stands for its `ValueError`, and `isoformat`
pub record Calendar (Date DateTime : Type 0) : Type 0 where
  pub parse_date : String → Option Date
  pub print_date : Date → String
  pub parse_datetime : String → Option DateTime
  pub print_datetime : DateTime → String

abbrev pub text_length : String → ℕ
text_length String.[] = 0
text_length (String.◌∷◌ c text) = suc (text_length text)

-- Whether one of the characters is the letter or the space between a date and a time
abbrev pub has_separator : String → Bool
has_separator String.[] = false
has_separator (String.◌∷◌ c text) =
    (String.◌∷◌ c String.[] == "T" || String.◌∷◌ c String.[] == " ") || has_separator text

-- `isinstance(value, int)`: `True` is 1.
abbrev pub int_of : Value → Option ℤ
int_of (int n) = some n
int_of (bool true) = some (pos 1)
int_of (bool false) = some (pos 0)
int_of _ = none

-- The display name: a text, or `False`
abbrev pub display_name : Value → Option (Option String)
display_name (str name) = some (some name)
display_name (bool false) = some none
display_name _ = none

-- `[id, "Name"]`
unfoldable pub as_pair : Value → Option (ℤ × Option String)
as_pair (list (cons v (cons w nil))) = elim (int_of v) [
  | none ↦ none
  | some n ↦ elim (display_name w) [ none ↦ none | some name ↦ some (n, name) ]
]
as_pair _ = none

module _ {Date DateTime : Type 0} (calendar : Calendar Date DateTime) where
  -- `_looks_iso_date` and `date.fromisoformat` behind it
  unfoldable pub iso_date : String → Option Date
  iso_date text = if text_length text == 10 then calendar.parse_date text else none

  -- `_looks_iso_datetime` and `datetime.fromisoformat` behind it
  unfoldable pub iso_datetime : String → Option DateTime
  iso_datetime text = if has_separator text then calendar.parse_datetime text else none

  -- The rules for a text: a datetime before a date
  unfoldable pub text_cell : Annotation → String → Cell Date DateTime
  text_cell annotation text =
      let as_datetime = annotation_is annotation "datetime" in
      elim (if as_datetime then iso_datetime text else none) [
        | some t ↦ a_datetime t
        | none ↦
            elim (if annotation_is annotation "date" && not as_datetime
              then iso_date text
              else none) [ some d ↦ a_date d | none ↦ raw (str text) ]
      ]

  -- The body of the loop, for a declared field
  unfoldable pub wire_value : Annotation → Value → Cell Date DateTime
  wire_value annotation (bool false) =
      if is_list_annotated annotation
      then raw (list nil)
      else if not (annotation_is annotation "bool")
      then raw null
      else raw (bool false)
  wire_value annotation (str text) = text_cell annotation text
  wire_value annotation v = elim (if annotation_mentions_ref annotation then as_pair v else none) [
    | none ↦ raw v
    | some (n, name) ↦ a_ref (record { id = n; name = name; target = ref_target_class annotation })
  ]

  -- What is no JSON-like value meets no rule.
  abbrev pub wire_cell : Annotation → Cell Date DateTime → Cell Date DateTime
  wire_cell annotation (raw v) = wire_value annotation v
  wire_cell annotation cell = cell

  -- `_odoo_wire_transforms` on a dict
  unfoldable pub odoo_wire_transforms :
      Model → Dict String (Cell Date DateTime) → Dict String (Cell Date DateTime)
  odoo_wire_transforms model [] = []
  odoo_wire_transforms model ((name, cell) ∷ d) =
      let cell' : Cell Date DateTime = elim (lookup name model.model_fields) [
        | none ↦ cell
        | some info ↦ wire_cell info.annotation cell
      ] in
      (name, cell') ∷ odoo_wire_transforms model d
