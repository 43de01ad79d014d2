-- ===== src/Codegen/Typing.antt =====
-- The annotation of a generated field, and the values that the wire transforms of `OdooBaseModel` make
-- for it: type_mapper.py with _pydantic_transform.py.
use godoo_py.Base.{
  int_eq, String, string_eq, Bool, true, false, ◌||◌, none, some, List, [], ◌∷◌, ◌==◌, elem, any,
  all, if◌then◌else◌, is_empty,
}
use godoo_py.Value.{Value, null, bool, int, float, str, list, dict, items}
use godoo_py.Introspection.{FieldSchema}
use godoo_py.Typed.{
  union, list_origin, ref_origin, other_origin, Annotation, a_class, constant, of, Annotations,
}
use godoo_py.Typed.Wire.{
  Cell, raw, a_ref, a_date, a_datetime, Calendar, iso_date, iso_datetime, as_pair,
}
use godoo_py.Codegen.{
  first_case, optional_str_ttypes, optional_float_ttypes, list_int_ttypes, dict_any_ttypes,
}

abbrev pub is_int : Value → Bool
is_int (int n) = true
is_int v = false

module _ {Date DateTime : Type 0} where
  -- The cell is an instance of the class.
  abbrev pub is_of_class : String → Cell Date DateTime → Bool
  is_of_class c (raw null) = c == "None" || c == "Any"
  is_of_class c (raw (bool b)) = c == "bool" || c == "Any"
  is_of_class c (raw (int n)) = c == "int" || (c == "float" || c == "Any")
  is_of_class c (raw (float x)) = c == "float" || c == "Any"
  is_of_class c (raw (str text)) = c == "str" || c == "Any"
  is_of_class c (raw v) = c == "Any"
  is_of_class c (a_ref r) = c == "Any"
  is_of_class c (a_date d) = c == "date" || c == "Any"
  is_of_class c (a_datetime t) = c == "datetime" || c == "Any"

  -- A dict is told by its outside.
  abbrev is_of_origin : String → Cell Date DateTime → Bool
  is_of_origin o (raw (dict fs)) = o == "dict"
  is_of_origin o cell = false

  abbrev pub is_text : String → Cell Date DateTime → Bool
  is_text v (raw (str text)) = text == v
  is_text v cell = false

  -- A list of integers, as every list in a generated annotation is
  abbrev is_list_cell : Cell Date DateTime → Bool
  is_list_cell (raw (list vs)) = all is_int (items vs)
  is_list_cell cell = false

  abbrev is_ref_cell : Cell Date DateTime → Bool
  is_ref_cell (a_ref r) = true
  is_ref_cell cell = false

  unfoldable mutual
    -- The cell is a value of the annotation.
    pub inhabits : Annotation → Cell Date DateTime → Bool
    inhabits (a_class c) cell = is_of_class c cell
    inhabits (constant v) cell = is_text v cell
    inhabits (of union args) cell = inhabits_any args cell
    inhabits (of list_origin args) cell = is_list_cell cell
    inhabits (of ref_origin args) cell = is_ref_cell cell
    inhabits (of (other_origin o) args) cell =
        if o == "Literal" then inhabits_any args cell else is_of_origin o cell

    pub inhabits_any : Annotations → Cell Date DateTime → Bool
    inhabits_any Annotations.nil cell = false
    inhabits_any (Annotations.cons a rest) cell = inhabits a cell || inhabits_any rest cell

-- What Odoo sends for a field: `False`, or a value of its type.
abbrev pub or_false : (Value → Bool) → Value → Bool
or_false p (bool false) = true
or_false p v = p v

abbrev pub is_str : Value → Bool
is_str (str text) = true
is_str v = false

abbrev pub is_number : Value → Bool
is_number (int n) = true
is_number (float x) = true
is_number v = false

abbrev pub is_bool : Value → Bool
is_bool (bool b) = true
is_bool v = false

abbrev pub is_list : Value → Bool
is_list (list vs) = all is_int (items vs)
is_list v = false

abbrev pub is_dict : Value → Bool
is_dict (dict fs) = true
is_dict v = false

-- The list of the entries of a `properties` field, as `decode_values` of the client expects it
abbrev pub is_entries : Value → Bool
is_entries (list vs) = true
is_entries v = false

abbrev pub is_pair : Value → Bool
is_pair v = elim (as_pair v) [ none ↦ false | some pair ↦ true ]

abbrev pub is_choice : List (String × String) → Value → Bool
is_choice values (str text) = is_empty values || any (λ v. text == v.0) values
is_choice values v = false

module _ {Date DateTime : Type 0} (calendar : Calendar Date DateTime) where
  abbrev pub is_date : Value → Bool
  is_date (str text) = elim (iso_date calendar text) [ none ↦ false | some d ↦ true ]
  is_date v = false

  abbrev pub is_datetime : Value → Bool
  is_datetime (str text) = elim (iso_datetime calendar text) [ none ↦ false | some t ↦ true ]
  is_datetime v = false

  abbrev pub conform_cases : FieldSchema → Value → List (Bool × Bool)
  conform_cases field v =
      (elem field.ttype optional_str_ttypes, or_false is_str v)
      ∷ (field.ttype == "integer", or_false is_int v)
      ∷ (elem field.ttype optional_float_ttypes, or_false is_number v)
      ∷ (field.ttype == "boolean", is_bool v)
      ∷ (field.ttype == "date", or_false is_date v)
      ∷ (field.ttype == "datetime", or_false is_datetime v)
      ∷ (field.ttype == "many2one", or_false is_pair v)
      ∷ (elem field.ttype list_int_ttypes, or_false is_list v)
      ∷ (field.ttype == "selection", or_false (is_choice field.selection) v)
      ∷ (
        elem field.ttype dict_any_ttypes,
        if field.ttype == "properties" then or_false is_entries v else or_false is_dict v,
      )
      ∷ []

  -- The value is one that Odoo sends for a field of the type, where that of a `json` field is taken to
  -- be an object; of other types nothing is asked.
  abbrev pub conforms : FieldSchema → Value → Bool
  conforms field v = first_case (conform_cases field v) true
