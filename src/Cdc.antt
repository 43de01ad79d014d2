-- ===== src/Cdc.antt =====
-- services/cdc/resolver.py: the old and the new value of a row of `mail.tracking.value`.
pub mod Columns
pub mod Cache
pub mod Noted
pub mod Cached
mod Tests
use godoo_py.Base.{
  ℤ, pos, String, string_eq, Bool, true, false, ◌||◌, Option, none, some, List, [], ◌∷◌, ◌==◌,
  if◌then◌else◌,
}
use godoo_py.Base.Dict.{Dict, lookup}
use godoo_py.Value.{Printer, str_of, Value, Float, finite, null, bool, int, float, str, truthy}

-- `TypedValue`
pub record TypedValue : Type 0 where
  pub raw : Value
  pub display : String

-- `row.get(key, default)`
abbrev pub get_or : String → Value → Dict String Value → Value
get_or key default row = elim (lookup key row) [ none ↦ default | some v ↦ v ]

-- `str(value or "")`
abbrev pub text_or_empty : Printer → Value → String
text_or_empty printer v = if truthy v then str_of printer v else ""

-- The value of a column, with its text
unfoldable pub shown_value : Printer → String → Value → Dict String Value → TypedValue
shown_value printer column default row =
    let v = get_or column default row in record { raw = v; display = str_of printer v }

unfoldable pub text_value : Printer → String → Dict String Value → TypedValue
text_value printer column row =
    let v = get_or column (str "") row in record { raw = v; display = text_or_empty printer v }

unfoldable pub many2one_value : Printer → String → String → Dict String Value → TypedValue
many2one_value printer id_column name_column row = record {
  raw = get_or id_column (int (pos 0)) row;
  display = text_or_empty printer (get_or name_column (str "") row);
}

unfoldable pub boolean_value : Printer → String → Dict String Value → TypedValue
boolean_value printer column row =
    let v = bool (truthy (get_or column (int (pos 0)) row)) in
    record { raw = v; display = str_of printer v }

module _ (printer : Printer) where
  unfoldable pub resolve_values : Dict String Value → String → TypedValue × TypedValue
  resolve_values row field_type =
      if field_type == "integer"
      then (
        shown_value printer "old_value_integer" (int (pos 0)) row,
        shown_value printer "new_value_integer" (int (pos 0)) row,
      )
      else if field_type == "float" || field_type == "monetary"
      then (
        shown_value printer "old_value_float" (float (finite (pos 0) (pos 0))) row,
        shown_value printer "new_value_float" (float (finite (pos 0) (pos 0))) row,
      )
      else if field_type == "char"
          || (field_type == "text" || (field_type == "html" || field_type == "selection"))
      then (text_value printer "old_value_char" row, text_value printer "new_value_char" row)
      else if field_type == "datetime" || field_type == "date"
      then (
        text_value printer "old_value_datetime" row,
        text_value printer "new_value_datetime" row,
      )
      else if field_type == "many2one"
      then (
        many2one_value printer "old_value_integer" "old_value_char" row,
        many2one_value printer "new_value_integer" "new_value_char" row,
      )
      else if field_type == "boolean"
      then (
        boolean_value printer "old_value_integer" row,
        boolean_value printer "new_value_integer" row,
      )
      else (text_value printer "old_value_char" row, text_value printer "new_value_char" row)
